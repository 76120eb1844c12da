-- ===== src/Examples/Schema.antt =====
-- core/schema.{h,cpp} with a small library of JSON values.
use oreo_kernel.Prelude.{
  Bool, true, false, List, [], ◌∷◌, Option, none, some, if◌then◌else◌, Result, ok, throw,
  runtime_error, invalid_argument, ◌≡◌, inl, refl, sym, ap, bytes_eq, bytes_beq, arith,
}
use oreo_kernel.Prelude.Int.{ℤ, pos}
use oreo_kernel.Prelude.Dict.{Dict, lookup, insert}
use oreo_kernel.Schema.{SchemaVersion, parse_version, version_can_load}
use oreo_kernel.Schema.Header.{
  Text, JsonLibrary, IsLawful, HeaderInfo, version_key, current_kernel_version, read_header,
  add_header, version_from_json,
}
use oreo_kernel.Schema.Header.Laws.{read_header-add_header}
use oreo_kernel.Schema.Registry.{SchemaRegistry, Migration, can_load}
use oreo_kernel.Schema.Registry.Calls.{
  IsCoherent, Call, register, unregister, set_max, freeze_it, apply_calls, apply_calls-IsCoherent,
}
use oreo_kernel.Schema.Migrate.{migrate, feature_tree_type, version_1, version_2, version_bump}
use oreo_kernel.Schema.Migrate.Walk.{succeeds}
use oreo_kernel.Schema.Migrate.Chain.{migrate-can_load, migrate-future}
use oreo_kernel.Schema.Migrate.Version.{migrate-IsStamped}
use oreo_kernel.Schema.Migrate.Default.{
  built, built-IsCoherent, built-Returns, built-current, default_registry-built,
  default_registry-migrates,
}

mutual
  data Value : Type 0 where
    nothing : Value
    string : Text → Value
    whole_number : ℤ → Value
    members : Members → Value

  data Members : Type 0 where
    no_member : Members
    with_member : Text → Value → Members → Members

abbrev find_in : Text → Members → Option Value
find_in key no_member = none
find_in key (with_member k value m) = if bytes_beq k key then some value else find_in key m

abbrev find_member : Text → Value → Option Value
find_member key (members m) = find_in key m
find_member key nothing = none
find_member key (string s) = none
find_member key (whole_number z) = none

abbrev assign_member : Text → Value → Value → Result Value
assign_member key value (members m) = ok (members (with_member key value m))
assign_member key value nothing = ok (members (with_member key value no_member))
assign_member key value (string s) = throw runtime_error
assign_member key value (whole_number z) = throw runtime_error

abbrev members_of : Dict Text Value → Members
members_of [] = no_member
members_of ((key, value) ∷ rest) = with_member key value (members_of rest)

abbrev text_value : Value → Option Text
text_value (string s) = some s
text_value nothing = none
text_value (whole_number z) = none
text_value (members m) = none

abbrev number_value : Value → Option ℤ
number_value (whole_number z) = some z
number_value nothing = none
number_value (string s) = none
number_value (members m) = none

abbrev is_members : Value → Bool
is_members (members m) = true
is_members nothing = false
is_members (string s) = false
is_members (whole_number z) = false

abbrev values : JsonLibrary
values = record {
  Json = Value;
  find = find_member;
  assign = assign_member;
  string_of = text_value;
  int_of = number_value;
  is_object = is_members;
  text = string;
  number = whole_number;
  object = λ m. members (members_of m);
}

found_after :
    (key other : Text) (value j j' : Value)
    → assign_member key value j ≡ ok j'
    → find_member other j' ≡ (if bytes_beq key other then some value else find_member other j)
found_after key other value nothing j' h = ap found (sym h)
  where
    found : Result Value → Option Value
    found r = elim r [ ok j ↦ find_member other j | throw _ ↦ none ]
found_after key other value (string s) j' h = absurd (ground arith)
found_after key other value (whole_number z) j' h = absurd (ground arith)
found_after key other value (members m) j' h = ap found (sym h)
  where
    found : Result Value → Option Value
    found r = elim r [ ok j ↦ find_member other j | throw _ ↦ none ]

assigned :
    (key other : Text) (value j v : Value)
    → find_member other j ≡ some v
    → (j' : Value) × (assign_member key value j ≡ ok j')
assigned key other value nothing v h = absurd (ground arith)
assigned key other value (string s) v h = absurd (ground arith)
assigned key other value (whole_number z) v h = absurd (ground arith)
assigned key other value (members m) v h = (members (with_member key value m), refl)

find_in-members_of : (key : Text) (m : Dict Text Value) → find_in key (members_of m) ≡ lookup key m
unfolding lookup
find_in-members_of key [] = refl
find_in-members_of key ((k, value) ∷ rest) =
    ap (λ o. if bytes_beq k key then some value else o) (find_in-members_of key rest)

values-IsLawful : IsLawful values
values-IsLawful = record {
  find-assign = found_after;
  assign-ok = assigned;
  find-object = find_in-members_of;
  is_object-object = λ m. refl;
  string_of-text = λ s. refl;
  int_of-number = λ z. refl;
}

parse_two_fields : parse_version (b'1' ∷ b'.' ∷ b'0' ∷ []) ≡ throw invalid_argument
unfolding parse_version
parse_two_fields = refl

abbrev tree_1 : Value
tree_1 = elim (add_header values feature_tree_type version_1 nothing) [
  | ok j ↦ j
  | throw _ ↦ nothing
]

add_header-tree_1 : add_header values feature_tree_type version_1 nothing ≡ ok tree_1
unfolding add_header
add_header-tree_1 = refl

abbrev header_1 : HeaderInfo
header_1 = record {
  header = some (feature_tree_type, version_1);
  kernel_version = some current_kernel_version;
}

read_header-add_header_example : read_header values tree_1 ≡ ok header_1
read_header-add_header_example =
    read_header-add_header values values-IsLawful feature_tree_type version_1 nothing tree_1
      add_header-tree_1

abbrev registry : SchemaRegistry Value
registry = built values

migrated : Value
migrated = elim (migrate values feature_tree_type tree_1 registry).0 [
  | ok j ↦ j
  | throw _ ↦ nothing
]

migrate-tree_1 : (migrate values feature_tree_type tree_1 registry).0 ≡ ok migrated
unfolding migrate built migrated lookup insert add_header version_bump
migrate-tree_1 = refl

migrate-IsStamped_example :
    (stamp : SchemaVersion) × (version_can_load version_2 stamp ≡ true)
    × ((v : Value)
        → find_member version_key migrated ≡ some v
        → version_from_json values v ≡ ok stamp)
migrate-IsStamped_example =
    migrate-IsStamped values values-IsLawful feature_tree_type registry tree_1 migrated version_2
      (built-current values).0 migrate-tree_1

header-tree_1 : read_header values tree_1 ≡ ok header_1
unfolding read_header add_header
header-tree_1 = refl

migrate-can_load_example :
    succeeds (migrate values feature_tree_type tree_1 registry).0
    ≡ can_load feature_tree_type version_1 registry
migrate-can_load_example =
    migrate-can_load values feature_tree_type tree_1 registry version_1 version_2
      (some current_kernel_version) values-IsLawful (built-IsCoherent values)
      (built-Returns values values-IsLawful) (built-current values).0 header-tree_1 refl

default_registry-migrates_example :
    (j' : Value) × ((migrate values feature_tree_type tree_1 registry).0 ≡ ok j')
    × (stamp : SchemaVersion) × (version_can_load version_2 stamp ≡ true)
    × ((v : Value) → find_member version_key j' ≡ some v → version_from_json values v ≡ ok stamp)
default_registry-migrates_example =
    default_registry-migrates values registry feature_tree_type tree_1 (some current_kernel_version)
      values-IsLawful (default_registry-built values) (inl refl) header-tree_1

abbrev version_3 : SchemaVersion
version_3 = record { major = pos 3; minor = pos 0; patch = pos 0 }

abbrev downgrade : Migration Value
downgrade = record {
  type = feature_tree_type;
  source = version_3;
  target = version_2;
  run = version_bump values version_2;
}

abbrev some_calls : List (Call Value)
some_calls =
    register downgrade ∷ set_max 10 ∷ freeze_it ∷ unregister feature_tree_type version_3 ∷ []

apply_calls-IsCoherent_example : IsCoherent (apply_calls some_calls registry)
apply_calls-IsCoherent_example =
    apply_calls-IsCoherent some_calls registry (built-IsCoherent values)

-- canLoad follows a migration from a later major version, and migrate does not.
with_downgrade : SchemaRegistry Value
with_downgrade = apply_calls (register downgrade ∷ []) registry

downgrade-can_load : can_load feature_tree_type version_3 with_downgrade ≡ true
unfolding can_load with_downgrade built apply_calls lookup insert
downgrade-can_load = refl

tree_3 : Value
tree_3 = elim (add_header values feature_tree_type version_3 nothing) [
  | ok j ↦ j
  | throw _ ↦ nothing
]

with_downgrade-current : lookup feature_tree_type with_downgrade.current_versions ≡ some version_2
unfolding with_downgrade built apply_calls lookup insert
with_downgrade-current = refl

header-tree_3 :
    read_header values tree_3
    ≡ ok (record {
      header = some (feature_tree_type, version_3);
      kernel_version = some current_kernel_version;
    })
unfolding read_header tree_3 add_header
header-tree_3 = refl

downgrade_refused : (migrate values feature_tree_type tree_3 with_downgrade).0 ≡ throw runtime_error
downgrade_refused =
    migrate-future values feature_tree_type tree_3 with_downgrade version_3 version_2
      (some current_kernel_version) with_downgrade-current header-tree_3 refl
