-- ===== src/Schema/Header.antt =====
-- core/schema.{h,cpp}: the schema header of a JSON document. The JSON values are those of a library
-- (nlohmann::json), and are given by what the code asks of them.
pub mod Laws
use oreo_kernel.Prelude.{
  ℕ, Bool, true, false, ◌&&◌, not, List, [], ◌∷◌, Option, none, some, if◌then◌else◌, Result, ok,
  throw, runtime_error, invalid_argument, ◌>>=◌, ◌≡◌, bytes_eq, bytes_beq,
}
use oreo_kernel.Prelude.Int.{ℤ}
use oreo_kernel.Prelude.Dict.{Dict, lookup}
use oreo_kernel.Schema.{SchemaVersion, version_beq}

abbrev pub Text : Type 0
Text = List ℕ

pub record JsonLibrary : Type 1 where
  pub Json : Type 0
  -- contains and at: what an object has under a key; no other value has anything.
  pub find : Text → Json → Option Json
  -- j[key] = value, which throws where j is neither an object nor null.
  pub assign : Text → Json → Json → Result Json
  -- is_string and get<std::string>.
  pub string_of : Json → Option Text
  -- is_number_integer and get<int>.
  pub int_of : Json → Option ℤ
  pub is_object : Json → Bool
  pub text : Text → Json
  pub number : ℤ → Json
  -- An object with these members.
  pub object : Dict Text Json → Json

-- What is documented of these.
pub record IsLawful (L : JsonLibrary) : Type 0 where
  pub find-assign :
      (key other : Text) (value j j' : L.Json)
      → L.assign key value j ≡ ok j'
      → L.find other j' ≡ (if bytes_beq key other then some value else L.find other j)
  pub assign-ok :
      (key other : Text) (value j v : L.Json)
      → L.find other j ≡ some v
      → (j' : L.Json) × (L.assign key value j ≡ ok j')
  pub find-object :
      (key : Text) (members : Dict Text L.Json) → L.find key (L.object members) ≡ lookup key members
  pub is_object-object : (members : Dict Text L.Json) → L.is_object (L.object members) ≡ true
  pub string_of-text : (s : Text) → L.string_of (L.text s) ≡ some s
  pub int_of-number : (z : ℤ) → L.int_of (L.number z) ≡ some z

abbrev pub major_key : Text
major_key = b'm' ∷ b'a' ∷ b'j' ∷ b'o' ∷ b'r' ∷ []

abbrev pub minor_key : Text
minor_key = b'm' ∷ b'i' ∷ b'n' ∷ b'o' ∷ b'r' ∷ []

abbrev pub patch_key : Text
patch_key = b'p' ∷ b'a' ∷ b't' ∷ b'c' ∷ b'h' ∷ []

abbrev pub schema_key : Text
schema_key = b'_' ∷ b's' ∷ b'c' ∷ b'h' ∷ b'e' ∷ b'm' ∷ b'a' ∷ []

abbrev pub version_key : Text
version_key = b'_' ∷ b'v' ∷ b'e' ∷ b'r' ∷ b's' ∷ b'i' ∷ b'o' ∷ b'n' ∷ []

abbrev pub kernel_version_key : Text
kernel_version_key =
    b'_' ∷ b'k' ∷ b'e' ∷ b'r' ∷ b'n' ∷ b'e' ∷ b'l' ∷ b'V' ∷ b'e' ∷ b'r' ∷ b's' ∷ b'i' ∷ b'o' ∷ b'n'
    ∷ []

-- schema::KERNEL_VERSION, as the header has it where the build defines no other.
abbrev pub current_kernel_version : Text
current_kernel_version = b'0' ∷ b'.' ∷ b'9' ∷ b'.' ∷ b'0' ∷ []

pub record HeaderInfo : Type 0 where
  -- The type and the version, where the header is valid.
  pub header : Option (Text × SchemaVersion)
  pub kernel_version : Option Text

module _ (L : JsonLibrary) where
  -- SchemaVersion::toJSON
  unfoldable pub version_to_json : SchemaVersion → L.Json
  version_to_json v = L.object (
      (major_key, L.number v.major)
      ∷ (minor_key, L.number v.minor)
      ∷ (patch_key, L.number v.patch)
      ∷ [])

  abbrev pub member : Text → L.Json → Result L.Json
  member key j = elim (L.find key j) [ none ↦ throw invalid_argument | some v ↦ ok v ]

  abbrev pub whole : L.Json → Result ℤ
  whole j = elim (L.int_of j) [ none ↦ throw runtime_error | some z ↦ ok z ]

  -- SchemaVersion::fromJSON: all members are there before one is read.
  unfoldable pub version_from_json : L.Json → Result SchemaVersion
  version_from_json j = do
    major ← member major_key j
    minor ← member minor_key j
    patch ← member patch_key j
    major ← whole major
    minor ← whole minor
    patch ← whole patch
    ok (record { major = major; minor = minor; patch = patch })

  abbrev pub string_at : Text → L.Json → Option Text
  string_at key j = elim (L.find key j) [ none ↦ none | some v ↦ L.string_of v ]

  abbrev pub object_at : Text → L.Json → Option L.Json
  object_at key j = elim (L.find key j) [
    | none ↦ none
    | some v ↦ if L.is_object v then some v else none
  ]

  abbrev pub typed_header : Option Text → Option L.Json → Result (Option (Text × SchemaVersion))
  typed_header none v = ok none
  typed_header (some type) none = ok none
  typed_header (some type) (some v) = version_from_json v >>= λ version. ok (some (type, version))

  unfoldable pub read_header : L.Json → Result HeaderInfo
  unfolding version_from_json
  read_header j = typed_header (string_at schema_key j) (object_at version_key j) >>= λ header.
      ok (record { header = header; kernel_version = string_at kernel_version_key j })

  -- An existing `_version` is an object and reads as this version.
  unfoldable pub version_agrees : SchemaVersion → L.Json → Bool
  unfolding version_from_json
  version_agrees version v =
      L.is_object v && elim (version_from_json v) [ ok w ↦ version_beq w version | throw _ ↦ false ]

  abbrev pub text_agrees : Text → L.Json → Bool
  text_agrees s v = elim (L.string_of v) [ none ↦ false | some t ↦ bytes_beq t s ]

  abbrev pub agrees_at : Text → (L.Json → Bool) → L.Json → Bool
  agrees_at key test j = elim (L.find key j) [ none ↦ true | some v ↦ test v ]

  -- Nothing of an existing header is overwritten.
  unfoldable pub add_header : Text → SchemaVersion → L.Json → Result L.Json
  unfolding version_agrees version_to_json
  add_header type version j =
      if not (agrees_at schema_key (text_agrees type) j)
      then throw runtime_error
      else if not (agrees_at version_key (version_agrees version) j)
      then throw runtime_error
      else if not (agrees_at kernel_version_key (text_agrees current_kernel_version) j)
      then throw runtime_error
      else do
        j ← L.assign schema_key (L.text type) j
        j ← L.assign version_key (version_to_json version) j
        L.assign kernel_version_key (L.text current_kernel_version) j
