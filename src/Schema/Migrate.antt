-- ===== src/Schema/Migrate.antt =====
-- core/schema.{h,cpp}: the migration of documents, and the registry that the constructor makes.
pub mod Walk
pub mod Chain
pub mod Version
pub mod Default
use oreo_kernel.Prelude.{
  ℕ, zero, suc, Bool, true, false, ◌&&◌, ◌||◌, not, List, [], ◌∷◌, ◌++◌, Option, none, some,
  if◌then◌else◌, Result, ok, throw, runtime_error, logic_error, ◌>>=◌, bytes_eq, bytes_beq,
}
use oreo_kernel.Prelude.Int.{ℤ, pos, ltb_ℤ}
use oreo_kernel.Prelude.Dict.{Dict, lookup, insert, erase}
use oreo_kernel.Schema.{SchemaVersion, version_beq, version_can_load, version_text}
use oreo_kernel.Schema.Header.{
  Text, JsonLibrary, HeaderInfo, version_key, schema_key, version_to_json, version_from_json,
  read_header, string_at, object_at,
}
use oreo_kernel.Schema.Registry.{
  SchemaRegistry, Migration, register_migration, current_version, compose_key, text_in,
}

abbrev pub checked_type : Text → Option (Text × SchemaVersion) → Result SchemaVersion
checked_type type none = throw runtime_error
checked_type type (some (found, version)) =
    if bytes_beq found type then ok version else throw runtime_error

abbrev or_empty : Option Text → Text
or_empty none = []
or_empty (some s) = s

module _ (L : JsonLibrary) where
  -- A migrated document that has a `_version` is given that of the step.
  unfoldable pub restamp : SchemaVersion → L.Json → Result L.Json
  unfolding version_to_json
  restamp version j = elim (L.find version_key j) [
    | none ↦ ok j
    | some _ ↦ L.assign version_key (version_to_json L version) j
  ]

  -- The two look-ups of a step.
  unfoldable pub step_of :
      Text → SchemaRegistry L.Json → Result ((L.Json → Result L.Json) × SchemaVersion)
  step_of key r = elim (lookup key r.migration_map) [
    | none ↦ throw runtime_error
    | some migrator ↦ elim (lookup key r.migration_to) [
      | none ↦ throw logic_error
      | some next ↦ ok (migrator, next)
    ]
  ]

  unfoldable pub walk :
      ℕ
      → Text
      → SchemaRegistry L.Json
      → SchemaVersion
      → List Text
      → SchemaVersion
      → L.Json
      → Result L.Json
  unfolding restamp step_of compose_key text_in
  walk zero type r current visited version j =
      if version_beq version current then ok j else throw runtime_error
  walk (suc steps) type r current visited version j =
      if version_beq version current
      then ok j
      else if text_in (version_text version) visited
      then throw runtime_error
      else do
        (migrator, next) ← step_of (compose_key type version) r
        j ← migrator j
        j ← restamp next j
        walk steps type r current (version_text version ∷ visited) next j

  unfoldable pub migrate_from :
      Text → SchemaRegistry L.Json → SchemaVersion → SchemaVersion → L.Json → Result L.Json
  unfolding version_can_load walk
  migrate_from type r version current j =
      if version_can_load current version
      then ok j
      else if ltb_ℤ current.major version.major
      then throw runtime_error
      else walk r.max_migration_steps type r current [] version j

  unfoldable pub migrate_document :
      Text → SchemaRegistry L.Json → Option (Text × SchemaVersion) → L.Json → Result L.Json
  unfolding current_version migrate_from
  migrate_document type r header j = do
    version ← checked_type type header
    current ← current_version type r
    migrate_from type r version current j

  unfoldable pub migrate :
      Text → L.Json → SchemaRegistry L.Json → Result L.Json × SchemaRegistry L.Json
  unfolding read_header migrate_document
  migrate type j r = elim (read_header L j) [
    | throw e ↦ (throw e, r)
    | ok info ↦ (
      migrate_document type r info.header j,
      record r { loaded_from_kernel_version = or_empty info.kernel_version },
    )
  ]

  abbrev shape_check : Text → SchemaVersion → Option Text → Option L.Json → Bool
  shape_check type version none v = false
  shape_check type version (some s) none = false
  shape_check type version (some s) (some v) =
      bytes_beq s type
      && elim (version_from_json L v) [ throw _ ↦ false | ok actual ↦ version_beq actual version ]

  abbrev check_migrated : Text → SchemaVersion → Result L.Json → Bool
  check_migrated type version (throw _) = false
  check_migrated type version (ok j) =
      shape_check type version (string_at L schema_key j) (object_at L version_key j)

  unfoldable pub test_migration :
      Text → SchemaVersion → SchemaVersion → L.Json → SchemaRegistry L.Json → Result Bool
  unfolding migrate version_to_json
  test_migration type source target j r = do
    j ← L.assign schema_key (L.text type) j
    j ← L.assign version_key (version_to_json L source) j
    ok (check_migrated type target (migrate type j r).0)

abbrev pub feature_tree_type : Text
feature_tree_type =
    b'o' ∷ b'r' ∷ b'e' ∷ b'o' ∷ b'.' ∷ b'f' ∷ b'e' ∷ b'a' ∷ b't' ∷ b'u' ∷ b'r' ∷ b'e' ∷ b'_' ∷ b't'
    ∷ b'r' ∷ b'e' ∷ b'e' ∷ []

abbrev pub part_studio_type : Text
part_studio_type =
    b'o' ∷ b'r' ∷ b'e' ∷ b'o' ∷ b'.' ∷ b'p' ∷ b'a' ∷ b'r' ∷ b't' ∷ b'_' ∷ b's' ∷ b't' ∷ b'u' ∷ b'd'
    ∷ b'i' ∷ b'o' ∷ []

abbrev feature_type : Text
feature_type =
    b'o' ∷ b'r' ∷ b'e' ∷ b'o' ∷ b'.' ∷ b'f' ∷ b'e' ∷ b'a' ∷ b't' ∷ b'u' ∷ b'r' ∷ b'e' ∷ []

abbrev element_map_type : Text
element_map_type =
    b'o' ∷ b'r' ∷ b'e' ∷ b'o' ∷ b'.' ∷ b'e' ∷ b'l' ∷ b'e' ∷ b'm' ∷ b'e' ∷ b'n' ∷ b't' ∷ b'_' ∷ b'm'
    ∷ b'a' ∷ b'p' ∷ []

abbrev named_shape_type : Text
named_shape_type =
    b'o' ∷ b'r' ∷ b'e' ∷ b'o' ∷ b'.' ∷ b'n' ∷ b'a' ∷ b'm' ∷ b'e' ∷ b'd' ∷ b'_' ∷ b's' ∷ b'h' ∷ b'a'
    ∷ b'p' ∷ b'e' ∷ []

abbrev workspace_type : Text
workspace_type =
    b'o' ∷ b'r' ∷ b'e' ∷ b'o' ∷ b'.' ∷ b'w' ∷ b'o' ∷ b'r' ∷ b'k' ∷ b's' ∷ b'p' ∷ b'a' ∷ b'c' ∷ b'e'
    ∷ []

abbrev merge_result_type : Text
merge_result_type =
    b'o' ∷ b'r' ∷ b'e' ∷ b'o' ∷ b'.' ∷ b'm' ∷ b'e' ∷ b'r' ∷ b'g' ∷ b'e' ∷ b'_' ∷ b'r' ∷ b'e' ∷ b's'
    ∷ b'u' ∷ b'l' ∷ b't' ∷ []

abbrev tolerance_type : Text
tolerance_type =
    b'o' ∷ b'r' ∷ b'e' ∷ b'o' ∷ b'.' ∷ b't' ∷ b'o' ∷ b'l' ∷ b'e' ∷ b'r' ∷ b'a' ∷ b'n' ∷ b'c' ∷ b'e'
    ∷ []

abbrev unit_system_type : Text
unit_system_type =
    b'o' ∷ b'r' ∷ b'e' ∷ b'o' ∷ b'.' ∷ b'u' ∷ b'n' ∷ b'i' ∷ b't' ∷ b'_' ∷ b's' ∷ b'y' ∷ b's' ∷ b't'
    ∷ b'e' ∷ b'm' ∷ []

abbrev kernel_context_type : Text
kernel_context_type =
    b'o' ∷ b'r' ∷ b'e' ∷ b'o' ∷ b'.' ∷ b'k' ∷ b'e' ∷ b'r' ∷ b'n' ∷ b'e' ∷ b'l' ∷ b'_' ∷ b'c' ∷ b'o'
    ∷ b'n' ∷ b't' ∷ b'e' ∷ b'x' ∷ b't' ∷ []

abbrev pub version_1 : SchemaVersion
version_1 = record { major = pos 1; minor = pos 0; patch = pos 0 }

abbrev pub version_2 : SchemaVersion
version_2 = record { major = pos 2; minor = pos 0; patch = pos 0 }

module _ (L : JsonLibrary) where
  unfoldable pub version_bump : SchemaVersion → L.Json → Result L.Json
  unfolding version_to_json
  version_bump version j = L.assign version_key (version_to_json L version) j

  -- The registry with every type at its current version and no migration.
  abbrev pub without_migrations : SchemaRegistry L.Json
  without_migrations = record {
    current_versions =
        (feature_tree_type, version_2)
        ∷ (feature_type, version_1)
        ∷ (element_map_type, version_1)
        ∷ (named_shape_type, version_1)
        ∷ (part_studio_type, version_2)
        ∷ (workspace_type, version_1)
        ∷ (merge_result_type, version_1)
        ∷ (tolerance_type, version_1)
        ∷ (unit_system_type, version_1)
        ∷ (kernel_context_type, version_1)
        ∷ [];
    migrations = [];
    migration_map = [];
    migration_to = [];
    max_migration_steps = 256;
    frozen = false;
    loaded_from_kernel_version = [];
  }

  abbrev pub bump_of : Text → Migration L.Json
  bump_of type = record {
    type = type;
    source = version_1;
    target = version_2;
    run = version_bump version_2;
  }

  unfoldable pub default_registry : Result (SchemaRegistry L.Json)
  unfolding register_migration
  default_registry = do
    r ← register_migration (bump_of feature_tree_type) without_migrations
    register_migration (bump_of part_studio_type) r
