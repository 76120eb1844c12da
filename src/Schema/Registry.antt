-- ===== src/Schema/Registry.antt =====
-- core/schema.{h,cpp}: SchemaRegistry. A const method that sets the mutable member returns the
-- registry as well; a migrator is a function that may throw.
pub mod Calls
use oreo_kernel.Prelude.{
  ℕ, zero, suc, Bool, true, false, ◌&&◌, ◌||◌, not, List, [], ◌∷◌, ◌++◌, Option, none, some,
  if◌then◌else◌, Result, ok, throw, runtime_error, logic_error, ◌>>=◌, bytes_eq, bytes_beq,
}
use oreo_kernel.Prelude.Int.{ℤ, pos, ltb_ℤ}
use oreo_kernel.Prelude.Dict.{Dict, lookup, insert, erase}
use oreo_kernel.Schema.{SchemaVersion, version_beq, version_can_load, version_text}
use oreo_kernel.Schema.Header.{
  Text, JsonLibrary, HeaderInfo, version_key, schema_key, version_to_json, version_from_json,
  read_header, string_at, object_at,
}

pub record Migration (Json : Type 0) : Type 0 where
  pub type : Text
  pub source : SchemaVersion
  pub target : SchemaVersion
  pub run : Json → Result Json

pub record SchemaRegistry (Json : Type 0) : Type 0 where
  pub current_versions : Dict Text SchemaVersion
  pub migrations : List (Migration Json)
  pub migration_map : Dict Text (Json → Result Json)
  pub migration_to : Dict Text SchemaVersion
  pub max_migration_steps : ℕ
  pub frozen : Bool
  pub loaded_from_kernel_version : Text

unfoldable pub compose_key : Text → SchemaVersion → Text
unfolding version_text
compose_key type version = type ++ (b'#' ∷ version_text version)

unfoldable pub text_in : Text → List Text → Bool
text_in s [] = false
text_in s (t ∷ ts) = let rest = text_in s ts in bytes_beq t s || rest

module _ {Json : Type 0} where
  abbrev pub same_from : Migration Json → Text → SchemaVersion → Bool
  same_from m type version = bytes_beq m.type type && version_beq m.source version

  unfoldable pub has_migration : Text → SchemaVersion → List (Migration Json) → Bool
  has_migration type version [] = false
  has_migration type version (m ∷ ms) =
      let rest = has_migration type version ms in same_from m type version || rest

  -- The first one is erased.
  unfoldable pub erase_migration :
      Text → SchemaVersion → List (Migration Json) → List (Migration Json)
  erase_migration type version [] = []
  erase_migration type version (m ∷ ms) =
      let rest = erase_migration type version ms in
      if same_from m type version then ms else m ∷ rest

  unfoldable pub register_migration :
      Migration Json → SchemaRegistry Json → Result (SchemaRegistry Json)
  unfolding has_migration compose_key
  register_migration m r =
      if r.frozen
      then throw logic_error
      else if has_migration m.type m.source r.migrations
      then throw logic_error
      else ok (record r {
        migrations = r.migrations ++ m ∷ [];
        migration_map = insert (compose_key m.type m.source) m.run r.migration_map;
        migration_to = insert (compose_key m.type m.source) m.target r.migration_to;
      })

  unfoldable pub unregister_migration :
      Text → SchemaVersion → SchemaRegistry Json → Result (Bool × SchemaRegistry Json)
  unfolding has_migration erase_migration compose_key
  unregister_migration type version r =
      if r.frozen
      then throw logic_error
      else if not (has_migration type version r.migrations)
      then ok (false, r)
      else ok (
        true,
        record r {
          migrations = erase_migration type version r.migrations;
          migration_map = erase (compose_key type version) r.migration_map;
          migration_to = erase (compose_key type version) r.migration_to;
        },
      )

  unfoldable pub set_max_migration_steps : ℕ → SchemaRegistry Json → Result (SchemaRegistry Json)
  set_max_migration_steps steps r =
      if r.frozen then throw logic_error else ok (record r { max_migration_steps = steps })

  unfoldable pub freeze : SchemaRegistry Json → SchemaRegistry Json
  freeze r = record r { frozen = true }

  unfoldable pub current_version : Text → SchemaRegistry Json → Result SchemaVersion
  current_version type r = elim (lookup type r.current_versions) [
    | none ↦ throw runtime_error
    | some v ↦ ok v
  ]

  unfoldable pub versions_for : Text → List (Migration Json) → List SchemaVersion
  versions_for type [] = []
  versions_for type (m ∷ ms) =
      let rest = versions_for type ms in if bytes_beq m.type type then m.source ∷ rest else rest

  -- The walk of canLoad; what was visited is kept by the texts of the versions.
  unfoldable pub can_walk :
      ℕ → Text → SchemaRegistry Json → SchemaVersion → List Text → SchemaVersion → Bool
  unfolding compose_key text_in
  can_walk zero type r current visited version = version_beq version current
  can_walk (suc steps) type r current visited version =
      if version_beq version current
      then true
      else if text_in (version_text version) visited
      then false
      else elim (lookup (compose_key type version) r.migration_to) [
        | none ↦ false
        | some next ↦ can_walk steps type r current (version_text version ∷ visited) next
      ]

  unfoldable pub can_load : Text → SchemaVersion → SchemaRegistry Json → Bool
  unfolding version_can_load can_walk
  can_load type version r = elim (lookup type r.current_versions) [
    | none ↦ false
    | some current ↦
        if version_can_load current version
        then true
        else can_walk r.max_migration_steps type r current [] version
  ]
