-- ===== src/Schema/Migrate/Chain.antt =====
-- What migrate does with a document, and canLoad with its version (core/schema.cpp).
use oreo_kernel.Prelude.{
  true, false, [], Option, some, if◌then◌else◌, ok, throw, runtime_error, ◌≡◌, inl, inr, refl, sym,
  ap, ◌∙◌, bytes_eq, bytes_beq_iff, arith, Bool-cases, bind-ok,
}
use oreo_kernel.Prelude.Int.{ltb_ℤ, ℤ_beq_iff}
use oreo_kernel.Prelude.Dict.{lookup}
use oreo_kernel.Schema.{SchemaVersion, version_can_load}
use oreo_kernel.Schema.Header.{Text, JsonLibrary, IsLawful, HeaderInfo, read_header}
use oreo_kernel.Schema.Header.Laws.{read_header-version}
use oreo_kernel.Schema.Registry.{SchemaRegistry, can_walk, can_load, current_version}
use oreo_kernel.Schema.Registry.Calls.{IsCoherent}
use oreo_kernel.Schema.Migrate.{migrate_from, checked_type, migrate_document, migrate}
use oreo_kernel.Schema.Migrate.Walk.{succeeds, HasVersion, Returns, walk-can_walk}

migrate-read :
    (L : JsonLibrary) (type : Text) (j : L.Json) (r : SchemaRegistry L.Json) (info : HeaderInfo)
    → read_header L j ≡ ok info
    → (migrate L type j r).0 ≡ migrate_document L type r info.header j
unfolding migrate
migrate-read L type j r info k = rw (k, migrate) refl

checked_type-same :
    (type : Text) (version : SchemaVersion) → checked_type type (some (type, version)) ≡ ok version
checked_type-same type version = ground (arith, bytes_beq_iff type type)

current_version-found :
    {Json : Type 0} (type : Text) (r : SchemaRegistry Json) (current : SchemaVersion)
    → lookup type r.current_versions ≡ some current
    → current_version type r ≡ ok current
unfolding current_version
current_version-found type r current h = rw (h, current_version) refl

migrate_document-found :
    (L : JsonLibrary) (type : Text) (j : L.Json) (r : SchemaRegistry L.Json)
    (version current : SchemaVersion)
    → lookup type r.current_versions ≡ some current
    → migrate_document L type r (some (type, version)) j ≡ migrate_from L type r version current j
unfolding migrate_document
migrate_document-found L type j r version current h =
    bind-ok version _ _ (checked_type-same type version)
      (bind-ok current _ _ (current_version-found type r current h) refl)

can_load-found :
    {Json : Type 0} (type : Text) (r : SchemaRegistry Json) (version current : SchemaVersion)
    → lookup type r.current_versions ≡ some current
    → can_load type version r ≡ (
        if version_can_load current version
        then true
        else can_walk r.max_migration_steps type r current [] version)
unfolding can_load
can_load-found type r version current h = rw (h, can_load) refl

migrate_from-can_walk :
    (L : JsonLibrary) (type : Text) (j : L.Json) (r : SchemaRegistry L.Json)
    (version current : SchemaVersion)
    → IsLawful L
    → IsCoherent r
    → Returns L r
    → HasVersion L j
    → ltb_ℤ current.major version.major ≡ false
    → succeeds (migrate_from L type r version current j) ≡ (
        if version_can_load current version
        then true
        else can_walk r.max_migration_steps type r current [] version)
unfolding migrate_from
migrate_from-can_walk L type j r version current lawful coherent returns v l =
    elim (Bool-cases (version_can_load current version)) [
      | inl e ↦ rw e refl
      | inr e ↦
          rw (e, l)
            (walk-can_walk L type r current lawful coherent returns r.max_migration_steps [] version
              j v)
    ]

read_header-HasVersion :
    (L : JsonLibrary) (j : L.Json) (info : HeaderInfo) (found : Text) (version : SchemaVersion)
    → read_header L j ≡ ok info
    → info.header ≡ some (found, version)
    → HasVersion L j
read_header-HasVersion L j info found version h k =
    let (w, e, _) = read_header-version L j info found version h k in (w, e)

-- For a registered type, and a document with a valid header whose version is not above the current
-- major version: where the two maps of the registry have the same keys and no migrator throws at a
-- document with a `_version` or takes it away, migrate returns a document exactly if canLoad says so
-- of the document's version.
pub migrate-can_load :
    (L : JsonLibrary) (type : Text) (j : L.Json) (r : SchemaRegistry L.Json)
    (version current : SchemaVersion) (kernel : Option Text)
    → IsLawful L
    → IsCoherent r
    → Returns L r
    → lookup type r.current_versions ≡ some current
    → read_header L j ≡ ok (record { header = some (type, version); kernel_version = kernel })
    → ltb_ℤ current.major version.major ≡ false
    → succeeds (migrate L type j r).0 ≡ can_load type version r
migrate-can_load L type j r version current kernel lawful coherent returns h k l =
    ap succeeds (migrate-read L type j r _ k ∙ migrate_document-found L type j r version current h)
    ∙ (migrate_from-can_walk L type j r version current lawful coherent returns
          (read_header-HasVersion L j _ type version k refl) l
        ∙ sym (can_load-found type r version current h))

migrate_from-future :
    (L : JsonLibrary) (type : Text) (j : L.Json) (r : SchemaRegistry L.Json)
    (version current : SchemaVersion)
    → ltb_ℤ current.major version.major ≡ true
    → migrate_from L type r version current j ≡ throw runtime_error
unfolding migrate_from version_can_load
migrate_from-future L type j r version current l =
    ground (arith, ℤ_beq_iff current.major version.major)

-- Whatever migrations are registered, migrate throws at a document with a valid header of a registered
-- type whose major version is above the current one.
pub migrate-future :
    (L : JsonLibrary) (type : Text) (j : L.Json) (r : SchemaRegistry L.Json)
    (version current : SchemaVersion) (kernel : Option Text)
    → lookup type r.current_versions ≡ some current
    → read_header L j ≡ ok (record { header = some (type, version); kernel_version = kernel })
    → ltb_ℤ current.major version.major ≡ true
    → (migrate L type j r).0 ≡ throw runtime_error
migrate-future L type j r version current kernel h k l =
    migrate-read L type j r _ k
    ∙ (migrate_document-found L type j r version current h
        ∙ migrate_from-future L type j r version current l)
