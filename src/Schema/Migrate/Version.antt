-- ===== src/Schema/Migrate/Version.antt =====
-- The version of a migrated document (core/schema.cpp).
use mathlib.Core.Path.{subst}
use oreo_kernel.Prelude.{
  ℕ, zero, suc, true, false, List, [], ◌∷◌, Option, none, some, ok, throw, runtime_error, bind-inv,
  bytes_eq, ◌≡◌, inl, inr, sym, ap, ◌∙◌, arith, Bool-cases, Option-cases, Result-cases,
}
use oreo_kernel.Prelude.Int.{ℤ_beq_iff}
use oreo_kernel.Prelude.Dict.{lookup}
use oreo_kernel.Schema.{SchemaVersion, version_beq, version_beq_iff, version_can_load, version_text}
use oreo_kernel.Schema.Header.{
  Text, JsonLibrary, IsLawful, HeaderInfo, version_key, read_header, version_from_json,
  version_to_json,
}
use oreo_kernel.Schema.Header.Laws.{version_from_json-version_to_json, read_header-version}
use oreo_kernel.Schema.Registry.{SchemaRegistry, compose_key, text_in, current_version}
use oreo_kernel.Schema.Migrate.Walk.{walk-there, walk-seen, walk-step}
use oreo_kernel.Schema.Migrate.{
  restamp, step_of, walk, migrate_from, checked_type, migrate_document, migrate,
}

-- A `_version` of the document is this one.
abbrev IsStamped : (L : JsonLibrary) → SchemaVersion → L.Json → Type 0
IsStamped L version j =
    (v : L.Json) → L.find version_key j ≡ some v → version_from_json L v ≡ ok version

some_inj : {A : Type 0} {a b : A} → some a ≡ some b → a ≡ b
some_inj e = cc

pub ok_inj : {A : Type 0} {a b : A} → ok a ≡ ok b → a ≡ b
ok_inj e = cc

restamped_version :
    (L : JsonLibrary)
    → IsLawful L
    → (next : SchemaVersion) (j j' v : L.Json)
    → L.assign version_key (version_to_json L next) j ≡ ok j'
    → L.find version_key j' ≡ some v
    → version_from_json L v ≡ ok next
restamped_version L lawful next j j' v h e =
    ap (λ v. version_from_json L v)
      (some_inj (sym e ∙ lawful.find-assign version_key version_key _ j j' h))
    ∙ version_from_json-version_to_json L lawful next

module _ (L : JsonLibrary) (lawful : IsLawful L) (type : Text) (r : SchemaRegistry L.Json) where
  restamp-IsStamped :
      (next : SchemaVersion) (j j' : L.Json) → restamp L next j ≡ ok j' → IsStamped L next j'
  unfolding restamp
  restamp-IsStamped next j j' h v e = elim (Option-cases (L.find version_key j)) [
    | inl none_there ↦ absurd (ground arith)
    | inr (w, there) ↦ restamped_version L lawful next j j' v (ground arith) e
  ]

  arrived :
      (current version : SchemaVersion) (j j' : L.Json)
      → IsStamped L version j
      → version_beq version current ≡ true
      → ok j ≡ ok j'
      → IsStamped L current j'
  arrived current version j j' s b e v f = ground (arith, s v, version_beq_iff version current)

  walk-zero :
      (current : SchemaVersion) (visited : List Text) (version : SchemaVersion) (j j' : L.Json)
      → walk L 0 type r current visited version j ≡ ok j'
      → (version_beq version current ≡ true) × (ok j ≡ ok j')
  unfolding walk
  walk-zero current visited version j j' h = (ground arith, ground arith)

  walk-IsStamped :
      (current : SchemaVersion) (steps : ℕ) (visited : List Text) (version : SchemaVersion)
      (j j' : L.Json)
      → IsStamped L version j
      → walk L steps type r current visited version j ≡ ok j'
      → IsStamped L current j'
  walk-IsStamped current zero visited version j j' s h =
      let (b, e) = walk-zero current visited version j j' h in arrived current version j j' s b e
  walk-IsStamped current (suc steps) visited version j j' s h =
      elim (Bool-cases (version_beq version current)) [
        | inl e ↦
            arrived current version j j' s e
              (sym (walk-there L type r current (suc steps) visited version j e) ∙ h)
        | inr e ↦ elim (Bool-cases (text_in (version_text version) visited)) [
          | inl f ↦
              absurd (thrown (sym (walk-seen L type r current steps visited version j e f) ∙ h))
          | inr f ↦
              let (step, h1, k1) =
                bind-inv (step_of L (compose_key type version) r) _ j'
                  (sym (walk-step L type r current steps visited version j e f) ∙ h) in
              let (j1, h2, k2) = bind-inv (step.0 j) _ j' k1 in
              let (j2, h3, k3) = bind-inv (restamp L step.1 j1) _ j' k2 in
              walk-IsStamped current steps (version_text version ∷ visited) step.1 j2 j'
                (restamp-IsStamped step.1 j1 j2 h3) k3
        ]
      ]
    where
      thrown : {a : L.Json} → throw runtime_error ≡ ok a → ⊥
      thrown e = ground arith

  read_header-IsStamped :
      (j : L.Json) (info : HeaderInfo) (found : Text) (version : SchemaVersion)
      → read_header L j ≡ ok info
      → info.header ≡ some (found, version)
      → IsStamped L version j
  read_header-IsStamped j info found version h k v e =
      let (w, f, p) = read_header-version L j info found version h k in
      ap (λ v. version_from_json L v) (some_inj (sym e ∙ f)) ∙ p

  version_can_load-same : (v : SchemaVersion) → version_can_load v v ≡ true
  unfolding version_can_load
  version_can_load-same v = ground (arith, ℤ_beq_iff v.major v.major)

  migrate_from-as_is :
      (version current : SchemaVersion) (j j' : L.Json)
      → version_can_load current version ≡ true
      → migrate_from L type r version current j ≡ ok j'
      → j ≡ j'
  unfolding migrate_from
  migrate_from-as_is version current j j' e h = ok_inj (ground arith)

  migrate_from-walked :
      (version current : SchemaVersion) (j j' : L.Json)
      → version_can_load current version ≡ false
      → migrate_from L type r version current j ≡ ok j'
      → walk L r.max_migration_steps type r current [] version j ≡ ok j'
  unfolding migrate_from
  migrate_from-walked version current j j' e h = ground arith

  migrate_from-IsStamped :
      (version current : SchemaVersion) (j j' : L.Json)
      → IsStamped L version j
      → migrate_from L type r version current j ≡ ok j'
      → (stamp : SchemaVersion) × (version_can_load current stamp ≡ true) × IsStamped L stamp j'
  migrate_from-IsStamped version current j j' s h =
      elim (Bool-cases (version_can_load current version)) [
        | inl e ↦ (
          version,
          e,
          subst (IsStamped L version) (migrate_from-as_is version current j j' e h) s,
        )
        | inr e ↦ (
          current,
          version_can_load-same current,
          walk-IsStamped current r.max_migration_steps [] version j j' s
              (migrate_from-walked version current j j' e h),
        )
      ]

  checked_type-header :
      (header : Option (Text × SchemaVersion)) (version : SchemaVersion)
      → checked_type type header ≡ ok version
      → (found : Text) × (header ≡ some (found, version))
  checked_type-header none version h = absurd (ground arith)
  checked_type-header (some (found, v)) version h = (found, ground arith)

  current_version-lookup :
      (current current' : SchemaVersion)
      → lookup type r.current_versions ≡ some current
      → current_version type r ≡ ok current'
      → current' ≡ current
  unfolding current_version
  current_version-lookup current current' h k = ground arith

  migrate_document-IsStamped :
      (j j' : L.Json) (info : HeaderInfo) (current : SchemaVersion)
      → lookup type r.current_versions ≡ some current
      → read_header L j ≡ ok info
      → migrate_document L type r info.header j ≡ ok j'
      → (stamp : SchemaVersion) × (version_can_load current stamp ≡ true) × IsStamped L stamp j'
  unfolding migrate_document
  migrate_document-IsStamped j j' info current h k m =
      let (version, e, m1) = bind-inv (checked_type type info.header) _ j' m in
      let (current', f, m2) = bind-inv (current_version type r) _ j' m1 in
      let (found, g) = checked_type-header info.header version e in
      migrate_from-IsStamped version current j j' (read_header-IsStamped j info found version k g) (
        ap (λ c. migrate_from L type r version c j)
          (sym (current_version-lookup current current' h f))
        ∙ m2)

  migrate-inv :
      (j j' : L.Json)
      → (migrate L type j r).0 ≡ ok j'
      → (info : HeaderInfo) × (read_header L j ≡ ok info)
        × (migrate_document L type r info.header j ≡ ok j')
  unfolding migrate
  migrate-inv j j' h = elim (Result-cases (read_header L j)) [
    | inl (e, k) ↦ absurd (ground arith)
    | inr (info, k) ↦ (info, k, ground arith)
  ]

-- What migrate returns for a registered type carries, in its `_version` if it has one, a version that
-- the current version of the type can load.
pub migrate-IsStamped :
    (L : JsonLibrary) (lawful : IsLawful L) (type : Text) (r : SchemaRegistry L.Json)
    (j j' : L.Json) (current : SchemaVersion)
    → lookup type r.current_versions ≡ some current
    → (migrate L type j r).0 ≡ ok j'
    → (stamp : SchemaVersion) × (version_can_load current stamp ≡ true)
      × ((v : L.Json) → L.find version_key j' ≡ some v → version_from_json L v ≡ ok stamp)
migrate-IsStamped L lawful type r j j' current h m =
    let (info, k, d) = migrate-inv L lawful type r j j' m in
    migrate_document-IsStamped L lawful type r j j' info current h k d
