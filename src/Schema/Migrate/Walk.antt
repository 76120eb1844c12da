-- ===== src/Schema/Migrate/Walk.antt =====
-- The walk along the migrations, by canLoad and by migrate (core/schema.cpp).
use oreo_kernel.Prelude.{
  ℕ, zero, suc, Bool, true, false, List, ◌∷◌, Option, none, some, Result, ok, throw, runtime_error,
  ◌>>=◌, ◌≡◌, inl, inr, refl, sym, ap, ◌∙◌, bytes_eq, arith, Bool-cases, Option-cases, bind-ok,
}
use oreo_kernel.Prelude.Dict.{lookup, contains}
use oreo_kernel.Schema.{SchemaVersion, version_beq, version_text}
use oreo_kernel.Schema.Header.{Text, JsonLibrary, IsLawful, version_key, version_to_json}
use oreo_kernel.Schema.Registry.{SchemaRegistry, compose_key, text_in, can_walk}
use oreo_kernel.Schema.Registry.Calls.{IsCoherent}
use oreo_kernel.Schema.Migrate.{restamp, step_of, walk}

abbrev pub succeeds : {A : Type 0} → Result A → Bool
succeeds (ok _) = true
succeeds (throw _) = false

-- The document has a `_version`.
abbrev pub HasVersion : (L : JsonLibrary) → L.Json → Type 0
HasVersion L j = (v : L.Json) × (L.find version_key j ≡ some v)

-- No registered migrator throws at a document with a `_version`, or takes the `_version` away.
abbrev pub Returns : (L : JsonLibrary) → SchemaRegistry L.Json → Type 0
Returns L r =
    (key : Text) (migrator : L.Json → Result L.Json) (j : L.Json)
    → lookup key r.migration_map ≡ some migrator
    → HasVersion L j
    → (j' : L.Json) × (migrator j ≡ ok j') × HasVersion L j'

module _ (L : JsonLibrary) (type : Text) (r : SchemaRegistry L.Json) (current : SchemaVersion) where
  pub walk-there :
      (steps : ℕ) (visited : List Text) (version : SchemaVersion) (j : L.Json)
      → version_beq version current ≡ true
      → walk L steps type r current visited version j ≡ ok j
  unfolding walk
  walk-there zero visited version j h = ground arith
  walk-there (suc steps) visited version j h = ground arith

  can_walk-there :
      (steps : ℕ) (visited : List Text) (version : SchemaVersion)
      → version_beq version current ≡ true
      → can_walk steps type r current visited version ≡ true
  unfolding can_walk
  can_walk-there zero visited version h = ground arith
  can_walk-there (suc steps) visited version h = ground arith

  pub walk-seen :
      (steps : ℕ) (visited : List Text) (version : SchemaVersion) (j : L.Json)
      → version_beq version current ≡ false
      → text_in (version_text version) visited ≡ true
      → walk L (suc steps) type r current visited version j ≡ throw runtime_error
  unfolding walk
  walk-seen steps visited version j h k = rw (h, k) refl

  pub walk-step :
      (steps : ℕ) (visited : List Text) (version : SchemaVersion) (j : L.Json)
      → version_beq version current ≡ false
      → text_in (version_text version) visited ≡ false
      → walk L (suc steps) type r current visited version j ≡ (
          step_of L (compose_key type version) r >>= λ step. step.0 j >>= λ j.
          restamp L step.1 j >>= λ j.
          walk L steps type r current (version_text version ∷ visited) step.1 j)
  unfolding walk
  walk-step steps visited version j h k = rw (h, k) refl

  can_walk-step :
      (steps : ℕ) (visited : List Text) (version : SchemaVersion)
      → version_beq version current ≡ false
      → text_in (version_text version) visited ≡ false
      → can_walk (suc steps) type r current visited version
        ≡ elim (lookup (compose_key type version) r.migration_to) [
          | none ↦ false
          | some next ↦ can_walk steps type r current (version_text version ∷ visited) next
        ]
  unfolding can_walk
  can_walk-step steps visited version h k = rw (h, k) refl

  step_of-none :
      (key : Text)
      → IsCoherent r
      → lookup key r.migration_to ≡ none
      → step_of L key r ≡ throw runtime_error
  unfolding step_of contains
  step_of-none key h k = ground (arith, h key)

  step_of-some :
      (key : Text) (next : SchemaVersion)
      → IsCoherent r
      → lookup key r.migration_to ≡ some next
      → (migrator : L.Json → Result L.Json) × (lookup key r.migration_map ≡ some migrator)
        × (step_of L key r ≡ ok (migrator, next))
  unfolding step_of contains
  step_of-some key next h k = elim (Option-cases (lookup key r.migration_map)) [
    | inl e ↦ absurd (ground (arith, h key))
    | inr (migrator, e) ↦ (migrator, e, rw (e, k, step_of) refl)
  ]

  restamp-assign :
      (next : SchemaVersion) (j v : L.Json)
      → L.find version_key j ≡ some v
      → restamp L next j ≡ L.assign version_key (version_to_json L next) j
  unfolding restamp
  restamp-assign next j v e = rw (e, restamp) refl

  restamp-ok :
      IsLawful L
      → (next : SchemaVersion) (j : L.Json) → HasVersion L j
      → (j' : L.Json) × (restamp L next j ≡ ok j') × HasVersion L j'
  restamp-ok lawful next j (v, e) =
      let (j', a) = lawful.assign-ok version_key version_key (version_to_json L next) j v e in
      (
        j',
        restamp-assign next j v e ∙ a,
        (version_to_json L next, lawful.find-assign version_key version_key _ j j' a),
      )

  -- canLoad at the end of its steps, at a version it has passed, and where no migration starts.
  can_walk-seen :
      (steps : ℕ) (visited : List Text) (version : SchemaVersion)
      → version_beq version current ≡ false
      → text_in (version_text version) visited ≡ true
      → can_walk (suc steps) type r current visited version ≡ false
  unfolding can_walk
  can_walk-seen steps visited version h k = rw (h, k) refl

  walks-end :
      (visited : List Text) (version : SchemaVersion) (j : L.Json)
      → succeeds (walk L 0 type r current visited version j)
        ≡ can_walk 0 type r current visited version
  unfolding walk can_walk
  walks-end visited version j = elim (Bool-cases (version_beq version current)) [
    | inl e ↦ rw e refl
    | inr e ↦ rw e refl
  ]

  walk-none :
      IsCoherent r
      → (steps : ℕ) (visited : List Text) (version : SchemaVersion) (j : L.Json)
      → version_beq version current ≡ false
      → text_in (version_text version) visited ≡ false
      → lookup (compose_key type version) r.migration_to ≡ none
      → succeeds (walk L (suc steps) type r current visited version j) ≡ false
  walk-none coherent steps visited version j h k e = ap succeeds (
      walk-step steps visited version j h k
      ∙ ap
          (λ s. s >>= λ step. step.0 j >>= λ j. restamp L step.1 j >>= λ j.
            walk L steps type r current (version_text version ∷ visited) step.1 j)
          (step_of-none (compose_key type version) coherent e))

  -- A step goes on from a document.
  walk-some :
      IsLawful L
      → IsCoherent r
      → Returns L r
      → (steps : ℕ) (visited : List Text) (version next : SchemaVersion) (j : L.Json)
      → version_beq version current ≡ false
      → text_in (version_text version) visited ≡ false
      → lookup (compose_key type version) r.migration_to ≡ some next
      → HasVersion L j
      → (j' : L.Json) × (walk L (suc steps) type r current visited version j
          ≡ walk L steps type r current (version_text version ∷ visited) next j')
        × HasVersion L j'
  walk-some lawful coherent returns steps visited version next j h k e v =
      let (migrator, m, s) = step_of-some (compose_key type version) next coherent e in
      let (j1, e1, v1) = returns (compose_key type version) migrator j m v in
      let (j2, e2, v2) = restamp-ok lawful next j1 v1 in
      (
        j2,
        walk-step steps visited version j h k
            ∙ bind-ok _ _ _ s (bind-ok _ _ _ e1 (bind-ok _ _ _ e2 refl)),
        v2,
      )

  -- The two walks go together.
  pub walk-can_walk :
      IsLawful L
      → IsCoherent r
      → Returns L r
      → (steps : ℕ) (visited : List Text) (version : SchemaVersion) (j : L.Json) → HasVersion L j
      → succeeds (walk L steps type r current visited version j)
        ≡ can_walk steps type r current visited version
  walk-can_walk lawful coherent returns zero visited version j v = walks-end visited version j
  walk-can_walk lawful coherent returns (suc steps) visited version j v =
      elim (Bool-cases (version_beq version current)) [
        | inl e ↦
            ap succeeds (walk-there (suc steps) visited version j e)
            ∙ sym (can_walk-there (suc steps) visited version e)
        | inr e ↦ elim (Bool-cases (text_in (version_text version) visited)) [
          | inl f ↦
              ap succeeds (walk-seen steps visited version j e f)
              ∙ sym (can_walk-seen steps visited version e f)
          | inr f ↦ elim (Option-cases (lookup (compose_key type version) r.migration_to)) [
            | inl g ↦
                walk-none coherent steps visited version j e f g
                ∙ sym (can_walk-step steps visited version e f ∙ ap target_walk g)
            | inr (next, g) ↦
                let (j', step, v') =
                  walk-some lawful coherent returns steps visited version next j e f g v in
                ap succeeds step
                ∙ (walk-can_walk lawful coherent returns steps (version_text version ∷ visited) next
                      j' v'
                    ∙ sym (can_walk-step steps visited version e f ∙ ap target_walk g))
          ]
        ]
      ]
    where
      target_walk : Option SchemaVersion → Bool
      target_walk o = elim o [
        | none ↦ false
        | some next ↦ can_walk steps type r current (version_text version ∷ visited) next
      ]
