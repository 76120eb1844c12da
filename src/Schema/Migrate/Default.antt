-- ===== src/Schema/Migrate/Default.antt =====
-- The registry that the constructor makes (core/schema.cpp).
use mathlib.Core.Path.{subst}
use oreo_kernel.Prelude.{
  true, List, [], ◌∷◌, Option, none, some, Result, ok, throw, bytes_eq, ◌≡◌, ◌⊎◌, inl, inr, refl,
  sym, ap, ◌∙◌, arith,
}
use oreo_kernel.Prelude.Dict.{lookup, insert, contains, lookup-insert}
use oreo_kernel.Schema.{SchemaVersion, version_can_load}
use oreo_kernel.Schema.Header.{
  Text, JsonLibrary, IsLawful, version_key, read_header, version_to_json, version_from_json,
}
use oreo_kernel.Schema.Registry.{SchemaRegistry, compose_key, can_load}
use oreo_kernel.Schema.Registry.Calls.{
  IsCoherent, Call, register, apply_calls, apply_calls-IsCoherent,
}
use oreo_kernel.Schema.Migrate.{
  without_migrations, default_registry, bump_of, feature_tree_type, part_studio_type, version_1,
  version_2, version_bump, migrate,
}
use oreo_kernel.Schema.Migrate.Walk.{Returns, HasVersion, succeeds}
use oreo_kernel.Schema.Migrate.Chain.{migrate-can_load}
use oreo_kernel.Schema.Migrate.Version.{ok_inj, migrate-IsStamped}

abbrev bumps : (L : JsonLibrary) → List (Call L.Json)
bumps L = register (bump_of L feature_tree_type) ∷ register (bump_of L part_studio_type) ∷ []

unfoldable pub built : (L : JsonLibrary) → SchemaRegistry L.Json
unfolding apply_calls
built L = apply_calls (bumps L) (without_migrations L)

-- The constructor does not throw.
pub default_registry-built : (L : JsonLibrary) → default_registry L ≡ ok (built L)
unfolding default_registry built apply_calls
default_registry-built L = refl

without_migrations-IsCoherent : (L : JsonLibrary) → IsCoherent (without_migrations L)
unfolding contains lookup
without_migrations-IsCoherent L key = refl

pub built-IsCoherent : (L : JsonLibrary) → IsCoherent (built L)
unfolding built
built-IsCoherent L =
    apply_calls-IsCoherent (bumps L) (without_migrations L) (without_migrations-IsCoherent L)

lookup-nil : {A : Type 0} (key : Text) → lookup {V = A} key [] ≡ none
unfolding lookup
lookup-nil key = refl

lookup-two :
    {A : Type 0} (k l key : Text) (a b : A)
    → lookup key (insert l a (insert k a [])) ≡ some b
    → b ≡ a
lookup-two {A} k l key a b h =
    ground (
      arith,
      lookup-insert l key a (insert k a []),
      lookup-insert k key a [],
      lookup-nil {A = A} key,
    )

version_bump-Returns :
    (L : JsonLibrary)
    → IsLawful L
    → (j : L.Json) → HasVersion L j
    → (j' : L.Json) × (version_bump L version_2 j ≡ ok j') × HasVersion L j'
unfolding version_bump
version_bump-Returns L lawful j (v, e) =
    let (j', a) = lawful.assign-ok version_key version_key (version_to_json L version_2) j v e in
    (j', a, (version_to_json L version_2, lawful.find-assign version_key version_key _ j j' a))

built-map :
    (L : JsonLibrary)
    → (built L).migration_map
      ≡ insert
          (compose_key part_studio_type version_1)
          (version_bump L version_2)
          (insert (compose_key feature_tree_type version_1) (version_bump L version_2) [])
unfolding built apply_calls
built-map L = refl

pub built-Returns : (L : JsonLibrary) → IsLawful L → Returns L (built L)
built-Returns L lawful key migrator j h v =
    subst (λ f. (j' : L.Json) × (f j ≡ ok j') × HasVersion L j')
      (sym (
        lookup-two (compose_key feature_tree_type version_1)
          (compose_key part_studio_type version_1) key (version_bump L version_2) migrator
          (ap (lookup key) (sym (built-map L)) ∙ h)))
      (version_bump-Returns L lawful j v)

built-can_load :
    (L : JsonLibrary)
    → (can_load feature_tree_type version_1 (built L) ≡ true)
      × (can_load part_studio_type version_1 (built L) ≡ true)
unfolding can_load built apply_calls lookup insert
built-can_load L = (refl, refl)

pub built-current :
    (L : JsonLibrary)
    → (lookup feature_tree_type (built L).current_versions ≡ some version_2)
      × (lookup part_studio_type (built L).current_versions ≡ some version_2)
unfolding built apply_calls lookup insert
built-current L = (refl, refl)

succeeds-ok : {A : Type 0} (r : Result A) → succeeds r ≡ true → (a : A) × (r ≡ ok a)
succeeds-ok (ok a) h = (a, refl)
succeeds-ok (throw e) h = absurd (ground arith)

migrate-version_1 :
    (L : JsonLibrary) (type : Text) (j : L.Json) (kernel : Option Text)
    → IsLawful L
    → lookup type (built L).current_versions ≡ some version_2
    → can_load type version_1 (built L) ≡ true
    → read_header L j ≡ ok (record { header = some (type, version_1); kernel_version = kernel })
    → (j' : L.Json) × ((migrate L type j (built L)).0 ≡ ok j')
      × (stamp : SchemaVersion) × (version_can_load version_2 stamp ≡ true)
      × ((v : L.Json) → L.find version_key j' ≡ some v → version_from_json L v ≡ ok stamp)
migrate-version_1 L type j kernel lawful h c k =
    let (j', m) = succeeds-ok (migrate L type j (built L)).0 (
      migrate-can_load L type j (built L) version_1 version_2 kernel lawful (built-IsCoherent L)
        (built-Returns L lawful) h k refl
      ∙ c) in
    let (stamp, loads, stamped) = migrate-IsStamped L lawful type (built L) j j' version_2 h m in
    (j', m, stamp, loads, stamped)

-- The registry that the constructor makes migrates every document with a valid header that calls it a
-- feature tree or a part studio of version 1.0.0: it does not throw, and a `_version` of what it
-- returns is one that version 2.0.0 can load.
pub default_registry-migrates :
    (L : JsonLibrary) (r : SchemaRegistry L.Json) (type : Text) (j : L.Json) (kernel : Option Text)
    → IsLawful L
    → default_registry L ≡ ok r
    → (type ≡ feature_tree_type) ⊎ (type ≡ part_studio_type)
    → read_header L j ≡ ok (record { header = some (type, version_1); kernel_version = kernel })
    → (j' : L.Json) × ((migrate L type j r).0 ≡ ok j')
      × (stamp : SchemaVersion) × (version_can_load version_2 stamp ≡ true)
      × ((v : L.Json) → L.find version_key j' ≡ some v → version_from_json L v ≡ ok stamp)
default_registry-migrates L r type j kernel lawful d t k =
    subst
      (λ r.
        (j' : L.Json) × ((migrate L type j r).0 ≡ ok j')
        × (stamp : SchemaVersion) × (version_can_load version_2 stamp ≡ true)
        × ((v : L.Json) → L.find version_key j' ≡ some v → version_from_json L v ≡ ok stamp))
      (ok_inj (sym (default_registry-built L) ∙ d))
      (migrate-version_1 L type j kernel lawful
        (elim t [
          | inl e ↦
              subst (λ t. lookup t (built L).current_versions ≡ some version_2) (sym e)
                (built-current L).0
          | inr e ↦
              subst (λ t. lookup t (built L).current_versions ≡ some version_2) (sym e)
                (built-current L).1
        ])
        (elim t [
          | inl e ↦ subst (λ t. can_load t version_1 (built L) ≡ true) (sym e) (built-can_load L).0
          | inr e ↦ subst (λ t. can_load t version_1 (built L) ≡ true) (sym e) (built-can_load L).1
        ])
        k)
