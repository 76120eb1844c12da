-- ===== src/Schema/Registry/Calls.antt =====
-- Sequences of calls on a SchemaRegistry (core/schema.cpp).
use oreo_kernel.Prelude.{
  ℕ, Bool, true, List, [], ◌∷◌, Result, ok, throw, ◌≡◌, refl, sym, ap, ◌∙◌, bytes_eq, bytes_beq_iff,
  arith, Bool-cases, inl, inr,
}
use oreo_kernel.Prelude.Dict.{Dict, insert, erase, contains, lookup-insert, lookup-erase}
use oreo_kernel.Schema.{SchemaVersion}
use oreo_kernel.Schema.Header.{Text}
use oreo_kernel.Schema.Registry.{
  SchemaRegistry, Migration, compose_key, has_migration, register_migration, unregister_migration,
  set_max_migration_steps, freeze,
}

-- The two maps of a registry have the same keys.
abbrev pub IsCoherent : {Json : Type 0} → SchemaRegistry Json → Type 0
IsCoherent r = (key : Text) → contains key r.migration_map ≡ contains key r.migration_to

-- A call of a method that changes the registry.
pub data Call (Json : Type 0) : Type 0 where
  register : Migration Json → Call Json
  unregister : Text → SchemaVersion → Call Json
  set_max : ℕ → Call Json
  freeze_it : Call Json

contains-insert :
    {A B : Type 0} (key new : Text) (a : A) (b : B) (m : Dict Text A) (n : Dict Text B)
    → contains key m ≡ contains key n
    → contains key (insert new a m) ≡ contains key (insert new b n)
unfolding contains
contains-insert key new a b m n h =
    ground (arith, lookup-insert new key a m, lookup-insert new key b n, bytes_beq_iff new key)

contains-erase :
    {A B : Type 0} (key old : Text) (m : Dict Text A) (n : Dict Text B)
    → contains key m ≡ contains key n
    → contains key (erase old m) ≡ contains key (erase old n)
unfolding contains
contains-erase key old m n h =
    ground (arith, lookup-erase old key m, lookup-erase old key n, bytes_beq_iff old key)

module _ {Json : Type 0} where
  abbrev kept : SchemaRegistry Json → Result (SchemaRegistry Json) → SchemaRegistry Json
  kept r (ok r') = r'
  kept r (throw _) = r

  abbrev kept_pair : SchemaRegistry Json → Result (Bool × SchemaRegistry Json) → SchemaRegistry Json
  kept_pair r (ok (_, r')) = r'
  kept_pair r (throw _) = r

  -- A call that throws leaves the registry as it is.
  unfoldable pub apply_call : Call Json → SchemaRegistry Json → SchemaRegistry Json
  unfolding register_migration unregister_migration set_max_migration_steps freeze
  apply_call (register m) r = kept r (register_migration m r)
  apply_call (unregister type version) r = kept_pair r (unregister_migration type version r)
  apply_call (set_max steps) r = kept r (set_max_migration_steps steps r)
  apply_call freeze_it r = freeze r

  unfoldable pub apply_calls : List (Call Json) → SchemaRegistry Json → SchemaRegistry Json
  unfolding apply_call
  apply_calls [] r = r
  apply_calls (c ∷ cs) r = apply_calls cs (apply_call c r)

  register_migration-IsCoherent :
      (m : Migration Json) (r : SchemaRegistry Json)
      → IsCoherent r
      → IsCoherent (kept r (register_migration m r))
  unfolding register_migration
  register_migration-IsCoherent m r h key = elim (Bool-cases r.frozen) [
    | inl e ↦ rw e (h key)
    | inr e ↦ elim (Bool-cases (has_migration m.type m.source r.migrations)) [
      | inl f ↦ rw (e, f) (h key)
      | inr f ↦
          rw (e, f)
            (contains-insert key (compose_key m.type m.source) m.run m.target r.migration_map
              r.migration_to (h key))
    ]
  ]

  unregister_migration-IsCoherent :
      (type : Text) (version : SchemaVersion) (r : SchemaRegistry Json)
      → IsCoherent r
      → IsCoherent (kept_pair r (unregister_migration type version r))
  unfolding unregister_migration
  unregister_migration-IsCoherent type version r h key = elim (Bool-cases r.frozen) [
    | inl e ↦ rw e (h key)
    | inr e ↦ elim (Bool-cases (has_migration type version r.migrations)) [
      | inl f ↦
          rw (e, f)
            (contains-erase key (compose_key type version) r.migration_map r.migration_to (h key))
      | inr f ↦ rw (e, f) (h key)
    ]
  ]

  set_max_migration_steps-IsCoherent :
      (steps : ℕ) (r : SchemaRegistry Json)
      → IsCoherent r
      → IsCoherent (kept r (set_max_migration_steps steps r))
  unfolding set_max_migration_steps
  set_max_migration_steps-IsCoherent steps r h key = elim (Bool-cases r.frozen) [
    | inl e ↦ rw e (h key)
    | inr e ↦ rw e (h key)
  ]

  apply_call-IsCoherent :
      (c : Call Json) (r : SchemaRegistry Json) → IsCoherent r → IsCoherent (apply_call c r)
  unfolding apply_call freeze
  apply_call-IsCoherent (register m) r h = register_migration-IsCoherent m r h
  apply_call-IsCoherent (unregister type version) r h =
      unregister_migration-IsCoherent type version r h
  apply_call-IsCoherent (set_max steps) r h = set_max_migration_steps-IsCoherent steps r h
  apply_call-IsCoherent freeze_it r h = h

  -- Whatever is called on a registry, also calls that throw, its two maps of migrations keep having
  -- the same keys.
  pub apply_calls-IsCoherent :
      (cs : List (Call Json)) (r : SchemaRegistry Json)
      → IsCoherent r
      → IsCoherent (apply_calls cs r)
  unfolding apply_calls
  apply_calls-IsCoherent [] r h = h
  apply_calls-IsCoherent (c ∷ cs) r h =
      apply_calls-IsCoherent cs (apply_call c r) (apply_call-IsCoherent c r h)

  frozen-eq : (r : SchemaRegistry Json) → r.frozen ≡ true → freeze r ≡ r
  unfolding freeze
  frozen-eq r h = ap (λ b. record r { frozen = b }) (sym h)

  apply_call-frozen :
      (c : Call Json) (r : SchemaRegistry Json) → r.frozen ≡ true → apply_call c r ≡ r
  unfolding apply_call register_migration unregister_migration set_max_migration_steps
  apply_call-frozen (register m) r h = rw h refl
  apply_call-frozen (unregister type version) r h = rw h refl
  apply_call-frozen (set_max steps) r h = rw h refl
  apply_call-frozen freeze_it r h = frozen-eq r h

  -- Nothing that is called on a frozen registry changes it.
  pub apply_calls-frozen :
      (cs : List (Call Json)) (r : SchemaRegistry Json) → r.frozen ≡ true → apply_calls cs r ≡ r
  unfolding apply_calls
  apply_calls-frozen [] r h = refl
  apply_calls-frozen (c ∷ cs) r h =
      ap (apply_calls cs) (apply_call-frozen c r h) ∙ apply_calls-frozen cs r h
