-- ===== src/Config/Typed.antt =====
-- Schemas and configs that the methods build hold checked values (feature/config.cpp).
use mathlib.Core.Path.{subst}
use oreo_kernel.Prelude.{
  String, true, [], ◌∷◌, ◌++◌, none, some, if◌then◌else◌, ◌==◌, string_eq, eq_iff, ◌≡◌, ◌⊎◌, inl,
  inr, refl, sym, ap, ◌∙◌, arith, Bool-cases, Option-cases,
}
use oreo_kernel.Prelude.Dict.{Dict, lookup, insert, lookup-insert}
use oreo_kernel.Feature.{ParamValue}
use oreo_kernel.Config.{ConfigInputSpec, ConfigSchema, find_input}
use oreo_kernel.Config.Values.{
  Doubles, code_ok, invalid_input, is_legal_config_input_type, check_value, add_input, set_defaults,
  set_value, check_bound, validate_config,
}

find_input-append :
    (name : String) (schema : ConfigSchema) (spec : ConfigInputSpec)
    → find_input name (schema ++ spec ∷ []) ≡ elim (find_input name schema) [
      | some s ↦ some s
      | none ↦ if spec.name == name then some spec else none
    ]
unfolding find_input
find_input-append name [] spec = refl
find_input-append name (s ∷ schema) spec = ground (arith, find_input-append name schema spec)

-- Each of these inputs is the one that its name finds.
abbrev pub AllFound : ConfigSchema → ConfigSchema → Type 0
AllFound schema [] = Unit
AllFound schema (spec ∷ rest) = (find_input spec.name schema ≡ some spec) × AllFound schema rest

found-append :
    (name : String) (schema : ConfigSchema) (spec s : ConfigInputSpec)
    → find_input name schema ≡ some s
    → find_input name (schema ++ spec ∷ []) ≡ some s
found-append name schema spec s h = ground (arith, find_input-append name schema spec)

AllFound-append :
    (schema rest : ConfigSchema) (spec : ConfigInputSpec)
    → AllFound schema rest
    → AllFound (schema ++ spec ∷ []) rest
AllFound-append schema [] spec h = tt
AllFound-append schema (s ∷ rest) spec (e, h) =
    (found-append s.name schema spec s e, AllFound-append schema rest spec h)

AllFound-snoc :
    (schema rest : ConfigSchema) (spec : ConfigInputSpec)
    → AllFound schema rest
    → find_input spec.name schema ≡ some spec
    → AllFound schema (rest ++ spec ∷ [])
AllFound-snoc schema [] spec h e = (e, tt)
AllFound-snoc schema (s ∷ rest) spec (f, h) e = (f, AllFound-snoc schema rest spec h e)

module _ (D : Doubles) where
  unfoldable pub IsInput : ConfigInputSpec → Type 0
  IsInput spec =
      (is_legal_config_input_type spec.type ≡ true) × (check_value D spec spec.default_value ≡ true)

  -- The inputs are legal with a default that is checked, and found by their names.
  pub record IsValidSchema (schema : ConfigSchema) : Type 0 where
    pub input :
        (name : String) (spec : ConfigInputSpec) → find_input name schema ≡ some spec → IsInput spec
    pub found : AllFound schema schema

  -- Each value is checked against the input that its name finds.
  unfoldable pub IsValidConfig : ConfigSchema → Dict String ParamValue → Type 0
  IsValidConfig schema config =
      (name : String) (v : ParamValue)
      → lookup name config ≡ some v
      → (spec : ConfigInputSpec) × (find_input name schema ≡ some spec)
        × (check_value D spec v ≡ true)

  add_input-cases :
      (spec : ConfigInputSpec) (schema : ConfigSchema)
      → ((add_input D spec schema).1 ≡ schema)
        ⊎ (((add_input D spec schema).1 ≡ schema ++ spec ∷ [])
            × (find_input spec.name schema ≡ none)
            × IsInput spec)
  unfolding add_input IsInput
  add_input-cases spec schema = elim (Bool-cases (spec.name == "")) [
    | inl e ↦ inl (rw e refl)
    | inr e ↦ elim (Option-cases (find_input spec.name schema)) [
      | inr (s, f) ↦ inl (ground arith)
      | inl f ↦ elim (Bool-cases (is_legal_config_input_type spec.type)) [
        | inr g ↦ inl (ground arith)
        | inl g ↦ elim (Bool-cases (check_value D spec spec.default_value)) [
          | inr h ↦ inl (ground arith)
          | inl h ↦ inr (ground arith, f, (g, h))
        ]
      ]
    ]
  ]

  add_found-IsInput :
      (spec : ConfigInputSpec) (schema : ConfigSchema) (name : String) (s : ConfigInputSpec)
      → IsInput spec
      → ((name : String) (s : ConfigInputSpec) → find_input name schema ≡ some s → IsInput s)
      → find_input name (schema ++ spec ∷ []) ≡ some s
      → IsInput s
  add_found-IsInput spec schema name s i h e = elim (Option-cases (find_input name schema)) [
    | inl f ↦ subst IsInput (ground (arith, find_input-append name schema spec)) i
    | inr (t, f) ↦ h name s (ground (arith, find_input-append name schema spec))
  ]

  appended-IsValidSchema :
      (spec : ConfigInputSpec) (schema : ConfigSchema)
      → find_input spec.name schema ≡ none
      → IsInput spec
      → IsValidSchema schema
      → IsValidSchema (schema ++ spec ∷ [])
  appended-IsValidSchema spec schema n i v = record {
    input = λ name s. add_found-IsInput spec schema name s i v.input;
    found =
        AllFound-snoc (schema ++ spec ∷ []) schema spec (AllFound-append schema schema spec v.found)
          (ground (arith, find_input-append spec.name schema spec, eq_iff spec.name spec.name));
  }

  pub add_input-IsValidSchema :
      (spec : ConfigInputSpec) (schema : ConfigSchema)
      → IsValidSchema schema
      → IsValidSchema (add_input D spec schema).1
  add_input-IsValidSchema spec schema v = elim (add_input-cases spec schema) [
    | inl e ↦ subst IsValidSchema (sym e) v
    | inr (e, n, i) ↦ subst IsValidSchema (sym e) (appended-IsValidSchema spec schema n i v)
  ]

  IsChecked : ConfigSchema → ParamValue → String → Type 0
  IsChecked schema v name =
      (spec : ConfigInputSpec) × (find_input name schema ≡ some spec)
      × (check_value D spec v ≡ true)

  insert-IsValidConfig :
      (schema : ConfigSchema) (name : String) (w : ParamValue) (spec : ConfigInputSpec)
      (config : Dict String ParamValue)
      → find_input name schema ≡ some spec
      → check_value D spec w ≡ true
      → IsValidConfig schema config
      → IsValidConfig schema (insert name w config)
  unfolding IsValidConfig IsChecked
  insert-IsValidConfig schema name w spec config f c valid other v h =
      elim (Bool-cases (name == other)) [
        | inl e ↦ subst (IsChecked schema v) (ground (arith, eq_iff name other)) (
          spec,
          f,
          subst (λ v. check_value D spec v ≡ true)
              (ground (arith, lookup-insert name other w config)) c,
        )
        | inr e ↦ valid other v (ground (arith, lookup-insert name other w config))
      ]

  set_value-cases :
      (schema : ConfigSchema) (name : String) (v : ParamValue) (config : Dict String ParamValue)
      → ((set_value D schema name v config).1 ≡ config)
        ⊎ (((set_value D schema name v config).1 ≡ insert name v config)
            × (spec : ConfigInputSpec) × (find_input name schema ≡ some spec)
            × (check_value D spec v ≡ true))
  unfolding set_value
  set_value-cases schema name v config = elim (Option-cases (find_input name schema)) [
    | inl e ↦ inl (ground arith)
    | inr (spec, e) ↦ elim (Bool-cases (check_value D spec v)) [
      | inl c ↦ inr (ground arith, spec, e, c)
      | inr c ↦ inl (ground arith)
    ]
  ]

  pub set_value-IsValidConfig :
      (schema : ConfigSchema) (name : String) (v : ParamValue) (config : Dict String ParamValue)
      → IsValidConfig schema config
      → IsValidConfig schema (set_value D schema name v config).1
  set_value-IsValidConfig schema name v config valid = elim (set_value-cases schema name v config) [
    | inl e ↦ subst (IsValidConfig schema) (sym e) valid
    | inr (e, spec, f, c) ↦
        subst (IsValidConfig schema) (sym e)
          (insert-IsValidConfig schema name v spec config f c valid)
  ]

  pub set_defaults-IsValidConfig :
      (schema rest : ConfigSchema) (config : Dict String ParamValue)
      → IsValidSchema schema
      → AllFound schema rest
      → IsValidConfig schema config
      → IsValidConfig schema (set_defaults rest config)
  unfolding set_defaults IsInput
  set_defaults-IsValidConfig schema [] config v found valid = valid
  set_defaults-IsValidConfig schema (spec ∷ rest) config v (e, found) valid =
      set_defaults-IsValidConfig schema rest (insert spec.name spec.default_value config) v found (
        insert-IsValidConfig schema spec.name spec.default_value spec config e
          (v.input spec.name spec e).1 valid)

  check_bound-valid :
      (schema : ConfigSchema) (spec : ConfigInputSpec) (config : Dict String ParamValue)
      → find_input spec.name schema ≡ some spec
      → IsValidConfig schema config
      → check_bound D spec config ≡ true
  unfolding check_bound IsValidConfig
  check_bound-valid schema spec config e valid = elim (Option-cases (lookup spec.name config)) [
    | inl f ↦ rw (f, check_bound) refl
    | inr (v, f) ↦
        let (spec', g, c) = valid spec.name v f in
        rw (f, check_bound)
          (subst (λ s. check_value D s v ≡ true) {x = spec'} {y = spec} (ground arith) c)
  ]

  pub validate_rest :
      (schema rest : ConfigSchema) (config : Dict String ParamValue)
      → AllFound schema rest
      → IsValidConfig schema config
      → validate_config D rest config ≡ code_ok
  unfolding validate_config
  validate_rest schema [] config found valid = refl
  validate_rest schema (spec ∷ rest) config (e, found) valid =
      ap (λ b. if b then validate_config D rest config else invalid_input)
        (check_bound-valid schema spec config e valid)
      ∙ validate_rest schema rest config found valid
