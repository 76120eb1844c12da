-- ===== src/Config/Built.antt =====
-- A config that is built by ConfigSchema::addInput and ConfigValue::set (feature/config.cpp).
use mathlib.Core.Path.{subst}
use oreo_kernel.Prelude.{
  ◌<◌, String, true, List, [], ◌∷◌, some, string_eq, ◌≡◌, inl, inr, arith, Option-cases,
}
use oreo_kernel.Prelude.Dict.{Dict, lookup}
use oreo_kernel.Feature.{ParamValue, config_ref}
use oreo_kernel.Config.{
  ParamType, double_type, int_type, bool_type, string_type, vec_type, pnt_type, dir_type, ax1_type,
  ax2_type, pln_type, element_ref_type, element_ref_list_type, config_ref_type, ConfigInputSpec,
  ConfigSchema, find_input, config_value, resolve_value,
}
use oreo_kernel.Config.Values.{
  Doubles, code_ok, value_index, type_index, is_legal_config_input_type, check_value, add_input,
  set_defaults, from_schema_defaults, set_value, validate_config,
}
use oreo_kernel.Config.Typed.{
  IsInput, IsValidSchema, IsValidConfig, add_input-IsValidSchema, set_value-IsValidConfig,
  set_defaults-IsValidConfig, validate_rest,
}

type_index-legal : (t : ParamType) → is_legal_config_input_type t ≡ true → type_index t < 10
unfolding type_index is_legal_config_input_type
type_index-legal double_type h = omega arith
type_index-legal int_type h = omega arith
type_index-legal bool_type h = omega arith
type_index-legal string_type h = omega arith
type_index-legal vec_type h = omega arith
type_index-legal pnt_type h = omega arith
type_index-legal dir_type h = omega arith
type_index-legal ax1_type h = omega arith
type_index-legal ax2_type h = omega arith
type_index-legal pln_type h = omega arith
type_index-legal element_ref_type h = absurd (ground arith)
type_index-legal element_ref_list_type h = absurd (ground arith)
type_index-legal config_ref_type h = absurd (ground arith)

module _ (D : Doubles) where
  -- Runs of the two methods, from nothing and from the defaults.
  unfoldable pub add_inputs : List ConfigInputSpec → ConfigSchema → ConfigSchema
  add_inputs [] schema = schema
  add_inputs (spec ∷ specs) schema = add_inputs specs (add_input D spec schema).1

  unfoldable pub set_values :
      ConfigSchema → Dict String ParamValue → Dict String ParamValue → Dict String ParamValue
  set_values schema [] config = config
  set_values schema ((name, v) ∷ sets) config =
      set_values schema sets (set_value D schema name v config).1

  add_inputs-IsValidSchema :
      (specs : List ConfigInputSpec) (schema : ConfigSchema)
      → IsValidSchema D schema
      → IsValidSchema D (add_inputs specs schema)
  unfolding add_inputs
  add_inputs-IsValidSchema [] schema v = v
  add_inputs-IsValidSchema (spec ∷ specs) schema v =
      add_inputs-IsValidSchema specs _ (add_input-IsValidSchema D spec schema v)

  set_values-IsValidConfig :
      (schema : ConfigSchema) (sets config : Dict String ParamValue)
      → IsValidConfig D schema config
      → IsValidConfig D schema (set_values schema sets config)
  unfolding set_values
  set_values-IsValidConfig schema [] config v = v
  set_values-IsValidConfig schema ((name, w) ∷ sets) config v =
      set_values-IsValidConfig schema sets _ (set_value-IsValidConfig D schema name w config v)

  nothing-IsValidSchema : IsValidSchema D []
  unfolding find_input
  nothing-IsValidSchema = record { input = λ name spec e. absurd (ground arith); found = tt }

  nothing-IsValidConfig : (schema : ConfigSchema) → IsValidConfig D schema []
  unfolding IsValidConfig lookup
  nothing-IsValidConfig schema name v e = absurd (ground arith)

  built-IsValidSchema : (specs : List ConfigInputSpec) → IsValidSchema D (add_inputs specs [])
  built-IsValidSchema specs = add_inputs-IsValidSchema specs [] nothing-IsValidSchema

  built-IsValidConfig :
      (specs : List ConfigInputSpec) (sets : Dict String ParamValue)
      → let schema = add_inputs specs [] in
        IsValidConfig D schema (set_values schema sets (from_schema_defaults schema))
  unfolding from_schema_defaults
  built-IsValidConfig specs sets =
      let schema = add_inputs specs [] in
      set_values-IsValidConfig schema sets (set_defaults schema []) (
        set_defaults-IsValidConfig D schema schema [] (built-IsValidSchema specs)
          (built-IsValidSchema specs).found (nothing-IsValidConfig schema))

  checked_index :
      (spec : ConfigInputSpec) (v : ParamValue)
      → is_legal_config_input_type spec.type ≡ true
      → check_value D spec v ≡ true
      → value_index v < 10
  unfolding check_value
  checked_index spec v l c = ground (arith, type_index-legal spec.type l)

  config_value-checked :
      (schema : ConfigSchema) (config : Dict String ParamValue) (name : String) (v : ParamValue)
      → IsValidSchema D schema
      → IsValidConfig D schema config
      → config_value schema config name ≡ some v
      → (spec : ConfigInputSpec) × (find_input name schema ≡ some spec)
        × (check_value D spec v ≡ true)
  unfolding config_value IsValidConfig IsInput
  config_value-checked schema config name v s c h = elim (Option-cases (find_input name schema)) [
    | inl e ↦ absurd (ground arith)
    | inr (spec, e) ↦ elim (Option-cases (lookup name config)) [
      | inl f ↦ (
        spec,
        e,
        subst (λ v. check_value D spec v ≡ true) {x = spec.default_value} {y = v} (ground arith)
            (s.input name spec e).1,
      )
      | inr (w, f) ↦
          let (spec', g, k) = c name w f in
          (spec', g, subst (λ v. check_value D spec' v ≡ true) {x = w} {y = v} (ground arith) k)
    ]
  ]

-- Under a schema that calls of addInput have built, and a config that calls of ConfigValue::set have
-- built under it from its defaults, whatever a ConfigRef resolves to has passed the check against the
-- input of that name, and is neither a reference to an element nor a ConfigRef itself.
pub config_value-built :
    (D : Doubles) (specs : List ConfigInputSpec) (sets : Dict String ParamValue) (name : String)
    (v : ParamValue)
    → let schema = add_inputs D specs [] in
      let config = set_values D schema sets (from_schema_defaults schema) in
      resolve_value schema config (config_ref name) ≡ some v
      → (spec : ConfigInputSpec) × (find_input name schema ≡ some spec)
        × (check_value D spec v ≡ true)
        × (value_index v < 10)
unfolding resolve_value IsInput
config_value-built D specs sets name v h =
    let schema = add_inputs D specs [] in
    let config = set_values D schema sets (from_schema_defaults schema) in
    let (spec, f, c) =
      config_value-checked D schema config name v (built-IsValidSchema D specs)
        (built-IsValidConfig D specs sets) h in
    (spec, f, c, checked_index D spec v ((built-IsValidSchema D specs).input name spec f).0 c)

-- A config that calls of ConfigValue::set have built, from the defaults of a schema that calls of
-- addInput have built, is accepted by validateConfig.
pub validate_config-built :
    (D : Doubles) (specs : List ConfigInputSpec) (sets : Dict String ParamValue)
    → let schema = add_inputs D specs [] in
      validate_config D schema (set_values D schema sets (from_schema_defaults schema)) ≡ code_ok
validate_config-built D specs sets =
    let schema = add_inputs D specs [] in
    validate_rest D schema schema (set_values D schema sets (from_schema_defaults schema))
      (built-IsValidSchema D specs).found (built-IsValidConfig D specs sets)
