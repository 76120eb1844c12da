-- ===== src/Config/Values.antt =====
-- feature/config.cpp: the checks of a value against its input, and the methods of ConfigSchema and
-- ConfigValue that apply them. Diagnostics are left out; a check that fails has a reason in words,
-- which is left out too.
use oreo_kernel.Prelude.{
  ℕ, String, Bool, true, false, ◌&&◌, not, [], ◌∷◌, ◌++◌, none, some, nat_beq, if◌then◌else◌, ◌==◌,
  string_eq,
}
use oreo_kernel.Prelude.Int.{ℤ}
use oreo_kernel.Prelude.Dict.{Dict, lookup, insert}
use oreo_kernel.Feature.{
  Triple, ParamValue, double, int, bool, string, vec, pnt, dir, ax1, ax2, pln, element_ref,
  element_ref_list, config_ref,
}
use oreo_kernel.Config.{
  ParamType, double_type, int_type, bool_type, string_type, vec_type, pnt_type, dir_type, ax1_type,
  ax2_type, pln_type, element_ref_type, element_ref_list_type, config_ref_type, ConfigInputSpec,
  ConfigSchema, find_input,
}

-- What the code asks of a double, which is its bit pattern.
pub record Doubles : Type 0 where
  pub is_finite : ℕ → Bool
  pub less : ℕ → ℕ → Bool
  pub of_int : ℤ → ℕ

pub data ErrorCode : Type 0 where
  code_ok invalid_input : ErrorCode

-- ParamValue::index
unfoldable pub value_index : ParamValue → ℕ
value_index (double _) = 0
value_index (int _) = 1
value_index (bool _) = 2
value_index (string _) = 3
value_index (vec _) = 4
value_index (pnt _) = 5
value_index (dir _) = 6
value_index (ax1 _ _) = 7
value_index (ax2 _ _ _) = 8
value_index (pln _ _) = 9
value_index (element_ref _) = 10
value_index (element_ref_list _) = 11
value_index (config_ref _) = 12

unfoldable pub type_index : ParamType → ℕ
type_index double_type = 0
type_index int_type = 1
type_index bool_type = 2
type_index string_type = 3
type_index vec_type = 4
type_index pnt_type = 5
type_index dir_type = 6
type_index ax1_type = 7
type_index ax2_type = 8
type_index pln_type = 9
type_index element_ref_type = 10
type_index element_ref_list_type = 11
type_index config_ref_type = 12

unfoldable pub is_legal_config_input_type : ParamType → Bool
is_legal_config_input_type element_ref_type = false
is_legal_config_input_type element_ref_list_type = false
is_legal_config_input_type config_ref_type = false
is_legal_config_input_type _ = true

abbrev has_input : String → ConfigSchema → Bool
has_input name schema = elim (find_input name schema) [ none ↦ false | some _ ↦ true ]

unfoldable pub set_defaults : ConfigSchema → Dict String ParamValue → Dict String ParamValue
set_defaults [] config = config
set_defaults (spec ∷ inputs) config =
    set_defaults inputs (insert spec.name spec.default_value config)

unfoldable pub from_schema_defaults : ConfigSchema → Dict String ParamValue
unfolding set_defaults
from_schema_defaults schema = set_defaults schema []

module _ (D : Doubles) where
  unfoldable pub within : ConfigInputSpec → ℕ → Bool
  within spec d =
      elim spec.min_inclusive [ none ↦ true | some low ↦ not (D.less d low) ]
      && elim spec.max_inclusive [ none ↦ true | some high ↦ not (D.less high d) ]

  abbrev all_finite : Triple → Bool
  all_finite t = D.is_finite t.x && (D.is_finite t.y && D.is_finite t.z)

  -- The switch on the type, where the value is of this type.
  unfoldable pub check_contents : ConfigInputSpec → ParamValue → Bool
  unfolding within
  check_contents spec (double d) = D.is_finite d && within spec d
  check_contents spec (int z) = within spec (D.of_int z)
  check_contents spec (vec t) = all_finite t
  check_contents spec (pnt t) = all_finite t
  check_contents spec (dir t) = all_finite t
  check_contents spec _ = true

  -- checkValueAgainstSpec finds no reason against the value.
  unfoldable pub check_value : ConfigInputSpec → ParamValue → Bool
  unfolding value_index type_index check_contents
  check_value spec v = nat_beq (value_index v) (type_index spec.type) && check_contents spec v

  unfoldable pub add_input : ConfigInputSpec → ConfigSchema → ErrorCode × ConfigSchema
  unfolding find_input is_legal_config_input_type check_value
  add_input spec schema =
      if spec.name == ""
      then (invalid_input, schema)
      else if has_input spec.name schema
      then (invalid_input, schema)
      else if not (is_legal_config_input_type spec.type)
      then (invalid_input, schema)
      else if not (check_value spec spec.default_value)
      then (invalid_input, schema)
      else (code_ok, schema ++ spec ∷ [])

  unfoldable pub set_value :
      ConfigSchema
      → String
      → ParamValue
      → Dict String ParamValue
      → ErrorCode × Dict String ParamValue
  unfolding find_input check_value
  set_value schema name v config = elim (find_input name schema) [
    | none ↦ (invalid_input, config)
    | some spec ↦
        if not (check_value spec v)
        then (invalid_input, config)
        else (code_ok, insert name v config)
  ]

  -- An input that the config does not bind falls back to its default.
  unfoldable pub check_bound : ConfigInputSpec → Dict String ParamValue → Bool
  unfolding check_value
  check_bound spec config = elim (lookup spec.name config) [
    | none ↦ true
    | some v ↦ check_value spec v
  ]

  -- The loop over the inputs of the schema; what is unknown to the schema is only warned of.
  unfoldable pub validate_config : ConfigSchema → Dict String ParamValue → ErrorCode
  unfolding check_bound
  validate_config [] config = code_ok
  validate_config (spec ∷ inputs) config =
      let rest = validate_config inputs config in
      if check_bound spec config then rest else invalid_input
