-- ===== src/Config.antt =====
-- feature/config.{h,cpp}: the inputs of a part studio, and resolveConfigRefs, which replaces the
-- ConfigRef placeholders of a feature before it is executed. A double is its bit pattern.
pub mod Values
pub mod Typed
pub mod Built
pub mod Resolution
use oreo_kernel.Prelude.{
  ℕ, String, Bool, List, [], ◌∷◌, Option, none, some, if◌then◌else◌, ◌==◌, string_eq,
}
use oreo_kernel.Prelude.Dict.{Dict, lookup}
use oreo_kernel.Feature.{Feature, ParamValue, config_ref, FeatureStatus, broken_reference}

-- In the order of the alternatives of a ParamValue.
pub data ParamType : Type 0 where
  double_type int_type bool_type string_type vec_type pnt_type dir_type : ParamType
  ax1_type ax2_type pln_type element_ref_type element_ref_list_type config_ref_type : ParamType

pub record ConfigInputSpec : Type 0 where
  pub name : String
  pub type : ParamType
  pub default_value : ParamValue
  pub description : String
  pub min_inclusive : Option ℕ
  pub max_inclusive : Option ℕ

abbrev pub ConfigSchema : Type 0
ConfigSchema = List ConfigInputSpec

-- ConfigSchema::find
unfoldable pub find_input : String → ConfigSchema → Option ConfigInputSpec
find_input name [] = none
find_input name (s ∷ inputs) =
    let later = find_input name inputs in if s.name == name then some s else later

module _ (inputs : ConfigSchema) (config : Dict String ParamValue) where
  -- What a reference to an input stands for, none where it does not resolve.
  unfoldable pub config_value : String → Option ParamValue
  unfolding find_input
  config_value name = if name == "" then none else elim (find_input name inputs) [
    | none ↦ none
    | some spec ↦ elim (lookup name config) [ some v ↦ some v | none ↦ some spec.default_value ]
  ]

  unfoldable pub resolve_value : ParamValue → Option ParamValue
  resolve_value (config_ref name) = config_value name
  resolve_value v = some v

  -- The loop over the parameters: what they are left as, and the status if one did not resolve, at
  -- which the loop returns.
  unfoldable pub resolve_params :
      Dict String ParamValue → FeatureStatus → Dict String ParamValue × FeatureStatus
  resolve_params [] status = ([], status)
  resolve_params ((k, v) ∷ params) status =
      let (params', status') = resolve_params params status in
      elim (resolve_value v) [
        | none ↦ ((k, v) ∷ params, broken_reference)
        | some w ↦ ((k, w) ∷ params', status')
      ]

  -- The copy keeps the status of the feature unless a reference does not resolve.
  unfoldable pub resolve_config_refs : Feature → Feature
  unfolding resolve_params
  resolve_config_refs f =
      let (params, status) = resolve_params f.params f.status in
      record f { params = params; status = status }
