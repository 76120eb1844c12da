-- ===== src/Execution/Validate.antt =====
-- feature/feature_schema.cpp: validateFeature.
use oreo_kernel.Prelude.{
  String, Bool, true, false, List, [], ◌∷◌, Option, none, some, if◌then◌else◌, string_eq,
}
use oreo_kernel.Prelude.Int.{ℤ}
use oreo_kernel.Prelude.Dict.{Dict, lookup}
use oreo_kernel.Diagnostics.{Diagnostic, diagnostic_of, severity_error, severity_warning}
use oreo_kernel.Feature.{Feature, ParamValue, execution_failed}
use oreo_kernel.Execution.{Reals, ParamSpec, validate_one, invalid_input_code}
use oreo_kernel.Execution.Table.{find_schema, declares}

-- What validateFeature returns and leaves: the feature, whose status tells of a failure, and the
-- diagnostics that it reports.
pub record Validated : Type 0 where
  pub accepted : Bool
  pub feature : Feature
  pub reported : List Diagnostic

-- fail()
abbrev pub fail : Feature → ℤ → Validated
fail f code = record {
  accepted = false;
  feature = record f { status = execution_failed };
  reported = diagnostic_of severity_error code [] [] ∷ [];
}

module _ (R : Reals) where
  -- The loop over the declared parameters: none, or the code of the first error.
  unfoldable pub validate_params : List ParamSpec → Dict String ParamValue → Option ℤ
  unfolding validate_one
  validate_params [] params = none
  validate_params (spec ∷ specs) params =
      let rest = validate_params specs params in
      elim (lookup spec.name params) [
        | none ↦ if spec.required then some invalid_input_code else rest
        | some v ↦ elim (validate_one R spec v) [ some code ↦ some code | none ↦ rest ]
      ]

  -- A warning for each parameter that the schema does not declare.
  unfoldable pub warn_extras : List ParamSpec → Dict String ParamValue → List Diagnostic
  unfolding declares
  warn_extras specs [] = []
  warn_extras specs (entry ∷ params) =
      let later = warn_extras specs params in
      if declares entry.0 specs
      then later
      else diagnostic_of severity_warning invalid_input_code [] [] ∷ later

  unfoldable pub validate_feature : Feature → Validated
  unfolding find_schema validate_params warn_extras
  validate_feature f = elim (find_schema f.type) [
    | none ↦ fail f invalid_input_code
    | some schema ↦ elim (validate_params schema.params f.params) [
      | some code ↦ fail f code
      | none ↦ record {
        accepted = true;
        feature = f;
        reported = warn_extras schema.params f.params;
      }
    ]
  ]
