-- ===== src/Examples/Config.antt =====
-- feature/config.cpp on a feature with one placeholder.
use oreo_kernel.Prelude.{
  ◌/◌, ◌%◌, ◌^◌, ◌<◌, String, true, false, not, ltb, nat_beq, ◌≡◌, refl, [], ◌∷◌, none, some,
  string_eq,
}
use oreo_kernel.Prelude.Int.{pos, negsuc}
use oreo_kernel.Prelude.Dict.{Dict, lookup, insert}
use oreo_kernel.Feature.{Feature, ParamValue, int, config_ref, execution_failed}
use oreo_kernel.Config.{
  int_type, config_ref_type, ConfigInputSpec, ConfigSchema, config_value, find_input, resolve_value,
}
use oreo_kernel.Config.Values.{
  Doubles, code_ok, invalid_input, value_index, check_value, within, add_input, set_value,
  from_schema_defaults, validate_config,
}
use oreo_kernel.Config.Built.{add_inputs, set_values, config_value-built, validate_config-built}

abbrev inputs : ConfigSchema
inputs =
    record {
      name = "width";
      type = int_type;
      default_value = int (pos 4);
      description = "";
      min_inclusive = none;
      max_inclusive = none;
    }
    ∷ []

abbrev bound : Dict String ParamValue
bound = ("width", int (pos 9)) ∷ []

abbrev plate : Feature
plate = record {
  id = "P";
  type = "MakeBox";
  params = ("dx", config_ref "width") ∷ ("n", int (pos 2)) ∷ [];
  suppressed = false;
  status = execution_failed;
}

-- Bit patterns of doubles that are not negative are in their order.
abbrev doubles : Doubles
doubles = record {
  is_finite = λ d. not (nat_beq (d / 2 ^ 52 % 2048) 2047);
  less = ltb;
  of_int = λ z. elim z [ pos n ↦ n | negsuc n ↦ 0 ];
}

config_value-built_example :
    let schema = add_inputs doubles inputs [] in
    (spec : ConfigInputSpec) × (find_input "width" schema ≡ some spec)
    × (check_value doubles spec (int (pos 9)) ≡ true)
    × (value_index (int (pos 9)) < 10)
unfolding resolve_value config_value add_inputs add_input set_values set_value find_input
    check_value within lookup insert from_schema_defaults
config_value-built_example = config_value-built doubles inputs bound "width" (int (pos 9)) refl

validate_config-built_example :
    let schema = add_inputs doubles inputs [] in
    validate_config doubles schema (set_values doubles schema bound (from_schema_defaults schema))
    ≡ code_ok
validate_config-built_example = validate_config-built doubles inputs bound

not_an_input :
    (add_input doubles
      (record {
        name = "f";
        type = config_ref_type;
        default_value = config_ref "f";
        description = "";
        min_inclusive = none;
        max_inclusive = none;
      })
      []).0
    ≡ invalid_input
unfolding add_input
not_an_input = refl
