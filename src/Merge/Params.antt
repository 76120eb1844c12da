-- ===== src/Merge/Params.antt =====
-- feature/merge.cpp: the comparison of parameters and the merge of one parameter.
pub mod Laws
use oreo_kernel.Prelude.{
  String, Bool, true, false, ◌&&◌, not, List, [], ◌∷◌, Option, none, some, if◌then◌else◌, ◌==◌,
  string_eq, length, nat_beq,
}
use oreo_kernel.Prelude.Dict.{Dict, lookup}
use oreo_kernel.Feature.{Feature, ParamValue, string}
use oreo_kernel.Feature.ParamJson.{Json, param_value_to_json}

abbrev pub bool_beq : Bool → Bool → Bool
bool_beq true b = b
bool_beq false b = not b

-- What is merged of one parameter: its value, none to leave it out; and in a conflict the three
-- values for the record.
pub record ParamMergeOutcome : Type 0 where
  pub value : Option ParamValue
  pub conflict : Option (ParamValue × ParamValue × ParamValue)

abbrev pub clean : Option ParamValue → ParamMergeOutcome
clean v = record { value = v; conflict = none }

-- The lambda v: a value, or the empty string where there is none.
unfoldable pub value_or_empty : Option ParamValue → ParamValue
value_or_empty none = string ""
value_or_empty (some v) = v

unfoldable pub conflicting :
    Option ParamValue → Option ParamValue → Option ParamValue → ParamMergeOutcome
conflicting base ours theirs = record {
  value = base;
  conflict = some (value_or_empty base, value_or_empty ours, value_or_empty theirs);
}

module _ (json_eq : Json → Json → Bool) where
  unfoldable pub param_value_equals : ParamValue → ParamValue → Bool
  param_value_equals a b = json_eq (param_value_to_json a) (param_value_to_json b)

  -- The loop of featureContentEquals over a's parameters.
  unfoldable pub params_match : Dict String ParamValue → Dict String ParamValue → Bool
  params_match [] b = true
  params_match ((k, v) ∷ a) b = elim (lookup k b) [
    | none ↦ false
    | some w ↦ param_value_equals v w && params_match a b
  ]

  unfoldable pub feature_content_equals : Feature → Feature → Bool
  feature_content_equals a b =
      if not (a.type == b.type)
      then false
      else if not (bool_beq a.suppressed b.suppressed)
      then false
      else if not (nat_beq (length a.params) (length b.params))
      then false
      else params_match a.params b.params

  -- oursChanged and theirsChanged
  unfoldable pub changed : Option ParamValue → Option ParamValue → Bool
  changed none none = false
  changed none (some s) = true
  changed (some b) none = true
  changed (some b) (some s) = not (param_value_equals b s)

  -- Both sides changed the parameter.
  unfoldable pub merge_both_changed :
      Option ParamValue → Option ParamValue → Option ParamValue → ParamMergeOutcome
  merge_both_changed base none none = clean none
  merge_both_changed base (some o) (some t) =
      if param_value_equals o t then clean (some o) else conflicting base (some o) (some t)
  merge_both_changed base (some o) none = conflicting base (some o) none
  merge_both_changed base none (some t) = conflicting base none (some t)

  unfoldable pub merge_one_param :
      Option ParamValue → Option ParamValue → Option ParamValue → ParamMergeOutcome
  merge_one_param base ours theirs =
      let ours_changed = changed base ours in
      let theirs_changed = changed base theirs in
      if not ours_changed && not theirs_changed
      then clean base
      else if ours_changed && not theirs_changed
      then clean ours
      else if not ours_changed && theirs_changed
      then clean theirs
      else merge_both_changed base ours theirs
