-- ===== src/Merge/Params/Laws.antt =====
-- The merge of one parameter (feature/merge.cpp, mergeOneParam) against the rules of three-way merge.
use oreo_kernel.Prelude.{
  Bool, true, false, ◌≡◌, ◌≢◌, ◌↔◌, ◌⊎◌, Option, none, some, arith, if◌then◌else◌,
}
use oreo_kernel.Feature.{ParamValue}
use oreo_kernel.Feature.ParamJson.{Json, param_value_to_json}
use oreo_kernel.Merge.Params.{
  ParamMergeOutcome, param_value_equals, changed, clean, conflicting, merge_both_changed,
  merge_one_param,
}

-- What the JSON library documents of operator==: it is symmetric and transitive. It is not assumed
-- to be reflexive, since a NaN differs from itself.
pub record IsPartialEquivalence (json_eq : Json → Json → Bool) : Type 0 where
  pub symmetric : (a b : Json) → json_eq a b ≡ true → json_eq b a ≡ true
  pub transitive : (a b c : Json) → json_eq a b ≡ true → json_eq b c ≡ true → json_eq a c ≡ true

module _ (json_eq : Json → Json → Bool) where
  -- Equal values, or missing on both sides.
  abbrev pub agree : Option ParamValue → Option ParamValue → Bool
  agree none none = true
  agree (some a) (some b) = param_value_equals json_eq a b
  agree none (some b) = false
  agree (some a) none = false

  -- The textbook rule: sides that agree win; else the side that left the base does; else a conflict.
  abbrev pub textbook_merge :
      Option ParamValue → Option ParamValue → Option ParamValue → ParamMergeOutcome
  textbook_merge base ours theirs =
      if agree ours theirs
      then clean ours
      else if agree base ours
      then clean theirs
      else if agree base theirs
      then clean ours
      else conflicting base ours theirs

  -- mergeOneParam follows the textbook rule: it records the same conflict or none, and merges to a
  -- value that agrees with the rule's. The three values are asked to agree with themselves.
  pub merge_one_param-eq-textbook :
      (base ours theirs : Option ParamValue)
      → IsPartialEquivalence json_eq
      → agree base base ≡ true
      → agree ours ours ≡ true
      → agree theirs theirs ≡ true
      → ((merge_one_param json_eq base ours theirs).conflict
          ≡ (textbook_merge base ours theirs).conflict)
        × (agree
              (merge_one_param json_eq base ours theirs).value
              (textbook_merge base ours theirs).value
            ≡ true)
  unfolding merge_one_param merge_both_changed changed conflicting param_value_equals
  merge_one_param-eq-textbook none none none e rb ro rt = ground arith
  merge_one_param-eq-textbook none none (some t) e rb ro rt = ground arith
  merge_one_param-eq-textbook none (some o) none e rb ro rt = ground arith
  merge_one_param-eq-textbook none (some o) (some t) e rb ro rt = ground arith
  merge_one_param-eq-textbook (some b) none none e rb ro rt = ground arith
  merge_one_param-eq-textbook (some b) none (some t) e rb ro rt = ground arith
  merge_one_param-eq-textbook (some b) (some o) none e rb ro rt = ground arith
  merge_one_param-eq-textbook (some b) (some o) (some t) e rb ro rt =
      let jb = param_value_to_json b in
      let jo = param_value_to_json o in
      let jt = param_value_to_json t in
      ground (
        arith,
        e.symmetric jo jb,
        e.symmetric jb jo,
        e.symmetric jt jb,
        e.symmetric jt jo,
        e.transitive jo jb jt,
        e.transitive jb jo jt,
        e.transitive jb jt jo,
      )

  -- mergeOneParam reports a conflict exactly if both sides changed the parameter and do not agree;
  -- then the base value is kept, and the three values are recorded.
  pub merge_one_param-conflict_iff :
      (base ours theirs : Option ParamValue)
      → (((merge_one_param json_eq base ours theirs).conflict ≢ none) ↔ (
          (changed json_eq base ours ≡ true)
          × (changed json_eq base theirs ≡ true)
          × (agree ours theirs ≡ false)))
        × (((merge_one_param json_eq base ours theirs).conflict ≡ none)
            ⊎ (merge_one_param json_eq base ours theirs ≡ conflicting base ours theirs))
  unfolding merge_one_param merge_both_changed conflicting
  merge_one_param-conflict_iff base none none = ((ground arith, ground arith), ground arith)
  merge_one_param-conflict_iff base none (some t) = ((ground arith, ground arith), ground arith)
  merge_one_param-conflict_iff base (some o) none = ((ground arith, ground arith), ground arith)
  merge_one_param-conflict_iff base (some o) (some t) = ((ground arith, ground arith), ground arith)
