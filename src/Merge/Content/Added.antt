-- ===== src/Merge/Content/Added.antt =====
-- feature/merge.cpp: a feature that both sides added.
use oreo_kernel.Prelude.{
  String, Bool, false, not, List, [], ◌∷◌, ◌++◌, Option, none, some, if◌then◌else◌, ◌==◌, string_eq,
}
use oreo_kernel.Prelude.Dict.{lookup}
use oreo_kernel.Feature.{Feature, ParamValue, bool, string}
use oreo_kernel.Feature.ParamJson.{Json}
use oreo_kernel.Merge.Conflict.{
  MergeConflict, type_conflict, suppression_conflict, param_conflict, make_conflict,
}
use oreo_kernel.Merge.Params.{bool_beq, param_value_equals, feature_content_equals, value_or_empty}
use oreo_kernel.Merge.Content.Names.{keys, first_occurrences}

module _ (json_eq : Json → Json → Bool) where
  unfoldable pub same_param : Option ParamValue → Option ParamValue → Bool
  same_param (some o) (some t) = param_value_equals json_eq o t
  same_param none t = false
  same_param (some o) none = false

  -- A conflict for each name at which the two sides differ; ours stands for the base too.
  unfoldable pub added_param_conflicts :
      String → Feature → Feature → List String → List MergeConflict
  unfolding same_param make_conflict value_or_empty
  added_param_conflicts id ours theirs [] = []
  added_param_conflicts id ours theirs (name ∷ names) =
      let rest = added_param_conflicts id ours theirs names in
      let o = lookup name ours.params in
      let t = lookup name theirs.params in
      if same_param o t
      then rest
      else make_conflict param_conflict id name (value_or_empty o) (value_or_empty o)
          (value_or_empty t)
        ∷ rest

  unfoldable pub merge_added : String → Feature → Feature → Feature × List MergeConflict
  unfolding added_param_conflicts make_conflict
  merge_added id ours theirs =
      if feature_content_equals json_eq ours theirs
      then (ours, [])
      else if not (ours.type == theirs.type)
      then (
        ours,
        make_conflict type_conflict id "" (string "") (string ours.type) (string theirs.type) ∷ [],
      )
      else (
        ours,
        (if not (bool_beq ours.suppressed theirs.suppressed)
              then make_conflict suppression_conflict id "" (bool ours.suppressed)
                  (bool ours.suppressed) (bool theirs.suppressed)
                ∷ []
              else [])
            ++ added_param_conflicts id ours theirs
                (first_occurrences [] (keys ours.params ++ keys theirs.params)),
      )
