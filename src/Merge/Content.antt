-- ===== src/Merge/Content.antt =====
-- feature/merge.cpp: the fate of one feature id in the first pass of threeWayMerge.
pub mod Names
pub mod Added
pub mod Pointwise
pub mod Laws
use oreo_kernel.Prelude.{
  String, Bool, true, false, ◌&&◌, not, List, [], ◌∷◌, ◌++◌, Option, none, some, if◌then◌else◌,
  ◌==◌, string_eq,
}
use oreo_kernel.Prelude.Int.{ℤ}
use oreo_kernel.Prelude.Dict.{Dict, lookup, insert, erase}
use oreo_kernel.Feature.{Feature, ParamValue, bool, string}
use oreo_kernel.Feature.ParamJson.{Json}
use oreo_kernel.Merge.Conflict.{
  MergeConflict, type_conflict, suppression_conflict, param_conflict, make_conflict,
  make_add_remove_conflict,
}
use oreo_kernel.Merge.Params.{ParamMergeOutcome, bool_beq, feature_content_equals, merge_one_param}
use Names.{keys, first_occurrences}
use Added.{merge_added}

-- The type of a feature that all three sides have.
unfoldable pub merge_type : String → Feature → Feature → Feature → String × List MergeConflict
unfolding make_conflict
merge_type id base ours theirs =
    let ours_changed = not (ours.type == base.type) in
    let theirs_changed = not (theirs.type == base.type) in
    if ours_changed && theirs_changed
    then (if ours.type == theirs.type then (ours.type, []) else (
      base.type,
      make_conflict type_conflict id "" (string base.type) (string ours.type) (string theirs.type)
          ∷ [],
    ))
    else if ours_changed
    then (ours.type, [])
    else if theirs_changed
    then (theirs.type, [])
    else (base.type, [])

-- Its suppressed flag.
unfoldable pub merge_suppressed : String → Feature → Feature → Feature → Bool × List MergeConflict
unfolding make_conflict
merge_suppressed id base ours theirs =
    let ours_changed = not (bool_beq ours.suppressed base.suppressed) in
    let theirs_changed = not (bool_beq theirs.suppressed base.suppressed) in
    if ours_changed && theirs_changed && not (bool_beq ours.suppressed theirs.suppressed)
    then (
      base.suppressed,
      make_conflict suppression_conflict id "" (bool base.suppressed) (bool ours.suppressed)
            (bool theirs.suppressed)
          ∷ [],
    )
    else if ours_changed
    then (ours.suppressed, [])
    else if theirs_changed
    then (theirs.suppressed, [])
    else (base.suppressed, [])

-- What one outcome does to the merged parameters.
unfoldable pub place_param :
    String → ParamMergeOutcome → Dict String ParamValue → Dict String ParamValue
place_param name out params = elim out.conflict [
  | some _ ↦ params
  | none ↦ elim out.value [ some v ↦ insert name v params | none ↦ erase name params ]
]

unfoldable pub param_conflicts : String → String → ParamMergeOutcome → List MergeConflict
unfolding make_conflict
param_conflicts id name out = elim out.conflict [
  | none ↦ []
  | some (b, o, t) ↦ make_conflict param_conflict id name b o t ∷ []
]

module _ (json_eq : Json → Json → Bool) where
  -- The loop over the parameter names, from the merged parameters so far.
  unfoldable pub merge_params :
      String
      → Feature
      → Feature
      → Feature
      → List String
      → Dict String ParamValue
      → Dict String ParamValue × List MergeConflict
  unfolding place_param param_conflicts
  merge_params id base ours theirs [] params = (params, [])
  merge_params id base ours theirs (name ∷ names) params =
      let out =
        merge_one_param json_eq (lookup name base.params) (lookup name ours.params)
          (lookup name theirs.params) in
      let (params', cs) = merge_params id base ours theirs names (place_param name out params) in
      (params', param_conflicts id name out ++ cs)

  -- A feature that all three sides have.
  unfoldable pub merge_three : String → Feature → Feature → Feature → Feature × List MergeConflict
  merge_three id base ours theirs =
      let (type, cs) = merge_type id base ours theirs in
      let (sup, ds) = merge_suppressed id base ours theirs in
      let names =
        first_occurrences [] (keys base.params ++ (keys ours.params ++ keys theirs.params)) in
      let (params, es) = merge_params id base ours theirs names base.params in
      (record base { type = type; suppressed = sup; params = params }, cs ++ (ds ++ es))

  -- One id, by the sides that have it: the merged feature, none to leave it out, and the conflicts.
  -- `hint` is its index in the base.
  unfoldable pub merge_one :
      String
      → ℤ
      → Option Feature
      → Option Feature
      → Option Feature
      → Option Feature × List MergeConflict
  merge_one id hint none none none = (none, [])
  merge_one id hint none (some o) none = (some o, [])
  merge_one id hint none none (some t) = (some t, [])
  merge_one id hint none (some o) (some t) =
      let (f, cs) = merge_added json_eq id o t in (some f, cs)
  merge_one id hint (some b) none (some t) =
      if feature_content_equals json_eq b t
      then (none, [])
      else (some b, make_add_remove_conflict id (some b) none (some t) hint ∷ [])
  merge_one id hint (some b) (some o) none =
      if feature_content_equals json_eq b o
      then (none, [])
      else (some b, make_add_remove_conflict id (some b) (some o) none hint ∷ [])
  merge_one id hint (some b) none none = (none, [])
  merge_one id hint (some b) (some o) (some t) = let (f, cs) = merge_three id b o t in (some f, cs)
