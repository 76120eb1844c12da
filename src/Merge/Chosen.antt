-- ===== src/Merge/Chosen.antt =====
-- What resolving a parameter conflict leaves in the feature (feature/merge.cpp, applyResolutions).
use mathlib.Core.Path.{subst}
use oreo_kernel.Prelude.{
  String, Bool, ◌≡◌, refl, ap, ◌∙◌, List, [], ◌∷◌, Option, none, some, string_eq, arith, eq_iff,
  Result, ok,
}
use oreo_kernel.Prelude.Dict.{lookup, insert, lookup-insert}
use oreo_kernel.Feature.{Feature, ParamValue, string}
use oreo_kernel.Feature.ParamJson.{Json}
use oreo_kernel.Tree.Find.{find_first}
use oreo_kernel.Merge.Conflict.{MergeConflict, make_conflict, param_conflict}
use oreo_kernel.Merge.Params.{merge_one_param, merge_both_changed, conflicting, value_or_empty}
use oreo_kernel.Merge.Resolutions.{
  Resolution, choose_ours, chosen_value, change_first, apply_resolution,
}

find_first-change_first :
    (id : String) (change : Feature → Feature) (fs : List Feature) (f : Feature)
    → ((g : Feature) → (change g).id ≡ g.id)
    → find_first id fs ≡ some f
    → find_first id (change_first id change fs) ≡ some (change f)
unfolding find_first change_first
find_first-change_first id change [] f k h = cc
find_first-change_first id change (g ∷ fs) f k h =
    ground (arith, find_first-change_first id change fs f k, k g)

-- The feature with the id in a list that is returned has the parameter with the value.
abbrev pub HasParam : String → String → ParamValue → Result (List Feature) → Type 0
HasParam id name v result =
    (out : List Feature) × (g : Feature) × (result ≡ ok out)
    × (find_first id out ≡ some g)
    × (lookup name g.params ≡ some v)

-- Resolving a parameter conflict of a feature that is there gives the parameter the value that the
-- conflict records for the chosen side, or the custom value.
pub apply_resolution-HasParam :
    (c : MergeConflict) (r : Resolution) (fs : List Feature) (f : Feature)
    → c.kind ≡ param_conflict
    → find_first c.feature_id fs ≡ some f
    → HasParam c.feature_id c.param_name (chosen_value c r) (apply_resolution c r fs)
unfolding apply_resolution
apply_resolution-HasParam c r fs f e h =
    rw (e, apply_resolution)
      (
        _,
        _,
        refl,
        find_first-change_first c.feature_id
            (λ g. record g { params = insert c.param_name (chosen_value c r) g.params }) fs f
            (λ g. refl) h,
        ground (
          arith,
          lookup-insert c.param_name c.param_name (chosen_value c r) f.params,
          eq_iff c.param_name c.param_name,
        ),
      )

ours_missing :
    (json_eq : Json → Json → Bool) (base theirs : Option ParamValue) (b o t : ParamValue)
    → (merge_one_param json_eq base none theirs).conflict ≡ some (b, o, t)
    → o ≡ string ""
unfolding merge_one_param merge_both_changed conflicting value_or_empty
ours_missing json_eq base none b o t h = ground arith
ours_missing json_eq base (some v) b o t h = ground arith

-- A conflict over a parameter that ours removed, resolved to ours, does not remove the parameter: it
-- is left with the empty string.
pub apply_resolution-ours_removed :
    (json_eq : Json → Json → Bool) (base theirs : Option ParamValue) (b o t : ParamValue)
    (id name : String) (r : Resolution) (fs : List Feature) (f : Feature)
    → (merge_one_param json_eq base none theirs).conflict ≡ some (b, o, t)
    → r.choice ≡ choose_ours
    → find_first id fs ≡ some f
    → HasParam id name
        (string "")
        (apply_resolution (make_conflict param_conflict id name b o t) r fs)
unfolding make_conflict chosen_value
apply_resolution-ours_removed json_eq base theirs b o t id name r fs f h e k =
    subst
      (λ v. HasParam id name v (apply_resolution (make_conflict param_conflict id name b o t) r fs))
      (ap
          (λ choice.
            chosen_value (make_conflict param_conflict id name b o t)
              (record r { choice = choice }))
          e
        ∙ ours_missing json_eq base theirs b o t h)
      (apply_resolution-HasParam (make_conflict param_conflict id name b o t) r fs f refl k)
