-- ===== src/Tree/Refs.antt =====
-- feature/feature_tree.cpp: replaceReference, which retargets the references to one feature.
use oreo_kernel.Prelude.{
  ℕ, suc, ◌+◌, String, ◌||◌, List, [], ◌∷◌, Option, none, some, nat_beq, if◌then◌else◌, ◌==◌,
  string_eq,
}
use oreo_kernel.Prelude.Dict.{Dict}
use oreo_kernel.Feature.{ElementRef, ParamValue, element_ref, element_ref_list, Feature}
use oreo_kernel.Tree.{FeatureTree, mark_dirty_from}

-- Each loop returns what it leaves, and how many references it rewrote.
module _ (old new : String) where
  unfoldable pub rewrite_ref : ElementRef → ElementRef × ℕ
  rewrite_ref r = if r.feature_id == old then (record r { feature_id = new }, 1) else (r, 0)

  unfoldable pub rewrite_refs : List ElementRef → List ElementRef × ℕ
  unfolding rewrite_ref
  rewrite_refs [] = ([], 0)
  rewrite_refs (r ∷ rs) =
      let (r', n) = rewrite_ref r in let (rs', m) = rewrite_refs rs in (r' ∷ rs', n + m)

  unfoldable pub rewrite_value : ParamValue → ParamValue × ℕ
  unfolding rewrite_refs
  rewrite_value (element_ref r) = let (r', n) = rewrite_ref r in (element_ref r', n)
  rewrite_value (element_ref_list rs) = let (rs', n) = rewrite_refs rs in (element_ref_list rs', n)
  rewrite_value v = (v, 0)

  unfoldable pub rewrite_params : Dict String ParamValue → Dict String ParamValue × ℕ
  unfolding rewrite_value
  rewrite_params [] = ([], 0)
  rewrite_params ((k, v) ∷ m) =
      let (v', n) = rewrite_value v in let (m', rest) = rewrite_params m in ((k, v') ∷ m', n + rest)

  unfoldable pub rewrite_feature : Feature → Feature × ℕ
  unfolding rewrite_params
  rewrite_feature f = let (ps, n) = rewrite_params f.params in (record f { params = ps }, n)

  -- The features that are left, the rewrites, and the first index where there was one.
  unfoldable pub rewrite_features : List Feature → List Feature × ℕ × Option ℕ
  unfolding rewrite_feature
  rewrite_features [] = ([], 0, none)
  rewrite_features (f ∷ fs) =
      let (f', n) = rewrite_feature f in
      let (fs', m, first) = rewrite_features fs in
      (
        f' ∷ fs',
        n + m,
        if nat_beq n 0 then elim first [ none ↦ none | some i ↦ some (suc i) ] else some 0,
      )

unfoldable pub replace_reference :
    {S : Type 0} → String → String → FeatureTree S → ℕ × FeatureTree S
unfolding rewrite_features
replace_reference old new t =
    if old == "" || new == ""
    then (0, t)
    else (let (fs, n, first) = rewrite_features old new t.features in
        let t' = record t { features = fs } in
        (n, elim first [ none ↦ t' | some i ↦ mark_dirty_from i t' ]))
