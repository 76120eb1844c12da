-- ===== src/Tree/View.antt =====
-- feature/feature_tree.cpp: what is read off a replayed tree.
use oreo_kernel.Prelude.{
  String, List, [], ◌∷◌, none, some, if◌then◌else◌, string_eq, get_elem?, take, Result, ok, throw,
}
use oreo_kernel.Prelude.Int.{pos, negsuc}
use oreo_kernel.Prelude.Dict.{Dict, lookup}
use oreo_kernel.Feature.{Feature}
use oreo_kernel.Tags.{TagAllocator}
use oreo_kernel.Tree.{FeatureTree, find_index}
use oreo_kernel.Tree.Resolve.{Shapes}
use oreo_kernel.Tree.Replay.{Executor, ReplayState, is_broken, replay}

unfoldable pub broken_among : List Feature → List Feature
unfolding is_broken
broken_among [] = []
broken_among (f ∷ fs) =
    let later = broken_among fs in if is_broken f.status then f ∷ later else later

unfoldable pub get_broken_features : {S : Type 0} → FeatureTree S → List Feature
get_broken_features t = broken_among t.features

module _ (K : Shapes) where
  unfoldable pub get_shape_at : String → FeatureTree K.Named → K.Named
  get_shape_at id t = elim (lookup id t.cache) [ none ↦ K.no_shape | some s ↦ s ]

  -- The loops that walk backwards: the last cached shape of the list that is not null.
  unfoldable pub last_cached : List Feature → Dict String K.Named → K.Named → K.Named
  last_cached [] cache found = found
  last_cached (f ∷ fs) cache found =
      last_cached fs cache
        (elim (lookup f.id cache) [ none ↦ found | some s ↦ if K.is_null s then found else s ])

  unfoldable pub get_final_shape : FeatureTree K.Named → K.Named
  unfolding last_cached
  get_final_shape t = last_cached t.features t.cache K.no_shape

  unfoldable pub roll_back_to : String → FeatureTree K.Named → K.Named
  unfolding last_cached
  roll_back_to id t = elim (find_index id t.features) [
    | none ↦ K.no_shape
    | some i ↦ last_cached (take i t.features) t.cache K.no_shape
  ]

  -- A full replay, then the shape at the rollback index; the final one for an index out of range.
  unfoldable pub replay_to_rollback :
      (x : Executor K) → FeatureTree K.Named → TagAllocator → Result K.Named × ReplayState K x
  unfolding get_shape_at
  replay_to_rollback x t tags =
      let run = replay K x t tags in
      let st = run.1 in
      let at : K.Named = elim st.tree.rollback_index [
        | negsuc _ ↦ st.current
        | pos i ↦ elim (get_elem? st.tree.features i) [
          | none ↦ st.current
          | some f ↦ get_shape_at f.id st.tree
        ]
      ] in
      (elim run.0 [ throw e ↦ throw e | ok _ ↦ ok at ], st)
