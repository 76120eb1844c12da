-- ===== src/Tree/LastShape.antt =====
-- The shape that a replay returns is the last feature's (feature/feature_tree.cpp, getShapeAt).
use mathlib.Core.Path.{subst}
use oreo_kernel.Prelude.{
  ℕ, suc, ◌+◌, ◌≤◌, String, ◌≡◌, sym, ap, List, [], ◌∷◌, none, some, arith, string_eq,
}
use oreo_kernel.Prelude.Dict.{lookup}
use oreo_kernel.Feature.{Feature}
use oreo_kernel.Identity.Scalar.{int64_max}
use oreo_kernel.Tags.{TagAllocator, reset_counter_only}
use oreo_kernel.Tree.{FeatureTree, mark_dirty_from}
use oreo_kernel.Tree.Resolve.{Shapes}
use oreo_kernel.Tree.Replay.{Executor, ReplayState, replay_loop, replay_at, replay, replay_feature}
use oreo_kernel.Tree.View.{get_shape_at}
use oreo_kernel.Tree.ReplayLaws.{start_over, replay-eq-replay_at}
use oreo_kernel.Tree.Settled.{Spends, total, enough-head, replay_feature-Turn}

module _ (K : Shapes) (x : Executor K) (cost : Feature → ℕ) where
  abbrev pub last_id : String → List Feature → String
  last_id id [] = id
  last_id id (f ∷ fs) = last_id f.id fs

  replay_loop-shape :
      Spends K x cost
      → (i : ℕ) (id : String) (fs : List Feature) (st : ReplayState K x)
      → st.tags.counter + total K x cost fs ≤ int64_max
      → lookup id st.tree.cache ≡ some st.current
      → lookup (last_id id fs) (replay_loop K x i fs st).1.tree.cache
        ≡ some (replay_loop K x i fs st).1.current
  unfolding replay_loop
  replay_loop-shape k i id [] st h e = e
  replay_loop-shape k i id (f ∷ fs) st h e =
      let (here, later) = enough-head K x cost f fs st.tags.counter h in
      let (r, turn) = replay_feature-Turn K x cost k i f st here in
      rw (r, replay_loop)
        (replay_loop-shape k (suc i) f.id fs (replay_feature K x i f st).1 (later _ turn.counter)
          turn.shape)

  replay_loop-last_shape :
      Spends K x cost
      → (f : Feature) (fs : List Feature) (st : ReplayState K x)
      → st.tags.counter + total K x cost (f ∷ fs) ≤ int64_max
      → lookup (last_id f.id fs) (replay_loop K x 0 (f ∷ fs) st).1.tree.cache
        ≡ some (replay_loop K x 0 (f ∷ fs) st).1.current
  unfolding replay_loop
  replay_loop-last_shape k f fs st h =
      let (here, later) = enough-head K x cost f fs st.tags.counter h in
      let (r, turn) = replay_feature-Turn K x cost k 0 f st here in
      rw (r, replay_loop)
        (replay_loop-shape k 1 f.id fs (replay_feature K x 0 f st).1 (later _ turn.counter)
          turn.shape)

  get_shape_at-replay_loop :
      Spends K x cost
      → (f : Feature) (fs gs : List Feature) (st : ReplayState K x)
      → st.tags.counter + total K x cost (f ∷ fs) ≤ int64_max
      → gs ≡ f ∷ fs
      → get_shape_at K (last_id f.id fs) (replay_loop K x 0 gs st).1.tree
        ≡ (replay_loop K x 0 gs st).1.current
  unfolding get_shape_at
  get_shape_at-replay_loop k f fs gs st h e =
      subst
        (λ gs.
          get_shape_at K (last_id f.id fs) (replay_loop K x 0 gs st).1.tree
          ≡ (replay_loop K x 0 gs st).1.current)
        (sym e)
        (ap (λ o. elim o [ none ↦ K.no_shape | some s ↦ s ]) (replay_loop-last_shape k f fs st h))

  -- If executing a feature advances the counter by at most what it costs, while that does not take it
  -- past INT64_MAX, the features as they are executed cost at most INT64_MAX together, and the tree
  -- has features, then getShapeAt of the last one gives after a full replay the shape that the replay
  -- returned.
  pub get_shape_at-replay :
      (t : FeatureTree K.Named) (tags : TagAllocator) (f : Feature) (fs : List Feature)
      → Spends K x cost
      → total K x cost (f ∷ fs) ≤ int64_max
      → t.features ≡ f ∷ fs
      → get_shape_at K (last_id f.id fs) (replay K x t tags).1.tree ≡ (replay K x t tags).1.current
  unfolding replay_at mark_dirty_from start_over reset_counter_only
  get_shape_at-replay t tags f fs k enough e = rw (replay-eq-replay_at K x t tags) (
      get_shape_at-replay_loop k f fs t.features
        (record (start_over K x t tags) { tree = mark_dirty_from 0 (start_over K x t tags).tree })
        (omega (arith, enough)) e)
