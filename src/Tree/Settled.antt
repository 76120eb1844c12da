-- ===== src/Tree/Settled.antt =====
-- A full replay returns, and leaves every feature clean and cached (feature/feature_tree.cpp).
use mathlib.Core.Path.{subst}
use oreo_kernel.Prelude.{
  Option, none, ℕ, suc, ◌+◌, ◌≤◌, String, Bool, true, false, ◌≡◌, inl, inr, refl, List, [], ◌∷◌,
  some, arith, if◌then◌else◌, string_eq, Result, ok, Bool-cases, Option-cases, eq_iff,
}
use oreo_kernel.Prelude.Dict.{lookup, insert, contains, lookup-insert}
use oreo_kernel.Feature.{Feature, ElementRef, FeatureStatus, suppressed_status}
use oreo_kernel.Identity.Scalar.{int64_max}
use oreo_kernel.Tags.{TagAllocator, SnapshotV2, reset_counter_only, snapshot_v2}
use oreo_kernel.Tree.{FeatureTree, mark_dirty_from}
use oreo_kernel.Tree.Resolve.{Shapes, ResolvedRef, resolve_reference}
use oreo_kernel.Tree.Replay.{
  Executor, ReplayState, replay_loop, replay_at, replay, finish, run_feature, dispatch_transformed,
  dispatch, replay_dirty, use_cache_or_dispatch, replay_feature, is_dirty,
}
use oreo_kernel.Tree.ReplayLaws.{start_over, replay-eq-replay_at}

-- The feature with the id needs no replay, and its shape is cached.
abbrev pub IsSettled : {S : Type 0} → String → FeatureTree S → Type 0
IsSettled id t = (lookup id t.dirty ≡ some false) × (contains id t.cache ≡ true)

abbrev pub AllSettled : {S : Type 0} → List Feature → FeatureTree S → Type 0
AllSettled [] t = Unit
AllSettled (f ∷ fs) t = IsSettled f.id t × AllSettled fs t

module _ (K : Shapes) (x : Executor K) (cost : Feature → ℕ) where
  -- Executing a feature advances the counter by at most what it costs, while that does not take it
  -- past INT64_MAX.
  abbrev pub Spends : Type 0
  Spends =
      (a : TagAllocator) (f : Feature) (s : K.Named) (r : ElementRef → Result (ResolvedRef K))
      → a.counter + cost f ≤ int64_max
      → (x.execute a f s r).tags.counter ≤ a.counter + cost f

  -- The cost of a feature as it is executed, and of a list of features.
  abbrev pub charge : Feature → ℕ
  charge f = elim x.transform [ none ↦ cost f | some t ↦ cost (t f) ]

  abbrev pub total : List Feature → ℕ
  total [] = 0
  total (f ∷ fs) = charge f + total fs

  run_feature-counter :
      Spends
      → (f : Feature) (st : ReplayState K x) → st.tags.counter + cost f ≤ int64_max
      → (run_feature K x f st).2.counter ≤ st.tags.counter + cost f
  unfolding run_feature
  run_feature-counter k f st h =
      k st.tags f st.current (resolve_reference K st.tree.features st.tree.cache) h

  dispatch-counter :
      Spends
      → (f : Feature) (st : ReplayState K x) → st.tags.counter + charge f ≤ int64_max
      → (dispatch K x f st).2.counter ≤ st.tags.counter + charge f
  unfolding dispatch dispatch_transformed
  dispatch-counter k f st h = elim (Option-cases x.transform) [
    | inl n ↦ rw (n, dispatch) (run_feature-counter k f st (subst (λ o. Fits o f st) n h))
    | inr (t, n) ↦ rw (n, dispatch) (transformed t (subst (λ o. Fits o f st) n h))
  ]
    where
      Fits : Option (Feature → Feature) → Feature → ReplayState K x → Type 0
      Fits o f st = st.tags.counter + elim o [ none ↦ cost f | some t ↦ cost (t f) ] ≤ int64_max

      transformed :
          (t : Feature → Feature)
          → st.tags.counter + cost (t f) ≤ int64_max
          → (dispatch_transformed K x (t f) st).2.counter ≤ st.tags.counter + cost (t f)
      transformed t e = ground (arith, run_feature-counter k (t f) st e)

  -- What a turn that ends in `st'` leaves of `st`, for the feature with the id.
  pub record Turn (n : ℕ) (id : String) (st st' : ReplayState K x) : Type 0 where
    pub counter : st'.tags.counter ≤ st.tags.counter + n
    pub settles : IsSettled id st'.tree
    pub shape : lookup id st'.tree.cache ≡ some st'.current
    pub keeps : (other : String) → IsSettled other st.tree → IsSettled other st'.tree

  finish-Turn :
      (i : ℕ) (f : Feature) (s : FeatureStatus) (n : K.Named) (t : TagAllocator)
      (st : ReplayState K x)
      → t.counter ≤ st.tags.counter + charge f
      → Turn (charge f) f.id st (finish K x i f s n t st)
  unfolding finish contains
  finish-Turn i f s n t st h = record {
    counter = h;
    settles = (
      ground (arith, lookup-insert f.id f.id false st.tree.dirty, eq_iff f.id f.id),
      ground (arith, lookup-insert f.id f.id n st.tree.cache, eq_iff f.id f.id),
    );
    shape = ground (arith, lookup-insert f.id f.id n st.tree.cache, eq_iff f.id f.id);
    keeps = λ id (d, c). (
      ground (arith, lookup-insert f.id id false st.tree.dirty),
      ground (arith, lookup-insert f.id id n st.tree.cache),
    );
  }

  replay_dirty-Turn :
      Spends
      → (i : ℕ) (f : Feature) (st : ReplayState K x) → st.tags.counter + charge f ≤ int64_max
      → Turn (charge f) f.id st (replay_dirty K x i f st)
  unfolding replay_dirty
  replay_dirty-Turn k i f st h = finish-Turn i f _ _ _ st (dispatch-counter k f st h)

  touched : Feature → ReplayState K x → ReplayState K x
  touched f st = record st { tree = record st.tree { dirty = insert f.id false st.tree.dirty } }

  touched-keeps :
      (f : Feature) (st : ReplayState K x) (id : String)
      → IsSettled id st.tree
      → IsSettled id (touched f st).tree
  unfolding touched
  touched-keeps f st id (d, c) = (ground (arith, lookup-insert f.id id false st.tree.dirty), c)

  cached-Turn :
      (f : Feature) (s : K.Named) (st : ReplayState K x)
      → lookup f.id st.tree.cache ≡ some s
      → Turn (charge f) f.id st (record (touched f st) { current = s })
  unfolding touched contains
  cached-Turn f s st e = record {
    counter = omega arith;
    settles = (
      ground (arith, lookup-insert f.id f.id false st.tree.dirty, eq_iff f.id f.id),
      ground arith,
    );
    shape = e;
    keeps = λ id c. touched-keeps f st id c;
  }

  use_cache_or_dispatch-Turn :
      Spends
      → (i : ℕ) (f : Feature) (st : ReplayState K x) → st.tags.counter + charge f ≤ int64_max
      → Turn (charge f) f.id st (use_cache_or_dispatch K x i f st)
  unfolding use_cache_or_dispatch touched
  use_cache_or_dispatch-Turn k i f st h = elim (Bool-cases (is_dirty K x f st.tree)) [
    | inl b ↦ rw (b, use_cache_or_dispatch) (replay_dirty-Turn k i f st h)
    | inr b ↦ elim (Option-cases (lookup f.id st.tree.cache)) [
      | inl c ↦
          let turn = replay_dirty-Turn k i f (touched f st) h in
          rw (b, c, use_cache_or_dispatch)
            (record {
              counter = turn.counter;
              settles = turn.settles;
              shape = turn.shape;
              keeps = λ id s. turn.keeps id (touched-keeps f st id s);
            })
      | inr (s, c) ↦ rw (b, c, use_cache_or_dispatch) (cached-Turn f s st c)
    ]
  ]

  snapshot_v2-ok :
      (a : TagAllocator)
      → a.counter ≤ int64_max
      → snapshot_v2 a ≡ ok (record { counter = a.counter; document_id = a.document_id })
  unfolding snapshot_v2
  snapshot_v2-ok a h = ground arith

  choose-Turn :
      (c : ℕ) (id : String) (b : Bool) (st y n : ReplayState K x)
      → Turn c id st y
      → Turn c id st n
      → Turn c id st (if b then y else n)
  choose-Turn c id true st y n t u = t
  choose-Turn c id false st y n t u = u

  pub replay_feature-Turn :
      Spends
      → (i : ℕ) (f : Feature) (st : ReplayState K x) → st.tags.counter + charge f ≤ int64_max
      → ((replay_feature K x i f st).0 ≡ ok tt)
        × Turn (charge f) f.id st (replay_feature K x i f st).1
  unfolding replay_feature
  replay_feature-Turn k i f st h =
      let snap : SnapshotV2 = record {
        counter = st.tags.counter;
        document_id = st.tags.document_id;
      } in
      let st' : ReplayState K x = record st {
        tree = record st.tree { snapshots_before = insert f.id snap st.tree.snapshots_before };
      } in
      let pass = finish-Turn i f suppressed_status st'.current st'.tags st' (omega arith) in
      let run = use_cache_or_dispatch-Turn k i f st' h in
      rw (snapshot_v2-ok st.tags (omega (arith, h)), replay_feature)
        (
          refl,
          choose-Turn (charge f) f.id f.suppressed st _ _
              (record {
                counter = pass.counter;
                settles = pass.settles;
                shape = pass.shape;
                keeps = pass.keeps;
              })
              (record {
                counter = run.counter;
                settles = run.settles;
                shape = run.shape;
                keeps = run.keeps;
              }),
        )

  -- What is enough for all features is enough for the first, and for the others behind it.
  pub enough-head :
      (f : Feature) (fs : List Feature) (c : ℕ)
      → c + total (f ∷ fs) ≤ int64_max
      → (c + charge f ≤ int64_max) × ((d : ℕ) → d ≤ c + charge f → d + total fs ≤ int64_max)
  enough-head f fs c h = (omega arith, λ d e. omega arith)

  replay_loop-settles :
      Spends
      → (i : ℕ) (fs : List Feature) (st : ReplayState K x) → st.tags.counter + total fs ≤ int64_max
      → ((replay_loop K x i fs st).0 ≡ ok tt)
        × AllSettled fs (replay_loop K x i fs st).1.tree
        × ((other : String)
            → IsSettled other st.tree
            → IsSettled other (replay_loop K x i fs st).1.tree)
  unfolding replay_loop
  replay_loop-settles k i [] st h = (refl, tt, λ other s. s)
  replay_loop-settles k i (f ∷ fs) st h =
      let (here, later) = enough-head f fs st.tags.counter h in
      let (e, turn) = replay_feature-Turn k i f st here in
      let (r, all, keeps) =
        replay_loop-settles k (suc i) fs (replay_feature K x i f st).1 (later _ turn.counter) in
      rw (e, replay_loop)
        (r, (keeps f.id turn.settles, all), λ other s. keeps other (turn.keeps other s))

  -- If executing a feature advances the counter by at most what it costs, while that does not take it
  -- past INT64_MAX, and the features of the tree, as they are executed, cost at most INT64_MAX
  -- together, then a full replay returns, whatever else the tree and the allocator are, and after it
  -- every feature is clean and has a cached shape.
  pub replay-settles :
      (t : FeatureTree K.Named) (tags : TagAllocator)
      → Spends
      → total t.features ≤ int64_max
      → ((replay K x t tags).0 ≡ ok tt) × AllSettled t.features (replay K x t tags).1.tree
  unfolding replay_at mark_dirty_from start_over reset_counter_only
  replay-settles t tags k enough =
      let (r, all, _) =
        replay_loop-settles k 0 t.features
          (record (start_over K x t tags) { tree = mark_dirty_from 0 (start_over K x t tags).tree })
          (omega (arith, enough)) in
      rw (replay-eq-replay_at K x t tags) (r, all)
