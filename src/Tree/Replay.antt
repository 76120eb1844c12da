-- ===== src/Tree/Replay.antt =====
-- feature/feature_tree.cpp: the replay engine, and the shapes that it leaves.
-- How a feature is executed (feature/feature.cpp, executeFeature, and the geometry operations behind
-- it) is given by an Executor. executeFeature catches every std::exception. The diagnostics that
-- replay clears first are left out, and a transformer that throws is not modelled.
use oreo_kernel.Prelude.{
  ℕ, zero, suc, String, Bool, true, false, ◌&&◌, not, List, [], ◌∷◌, Option, none, some,
  if◌then◌else◌, get_elem?, drop, take, modify_at, ◌==◌, string_eq, Result, ok, throw,
}
use oreo_kernel.Prelude.Dict.{Dict, lookup, insert}
use oreo_kernel.Feature.{
  Feature, ElementRef, FeatureStatus, status_ok, broken_reference, execution_failed,
  suppressed_status,
}
use oreo_kernel.Tags.{TagAllocator, snapshot_v2, restore_v2, reset_counter_only}
use oreo_kernel.Tree.{FeatureTree, find_index, mark_all, mark_dirty_from}
use oreo_kernel.Tree.Resolve.{Shapes, ResolvedRef, resolve_reference}

-- What executeFeature leaves: the shape, none for a failure; the status that it set; and the
-- context's allocator.
pub record Executed (K : Shapes) : Type 0 where
  pub value : Option K.Named
  pub status : FeatureStatus
  pub tags : TagAllocator

-- executeFeature, and the transformer, if one is installed.
pub record Executor (K : Shapes) : Type 0 where
  pub execute :
      TagAllocator → Feature → K.Named → (ElementRef → Result (ResolvedRef K)) → Executed K
  pub transform : Option (Feature → Feature)

unfoldable pub is_ok : FeatureStatus → Bool
is_ok status_ok = true
is_ok _ = false

unfoldable pub is_broken : FeatureStatus → Bool
is_broken broken_reference = true
is_broken execution_failed = true
is_broken _ = false

module _ (K : Shapes) (x : Executor K) where
  -- The tree and the context's allocator, and the loop's current shape.
  pub record ReplayState : Type 0 where
    pub tree : FeatureTree K.Named
    pub tags : TagAllocator
    pub current : K.Named

  -- A feature that is done with: its status, the shape that is cached under its id.
  unfoldable pub finish :
      ℕ → Feature → FeatureStatus → K.Named → TagAllocator → ReplayState → ReplayState
  finish i f status shape tags st = record {
    tree = record st.tree {
      features = modify_at i (λ g. record g { status = status }) st.tree.features;
      cache = insert f.id shape st.tree.cache;
      dirty = insert f.id false st.tree.dirty;
    };
    tags = tags;
    current = shape;
  }

  -- The outcome of executeFeature: its shape counts if it is not null and the status is OK. Else the
  -- shape stays the current one.
  unfoldable pub settled : Option K.Named → FeatureStatus → K.Named → FeatureStatus × K.Named
  unfolding is_ok
  settled value status current =
      let failed : FeatureStatus × K.Named =
        (if is_ok status then execution_failed else status, current) in
      elim value [
        | none ↦ failed
        | some shape ↦ if is_ok status && not (K.is_null shape) then (status, shape) else failed
      ]

  unfoldable pub run_feature : Feature → ReplayState → FeatureStatus × K.Named × TagAllocator
  run_feature target st =
      let e =
        x.execute st.tags target st.current (resolve_reference K st.tree.features st.tree.cache) in
      let (status, shape) = settled e.value e.status st.current in (status, shape, e.tags)

  -- The dispatch is on the transformed copy, if there is a transformer.
  unfoldable pub dispatch_transformed :
      Feature → ReplayState → FeatureStatus × K.Named × TagAllocator
  unfolding is_broken
  dispatch_transformed target st =
      if is_broken target.status
      then (target.status, st.current, st.tags)
      else run_feature target st

  unfoldable pub dispatch : Feature → ReplayState → FeatureStatus × K.Named × TagAllocator
  dispatch f st = elim x.transform [
    | none ↦ run_feature f st
    | some transform ↦ dispatch_transformed (transform f) st
  ]

  unfoldable pub replay_dirty : ℕ → Feature → ReplayState → ReplayState
  unfolding finish
  replay_dirty i f st = let (status, shape, tags) = dispatch f st in finish i f status shape tags st

  -- dirty_[f.id], which enters false for a missing key.
  unfoldable pub is_dirty : Feature → FeatureTree K.Named → Bool
  is_dirty f t = elim (lookup f.id t.dirty) [ none ↦ false | some b ↦ b ]

  -- A feature that is not suppressed: a clean one with a cached shape is skipped.
  unfoldable pub use_cache_or_dispatch : ℕ → Feature → ReplayState → ReplayState
  unfolding is_dirty
  use_cache_or_dispatch i f st =
      if is_dirty f st.tree
      then replay_dirty i f st
      else (let seen = record st {
        tree = record st.tree { dirty = insert f.id false st.tree.dirty };
      } in
          elim (lookup f.id st.tree.cache) [
            | some shape ↦ record seen { current = shape }
            | none ↦ replay_dirty i f seen
          ])

  -- One turn of the loop; snapshotV2 can throw.
  unfoldable pub replay_feature : ℕ → Feature → ReplayState → Result (Unit {0}) × ReplayState
  unfolding use_cache_or_dispatch finish
  replay_feature i f st = elim (snapshot_v2 st.tags) [
    | throw e ↦ (throw e, st)
    | ok snap ↦
        let st' = record st {
          tree = record st.tree { snapshots_before = insert f.id snap st.tree.snapshots_before };
        } in
        (
          ok tt,
          if f.suppressed
              then finish i f suppressed_status st'.current st'.tags st'
              else use_cache_or_dispatch i f st',
        )
  ]

  -- The loop, from index i on; a turn changes no feature behind its own.
  unfoldable pub replay_loop : ℕ → List Feature → ReplayState → Result (Unit {0}) × ReplayState
  replay_loop i [] st = (ok tt, st)
  replay_loop i (f ∷ fs) st =
      let turn = replay_feature i f st in
      let rest = replay_loop (suc i) fs turn.1 in
      elim turn.0 [ throw e ↦ (throw e, turn.1) | ok _ ↦ rest ]

  -- markDirtyFrom and the loop.
  unfoldable pub replay_at : ℕ → ReplayState → Result (Unit {0}) × ReplayState
  unfolding replay_loop mark_dirty_from
  replay_at start st =
      let t = mark_dirty_from start st.tree in
      replay_loop start (drop start t.features) (record st { tree = t })

  -- The shape to start on: that of the last feature before that is OK and cached.
  unfoldable pub shape_before : List Feature → Dict String K.Named → K.Named → K.Named
  unfolding is_ok
  shape_before [] cache found = found
  shape_before (f ∷ fs) cache found = shape_before fs cache (
      if not f.suppressed && is_ok f.status
      then elim (lookup f.id cache) [ none ↦ found | some shape ↦ shape ]
      else found)

  -- Without a snapshot to start on, everything is replayed.
  unfoldable pub replay_all : FeatureTree K.Named → TagAllocator → Result (Unit {0}) × ReplayState
  unfolding replay_at
  replay_all t tags = replay_at 0 (record {
    tree = record t { cache = []; snapshots_before = [] };
    tags = reset_counter_only tags;
    current = K.no_shape;
  })

  unfoldable pub replay_from_index :
      ℕ → FeatureTree K.Named → TagAllocator → Result (Unit {0}) × ReplayState
  unfolding replay_at replay_all
  replay_from_index zero t tags =
      replay_at 0 (record { tree = t; tags = reset_counter_only tags; current = K.no_shape })
  replay_from_index (suc i) t tags = elim (get_elem? t.features (suc i)) [
    | none ↦ replay_all t tags
    | some f ↦ elim (lookup f.id t.snapshots_before) [
      | none ↦ replay_all t tags
      | some snap ↦
          let restored = restore_v2 tags snap true in
          let st : ReplayState = record {
            tree = t;
            tags = restored.1;
            current = shape_before (take (suc i) t.features) t.cache K.no_shape;
          } in
          elim restored.0 [ throw e ↦ (throw e, st) | ok _ ↦ replay_at (suc i) st ]
    ]
  ]

  -- An empty id, or one that no feature has, starts at the first feature.
  unfoldable pub replay_from :
      String → FeatureTree K.Named → TagAllocator → Result (Unit {0}) × ReplayState
  unfolding replay_from_index
  replay_from id t tags =
      if id == "" then replay_from_index 0 t tags else elim (find_index id t.features) [
        | none ↦ replay_from_index 0 t tags
        | some i ↦ replay_from_index i t tags
      ]

  abbrev pub first_id : List Feature → String
  first_id [] = ""
  first_id (f ∷ _) = f.id

  unfoldable pub replay : FeatureTree K.Named → TagAllocator → Result (Unit {0}) × ReplayState
  unfolding replay_from
  replay t tags =
      replay_from (first_id t.features)
        (record t { cache = []; dirty = mark_all t.features t.dirty; snapshots_before = [] })
        (reset_counter_only tags)
