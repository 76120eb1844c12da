-- ===== src/Tree/ReplayLaws.antt =====
-- What a full replay leaves (feature/feature_tree.cpp, FeatureTree::replay).
use oreo_kernel.Prelude.{
  String, Bool, true, ◌≡◌, inl, inr, refl, sym, ap, ◌∙◌, List, [], ◌∷◌, some, arith, ◌==◌,
  string_eq, Bool-cases, beq_refl, eq_iff,
}
use oreo_kernel.Prelude.Dict.{Dict, lookup, insert, lookup-insert}
use oreo_kernel.Feature.{Feature}
use oreo_kernel.Tags.{TagAllocator, reset_counter_only}
use oreo_kernel.Tree.{FeatureTree, mark_all, mark_dirty_from, find_index}
use oreo_kernel.Tree.Resolve.{Shapes}
use oreo_kernel.Tree.Replay.{
  Executor, ReplayState, replay_at, replay_from_index, replay_from, replay, first_id,
}
use oreo_kernel.Tree.Deterministic.{SameFeatures, SameTags, IsDeterministic, SameDirty}
use oreo_kernel.Tree.Deterministic.Loop.{AgreeFor, replay_loop-keeps}

abbrev Marked : List Feature → Dict String Bool → Type 0
Marked [] d = Unit
Marked (f ∷ fs) d = (lookup f.id d ≡ some true) × Marked fs d

mark_all_keeps :
    (id : String) (fs : List Feature) (d : Dict String Bool)
    → lookup id d ≡ some true
    → lookup id (mark_all fs d) ≡ some true
unfolding mark_all
mark_all_keeps id [] d h = h
mark_all_keeps id (f ∷ fs) d h =
    mark_all_keeps id fs (insert f.id true d) (ground (arith, lookup-insert f.id id true d))

mark_all-Marked : (fs : List Feature) (d : Dict String Bool) → Marked fs (mark_all fs d)
unfolding mark_all
mark_all-Marked [] d = tt
mark_all-Marked (f ∷ fs) d = (
  mark_all_keeps f.id fs (insert f.id true d)
      (ground (arith, lookup-insert f.id f.id true d, eq_iff f.id f.id)),
  mark_all-Marked fs (insert f.id true d),
)

SameDirty-Marked :
    (fs gs : List Feature) (d d' : Dict String Bool)
    → SameFeatures fs gs
    → Marked fs d
    → Marked gs d'
    → SameDirty fs d d'
SameDirty-Marked [] gs d d' h m n = tt
SameDirty-Marked (f ∷ fs) [] d d' h m n = cc
SameDirty-Marked (f ∷ fs) (g ∷ gs) d d' (e, h) (m, ms) (n, ns) =
    (m ∙ sym (ap (λ p. lookup p.id d') e ∙ n), SameDirty-Marked fs gs d d' h ms ns)

module _ (K : Shapes) (x : Executor K) where
  unfoldable pub start_over : FeatureTree K.Named → TagAllocator → ReplayState K x
  start_over t tags = record {
    tree = record t { cache = []; dirty = mark_all t.features t.dirty; snapshots_before = [] };
    tags = reset_counter_only tags;
    current = K.no_shape;
  }

  -- The id that replay starts from is found first.
  pub replay-eq-replay_at :
      (t : FeatureTree K.Named) (tags : TagAllocator)
      → replay K x t tags ≡ replay_at K x 0 (start_over t tags)
  unfolding replay replay_from replay_from_index find_index start_over reset_counter_only
  replay-eq-replay_at t tags = go t.features
    where
      go :
          (fs : List Feature)
          → replay_from K x
              (first_id K x fs)
              (record t {
                features = fs;
                cache = [];
                dirty = mark_all fs t.dirty;
                snapshots_before = [];
              })
              (reset_counter_only tags)
            ≡ replay_at K x 0 (start_over (record t { features = fs }) tags)
      go [] = refl
      go (f ∷ fs) = elim (Bool-cases (f.id == "")) [ inl e ↦ rw e | inr e ↦ rw (e, beq_refl f.id) ]

  -- If the execution of a feature depends only on the feature without its status, the shape so far,
  -- what its references resolve to, and the allocator's document and counter, and the transformer, if
  -- one is installed, gives the same for features that agree but for their statuses, then a full
  -- replay does not depend on what earlier replays left: for trees whose features agree but for their
  -- statuses, and allocators of one document, it returns or throws alike, and leaves the same shape,
  -- cached shapes and snapshots, and allocators that issue the same identities. A transformer that
  -- copies the status, as resolveConfigRefs does, does not meet the condition.
  pub replay-deterministic :
      (t t' : FeatureTree K.Named) (tags tags' : TagAllocator)
      → IsDeterministic K x
      → SameFeatures t.features t'.features
      → tags.document_id ≡ tags'.document_id
      → let r = replay K x t tags in
        let r' = replay K x t' tags' in
        (r.0 ≡ r'.0)
        × (r.1.current ≡ r'.1.current)
        × (r.1.tree.cache ≡ r'.1.tree.cache)
        × (r.1.tree.snapshots_before ≡ r'.1.tree.snapshots_before)
        × SameTags r.1.tags r'.1.tags
  unfolding replay_at mark_dirty_from start_over AgreeFor reset_counter_only
  replay-deterministic t t' tags tags' det h doc =
      let d = mark_all t.features t.dirty in
      let d' = mark_all t'.features t'.dirty in
      let (r, a) =
        replay_loop-keeps K x det 0 t.features t'.features
          (record (start_over t tags) { tree = mark_dirty_from 0 (start_over t tags).tree })
          (record (start_over t' tags') { tree = mark_dirty_from 0 (start_over t' tags').tree }) h
          (
            record {
              features = h;
              cache = refl;
              snapshots = refl;
              tags = record { document = doc; counter = refl };
              current = refl;
            },
            SameDirty-Marked t.features t'.features (mark_all t.features d)
                (mark_all t'.features d') h (mark_all-Marked t.features d)
                (mark_all-Marked t'.features d'),
          ) in
      rw (replay-eq-replay_at t tags, replay-eq-replay_at t' tags')
        (r, a.current, a.cache, a.snapshots, a.tags)
