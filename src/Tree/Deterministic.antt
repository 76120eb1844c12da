-- ===== src/Tree/Deterministic.antt =====
-- Replay is deterministic (feature/feature_tree.cpp, FeatureTree::replay).
pub mod Loop
use oreo_kernel.Prelude.{
  ℕ, zero, suc, String, Bool, true, false, ◌≡◌, inl, inr, refl, sym, ap, ap₂, ◌∙◌, List, [], ◌∷◌,
  Option, none, some, arith, if◌then◌else◌, string_eq, modify_at, Result, Bool-cases, Option-cases,
  Result-cases,
}
use oreo_kernel.Prelude.Dict.{Dict, lookup, insert, lookup-insert}
use oreo_kernel.Feature.{Feature, FeatureStatus, ElementRef, not_executed, suppressed_status}
use oreo_kernel.Tags.{TagAllocator, SnapshotV2, snapshot_v2}
use oreo_kernel.Tree.{FeatureTree}
use oreo_kernel.Tree.Resolve.{Shapes, ResolvedRef, resolve_reference, is_suppressed}
use oreo_kernel.Tree.Replay.{
  Executor, is_broken, ReplayState, finish, run_feature, dispatch_transformed, dispatch,
  replay_dirty, is_dirty, use_cache_or_dispatch, replay_feature, replay_loop,
}

-- A feature without the status that its last execution left.
abbrev pub plain : Feature → Feature
plain f = record f { status = not_executed }

-- Lists of features that agree but for the statuses.
abbrev pub SameFeatures : List Feature → List Feature → Type 0
SameFeatures [] [] = Unit
SameFeatures (f ∷ fs) (g ∷ gs) = (plain f ≡ plain g) × SameFeatures fs gs
SameFeatures [] (g ∷ gs) = true ≡ false
SameFeatures (f ∷ fs) [] = true ≡ false

-- Allocators that issue the same identities.
pub record SameTags (a b : TagAllocator) : Type 0 where
  pub document : a.document_id ≡ b.document_id
  pub counter : a.counter ≡ b.counter

-- What the execution of a feature may depend on: the feature but for its status, the shape so far,
-- what its references resolve to, and of the allocator the document and the counter.
pub record IsDeterministic (K : Shapes) (x : Executor K) : Type 0 where
  pub execute :
      (a b : TagAllocator) (f g : Feature) (s : K.Named) (r q : ElementRef → Result (ResolvedRef K))
      → SameTags a b
      → plain f ≡ plain g
      → ((e : ElementRef) → r e ≡ q e)
      → ((x.execute a f s r).value ≡ (x.execute b g s q).value)
        × ((x.execute a f s r).status ≡ (x.execute b g s q).status)
        × SameTags (x.execute a f s r).tags (x.execute b g s q).tags
  pub transform :
      (t : Feature → Feature) (f g : Feature) → x.transform ≡ some t → plain f ≡ plain g → t f ≡ t g

SameFeatures-modify_at :
    (i : ℕ) (s : FeatureStatus) (fs gs : List Feature)
    → SameFeatures fs gs
    → SameFeatures
        (modify_at i (λ f. record f { status = s }) fs)
        (modify_at i (λ f. record f { status = s }) gs)
unfolding modify_at
SameFeatures-modify_at i s [] [] h = tt
SameFeatures-modify_at zero s (f ∷ fs) (g ∷ gs) h = h
SameFeatures-modify_at (suc i) s (f ∷ fs) (g ∷ gs) (e, h) = (e, SameFeatures-modify_at i s fs gs h)
SameFeatures-modify_at i s [] (g ∷ gs) h = cc
SameFeatures-modify_at i s (f ∷ fs) [] h = cc

module _ (K : Shapes) where
  is_suppressed-agrees :
      (fs gs : List Feature) (id : String)
      → SameFeatures fs gs
      → is_suppressed K fs id ≡ is_suppressed K gs id
  unfolding is_suppressed
  is_suppressed-agrees [] [] id h = refl
  is_suppressed-agrees [] (g ∷ gs) id h = cc
  is_suppressed-agrees (f ∷ fs) [] id h = cc
  is_suppressed-agrees (f ∷ fs) (g ∷ gs) id (e, h) =
      ground (arith, is_suppressed-agrees fs gs id h, ap (λ f. f.id) e, ap (λ f. f.suppressed) e)

  resolve_reference-agrees :
      (fs gs : List Feature) (c d : Dict String K.Named) (e : ElementRef)
      → SameFeatures fs gs
      → c ≡ d
      → resolve_reference K fs c e ≡ resolve_reference K gs d e
  unfolding resolve_reference
  resolve_reference-agrees fs gs c d e h k = rw (is_suppressed-agrees fs gs e.feature_id h, k)

-- The features that are left are dirty in both states or in none.
abbrev pub SameDirty : List Feature → Dict String Bool → Dict String Bool → Type 0
SameDirty [] d d' = Unit
SameDirty (f ∷ fs) d d' = (lookup f.id d ≡ lookup f.id d') × SameDirty fs d d'

pub SameDirty-insert :
    (fs : List Feature) (id : String) (b : Bool) (d d' : Dict String Bool)
    → SameDirty fs d d'
    → SameDirty fs (insert id b d) (insert id b d')
SameDirty-insert [] id b d d' h = tt
SameDirty-insert (f ∷ fs) id b d d' (e, h) = (
  lookup-insert id f.id b d ∙ rw e (sym (lookup-insert id f.id b d')),
  SameDirty-insert fs id b d d' h,
)

module _ (K : Shapes) (x : Executor K) (det : IsDeterministic K x) where
  pub record Agree (st st' : ReplayState K x) : Type 0 where
    pub features : SameFeatures st.tree.features st'.tree.features
    pub cache : st.tree.cache ≡ st'.tree.cache
    pub snapshots : st.tree.snapshots_before ≡ st'.tree.snapshots_before
    pub tags : SameTags st.tags st'.tags
    pub current : st.current ≡ st'.current

  -- Outcomes of a dispatch that agree.
  abbrev SameOutcome :
      FeatureStatus × K.Named × TagAllocator → FeatureStatus × K.Named × TagAllocator → Type 0
  SameOutcome o p = (o.0 ≡ p.0) × (o.1 ≡ p.1) × SameTags o.2 p.2

  run_feature-agrees :
      (f g : Feature) (st st' : ReplayState K x)
      → plain f ≡ plain g
      → Agree st st'
      → SameOutcome (run_feature K x f st) (run_feature K x g st')
  unfolding run_feature
  run_feature-agrees f g st st' e a =
      let r = resolve_reference K st.tree.features st.tree.cache in
      let q = resolve_reference K st'.tree.features st'.tree.cache in
      let (v, s, t) = det.execute st.tags st'.tags f g st.current r q a.tags e (λ ref.
        resolve_reference-agrees K st.tree.features st'.tree.features st.tree.cache st'.tree.cache
          ref a.features a.cache) in
      rw (sym a.current, sym v, sym s) (refl, refl, t)

  dispatch_transformed-agrees :
      (f : Feature) (st st' : ReplayState K x)
      → Agree st st'
      → SameOutcome (dispatch_transformed K x f st) (dispatch_transformed K x f st')
  unfolding dispatch_transformed
  dispatch_transformed-agrees f st st' a = elim (Bool-cases (is_broken f.status)) [
    | inl e ↦ rw (e, dispatch_transformed) (refl, a.current, a.tags)
    | inr e ↦ rw (e, dispatch_transformed) (run_feature-agrees f f st st' refl a)
  ]

  dispatch-agrees :
      (f g : Feature) (st st' : ReplayState K x)
      → plain f ≡ plain g
      → Agree st st'
      → SameOutcome (dispatch K x f st) (dispatch K x g st')
  unfolding dispatch
  dispatch-agrees f g st st' e a = elim (Option-cases x.transform) [
    | inl n ↦ rw (n, dispatch) (run_feature-agrees f g st st' e a)
    | inr (t, n) ↦
        rw (n, dispatch, sym (det.transform t f g n e)) (dispatch_transformed-agrees (t f) st st' a)
  ]

  pub finish-agrees :
      (i : ℕ) (f g : Feature) (s s' : FeatureStatus) (n n' : K.Named) (t t' : TagAllocator)
      (st st' : ReplayState K x)
      → f.id ≡ g.id
      → s ≡ s'
      → n ≡ n'
      → SameTags t t'
      → Agree st st'
      → Agree (finish K x i f s n t st) (finish K x i g s' n' t' st')
  unfolding finish
  finish-agrees i f g s s' n n' t t' st st' e es en et a = record {
    features =
        rw (sym es) (SameFeatures-modify_at i s st.tree.features st'.tree.features a.features);
    cache = cc (e, en, a.cache);
    snapshots = a.snapshots;
    tags = et;
    current = en;
  }

  pub replay_dirty-agrees :
      (i : ℕ) (f g : Feature) (st st' : ReplayState K x)
      → plain f ≡ plain g
      → Agree st st'
      → Agree (replay_dirty K x i f st) (replay_dirty K x i g st')
  unfolding replay_dirty
  replay_dirty-agrees i f g st st' e a =
      let (s, n, t) = dispatch-agrees f g st st' e a in
      finish-agrees i f g _ _ _ _ _ _ st st' (ap (λ h. h.id) e) s n t a
