-- ===== src/Tree/Deterministic/Loop.antt =====
-- The loop of a replay keeps what two states agree on (feature/feature_tree.cpp, replayFrom).
use oreo_kernel.Prelude.{
  ℕ, suc, Bool, true, false, ◌≡◌, inl, inr, refl, sym, ap, ap₂, ◌∙◌, List, [], ◌∷◌, Option, none,
  some, if◌then◌else◌, string_eq, Bool-cases, Option-cases, Result-cases,
}
use oreo_kernel.Prelude.Dict.{lookup, insert}
use oreo_kernel.Feature.{Feature, FeatureStatus, suppressed_status}
use oreo_kernel.Tags.{TagAllocator, SnapshotV2, snapshot_v2}
use oreo_kernel.Tree.{FeatureTree}
use oreo_kernel.Tree.Resolve.{Shapes}
use oreo_kernel.Tree.Replay.{
  Executor, ReplayState, finish, replay_dirty, is_dirty, use_cache_or_dispatch, replay_feature,
  replay_loop,
}
use oreo_kernel.Tree.Deterministic.{
  plain, SameFeatures, SameTags, IsDeterministic, SameDirty, SameDirty-insert, Agree, finish-agrees,
  replay_dirty-agrees,
}

module _ (K : Shapes) (x : Executor K) (det : IsDeterministic K x) where
  -- What the loop keeps between two states, with the features that are left.
  unfoldable pub AgreeFor : List Feature → ReplayState K x → ReplayState K x → Type 0
  AgreeFor fs st st' = Agree K x det st st' × SameDirty fs st.tree.dirty st'.tree.dirty

  replay_dirty-keeps :
      (i : ℕ) (f g : Feature) (fs : List Feature) (st st' : ReplayState K x)
      → plain f ≡ plain g
      → AgreeFor fs st st'
      → AgreeFor fs (replay_dirty K x i f st) (replay_dirty K x i g st')
  unfolding AgreeFor replay_dirty finish
  replay_dirty-keeps i f g fs st st' e (a, d) = (
    replay_dirty-agrees K x det i f g st st' e a,
    rw (sym (ap (λ h. h.id) e)) (SameDirty-insert fs f.id false st.tree.dirty st'.tree.dirty d),
  )

  is_dirty-agrees :
      (f g : Feature) (t t' : FeatureTree K.Named)
      → f.id ≡ g.id
      → lookup f.id t.dirty ≡ lookup f.id t'.dirty
      → is_dirty K x f t ≡ is_dirty K x g t'
  unfolding is_dirty
  is_dirty-agrees f g t t' e d =
      ap (λ o. elim o [ none ↦ false | some b ↦ b ]) (d ∙ ap (λ k. lookup k t'.dirty) e)

  -- The dirty entry is written, and nothing else changes.
  touched-agrees :
      (f g : Feature) (fs : List Feature) (st st' : ReplayState K x)
      → f.id ≡ g.id
      → AgreeFor fs st st'
      → AgreeFor fs
          (record st { tree = record st.tree { dirty = insert f.id false st.tree.dirty } })
          (record st' { tree = record st'.tree { dirty = insert g.id false st'.tree.dirty } })
  unfolding AgreeFor
  touched-agrees f g fs st st' e (a, d) = (
    record {
      features = a.features;
      cache = a.cache;
      snapshots = a.snapshots;
      tags = a.tags;
      current = a.current;
    },
    rw (sym e) (SameDirty-insert fs f.id false st.tree.dirty st'.tree.dirty d),
  )

  with_current-agrees :
      (fs : List Feature) (st st' : ReplayState K x) (s : K.Named)
      → AgreeFor fs st st'
      → AgreeFor fs (record st { current = s }) (record st' { current = s })
  unfolding AgreeFor
  with_current-agrees fs st st' s (a, d) = (
    record {
      features = a.features;
      cache = a.cache;
      snapshots = a.snapshots;
      tags = a.tags;
      current = refl;
    },
    d,
  )

  cached-agrees :
      (f g : Feature) (fs : List Feature) (st st' : ReplayState K x)
      → f.id ≡ g.id
      → AgreeFor fs st st'
      → lookup f.id st.tree.cache ≡ lookup g.id st'.tree.cache
  unfolding AgreeFor
  cached-agrees f g fs st st' e (a, d) = ap₂ (λ k m. lookup k m) e a.cache

  use_cache_or_dispatch-keeps :
      (i : ℕ) (f g : Feature) (fs : List Feature) (st st' : ReplayState K x)
      → plain f ≡ plain g
      → lookup f.id st.tree.dirty ≡ lookup f.id st'.tree.dirty
      → AgreeFor fs st st'
      → AgreeFor fs (use_cache_or_dispatch K x i f st) (use_cache_or_dispatch K x i g st')
  unfolding use_cache_or_dispatch AgreeFor
  use_cache_or_dispatch-keeps i f g fs st st' e d h = elim (Bool-cases (is_dirty K x f st.tree)) [
    | inl b ↦ rw (b, same b, use_cache_or_dispatch) (replay_dirty-keeps i f g fs st st' e h)
    | inr b ↦ elim (Option-cases (lookup f.id st.tree.cache)) [
      | inl c ↦
          rw (b, same b, c, cached c, use_cache_or_dispatch)
            (replay_dirty-keeps i f g fs _ _ e (touched-agrees f g fs st st' id h))
      | inr (s, c) ↦
          rw (b, same b, c, cached c, use_cache_or_dispatch)
            (with_current-agrees fs _ _ s (touched-agrees f g fs st st' id h))
    ]
  ]
    where
      id : f.id ≡ g.id
      id = ap (λ h. h.id) e

      same : {v : Bool} → is_dirty K x f st.tree ≡ v → is_dirty K x g st'.tree ≡ v
      same b = sym (is_dirty-agrees f g st.tree st'.tree id d) ∙ b

      cached : {v : Option K.Named} → lookup f.id st.tree.cache ≡ v → lookup g.id st'.tree.cache ≡ v
      cached c = sym (cached-agrees f g fs st st' id h) ∙ c

  snapshot_v2-agrees : (a b : TagAllocator) → SameTags a b → snapshot_v2 a ≡ snapshot_v2 b
  unfolding snapshot_v2
  snapshot_v2-agrees a b s = rw (s.document, s.counter)

  recorded-agrees :
      (f g : Feature) (fs : List Feature) (snap : SnapshotV2) (st st' : ReplayState K x)
      → f.id ≡ g.id
      → AgreeFor fs st st'
      → AgreeFor fs
          (record st {
            tree = record st.tree { snapshots_before = insert f.id snap st.tree.snapshots_before };
          })
          (record st' {
            tree = record st'.tree {
              snapshots_before = insert g.id snap st'.tree.snapshots_before;
            };
          })
  unfolding AgreeFor
  recorded-agrees f g fs snap st st' e (a, d) = (
    record {
      features = a.features;
      cache = a.cache;
      snapshots = ap₂ (λ k m. insert k snap m) e a.snapshots;
      tags = a.tags;
      current = a.current;
    },
    d,
  )

  finished-keeps :
      (i : ℕ) (f g : Feature) (fs : List Feature) (s : FeatureStatus) (st st' : ReplayState K x)
      → f.id ≡ g.id
      → AgreeFor fs st st'
      → AgreeFor fs
          (finish K x i f s st.current st.tags st)
          (finish K x i g s st'.current st'.tags st')
  unfolding AgreeFor finish
  finished-keeps i f g fs s st st' e (a, d) = (
    finish-agrees K x det i f g s s _ _ _ _ st st' e refl a.current a.tags a,
    rw (sym e) (SameDirty-insert fs f.id false st.tree.dirty st'.tree.dirty d),
  )

  choose-keeps :
      (fs : List Feature) (b b' : Bool) (y y' n n' : ReplayState K x)
      → b ≡ b'
      → AgreeFor fs y y'
      → AgreeFor fs n n'
      → AgreeFor fs (if b then y else n) (if b' then y' else n')
  choose-keeps fs true true y y' n n' e h k = h
  choose-keeps fs false false y y' n n' e h k = k
  choose-keeps fs true false y y' n n' e h k = cc
  choose-keeps fs false true y y' n n' e h k = cc

  replay_feature-keeps :
      (i : ℕ) (f g : Feature) (fs : List Feature) (st st' : ReplayState K x)
      → plain f ≡ plain g
      → lookup f.id st.tree.dirty ≡ lookup f.id st'.tree.dirty
      → AgreeFor fs st st'
      → snapshot_v2 st.tags ≡ snapshot_v2 st'.tags
      → ((replay_feature K x i f st).0 ≡ (replay_feature K x i g st').0)
        × AgreeFor fs (replay_feature K x i f st).1 (replay_feature K x i g st').1
  unfolding replay_feature
  replay_feature-keeps i f g fs st st' e d h same =
      let id : f.id ≡ g.id = ap (λ h. h.id) e in
      let sup : f.suppressed ≡ g.suppressed = ap (λ h. h.suppressed) e in
      elim (Result-cases (snapshot_v2 st.tags)) [
        | inl (ex, p) ↦ rw (p, sym same ∙ p, replay_feature) (refl, h)
        | inr (snap, p) ↦
            rw (p, sym same ∙ p, replay_feature)
              (
                refl,
                choose-keeps fs f.suppressed g.suppressed _ _ _ _ sup
                    (finished-keeps i f g fs suppressed_status _ _ id
                      (recorded-agrees f g fs snap st st' id h))
                    (use_cache_or_dispatch-keeps i f g fs _ _ e d
                      (recorded-agrees f g fs snap st st' id h)),
              )
      ]

  pub replay_loop-keeps :
      (i : ℕ) (fs gs : List Feature) (st st' : ReplayState K x)
      → SameFeatures fs gs
      → AgreeFor fs st st'
      → ((replay_loop K x i fs st).0 ≡ (replay_loop K x i gs st').0)
        × Agree K x det (replay_loop K x i fs st).1 (replay_loop K x i gs st').1
  unfolding replay_loop AgreeFor
  replay_loop-keeps i [] [] st st' h (a, d) = (refl, a)
  replay_loop-keeps i [] (g ∷ gs) st st' h k = cc
  replay_loop-keeps i (f ∷ fs) [] st st' h k = cc
  replay_loop-keeps i (f ∷ fs) (g ∷ gs) st st' (e, h) (a, (d, ds)) =
      let (r, k) =
        replay_feature-keeps i f g fs st st' e d (a, ds)
          (snapshot_v2-agrees st.tags st'.tags a.tags) in
      elim (Result-cases (replay_feature K x i f st).0) [
        | inl (ex, p) ↦ rw (p, sym r ∙ p, replay_loop) (refl, k.0)
        | inr (u, p) ↦ rw (p, sym r ∙ p, replay_loop) (replay_loop-keeps (suc i) fs gs _ _ h k)
      ]
