-- ===== src/Tree.antt =====
-- feature/feature_tree.{h,cpp}: the feature tree, its state and the operations that edit it.
-- The shapes in the cache are OCCT's, so their type is a parameter. The bound context is passed
-- beside the tree where it is used, and a diagnostic that only reports a refusal is left out.
pub mod Refs
pub mod Find
pub mod Unique
pub mod Edits
pub mod Resolve
pub mod Replay
pub mod Deterministic
pub mod ReplayLaws
pub mod Settled
pub mod View
pub mod LastShape
pub mod ResolveLaws
use oreo_kernel.Prelude.{
  ℕ, zero, suc, ◌+◌, ◌-◌, String, Bool, true, false, List, [], ◌∷◌, ◌++◌, Option, none, some, ltb,
  leb, nat_beq, if◌then◌else◌, length, get_elem?, drop, insert_at, erase_at, modify_at, ◌==◌,
  string_eq,
}
use oreo_kernel.Prelude.Int.{ℤ, pos, negsuc}
use oreo_kernel.Prelude.Dict.{Dict, insert, erase}
use oreo_kernel.Tags.{SnapshotV2}
use oreo_kernel.Feature.{Feature, ParamValue}

pub record FeatureTree (S : Type 0) : Type 0 where
  pub features : List Feature
  pub cache : Dict String S
  pub dirty : Dict String Bool
  pub snapshots_before : Dict String SnapshotV2
  pub rollback_index : ℤ

abbrev pub empty_tree : {S : Type 0} → FeatureTree S
empty_tree = record {
  features = [];
  cache = [];
  dirty = [];
  snapshots_before = [];
  rollback_index = negsuc 0;
}

-- The loop of findIndex; none stands for -1.
unfoldable pub find_index : String → List Feature → Option ℕ
find_index id [] = none
find_index id (f ∷ fs) =
    if f.id == id then some 0 else elim (find_index id fs) [ none ↦ none | some i ↦ some (suc i) ]

-- dirty_[f.id] = true for every feature of a list.
unfoldable pub mark_all : List Feature → Dict String Bool → Dict String Bool
mark_all [] dirty = dirty
mark_all (f ∷ fs) dirty = mark_all fs (insert f.id true dirty)

-- An index of type int, clamped from below.
unfoldable pub clamp_zero : ℤ → ℕ
clamp_zero (pos i) = i
clamp_zero (negsuc _) = 0

-- newIndex clamped to [0, n); n is positive where it is called.
unfoldable pub clamp_index : ℤ → ℕ → ℕ
unfolding clamp_zero
clamp_index index n = let low = clamp_zero index in if leb n low then n - 1 else low

module _ {S : Type 0} where
  unfoldable pub mark_dirty_from : ℕ → FeatureTree S → FeatureTree S
  mark_dirty_from i t = record t { dirty = mark_all (drop i t.features) t.dirty }

  unfoldable pub add_feature : Feature → FeatureTree S → Bool × FeatureTree S
  add_feature f t = elim (find_index f.id t.features) [
    | some _ ↦ (false, t)
    | none ↦ (true, record t { features = t.features ++ f ∷ []; dirty = insert f.id true t.dirty })
  ]

  unfoldable pub insert_feature : ℤ → Feature → FeatureTree S → Bool × FeatureTree S
  unfolding clamp_zero
  insert_feature index f t = elim (find_index f.id t.features) [
    | some _ ↦ (false, t)
    | none ↦
        let low = clamp_zero index in
        let at = if ltb (length t.features) low then length t.features else low in
        (true, mark_dirty_from at (record t { features = insert_at at f t.features }))
  ]

  unfoldable pub remove_feature : String → FeatureTree S → Bool × FeatureTree S
  remove_feature id t = elim (find_index id t.features) [
    | none ↦ (false, t)
    | some i ↦ (
      true,
      mark_dirty_from i (record t {
        features = erase_at i t.features;
        cache = erase id t.cache;
        dirty = erase id t.dirty;
        snapshots_before = erase id t.snapshots_before;
      }),
    )
  ]

  -- A change of one feature in place, by id.
  unfoldable pub change_feature : String → (Feature → Feature) → FeatureTree S → FeatureTree S
  change_feature id change t = elim (find_index id t.features) [
    | none ↦ t
    | some i ↦ mark_dirty_from i (record t { features = modify_at i change t.features })
  ]

  unfoldable pub update_parameter : String → String → ParamValue → FeatureTree S → FeatureTree S
  update_parameter id name value =
      change_feature id (λ f. record f { params = insert name value f.params })

  unfoldable pub suppress_feature : String → Bool → FeatureTree S → FeatureTree S
  suppress_feature id suppress = change_feature id (λ f. record f { suppressed = suppress })

  -- The move itself, between two indices in range.
  unfoldable pub move_at : ℕ → ℕ → FeatureTree S → FeatureTree S
  move_at old new t = elim (get_elem? t.features old) [
    | none ↦ t
    | some f ↦
        mark_dirty_from (if ltb new old then new else old)
          (record t { features = insert_at new f (erase_at old t.features) })
  ]

  -- Moving a feature to where it stands changes nothing.
  unfoldable pub move_to : ℕ → ℕ → FeatureTree S → FeatureTree S
  move_to old new t = if nat_beq new old then t else move_at old new t

  unfoldable pub move_feature : String → ℤ → FeatureTree S → Bool × FeatureTree S
  move_feature id index t = elim (find_index id t.features) [
    | none ↦ (false, t)
    | some old ↦ (true, move_to old (clamp_index index (length t.features)) t)
  ]

  unfoldable pub get_feature : String → FeatureTree S → Option Feature
  get_feature id t = elim (find_index id t.features) [
    | none ↦ none
    | some i ↦ get_elem? t.features i
  ]

  unfoldable pub set_rollback_index : ℤ → FeatureTree S → FeatureTree S
  set_rollback_index (negsuc _) t = record t { rollback_index = negsuc 0 }
  set_rollback_index (pos i) t = record t {
    rollback_index =
        if leb (length t.features) i
        then (if nat_beq (length t.features) 0 then negsuc 0 else pos (length t.features - 1))
        else pos i;
  }
