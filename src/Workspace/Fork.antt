-- ===== src/Workspace/Fork.antt =====
-- What fork makes of a workspace (feature/workspace.cpp).
use mathlib.Core.Path.{subst}
use mathlib.Core.List.{append_assoc, append-nil}
use oreo_kernel.Prelude.{
  ◌<◌, String, true, false, List, [], ◌∷◌, ◌++◌, ◌==◌, string_eq, eq_iff, length, ◌≡◌, refl, sym,
  ap, ◌∙◌, arith,
}
use oreo_kernel.Prelude.Int.{ℤ, pos, negsuc}
use oreo_kernel.Prelude.Dict.{insert}
use oreo_kernel.Feature.{Feature}
use oreo_kernel.Tree.{
  FeatureTree, empty_tree, find_index, mark_all, add_feature, set_rollback_index,
}
use oreo_kernel.Tree.Unique.{IsAbsent, UniqueIds, IsAbsent-cons, IsAbsent-uncons}
use oreo_kernel.Tree.Edits.{HasUniqueIds}
use oreo_kernel.Workspace.{Workspace, copy_features, fork}

-- The rollback index is -1 or that of a feature.
abbrev pub IsRollback : ℤ → List Feature → Type 0
IsRollback (pos i) fs = i < length fs
IsRollback (negsuc n) fs = n ≡ 0

absent-head :
    (id : String) (gs : List Feature) (f : Feature) (fs : List Feature)
    → IsAbsent id (gs ++ f ∷ fs)
    → (f.id == id) ≡ false
absent-head id [] f fs h = (IsAbsent-uncons id f fs h).0
absent-head id (g ∷ gs) f fs h = absent-head id gs f fs (IsAbsent-uncons id g (gs ++ f ∷ fs) h).1

IsAbsent-nil : (id : String) → IsAbsent id []
unfolding find_index
IsAbsent-nil id = refl

-- With ids that are unique in the whole list, the one in the middle is not before it.
IsAbsent-before :
    (gs : List Feature) (f : Feature) (fs : List Feature)
    → UniqueIds (gs ++ f ∷ fs)
    → IsAbsent f.id gs
IsAbsent-before [] f fs u = IsAbsent-nil f.id
IsAbsent-before (g ∷ gs) f fs (a, u) =
    IsAbsent-cons f.id g gs
      (ground (arith, absent-head g.id gs f fs a, eq_iff f.id g.id, eq_iff g.id f.id))
      (IsAbsent-before gs f fs u)

module _ {S : Type 0} where
  added : Feature → FeatureTree S → FeatureTree S
  added f t = record t { features = t.features ++ f ∷ []; dirty = insert f.id true t.dirty }

  add_feature-absent :
      (f : Feature) (t : FeatureTree S)
      → IsAbsent f.id t.features
      → add_feature f t ≡ (true, added f t)
  unfolding add_feature added
  add_feature-absent f t h = rw (h, add_feature) refl

  copy_features-step :
      (f : Feature) (fs : List Feature) (t : FeatureTree S)
      → IsAbsent f.id t.features
      → copy_features (f ∷ fs) t ≡ copy_features fs (added f t)
  unfolding copy_features
  copy_features-step f fs t h =
      ap (λ r. elim r.0 [ true ↦ copy_features fs r.1 | false ↦ r.1 ]) (add_feature-absent f t h)

  -- Features with new ids are all copied, and are dirty.
  copy_features-all :
      (fs : List Feature) (t : FeatureTree S)
      → UniqueIds (t.features ++ fs)
      → copy_features fs t ≡ record t { features = t.features ++ fs; dirty = mark_all fs t.dirty }
  unfolding mark_all added copy_features
  copy_features-all [] t u = ap (λ fs. record t { features = fs }) (sym (append-nil t.features))
  copy_features-all (f ∷ fs) t u =
      copy_features-step f fs t (IsAbsent-before t.features f fs u)
      ∙ (copy_features-all fs (added f t)
            (subst UniqueIds (sym (append_assoc t.features (f ∷ []) fs)) u)
          ∙ ap (λ gs. record t { features = gs; dirty = mark_all fs (insert f.id true t.dirty) })
              (append_assoc t.features (f ∷ []) fs))

  rollback-kept :
      (i : ℤ) (t : FeatureTree S)
      → IsRollback i t.features
      → set_rollback_index i t ≡ record t { rollback_index = i }
  unfolding set_rollback_index
  rollback-kept (pos i) t h = ap (λ r. record t { rollback_index = r }) (ground arith)
  rollback-kept (negsuc n) t h = ap (λ n. record t { rollback_index = negsuc n }) (sym h)

  -- Forking a workspace whose feature ids are unique and whose rollback index is -1 or that of a
  -- feature gives a branch with the same features in the same order and the same rollback index, all
  -- of them dirty and nothing cached; the features at the fork are its base snapshot.
  pub fork_lem :
      (name : String) (w : Workspace S)
      → HasUniqueIds w.tree
      → IsRollback w.tree.rollback_index w.tree.features
      → fork name w ≡ record {
        tree = record {
          features = w.tree.features;
          cache = [];
          dirty = mark_all w.tree.features [];
          snapshots_before = [];
          rollback_index = w.tree.rollback_index;
        };
        name = name;
        parent_name = w.name;
        base_snapshot = w.tree.features;
        base_snapshot_rollback_index = w.tree.rollback_index;
      }
  unfolding fork
  fork_lem name w u h =
      ap
        (λ t. record {
          tree = t;
          name = name;
          parent_name = w.name;
          base_snapshot = w.tree.features;
          base_snapshot_rollback_index = w.tree.rollback_index;
        })
        (ap (set_rollback_index w.tree.rollback_index)
            (copy_features-all w.tree.features empty_tree u)
          ∙ rollback-kept w.tree.rollback_index _ h)
