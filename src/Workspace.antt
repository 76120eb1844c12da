-- ===== src/Workspace.antt =====
-- feature/workspace.{h,cpp}: a branch of a part, and fork. The shared context is left out, and so is
-- the diagnostic of a copy that is refused.
pub mod Fork
use oreo_kernel.Prelude.{String, true, false, List, [], ◌∷◌}
use oreo_kernel.Prelude.Int.{ℤ, negsuc}
use oreo_kernel.Feature.{Feature}
use oreo_kernel.Tree.{FeatureTree, empty_tree, add_feature, set_rollback_index}

pub record Workspace (S : Type 0) : Type 0 where
  pub tree : FeatureTree S
  pub name : String
  pub parent_name : String
  pub base_snapshot : List Feature
  pub base_snapshot_rollback_index : ℤ

abbrev pub new_workspace : {S : Type 0} → String → Workspace S
new_workspace name = record {
  tree = empty_tree;
  name = name;
  parent_name = "";
  base_snapshot = [];
  base_snapshot_rollback_index = negsuc 0;
}

module _ {S : Type 0} where
  -- The loop ends at the first feature that the tree refuses.
  unfoldable pub copy_features : List Feature → FeatureTree S → FeatureTree S
  unfolding add_feature
  copy_features [] t = t
  copy_features (f ∷ fs) t = elim (add_feature f t).0 [
    | true ↦ copy_features fs (add_feature f t).1
    | false ↦ (add_feature f t).1
  ]

  unfoldable pub fork : String → Workspace S → Workspace S
  unfolding copy_features set_rollback_index
  fork new_name w = record (new_workspace new_name) {
    parent_name = w.name;
    tree = set_rollback_index w.tree.rollback_index (copy_features w.tree.features empty_tree);
    base_snapshot = w.tree.features;
    base_snapshot_rollback_index = w.tree.rollback_index;
  }
