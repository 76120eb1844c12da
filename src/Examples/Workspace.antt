-- ===== src/Examples/Workspace.antt =====
-- feature/workspace.cpp on a branch with two features.
use oreo_kernel.Prelude.{String, false, [], ◌∷◌, ◌≡◌, refl, string_eq, arith}
use oreo_kernel.Prelude.Int.{pos}
use oreo_kernel.Feature.{Feature, not_executed}
use oreo_kernel.Tree.{empty_tree, find_index, mark_all}
use oreo_kernel.Tree.Unique.{UniqueIds}
use oreo_kernel.Workspace.{Workspace, new_workspace, fork}
use oreo_kernel.Workspace.Fork.{fork_lem}

abbrev step : String → Feature
step id = record {
  id = id;
  type = "MakeBox";
  params = [];
  suppressed = false;
  status = not_executed;
}

abbrev main_branch : Workspace String
main_branch = record (new_workspace "main") {
  tree = record empty_tree {
    features = step "a" ∷ step "b" ∷ [];
    cache = ("a", "shape") ∷ [];
    dirty = ("a", false) ∷ [];
    rollback_index = pos 1;
  };
}

two-UniqueIds : UniqueIds main_branch.tree.features
unfolding find_index
two-UniqueIds = (refl, (refl, tt))

fork_lem_example : fork "side" main_branch ≡ record {
  tree = record {
    features = main_branch.tree.features;
    cache = [];
    dirty = mark_all main_branch.tree.features [];
    snapshots_before = [];
    rollback_index = main_branch.tree.rollback_index;
  };
  name = "side";
  parent_name = "main";
  base_snapshot = main_branch.tree.features;
  base_snapshot_rollback_index = main_branch.tree.rollback_index;
}
fork_lem_example = fork_lem "side" main_branch two-UniqueIds (omega arith)
