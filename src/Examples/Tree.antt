-- ===== src/Examples/Tree.antt =====
-- feature/feature_tree.cpp on a small tree.
use oreo_kernel.Prelude.{ℕ, true, false, List, [], ◌∷◌, string_eq}
use oreo_kernel.Prelude.Int.{pos, negsuc}
use oreo_kernel.Feature.{Feature, element_ref, int, not_executed}
use oreo_kernel.Tree.{empty_tree}
use oreo_kernel.Tree.Edits.{
  Edit, add, insert, remove, update, suppress, move, replace, rollback, apply_edits, HasUniqueIds,
  apply_edits-HasUniqueIds,
}

abbrev sketch : Feature
sketch = record {
  id = "S";
  type = "Sketch";
  params = [];
  suppressed = false;
  status = not_executed;
}

abbrev extrude : Feature
extrude = record {
  id = "E";
  type = "Extrude";
  params =
      (
        "profile",
        element_ref (record { feature_id = "S"; element_name = "Face1"; element_type = "Face" }),
      )
      ∷ [];
  suppressed = false;
  status = not_executed;
}

abbrev edits : List Edit
edits =
    add sketch
    ∷ add extrude
    ∷ add sketch
    ∷ insert (pos 1) (record sketch { id = "T" })
    ∷ update "T" "n" (int (pos 3))
    ∷ move "E" (negsuc 4)
    ∷ replace "S" "T"
    ∷ suppress "S" true
    ∷ remove "S"
    ∷ rollback (pos 9)
    ∷ []

apply_edits-HasUniqueIds_example : HasUniqueIds {S = ℕ} (apply_edits edits empty_tree)
apply_edits-HasUniqueIds_example = apply_edits-HasUniqueIds edits empty_tree tt
