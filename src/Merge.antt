-- ===== src/Merge.antt =====
-- feature/merge.{h,cpp}: three-way merge of feature lists.
-- `json_eq` is operator== of the JSON library, which is not part of the repository. The sets of
-- parameter names are walked in the order of insertion, where the program leaves the order of an
-- unordered_set open. The text of a conflict's message is left out.
pub mod Conflict
pub mod Params
pub mod Content
pub mod Order
pub mod Survivors
pub mod Sequence
pub mod Whole
pub mod Resolutions
pub mod ResolutionLaws
pub mod Chosen
use oreo_kernel.Prelude.{
  ℕ, suc, String, Bool, true, false, List, [], ◌∷◌, ◌++◌, Option, none, some, if◌then◌else◌,
  get_elem?, string_eq,
}
use oreo_kernel.Prelude.Int.{ℤ, pos, negsuc}
use oreo_kernel.Prelude.Dict.{Dict, lookup, insert}
use oreo_kernel.Feature.{Feature}
use oreo_kernel.Feature.ParamJson.{Json}
use oreo_kernel.Tree.{FeatureTree, empty_tree, add_feature}
use Conflict.{MergeConflict}
use Content.{merge_one}
use Content.Names.{first_occurrences}
use Order.{ids, retained_ids, relative_index, merged_order, position_conflicts}

-- indexById: the last occurrence of an id wins.
unfoldable pub index_from : ℕ → List Feature → Dict String ℕ → Dict String ℕ
index_from i [] m = m
index_from i (f ∷ fs) m = index_from (suc i) fs (insert f.id i m)

unfoldable pub index_by_id : List Feature → Dict String ℕ
unfolding index_from
index_by_id fs = index_from 0 fs []

-- idx.count(id) ? &feats[idx[id]] : nullptr
unfoldable pub side_feature : List Feature → String → Option Feature
unfolding index_by_id
side_feature fs id = elim (lookup id (index_by_id fs)) [ none ↦ none | some i ↦ get_elem? fs i ]

-- baseIdxOf
unfoldable pub base_index_of : List Feature → String → ℤ
unfolding index_by_id
base_index_of base id = elim (lookup id (index_by_id base)) [ none ↦ negsuc 0 | some i ↦ pos i ]

-- orderedIds
unfoldable pub ordered_ids : List Feature → List Feature → List Feature → List String
ordered_ids base ours theirs = first_occurrences [] (ids base ++ (ids ours ++ ids theirs))

abbrev pub place : String → Option Feature → Dict String Feature → Dict String Feature
place id none m = m
place id (some f) m = insert id f m

module _ (json_eq : Json → Json → Bool) (base ours theirs : List Feature) where
  unfoldable pub merge_id : String → Option Feature × List MergeConflict
  merge_id id =
      merge_one json_eq id (base_index_of base id) (side_feature base id) (side_feature ours id)
        (side_feature theirs id)

  -- The first pass: mergedById, and the conflicts.
  unfoldable pub merge_ids :
      List String → Dict String Feature → Dict String Feature × List MergeConflict
  unfolding merge_id
  merge_ids [] merged = (merged, [])
  merge_ids (id ∷ rest) merged =
      let (f, cs) = merge_id id in
      let (merged', ds) = merge_ids rest (place id f merged) in (merged', cs ++ ds)

-- The third pass: addFeature on the merged tree, to the first refusal. The ids of the order are
-- keys of mergedById.
unfoldable pub materialise :
    {S : Type 0} → Dict String Feature → List String → FeatureTree S → FeatureTree S
materialise merged [] t = t
materialise merged (id ∷ rest) t = elim (lookup id merged) [
  | none ↦ t
  | some f ↦
      let (added, t') = add_feature f t in
      elim added [ true ↦ materialise merged rest t' | false ↦ t' ]
]

pub record MergeResult (S : Type 0) : Type 0 where
  pub merged : FeatureTree S
  pub conflicts : List MergeConflict

unfoldable pub three_way_merge :
    {S : Type 0} → (Json → Json → Bool) → List Feature → List Feature → List Feature → MergeResult S
three_way_merge json_eq base ours theirs =
    let (merged, cs) = merge_ids json_eq base ours theirs (ordered_ids base ours theirs) [] in
    let retained = retained_ids merged (ids base) in
    let ours_rel = relative_index merged retained 0 (ids ours) [] in
    let theirs_rel = relative_index merged retained 0 (ids theirs) [] in
    record {
      merged = materialise merged (merged_order merged base ours theirs) empty_tree;
      conflicts = cs ++ position_conflicts ours_rel theirs_rel 0 retained;
    }
