-- ===== src/Merge/Order.antt =====
-- feature/merge.cpp: the second pass of threeWayMerge, which orders the merged features.
use oreo_kernel.Prelude.{
  ℕ, suc, String, Bool, false, not, ◌&&◌, List, [], ◌∷◌, ◌++◌, Option, none, some, nat_beq,
  if◌then◌else◌, string_eq, map,
}
use oreo_kernel.Prelude.Int.{pos}
use oreo_kernel.Prelude.Dict.{Dict, lookup, insert, contains}
use oreo_kernel.Feature.{Feature, int}
use oreo_kernel.Merge.Conflict.{MergeConflict, position_conflict, make_conflict}
use oreo_kernel.Merge.Content.Names.{is_member}

abbrev pub ids : List Feature → List String
ids fs = map (λ f. f.id) fs

module _ {V : Type 0} (merged : Dict String V) where
  unfoldable pub retained_ids : List String → List String
  retained_ids [] = []
  retained_ids (id ∷ rest) =
      let later = retained_ids rest in if contains id merged then id ∷ later else later

  -- relativeIndex: the position of each retained base id among those of a side.
  unfoldable pub relative_index : List String → ℕ → List String → Dict String ℕ → Dict String ℕ
  relative_index retained k [] rel = rel
  relative_index retained k (id ∷ side) rel =
      let counts = contains id merged && is_member id retained in
      relative_index retained (if counts then suc k else k) side
        (if counts then insert id k rel else rel)

  -- The body of the loops that append: an id that is not placed yet and survived.
  unfoldable pub place_new : List String → String → List String
  place_new placed id =
      if is_member id placed
      then placed
      else if not (contains id merged)
      then placed
      else placed ++ id ∷ []

  unfoldable pub append_new : List String → List String → List String
  append_new placed [] = placed
  append_new placed (id ∷ side) = append_new (place_new placed id) side

  unfoldable pub merged_order : List Feature → List Feature → List Feature → List String
  merged_order base ours theirs =
      append_new (append_new (retained_ids (ids base)) (ids ours)) (ids theirs)

-- rel.count(id) && rel[id] != i
unfoldable pub moved : ℕ → Option ℕ → Bool
moved i none = false
moved i (some k) = not (nat_beq k i)

abbrev rank : Option ℕ → ℕ
rank none = 0
rank (some k) = k

-- The loop that reports features which both sides moved, to different positions.
unfoldable pub position_conflicts :
    Dict String ℕ → Dict String ℕ → ℕ → List String → List MergeConflict
unfolding moved make_conflict
position_conflicts ours theirs i [] = []
position_conflicts ours theirs i (id ∷ rest) =
    let o = lookup id ours in
    let t = lookup id theirs in
    let later = position_conflicts ours theirs (suc i) rest in
    if moved i o && moved i t && not (nat_beq (rank o) (rank t))
    then make_conflict position_conflict id "" (int (pos i)) (int (pos (rank o)))
        (int (pos (rank t)))
      ∷ later
    else later
