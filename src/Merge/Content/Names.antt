-- ===== src/Merge/Content/Names.antt =====
-- feature/merge.cpp: the sets of names and ids that the merge walks over.
use oreo_kernel.Prelude.{String, Bool, false, ◌||◌, List, [], ◌∷◌, if◌then◌else◌, ◌==◌, string_eq}
use oreo_kernel.Prelude.Dict.{Dict}

-- seen.count(x)
unfoldable pub is_member : String → List String → Bool
is_member x [] = false
is_member x (y ∷ ys) = (y == x) || is_member x ys

-- if (seen.insert(x).second) out.push_back(x), for each x of a list.
unfoldable pub first_occurrences : List String → List String → List String
unfolding is_member
first_occurrences seen [] = []
first_occurrences seen (x ∷ xs) =
    let old = first_occurrences seen xs in
    let new = x ∷ first_occurrences (x ∷ seen) xs in if is_member x seen then old else new

unfoldable pub keys {ℓ} : {V : Type ℓ} → Dict String V → List String
keys [] = []
keys ((k, v) ∷ m) = k ∷ keys m
