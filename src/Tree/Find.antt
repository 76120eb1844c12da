-- ===== src/Tree/Find.antt =====
-- Looking a feature up by its id (feature/feature_tree.cpp, findIndex and getFeature).
use oreo_kernel.Prelude.{
  ℕ, String, ◌≡◌, refl, List, [], ◌∷◌, Option, none, some, arith, if◌then◌else◌, ◌==◌, string_eq,
  get_elem?,
}
use oreo_kernel.Feature.{Feature}
use oreo_kernel.Tree.{FeatureTree, find_index, get_feature}

-- The first feature with an id.
unfoldable pub find_first : String → List Feature → Option Feature
find_first id [] = none
find_first id (f ∷ fs) = if f.id == id then some f else find_first id fs

at_index : List Feature → Option ℕ → Option Feature
at_index fs none = none
at_index fs (some i) = get_elem? fs i

at_index-find_index :
    (id : String) (fs : List Feature) → at_index fs (find_index id fs) ≡ find_first id fs
unfolding at_index find_index find_first
at_index-find_index id [] = refl
at_index-find_index id (f ∷ fs) = ground (arith, at_index-find_index id fs)

pub get_feature-eq-find_first :
    {S : Type 0} (id : String) (t : FeatureTree S) → get_feature id t ≡ find_first id t.features
unfolding get_feature at_index
get_feature-eq-find_first id t = ground (arith, at_index-find_index id t.features)
