-- ===== src/Tree/Resolve.antt =====
-- feature/feature_tree.cpp: resolveReference; naming/indexed_name.h: IndexedName; and the look-up
-- ElementMap::getIndexedName of naming/element_map.cpp.
-- OCCT's shapes, and NamedShape around them, are given by what the code asks of them.
use Prim.Native.Char.{code}
use Prim.Native.String.{String}
use oreo_kernel.Prelude.{
  ℕ, zero, suc, ◌+◌, ◌-◌, ◌*◌, Bool, true, false, ◌&&◌, ◌||◌, not, List, [], ◌∷◌, Option, none,
  some, ltb, leb, if◌then◌else◌, get_elem?, ◌==◌, string_eq, Result, ok, throw, out_of_range,
}
use oreo_kernel.Prelude.Int.{ℤ, pos, negsuc}
use oreo_kernel.Prelude.Dict.{Dict, lookup}
use oreo_kernel.Naming.Name.{IndexedName}
use oreo_kernel.Feature.{ElementRef, is_null_ref, Feature}
use oreo_kernel.Tags.Occt.{int32_max}

abbrev pub no_name : IndexedName String
no_name = record { type = ""; index = pos 0 }

-- IndexedName::isNull
unfoldable pub is_null_name : IndexedName String → Bool
is_null_name n = n.type == "" || elim n.index [ pos i ↦ leb i 0 | negsuc _ ↦ true ]

pub data SubShape : Type 0 where
  face edge vertex : SubShape

-- What the code asks of a NamedShape and of the TopoDS_Shape in it. `elements` is the map from
-- mapped to indexed names of its element map, none where it has no element map; `sub_shapes` is what
-- TopExp::MapShapes lists.
pub record Shapes : Type 1 where
  pub Named : Type 0
  pub Topo : Type 0
  pub no_shape : Named
  pub is_null : Named → Bool
  pub shape : Named → Topo
  pub no_topo : Topo
  pub topo_is_null : Topo → Bool
  pub elements : Named → Option (Dict String (IndexedName String))
  pub sub_shapes : SubShape → Topo → List Topo

pub record ResolvedRef (K : Shapes) : Type 0 where
  pub shape : K.Topo
  pub indexed_name : IndexedName String
  pub resolved : Bool
  pub named_shape : K.Named
  pub is_whole_shape : Bool

unfoldable pub is_digit : ℕ → Bool
is_digit c = leb b'0' c && leb c b'9'

-- The name up to its first digit, and the rest from there.
unfoldable pub split_at_digit : String → Option (String × String)
unfolding is_digit
split_at_digit String.[] = none
split_at_digit (String.◌∷◌ c s) =
    let later = split_at_digit s in
    if is_digit (code c)
    then some (String.[], String.◌∷◌ c s)
    else elim later [ none ↦ none | some (type, rest) ↦ some (String.◌∷◌ c type, rest) ]

-- The number that std::stoi reads, from the value so far up to the first other character.
unfoldable pub leading_number : ℕ → String → ℕ
unfolding is_digit
leading_number n String.[] = n
leading_number n (String.◌∷◌ c s) =
    let rest = leading_number (n * 10 + (code c - b'0')) s in if is_digit (code c) then rest else n

unfoldable pub stoi : String → Result ℕ
stoi s = let n = leading_number 0 s in if ltb int32_max n then throw out_of_range else ok n

-- A plain indexed name such as "Face3".
unfoldable pub plain_name : String → Result (IndexedName String)
unfolding stoi
plain_name name = elim (split_at_digit name) [
  | none ↦ ok no_name
  | some (type, rest) ↦ elim (stoi rest) [
    | throw e ↦ throw e
    | ok n ↦
        ok (if not (type == "") && ltb 0 n then record { type = type; index = pos n } else no_name)
  ]
]

-- ElementMap::getIndexedName
unfoldable pub get_indexed_name : Dict String (IndexedName String) → String → IndexedName String
get_indexed_name m name = elim (lookup name m) [ none ↦ no_name | some n ↦ n ]

-- The indexed name of an element: the element map's, else a plain one.
unfoldable pub find_name : Dict String (IndexedName String) → String → Result (IndexedName String)
unfolding get_indexed_name plain_name
find_name m name =
    let mapped = get_indexed_name m name in
    if is_null_name mapped then plain_name name else ok mapped

unfoldable pub sub_shape_type : String → Option SubShape
sub_shape_type type =
    if type == "Face"
    then some face
    else if type == "Edge"
    then some edge
    else if type == "Vertex"
    then some vertex
    else none

-- subShapes(index), which counts from 1.
abbrev pub sub_shape_at {ℓ} : {A : Type ℓ} → List A → ℤ → Option A
sub_shape_at xs (pos zero) = none
sub_shape_at xs (pos (suc i)) = get_elem? xs i
sub_shape_at xs (negsuc _) = none

module _ (K : Shapes) where
  abbrev pub unresolved : ResolvedRef K
  unresolved = record {
    shape = K.no_topo;
    indexed_name = no_name;
    resolved = false;
    named_shape = K.no_shape;
    is_whole_shape = false;
  }

  -- features_[refIdx].suppressed of the feature with the id, if there is one.
  unfoldable pub is_suppressed : List Feature → String → Bool
  is_suppressed [] id = false
  is_suppressed (f ∷ fs) id =
      let later = is_suppressed fs id in if f.id == id then f.suppressed else later

  -- The whole shape, under the name Shape1.
  unfoldable pub resolve_root : K.Named → ElementRef → ResolvedRef K
  resolve_root named r =
      if r.element_type == "Face" || (r.element_type == "Edge" || r.element_type == "Vertex")
      then unresolved
      else record {
        shape = K.shape named;
        indexed_name = record { type = "Shape"; index = pos 1 };
        resolved = not (K.topo_is_null (K.shape named));
        named_shape = named;
        is_whole_shape = true;
      }

  -- The sub-shape of an indexed name.
  unfoldable pub resolve_name : K.Named → IndexedName String → ResolvedRef K
  unfolding sub_shape_type is_null_name
  resolve_name named n = if is_null_name n then unresolved else elim (sub_shape_type n.type) [
    | none ↦ unresolved
    | some kind ↦ elim (sub_shape_at (K.sub_shapes kind (K.shape named)) n.index) [
      | none ↦ unresolved
      | some s ↦ record unresolved { shape = s; indexed_name = n; resolved = true }
    ]
  ]

  unfoldable pub resolve_element : K.Named → ElementRef → Result (ResolvedRef K)
  unfolding resolve_name find_name
  resolve_element named r = elim (K.elements named) [
    | none ↦ ok unresolved
    | some m ↦ elim (find_name m r.element_name) [
      | throw e ↦ throw e
      | ok n ↦ ok (resolve_name named n)
    ]
  ]

  unfoldable pub resolve_reference :
      List Feature → Dict String K.Named → ElementRef → Result (ResolvedRef K)
  unfolding resolve_root resolve_element
  resolve_reference features cache r =
      if is_null_ref r
      then ok unresolved
      else if is_suppressed features r.feature_id
      then ok unresolved
      else elim (lookup r.feature_id cache) [
        | none ↦ ok unresolved
        | some named ↦
            if K.is_null named
            then ok unresolved
            else if r.element_name == "ROOT"
            then ok (resolve_root named r)
            else resolve_element named r
      ]
