-- ===== src/Naming/Primitive.antt =====
-- naming/map_shape_elements.cpp and naming/named_shape.{h,cpp}: NamedShape, and the names of the
-- elements of a shape that an operation makes from nothing. The names of a shape with inputs are
-- given by buildElementMap, an algorithm taken over from FreeCAD, which is a parameter.
pub mod Laws
pub mod Names
pub mod All
use oreo_kernel.Prelude.{
  ℕ, zero, suc, ◌++◌, Bool, true, false, List, [], ◌∷◌, Option, none, some, if◌then◌else◌, length,
}
use oreo_kernel.Prelude.Int.{ℤ, pos}
use oreo_kernel.Prelude.Decimal.{decimal_digits}
use oreo_kernel.Identity.{ShapeIdentity}
use oreo_kernel.Tree.Resolve.{SubShape, face, edge, vertex, sub_shape_at}
use oreo_kernel.Naming.Name.{Bytes, IndexedName, append_shape_identity}
use oreo_kernel.Naming.ElementMap.{
  ElementMap, empty_map, set_element_name, get_mapped_name, get_index_of,
}

-- The names of kTypes.
unfoldable pub type_name : SubShape → Bytes
type_name vertex = b'V' ∷ b'e' ∷ b'r' ∷ b't' ∷ b'e' ∷ b'x' ∷ []
type_name edge = b'E' ∷ b'd' ∷ b'g' ∷ b'e' ∷ []
type_name face = b'F' ∷ b'a' ∷ b'c' ∷ b'e' ∷ []

abbrev pub element_index : SubShape → ℕ → IndexedName Bytes
element_index kind i = record { type = type_name kind; index = pos i }

-- The type, the index as an int, and the identity of the operation.
unfoldable pub primitive_name : ShapeIdentity → SubShape → ℕ → Bytes
unfolding type_name decimal_digits append_shape_identity
primitive_name id kind i = append_shape_identity (type_name kind ++ decimal_digits 10 i []) id

-- The loop over the elements of a type, from index i on.
unfoldable pub name_elements : ShapeIdentity → SubShape → (left i : ℕ) → ElementMap → ElementMap
unfolding primitive_name
name_elements id kind zero i m = m
name_elements id kind (suc left) i m =
    name_elements id kind left (suc i)
      (set_element_name (element_index kind i) (primitive_name id kind i) false m).1

-- The loop over kTypes, with the numbers of sub-shapes.
unfoldable pub primitive_map : ShapeIdentity → (SubShape → ℕ) → ElementMap
unfolding name_elements
primitive_map id count =
    name_elements id face (count face) 1
      (name_elements id edge (count edge) 1 (name_elements id vertex (count vertex) 1 empty_map))

module _ (Topo : Type 0) where
  pub record NamedShape : Type 0 where
    pub shape : Topo
    pub element_map : ElementMap
    pub shape_id : ShapeIdentity

  -- What the code asks of OCCT: IsNull, TopExp::MapShapes, and the null shape.
  pub record Topology : Type 0 where
    pub is_null : Topo → Bool
    pub sub_shapes : SubShape → Topo → List Topo
    pub no_topo : Topo

  module _ (T : Topology) where
    unfoldable pub count_sub_shapes : SubShape → NamedShape → ℕ
    count_sub_shapes kind n = length (T.sub_shapes kind n.shape)

    unfoldable pub get_sub_shape : SubShape → ℤ → NamedShape → Topo
    get_sub_shape kind index n = elim (sub_shape_at (T.sub_shapes kind n.shape) index) [
      | none ↦ T.no_topo
      | some s ↦ s
    ]

    unfoldable pub get_element_name : IndexedName Bytes → NamedShape → Bytes
    unfolding get_mapped_name
    get_element_name i n = get_mapped_name i n.element_map

    unfoldable pub get_indexed_element : Bytes → NamedShape → IndexedName Bytes
    unfolding get_index_of
    get_indexed_element name n = get_index_of name n.element_map

    unfoldable pub build_primitive_names : Topo → ShapeIdentity → NamedShape
    unfolding primitive_map
    build_primitive_names result id = record {
      shape = result;
      element_map = primitive_map id (λ kind. length (T.sub_shapes kind result));
      shape_id = id;
    }

    -- `build` is the map that the adapter builds of the result, its inputs and the identity.
    unfoldable pub map_shape_elements :
        (build : Topo → List NamedShape → ShapeIdentity → ElementMap)
        → Topo
        → List NamedShape
        → ShapeIdentity
        → NamedShape
    unfolding build_primitive_names
    map_shape_elements build result inputs id =
        if T.is_null result
        then record { shape = result; element_map = empty_map; shape_id = id }
        else elim inputs [
          | [] ↦ build_primitive_names result id
          | input ∷ others ↦ record {
            shape = result;
            element_map = build result (input ∷ others) id;
            shape_id = id;
          }
        ]
