-- ===== src/Examples/Naming.antt =====
-- naming/element_map.cpp on small maps and names.
use oreo_kernel.Prelude.{
  ℕ, ◌+◌, ◌≤◌, List, nat_beq, ◌≡◌, ◌≢◌, refl, true, false, [], ◌∷◌, none, some, ok, length, arith,
  bytes_eq, bytes_beq_iff,
}
use oreo_kernel.Prelude.Int.{pos}
use oreo_kernel.Prelude.Dict.{lookup, insert, contains}
use oreo_kernel.Identity.{ShapeIdentity, IsU64}
use oreo_kernel.Tree.Resolve.{SubShape, face, edge, vertex}
use oreo_kernel.Naming.Name.{Bytes, IndexedName, encode_element_name, is_null_index}
use oreo_kernel.Naming.Find.{rfind, rfind_upto}
use oreo_kernel.Naming.Extract.{
  extract_shape_identity, extract_document_id_of, best_marker, payload,
}
use oreo_kernel.Naming.Extract.Laws.{NoMarker, extract_shape_identity-encode_element_name}
use oreo_kernel.Naming.Trace.{modified, trace_history, trace_loop, trace_payload, trace_item}
use oreo_kernel.Naming.Trace.Laws.{letter_m, trace_history-encode_element_name}
use oreo_kernel.Naming.ElementMap.{
  ElementMap, empty_map, index_eq, index_beq_iff, in_order, get_mapped_name, has_mapped_name,
  set_element_name, free_name,
}
use oreo_kernel.Naming.ElementMap.Laws.{IsSound, IsBijective}
use oreo_kernel.Naming.ElementMap.Runs.{
  set, remove, clear_all, apply_calls, apply_calls-IsSound, set_element_name-IsBijective,
}
use oreo_kernel.Naming.Primitive.{
  Topology, NamedShape, element_index, primitive_name, count_sub_shapes, get_element_name,
  get_indexed_element, map_shape_elements,
}
use oreo_kernel.Naming.Primitive.All.{map_shape_elements-primitive}
use oreo_kernel.Naming.Wire.{MapTree, node, no_child, with_map, serialize, write_map}
use oreo_kernel.Naming.Read.{deserialize}
use oreo_kernel.Naming.RoundTrip.Children.{is_storable, rebuilt, rebuilt_children}
use oreo_kernel.Naming.RoundTrip.Trees.{deserialize-serialize}
use oreo_kernel.Naming.RoundTrip.Lookups.{is_distinct, get_mapped_name-deserialize}

abbrev face_1 : IndexedName Bytes
face_1 = record { type = b'F' ∷ []; index = pos 1 }

abbrev face_2 : IndexedName Bytes
face_2 = record { type = b'F' ∷ []; index = pos 2 }

abbrev top : Bytes
top = b't' ∷ []

abbrev mod_postfix : Bytes
mod_postfix = b';' ∷ b':' ∷ b'M' ∷ []

abbrev op : ShapeIdentity
op = record { document_id = 0x8000000000000001; counter = 7 }

op-IsU64 : IsU64 op
op-IsU64 = record { document_id = omega arith; counter = omega arith }

mod_postfix-NoMarker : NoMarker mod_postfix
unfolding rfind
mod_postfix-NoMarker = record { identity = refl; tag = refl; decimal = refl }

extract_shape_identity-encode_element_name_example :
    extract_shape_identity (encode_element_name top op mod_postfix) ≡ op
extract_shape_identity-encode_element_name_example =
    extract_shape_identity-encode_element_name top op mod_postfix op-IsU64 mod_postfix-NoMarker

trace_history-encode_element_name_example :
    let full = encode_element_name top op mod_postfix in
    trace_history full
    ≡ record { name = top; id = op; operation = modified }
      ∷ trace_loop 49 full (extract_document_id_of full) (length top)
trace_history-encode_element_name_example =
    trace_history-encode_element_name top op mod_postfix modified op-IsU64 (omega arith)
      mod_postfix-NoMarker (letter_m [])

traced :
    trace_history (encode_element_name top op mod_postfix)
    ≡ record { name = top; id = op; operation = modified } ∷ []
unfolding trace_history encode_element_name best_marker rfind_upto trace_payload payload trace_item
traced = refl

empty-IsSound : IsSound empty_map
unfolding lookup
empty-IsSound n i h = cc

apply_calls-IsSound_example :
    let calls = set face_1 top false ∷ set face_2 top true ∷ clear_all ∷ remove face_1 ∷ [] in
    IsSound (apply_calls calls empty_map)
    × (apply_calls (clear_all ∷ calls) empty_map ≡ apply_calls calls empty_map)
apply_calls-IsSound_example =
    apply_calls-IsSound
      (set face_1 top false ∷ set face_2 top true ∷ clear_all ∷ remove face_1 ∷ []) empty_map
      empty-IsSound

abbrev one_face : ElementMap
one_face = record {
  index_to_mapped = (face_1, top) ∷ [];
  mapped_to_index = (top, face_1) ∷ [];
  type_counters = (b'F' ∷ [], pos 1) ∷ [];
}

one_face_set : (set_element_name face_1 top false empty_map).1 ≡ one_face
unfolding set_element_name lookup insert
one_face_set = refl

one_face-IsSound : IsSound one_face
unfolding lookup
one_face-IsSound n i h = ground (arith, index_beq_iff face_1 i, bytes_beq_iff top n)

one_face-IsBijective : IsBijective one_face
unfolding lookup
one_face-IsBijective =
    (one_face-IsSound, λ n i h. ground (arith, index_beq_iff face_1 i, bytes_beq_iff top n))

face_2-not_null : is_null_index face_2 ≡ false
unfolding is_null_index
face_2-not_null = refl

top-free : free_name top 1 100 one_face ≡ some (b't' ∷ b';' ∷ b'D' ∷ b'1' ∷ [])
unfolding free_name lookup has_mapped_name contains
top-free = refl

top-room : free_name top 1 100 one_face ≢ none
top-room h = ground (arith, top-free)

set_element_name-IsBijective_example :
    let (returned, m') = set_element_name face_2 top false one_face in
    IsBijective m' × (lookup returned m'.mapped_to_index ≡ some face_2)
set_element_name-IsBijective_example =
    set_element_name-IsBijective face_2 top one_face face_2-not_null refl top-room
      one_face-IsBijective

faces-differ : face_2 ≢ face_1
faces-differ h = cc

top-owned : lookup top one_face.mapped_to_index ≡ some face_1
unfolding lookup
top-owned = refl

-- Two levels of maps.
abbrev nested : MapTree
nested = node one_face (with_map op mod_postfix (node one_face no_child) no_child)

serialize-nested : serialize nested ≡ ok (write_map nested)
unfolding serialize in_order
serialize-nested = refl

nested-is_storable : is_storable nested 17 ≡ true
unfolding is_storable
nested-is_storable = refl

one_face-is_distinct : is_distinct one_face.index_to_mapped ≡ true
unfolding is_distinct is_null_index
one_face-is_distinct = refl

deserialize-serialize_example : deserialize 0 (write_map nested) ≡ some (rebuilt nested)
deserialize-serialize_example =
    deserialize-serialize 0 nested (write_map nested) serialize-nested nested-is_storable

rebuilt-nested : rebuilt nested ≡ nested
unfolding rebuilt set_element_name lookup insert
rebuilt-nested = refl

get_mapped_name-deserialize_example :
    (m' : ElementMap) × (deserialize 0 (write_map nested)
      ≡ some
          (node m' (rebuilt_children (with_map op mod_postfix (node one_face no_child) no_child))))
    × ((i : IndexedName Bytes) → get_mapped_name i m' ≡ get_mapped_name i one_face)
get_mapped_name-deserialize_example =
    get_mapped_name-deserialize 0 one_face
      (with_map op mod_postfix (node one_face no_child) no_child) (write_map nested)
      serialize-nested nested-is_storable one_face-is_distinct

-- Shapes are numbers here: shape 1 has two faces, one edge and no vertex.
abbrev faces_of : SubShape → List ℕ
faces_of face = 11 ∷ 12 ∷ []
faces_of edge = 13 ∷ []
faces_of vertex = []

abbrev numbers : Topology ℕ
numbers = record { is_null = nat_beq 0; sub_shapes = λ kind _. faces_of kind; no_topo = 0 }

abbrev no_history : ℕ → List (NamedShape ℕ) → ShapeIdentity → ElementMap
no_history _ _ _ = empty_map

faces_of-few : (s : SubShape) → length (faces_of s) ≤ 2147483647
faces_of-few face = omega arith
faces_of-few edge = omega arith
faces_of-few vertex = omega arith

second_face : 2 ≤ count_sub_shapes ℕ numbers face (map_shape_elements ℕ numbers no_history 1 [] op)
unfolding count_sub_shapes map_shape_elements
second_face = omega arith

map_shape_elements-primitive_example :
    let box = map_shape_elements ℕ numbers no_history 1 [] op in
    (get_element_name ℕ numbers (element_index face 2) box ≡ primitive_name op face 2)
    × (get_indexed_element ℕ numbers (primitive_name op face 2) box ≡ element_index face 2)
    × (extract_shape_identity (primitive_name op face 2) ≡ op)
map_shape_elements-primitive_example =
    map_shape_elements-primitive ℕ numbers no_history 1 op refl faces_of-few op-IsU64 face 2
      (omega arith) second_face

-- "Face2;:P", and 16 hexadecimal digits twice.
primitive_name-face : length (primitive_name op face 2) ≡ 5 + 3 + 32
unfolding primitive_name
primitive_name-face = refl
