-- ===== src/Naming/Primitive/All.antt =====
-- The names of all elements of a primitive (naming/map_shape_elements.cpp).
use mathlib.Core.Path.{subst}
use mathlib.Core.List.{append-nil}
use oreo_kernel.Prelude.{
  ℕ, zero, suc, ◌+◌, ◌^◌, ◌≤◌, ◌<◌, ◌≡◌, refl, sym, ap, ◌∙◌, false, List, [], ◌++◌, arith, length,
  bytes_eq, ◌≢◌, Option-cases, inl, inr,
}
use oreo_kernel.Prelude.Decimal.{decimal_digits}
use oreo_kernel.Prelude.Dict.{lookup}
use oreo_kernel.Identity.{ShapeIdentity, IsU64}
use oreo_kernel.Tree.Resolve.{SubShape, face, edge, vertex}
use oreo_kernel.Naming.Find.{rfind}
use oreo_kernel.Naming.Name.{Bytes, IndexedName, append_postfix, encode_element_name}
use oreo_kernel.Naming.ElementMap.{ElementMap, empty_map, index_eq, get_mapped_name, get_index_of}
use oreo_kernel.Naming.Extract.{extract_shape_identity}
use oreo_kernel.Naming.Extract.Laws.{extract_shape_identity-encode_element_name}
use oreo_kernel.Naming.Primitive.{
  type_name, element_index, primitive_name, name_elements, primitive_map, Topology, NamedShape,
  count_sub_shapes, get_element_name, get_indexed_element, map_shape_elements,
  build_primitive_names,
}
use oreo_kernel.Naming.Primitive.Laws.{Progress, at, bump, at-bump_self, Named, Holds}
use oreo_kernel.Naming.Primitive.Names.{named_next, set_element_name-Holds}

advance : SubShape → ℕ → Progress → Progress
advance face n p = record p { faces = n + p.faces }
advance edge n p = record p { edges = n + p.edges }
advance vertex n p = record p { vertices = n + p.vertices }

advance-bump : (s : SubShape) (n : ℕ) (p : Progress) → advance s n (bump s p) ≡ advance s (suc n) p
unfolding advance bump
advance-bump face n p = ap (λ k. record p { faces = k }) (omega arith)
advance-bump edge n p = ap (λ k. record p { edges = k }) (omega arith)
advance-bump vertex n p = ap (λ k. record p { vertices = k }) (omega arith)

advance-zero : (s : SubShape) (p : Progress) → p ≡ advance s 0 p
unfolding advance
advance-zero face p = ap (λ k. record p { faces = k }) (omega arith)
advance-zero edge p = ap (λ k. record p { edges = k }) (omega arith)
advance-zero vertex p = ap (λ k. record p { vertices = k }) (omega arith)

name_elements-Holds :
    (id : ShapeIdentity) (s : SubShape) (left i : ℕ) (p : Progress) (m : ElementMap)
    → i ≡ suc (at s p)
    → left + at s p < 10 ^ 10
    → Holds id p m
    → Holds id (advance s left p) (name_elements id s left i m)
unfolding name_elements
name_elements-Holds id s zero i p m e fits h = subst (λ q. Holds id q m) (advance-zero s p) h
name_elements-Holds id s (suc left) i p m e fits h = rw e (
    subst (λ q. Holds id q (name_elements id s left (suc (suc (at s p))) (named_next id s p m)))
      (advance-bump s left p)
      (name_elements-Holds id s left (suc (suc (at s p))) (bump s p) (named_next id s p m)
        (ap suc (sym (at-bump_self s p))) (omega (arith, fits, at-bump_self s p))
        (set_element_name-Holds id p m h s (omega (arith, fits)))))

none_named : Progress
none_named = record { faces = 0; edges = 0; vertices = 0 }

none_named-Holds : (id : ShapeIdentity) → Holds id none_named empty_map
unfolding none_named at lookup
none_named-Holds id = record {
  small = small;
  index = λ s i n. absurd (omega (arith, at_start s, n.0, n.1));
  name = λ s i n. absurd (omega (arith, at_start s, n.0, n.1));
  only_names = λ n j e. absurd (ground (arith, e));
  only_indices = λ n j e. absurd (ground (arith, e));
}
  where
    at_start : (s : SubShape) → at s none_named ≡ 0
    at_start face = refl
    at_start edge = refl
    at_start vertex = refl

    small : (s : SubShape) → at s none_named < 10 ^ 10
    small s = omega (arith, at_start s)

all_named : (SubShape → ℕ) → Progress
all_named count =
    advance face (count face) (advance edge (count edge) (advance vertex (count vertex) none_named))

at-all_named : (count : SubShape → ℕ) (s : SubShape) → at s (all_named count) ≡ count s
unfolding all_named advance none_named at
at-all_named count face = omega arith
at-all_named count edge = omega arith
at-all_named count vertex = omega arith

primitive_map-Holds :
    (id : ShapeIdentity) (count : SubShape → ℕ)
    → ((s : SubShape) → count s < 10 ^ 10)
    → Holds id (all_named count) (primitive_map id count)
unfolding primitive_map all_named none_named advance at
primitive_map-Holds id count fits =
    name_elements-Holds id face (count face) 1 _ _ refl (omega (arith, fits face)) (
      name_elements-Holds id edge (count edge) 1 _ _ refl (omega (arith, fits edge)) (
        name_elements-Holds id vertex (count vertex) 1 none_named empty_map refl
          (omega (arith, fits vertex)) (none_named-Holds id)))

extract_shape_identity-primitive_name :
    (id : ShapeIdentity) (s : SubShape) (i : ℕ)
    → IsU64 id
    → extract_shape_identity (primitive_name id s i) ≡ id
unfolding primitive_name encode_element_name append_postfix rfind
extract_shape_identity-primitive_name id s i u =
    ap extract_shape_identity (sym (append-nil (primitive_name id s i)))
    ∙ extract_shape_identity-encode_element_name (type_name s ++ decimal_digits 10 i []) id [] u
        (record { identity = refl; tag = refl; decimal = refl })

module _ (Topo : Type 0) (T : Topology Topo)
    (build : Topo → List (NamedShape Topo) → ShapeIdentity → ElementMap) (result : Topo)
    (id : ShapeIdentity) where
  abbrev primitive : NamedShape Topo
  primitive = map_shape_elements Topo T build result [] id

  primitive-built : T.is_null result ≡ false → primitive ≡ build_primitive_names Topo T result id
  unfolding map_shape_elements
  primitive-built h = ground arith

  -- The result of an operation that has no inputs is not null, the numbers of its faces, edges and
  -- vertices fit an int, and so do the parts of the identity a uint64: each face, edge or vertex of
  -- it, counted from 1, has the name that its type, its number and the identity make; that name
  -- leads back to the element, and the identity is read back from it.
  pub map_shape_elements-primitive :
      (not_null : T.is_null result ≡ false)
      (fits : (s : SubShape) → length (T.sub_shapes s result) ≤ 2147483647) (u : IsU64 id)
      (s : SubShape) (i : ℕ) (first : 0 < i)
      (last : i ≤ count_sub_shapes Topo T s (map_shape_elements Topo T build result [] id))
      → (get_element_name Topo T (element_index s i) (map_shape_elements Topo T build result [] id)
          ≡ primitive_name id s i)
        × (get_indexed_element Topo T
              (primitive_name id s i)
              (map_shape_elements Topo T build result [] id)
            ≡ element_index s i)
        × (extract_shape_identity (primitive_name id s i) ≡ id)
  unfolding count_sub_shapes get_element_name get_indexed_element get_mapped_name get_index_of
      build_primitive_names
  map_shape_elements-primitive not_null fits u s i first last =
      let here = primitive-built not_null in
      let count : SubShape → ℕ = λ s. length (T.sub_shapes s result) in
      let h = primitive_map-Holds id count (λ s. omega (arith, fits s)) in
      let named : Named (all_named count) s i = (
        first,
        omega (arith, at-all_named count s, last, ap (λ n. count_sub_shapes Topo T s n) here),
      ) in
      (
        ap (get_element_name Topo T (element_index s i)) here ∙ ground (arith, h.index s i named),
        ap (get_indexed_element Topo T (primitive_name id s i)) here
            ∙ ground (arith, h.name s i named),
        extract_shape_identity-primitive_name id s i u,
      )

  -- The result of an operation that has no inputs is not null, and the numbers of its faces, edges
  -- and vertices fit an int: an index that has a name is that of one of those faces, edges or
  -- vertices.
  pub map_shape_elements-no_other :
      (not_null : T.is_null result ≡ false)
      (fits : (s : SubShape) → length (T.sub_shapes s result) ≤ 2147483647) (j : IndexedName Bytes)
      (has_name : get_element_name Topo T j (map_shape_elements Topo T build result [] id) ≢ [])
      → (s : SubShape) × (i : ℕ) × (0 < i)
        × (i ≤ count_sub_shapes Topo T s (map_shape_elements Topo T build result [] id))
        × (j ≡ element_index s i)
  unfolding count_sub_shapes get_element_name get_mapped_name build_primitive_names
  map_shape_elements-no_other not_null fits j has_name =
      let here = primitive-built not_null in
      let count : SubShape → ℕ = λ s. length (T.sub_shapes s result) in
      let h = primitive_map-Holds id count (λ s. omega (arith, fits s)) in
      elim (Option-cases (lookup j (primitive_map id count).index_to_mapped)) [
        | inl e ↦ absurd (has_name (ap (get_element_name Topo T j) here ∙ ground (arith, e)))
        | inr (n, e) ↦
            let (s, i, named, same) = h.only_indices j n e in
            (
              s,
              i,
              named.0,
              omega (
                arith,
                named.1,
                at-all_named count s,
                ap (λ n. count_sub_shapes Topo T s n) here,
              ),
              same,
            )
      ]
