-- ===== src/Naming/Primitive/Names.antt =====
-- The loops that name the elements of a primitive (naming/map_shape_elements.cpp).
use oreo_kernel.Prelude.{
  ℕ, suc, ◌^◌, ◌<◌, ◌≡◌, inl, inr, refl, sym, ap, ◌∙◌, false, [], none, some, arith, if◌then◌else◌,
  ◌==◌, bytes_eq, bytes_beq, bytes_beq_iff, Bool-cases, choose-false,
}
use oreo_kernel.Prelude.Dict.{lookup, insert, lookup-insert}
use oreo_kernel.Identity.{ShapeIdentity}
use oreo_kernel.Tree.Resolve.{SubShape, face, edge, vertex}
use oreo_kernel.Naming.Name.{Bytes, IndexedName, append_shape_identity, is_null_index}
use oreo_kernel.Naming.ElementMap.{
  ElementMap, index_eq, index_beq_iff, store_name, drop_old_name, set_element_name,
}
use oreo_kernel.Naming.RoundTrip.Lookups.{set_element_name-fresh}
use oreo_kernel.Naming.Primitive.{type_name, element_index, primitive_name}
use oreo_kernel.Naming.Primitive.Laws.{
  Progress, at, bump, at-bump-cases, le-at-bump, at-bump_self, Named, Holds, fresh-name,
  fresh-index,
}

element_index-not_null : (s : SubShape) (k : ℕ) → is_null_index (element_index s (suc k)) ≡ false
unfolding type_name is_null_index
element_index-not_null face k = ground arith
element_index-not_null edge k = ground arith
element_index-not_null vertex k = ground arith

primitive_name-not_empty :
    (id : ShapeIdentity) (s : SubShape) (k : ℕ) → bytes_beq (primitive_name id s k) [] ≡ false
unfolding type_name primitive_name append_shape_identity
primitive_name-not_empty id face k = refl
primitive_name-not_empty id edge k = refl
primitive_name-not_empty id vertex k = refl

-- The next element of a type.
abbrev pub next_index : SubShape → Progress → IndexedName Bytes
next_index s p = element_index s (suc (at s p))

abbrev pub next_name : ShapeIdentity → SubShape → Progress → Bytes
next_name id s p = primitive_name id s (suc (at s p))

abbrev pub named_next : ShapeIdentity → SubShape → Progress → ElementMap → ElementMap
named_next id s p m = (set_element_name (next_index s p) (next_name id s p) false m).1

drop_old_name-free :
    (i : IndexedName Bytes) (m : ElementMap)
    → lookup i m.index_to_mapped ≡ none
    → drop_old_name i m ≡ m
unfolding drop_old_name
drop_old_name-free i m h = ground arith

module _ (id : ShapeIdentity) (p : Progress) (m : ElementMap) (h : Holds id p m) (s : SubShape)
    (fits : suc (at s p) < 10 ^ 10) where
  named-stored : named_next id s p m ≡ store_name (next_index s p) (next_name id s p) m
  named-stored =
      set_element_name-fresh (next_index s p) (next_name id s p) m
        (element_index-not_null s (at s p)) (primitive_name-not_empty id s (suc (at s p)))
        (fresh-name id p m h s fits)

  drop_old_name-next : drop_old_name (next_index s p) m ≡ m
  drop_old_name-next = drop_old_name-free (next_index s p) m (fresh-index id p m h s fits)

  lookup-next_index :
      (j : IndexedName Bytes)
      → lookup j (named_next id s p m).index_to_mapped
        ≡ (if next_index s p == j then some (next_name id s p) else lookup j m.index_to_mapped)
  unfolding store_name
  lookup-next_index j =
      ap (λ n. lookup j n.index_to_mapped) named-stored
      ∙ (ap (λ n. lookup j (insert (next_index s p) (next_name id s p) n.index_to_mapped))
            drop_old_name-next
          ∙ lookup-insert (next_index s p) j (next_name id s p) m.index_to_mapped)

  lookup-next_name :
      (n : Bytes)
      → lookup n (named_next id s p m).mapped_to_index
        ≡ (if next_name id s p == n then some (next_index s p) else lookup n m.mapped_to_index)
  unfolding store_name
  lookup-next_name n =
      ap (λ x. lookup n x.mapped_to_index) named-stored
      ∙ (ap (λ x. lookup n (insert (next_name id s p) (next_index s p) x.mapped_to_index))
            drop_old_name-next
          ∙ lookup-insert (next_name id s p) n (next_index s p) m.mapped_to_index)

  small-next : (t : SubShape) → at t (bump s p) < 10 ^ 10
  small-next t = elim (at-bump-cases s t p (at t (bump s p)) (omega arith)) [
    | inl (e, k) ↦ omega (arith, k, fits)
    | inr k ↦ omega (arith, k, h.small t)
  ]

  index-next :
      (t : SubShape) (k : ℕ)
      → Named (bump s p) t k
      → lookup (element_index t k) (named_next id s p m).index_to_mapped
        ≡ some (primitive_name id t k)
  index-next t k n = elim (at-bump-cases s t p k n.1) [
    | inl (e, i) ↦
        rw (e, i)
          (lookup-next_index (next_index s p)
            ∙ ground (arith, index_beq_iff (next_index s p) (next_index s p)))
    | inr le ↦
        lookup-next_index (element_index t k)
        ∙ ground (
          arith,
          index_beq_iff (next_index s p) (element_index t k),
          fresh-index id p m h s fits,
          h.index t k (n.0, le),
        )
  ]

  name-next :
      (t : SubShape) (k : ℕ)
      → Named (bump s p) t k
      → lookup (primitive_name id t k) (named_next id s p m).mapped_to_index
        ≡ some (element_index t k)
  name-next t k n = elim (at-bump-cases s t p k n.1) [
    | inl (e, i) ↦
        rw (e, i)
          (lookup-next_name (next_name id s p)
            ∙ ground (arith, bytes_beq_iff (next_name id s p) (next_name id s p)))
    | inr le ↦
        lookup-next_name (primitive_name id t k)
        ∙ ground (
          arith,
          bytes_beq_iff (next_name id s p) (primitive_name id t k),
          fresh-name id p m h s fits,
          h.name t k (n.0, le),
        )
  ]

  newest-Named : Named (bump s p) s (suc (at s p))
  newest-Named = (omega arith, omega (arith, at-bump_self s p))

  only_names-next :
      (n : Bytes) (j : IndexedName Bytes)
      → lookup n (named_next id s p m).mapped_to_index ≡ some j
      → (t : SubShape) × (i : ℕ) × Named (bump s p) t i × (n ≡ primitive_name id t i)
  only_names-next n j e = elim (Bool-cases (bytes_beq (next_name id s p) n)) [
    | inl b ↦ (s, suc (at s p), newest-Named, sym ((bytes_beq_iff (next_name id s p) n).0 b))
    | inr b ↦
        let old : lookup n m.mapped_to_index ≡ some j =
          sym (choose-false _ _ _ b) ∙ (sym (lookup-next_name n) ∙ e) in
        let (t, i, k, same) = h.only_names n j old in
        (t, i, (k.0, omega (arith, k.1, le-at-bump s t p)), same)
  ]

  only_indices-next :
      (j : IndexedName Bytes) (n : Bytes)
      → lookup j (named_next id s p m).index_to_mapped ≡ some n
      → (t : SubShape) × (i : ℕ) × Named (bump s p) t i × (j ≡ element_index t i)
  only_indices-next j n e = elim (Bool-cases (next_index s p == j)) [
    | inl b ↦ (s, suc (at s p), newest-Named, sym ((index_beq_iff (next_index s p) j).0 b))
    | inr b ↦
        let old : lookup j m.index_to_mapped ≡ some n =
          sym (choose-false _ _ _ b) ∙ (sym (lookup-next_index j) ∙ e) in
        let (t, i, k, same) = h.only_indices j n old in
        (t, i, (k.0, omega (arith, k.1, le-at-bump s t p)), same)
  ]

  pub set_element_name-Holds : Holds id (bump s p) (named_next id s p m)
  set_element_name-Holds = record {
    small = small-next;
    index = index-next;
    name = name-next;
    only_names = only_names-next;
    only_indices = only_indices-next;
  }
