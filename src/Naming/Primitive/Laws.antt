-- ===== src/Naming/Primitive/Laws.antt =====
-- The names of the elements of a primitive (naming/map_shape_elements.cpp).
use mathlib.Core.List.{append_cancel_left, append_cancel_right}
use oreo_kernel.Prelude.{
  ℕ, suc, ◌^◌, ◌≤◌, ◌<◌, ◌≡◌, ◌⊎◌, inl, inr, refl, sym, ap, ◌∙◌, [], ◌++◌, none, some, arith,
  bytes_eq, Option-cases,
}
use oreo_kernel.Prelude.Int.{pos, negsuc}
use oreo_kernel.Prelude.Decimal.{decimal_digits, decimal_value, decimal_value-decimal_digits}
use oreo_kernel.Prelude.Dict.{lookup}
use oreo_kernel.Identity.{ShapeIdentity}
use oreo_kernel.Tree.Resolve.{SubShape, face, edge, vertex}
use oreo_kernel.Naming.Name.{Bytes, IndexedName, append_shape_identity}
use oreo_kernel.Naming.ElementMap.{ElementMap, index_eq}
use oreo_kernel.Naming.Primitive.{type_name, element_index, primitive_name}

type_name-injective :
    (s t : SubShape) (xs ys : Bytes) → type_name s ++ xs ≡ type_name t ++ ys → s ≡ t
unfolding type_name
type_name-injective face face xs ys h = refl
type_name-injective edge edge xs ys h = refl
type_name-injective vertex vertex xs ys h = refl
type_name-injective face edge xs ys h = absurd (ground arith)
type_name-injective face vertex xs ys h = absurd (ground arith)
type_name-injective edge face xs ys h = absurd (ground arith)
type_name-injective edge vertex xs ys h = absurd (ground arith)
type_name-injective vertex face xs ys h = absurd (ground arith)
type_name-injective vertex edge xs ys h = absurd (ground arith)

digits-injective :
    (i k : ℕ) → i < 10 ^ 10 → k < 10 ^ 10 → decimal_digits 10 i [] ≡ decimal_digits 10 k [] → i ≡ k
unfolding decimal_value
digits-injective i k p q h =
    sym (decimal_value-decimal_digits 10 i [] p)
    ∙ (ap (decimal_value 0) h ∙ decimal_value-decimal_digits 10 k [] q)

pub primitive_name-injective :
    (id : ShapeIdentity) (s t : SubShape) (i k : ℕ)
    → i < 10 ^ 10
    → k < 10 ^ 10
    → primitive_name id s i ≡ primitive_name id t k
    → (s ≡ t) × (i ≡ k)
unfolding primitive_name append_shape_identity
primitive_name-injective id s t i k p q h =
    let front = append_cancel_right _ _ _ h in
    let same = type_name-injective s t _ _ front in
    (
      same,
      digits-injective i k p q (
          append_cancel_left (type_name s) _ _
            (front ∙ ap (λ u. type_name u ++ decimal_digits 10 k []) (sym same))),
    )

-- How many elements of each type have been named.
pub record Progress : Type 0 where
  pub faces : ℕ
  pub edges : ℕ
  pub vertices : ℕ

unfoldable pub at : SubShape → Progress → ℕ
at face p = p.faces
at edge p = p.edges
at vertex p = p.vertices

unfoldable pub bump : SubShape → Progress → Progress
bump face p = record p { faces = suc p.faces }
bump edge p = record p { edges = suc p.edges }
bump vertex p = record p { vertices = suc p.vertices }

pub at-bump-cases :
    (s t : SubShape) (p : Progress) (k : ℕ)
    → k ≤ at t (bump s p)
    → ((t ≡ s) × (k ≡ suc (at s p))) ⊎ (k ≤ at t p)
unfolding at bump
at-bump-cases face face p k h = ground arith
at-bump-cases face edge p k h = inr h
at-bump-cases face vertex p k h = inr h
at-bump-cases edge face p k h = inr h
at-bump-cases edge edge p k h = ground arith
at-bump-cases edge vertex p k h = inr h
at-bump-cases vertex face p k h = inr h
at-bump-cases vertex edge p k h = inr h
at-bump-cases vertex vertex p k h = ground arith

pub le-at-bump : (s t : SubShape) (p : Progress) → at t p ≤ at t (bump s p)
unfolding at bump
le-at-bump face face p = omega arith
le-at-bump face edge p = omega arith
le-at-bump face vertex p = omega arith
le-at-bump edge face p = omega arith
le-at-bump edge edge p = omega arith
le-at-bump edge vertex p = omega arith
le-at-bump vertex face p = omega arith
le-at-bump vertex edge p = omega arith
le-at-bump vertex vertex p = omega arith

pub at-bump_self : (s : SubShape) (p : Progress) → at s (bump s p) ≡ suc (at s p)
unfolding at bump
at-bump_self face p = refl
at-bump_self edge p = refl
at-bump_self vertex p = refl

-- An element that has been named.
abbrev pub Named : Progress → SubShape → ℕ → Type 0
Named p s i = (0 < i) × (i ≤ at s p)

-- Exactly the elements that have been named are in the two maps, under their names.
pub record Holds (id : ShapeIdentity) (p : Progress) (m : ElementMap) : Type 0 where
  pub small : (s : SubShape) → at s p < 10 ^ 10
  pub index :
      (s : SubShape) (i : ℕ)
      → Named p s i
      → lookup (element_index s i) m.index_to_mapped ≡ some (primitive_name id s i)
  pub name :
      (s : SubShape) (i : ℕ)
      → Named p s i
      → lookup (primitive_name id s i) m.mapped_to_index ≡ some (element_index s i)
  pub only_names :
      (n : Bytes) (j : IndexedName Bytes)
      → lookup n m.mapped_to_index ≡ some j
      → (s : SubShape) × (i : ℕ) × Named p s i × (n ≡ primitive_name id s i)
  pub only_indices :
      (j : IndexedName Bytes) (n : Bytes)
      → lookup j m.index_to_mapped ≡ some n
      → (s : SubShape) × (i : ℕ) × Named p s i × (j ≡ element_index s i)

pub element_index-injective :
    (s t : SubShape) (i k : ℕ) → element_index s i ≡ element_index t k → (s ≡ t) × (i ≡ k)
element_index-injective s t i k h = (
  type_name-injective s t [] [] (ap (λ j. j.type ++ []) h),
  ap (λ j. elim j.index [ pos x ↦ x | negsuc _ ↦ 0 ]) h,
)

module _ (id : ShapeIdentity) (p : Progress) (m : ElementMap) (h : Holds id p m) (s : SubShape)
    (fits : suc (at s p) < 10 ^ 10) where
  pub fresh-name : lookup (primitive_name id s (suc (at s p))) m.mapped_to_index ≡ none
  fresh-name = elim (Option-cases (lookup (primitive_name id s (suc (at s p))) m.mapped_to_index)) [
    | inl e ↦ e
    | inr (j, e) ↦
        let (t, k, named, same) = h.only_names _ j e in
        let (st, ik) =
          primitive_name-injective id s t (suc (at s p)) k fits (omega (arith, named.1, h.small t))
            same in
        absurd (omega (arith, named.1, ik, ap (λ u. at u p) st))
  ]

  pub fresh-index : lookup (element_index s (suc (at s p))) m.index_to_mapped ≡ none
  fresh-index = elim (Option-cases (lookup (element_index s (suc (at s p))) m.index_to_mapped)) [
    | inl e ↦ e
    | inr (n, e) ↦
        let (t, k, named, same) = h.only_indices _ n e in
        let (st, ik) = element_index-injective s t (suc (at s p)) k same in
        absurd (omega (arith, named.1, ik, ap (λ u. at u p) st))
  ]
