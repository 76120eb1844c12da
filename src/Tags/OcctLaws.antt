-- ===== src/Tags/OcctLaws.antt =====
-- The 32-bit handles of identities (core/tag_allocator.h, toOcctTag).
use mathlib.Core.Path.{subst}
use oreo_kernel.Prelude.{
  ℕ, ◌+◌, ◌≤◌, ◌<◌, ◌≡◌, ◌≢◌, ◌⊎◌, sym, ap, ◌∙◌, false, some, ok, arith, inl, inr,
}
use oreo_kernel.Prelude.Dict.{lookup, lookup-insert}
use oreo_kernel.Identity.{ShapeIdentity, is_valid, is_single_doc, identity_eq, identity_beq_iff}
use oreo_kernel.Tags.{TagAllocator, fresh}
use oreo_kernel.Tags.Occt.{int32_max, passes_through, allot_occt_tag, to_occt_tag}

-- The table holds positive handles below the next one, and no handle twice.
pub record OcctIsValid (a : TagAllocator) : Type 0 where
  pub next_positive : 1 ≤ a.next_occt_tag
  pub next_bounded : a.next_occt_tag ≤ int32_max + 1
  pub bounds :
      (id : ShapeIdentity) (t : ℕ)
      → lookup id a.occt_tags ≡ some t
      → (1 ≤ t) × (t < a.next_occt_tag)
  pub distinct :
      (id id' : ShapeIdentity) (t : ℕ)
      → lookup id a.occt_tags ≡ some t
      → lookup id' a.occt_tags ≡ some t
      → id ≡ id'

pub fresh-OcctIsValid : OcctIsValid fresh
unfolding lookup
fresh-OcctIsValid = record {
  next_positive = omega arith;
  next_bounded = omega arith;
  bounds = λ id t p. cc;
  distinct = λ id id' t p q. cc;
}

allot-OcctIsValid :
    (a : TagAllocator) (id : ShapeIdentity) (t : ℕ)
    → OcctIsValid a
    → (allot_occt_tag a id).0 ≡ ok t
    → OcctIsValid (allot_occt_tag a id).1
unfolding allot_occt_tag
allot-OcctIsValid a id t v h = record {
  next_positive = ground arith;
  next_bounded = ground arith;
  bounds = λ j u p. ground (arith, lookup-insert id j a.next_occt_tag a.occt_tags, v.bounds j u);
  distinct = λ j k u p q. ground (
    arith,
    lookup-insert id j a.next_occt_tag a.occt_tags,
    lookup-insert id k a.next_occt_tag a.occt_tags,
    v.bounds j u,
    v.bounds k u,
    v.distinct j k u,
    identity_beq_iff id j,
    identity_beq_iff id k,
  );
}

pass-through :
    (a : TagAllocator) (id : ShapeIdentity) (t : ℕ)
    → passes_through id ≡ false
    → (1 ≤ t) × (t ≤ int32_max)
    → let single : ShapeIdentity = record { document_id = 0; counter = t } in
      ((to_occt_tag a single).0 ≡ ok t) × (id ≢ single)
unfolding to_occt_tag is_valid passes_through is_single_doc
pass-through a id t s h = (ground arith, ground arith)

-- A handle that was allotted stands in the table.
lookup-allot :
    (a : TagAllocator) (id : ShapeIdentity) (t : ℕ)
    → (allot_occt_tag a id).0 ≡ ok t
    → lookup id (allot_occt_tag a id).1.occt_tags ≡ some t
unfolding allot_occt_tag
lookup-allot a id t h =
    ground (arith, lookup-insert id id a.next_occt_tag a.occt_tags, identity_beq_iff id id)

-- toOcctTag allots a handle or leaves the allocator alone.
to_occt_tag_cases :
    (a : TagAllocator) (id : ShapeIdentity)
    → (to_occt_tag a id ≡ allot_occt_tag a id) ⊎ ((to_occt_tag a id).1 ≡ a)
unfolding to_occt_tag
to_occt_tag_cases a id = ground arith

-- toOcctTag keeps the table valid where it returns a handle.
pub to_occt_tag-OcctIsValid :
    (a : TagAllocator) (id : ShapeIdentity) (t : ℕ)
    → OcctIsValid a
    → (to_occt_tag a id).0 ≡ ok t
    → OcctIsValid (to_occt_tag a id).1
to_occt_tag-OcctIsValid a id t v h = elim (to_occt_tag_cases a id) [
  | inl e ↦
      subst (λ r. OcctIsValid r.1) (sym e) (allot-OcctIsValid a id t v (ap (λ r. r.0) (sym e) ∙ h))
  | inr e ↦ subst OcctIsValid (sym e) v
]

-- The table of the allocator that is left holds the handle.
lookup-to_occt_tag :
    (a : TagAllocator) (id : ShapeIdentity) (t : ℕ)
    → passes_through id ≡ false
    → (to_occt_tag a id).0 ≡ ok t
    → lookup id (to_occt_tag a id).1.occt_tags ≡ some t
unfolding to_occt_tag
lookup-to_occt_tag a id t s h = ground (arith, lookup-allot a id t)

-- A handle is stable: asked again, the allocator returns it once more and does not change.
pub to_occt_tag_stable :
    (a : TagAllocator) (id : ShapeIdentity) (t : ℕ)
    → (to_occt_tag a id).0 ≡ ok t
    → to_occt_tag (to_occt_tag a id).1 id ≡ (ok t, (to_occt_tag a id).1)
unfolding to_occt_tag
to_occt_tag_stable a id t h = ground (arith, lookup-allot a id t)

from_table :
    (a : TagAllocator) (id : ShapeIdentity) (t : ℕ)
    → OcctIsValid a
    → passes_through id ≡ false
    → (to_occt_tag a id).0 ≡ ok t
    → (1 ≤ t) × (t ≤ int32_max)
from_table a id t v s h =
    let v' = to_occt_tag-OcctIsValid a id t v h in
    omega (arith, v'.bounds id t (lookup-to_occt_tag a id t s h), v'.next_bounded)

entry_kept :
    (a : TagAllocator) (id j : ShapeIdentity) (t : ℕ)
    → lookup id a.occt_tags ≡ some t
    → lookup id (to_occt_tag a j).1.occt_tags ≡ some t
unfolding to_occt_tag allot_occt_tag
entry_kept a id j t h =
    ground (arith, lookup-insert j id a.next_occt_tag a.occt_tags, identity_beq_iff j id)

-- Where an allocator's table holds positive handles below the next one and no handle twice, and the
-- next handle is from 1 to 2^31: two different identities that do not pass through, and that are
-- both given a handle, asked one behind the other, get different handles.
pub to_occt_tag_distinct :
    (a : TagAllocator) (id id' : ShapeIdentity) (t t' : ℕ)
    → OcctIsValid a
    → passes_through id ≡ false
    → passes_through id' ≡ false
    → (to_occt_tag a id).0 ≡ ok t
    → (to_occt_tag (to_occt_tag a id).1 id').0 ≡ ok t'
    → id ≢ id'
    → t ≢ t'
to_occt_tag_distinct a id id' t t' v s s' h h' ne same =
    let b = (to_occt_tag a id).1 in
    let v' = to_occt_tag-OcctIsValid b id' t' (to_occt_tag-OcctIsValid a id t v h) h' in
    ne (
      v'.distinct id id' t (entry_kept b id id' t (lookup-to_occt_tag a id t s h)) (
        subst (λ u. lookup id' (to_occt_tag b id').1.occt_tags ≡ some u) (sym same)
          (lookup-to_occt_tag b id' t' s' h')))

-- The handle t of an identity that does not pass through is also the handle of the single-document
-- identity with the counter t, which is another identity.
pub to_occt_tag_collision :
    (a : TagAllocator) (id : ShapeIdentity) (t : ℕ)
    → OcctIsValid a
    → passes_through id ≡ false
    → (to_occt_tag a id).0 ≡ ok t
    → let single : ShapeIdentity = record { document_id = 0; counter = t } in
      ((to_occt_tag (to_occt_tag a id).1 single).0 ≡ ok t) × (id ≢ single)
to_occt_tag_collision a id t v s h =
    pass-through (to_occt_tag a id).1 id t s (from_table a id t v s h)
