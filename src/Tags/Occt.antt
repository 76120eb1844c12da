-- ===== src/Tags/Occt.antt =====
-- core/tag_allocator.h: toOcctTag, the 32-bit handles that OCCT takes.
use oreo_kernel.Prelude.{
  ℕ, Bool, ◌+◌, ◌%◌, ◌^◌, ◌-◌, ◌&&◌, ◌||◌, not, ltb, leb, nat_beq, if◌then◌else◌, none, some,
  Result, ok, throw, invalid_argument, overflow_error, false,
}
use oreo_kernel.Prelude.Dict.{lookup, insert}
use oreo_kernel.Identity.{ShapeIdentity, is_single_doc, is_valid, identity_eq}
use oreo_kernel.Identity.Scalar.{u32, decode_v1_scalar}
use oreo_kernel.Identity.DedupScope.{no_scope}
use oreo_kernel.Tags.{TagAllocator, is_not_positive}

abbrev pub int32_max : ℕ
int32_max = 2 ^ 31 - 1

-- The identities that are their own handle.
unfoldable pub passes_through : ShapeIdentity → Bool
unfolding is_single_doc
passes_through id = is_single_doc id && leb id.counter int32_max

-- nextOcctTag_.fetch_add(1), and the entry that is made from it.
unfoldable pub allot_occt_tag : TagAllocator → ShapeIdentity → Result ℕ × TagAllocator
allot_occt_tag a id =
    let next = a.next_occt_tag in
    let advanced : TagAllocator = record a { next_occt_tag = (next + 1) % u32 } in
    if nat_beq next 0 || ltb int32_max next
    then (throw overflow_error, advanced)
    else (ok next, record advanced { occt_tags = insert id next a.occt_tags })

unfoldable pub to_occt_tag : TagAllocator → ShapeIdentity → Result ℕ × TagAllocator
to_occt_tag a id =
    if not (is_valid id)
    then (throw invalid_argument, a)
    else if passes_through id
    then (ok id.counter, a)
    else elim (lookup id a.occt_tags) [ some tag ↦ (ok tag, a) | none ↦ allot_occt_tag a id ]

-- The overload for a v1 tag.
unfoldable pub to_occt_tag_v1 : TagAllocator → ℕ → Result ℕ × TagAllocator
unfolding decode_v1_scalar
to_occt_tag_v1 a tag =
    if is_not_positive tag
    then (throw invalid_argument, a)
    else elim (decode_v1_scalar tag a.document_id false no_scope).result [
      | ok id ↦ to_occt_tag a id
      | throw e ↦ (throw e, a)
    ]
