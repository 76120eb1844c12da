-- ===== src/Identity/ScalarLaws.antt =====
-- What the v1 tag keeps of an identity, and what it loses.
use oreo_kernel.Prelude.{
  ℕ, ◌*◌, ◌/◌, ◌%◌, ◌<◌, ◌≤◌, ◌≡◌, ◌≢◌, ◌⊎◌, ◌↔◌, inl, inr, Bool, true, false, ok, throw, arith,
  invalid_argument,
}
use oreo_kernel.Identity.{ShapeIdentity}
use oreo_kernel.Identity.Scalar.{
  u32, int64_max, squeeze_v1_doc_id, pack_halves, encode_v1_scalar, decode_v1_scalar,
}
use oreo_kernel.Identity.DedupScope.{DedupState}

-- The identities that the v1 tag has room for.
abbrev pub FitsV1 : ShapeIdentity → Type 0
FitsV1 id =
    (id.counter ≢ 0)
    × ((id.document_id ≡ 0) × (id.counter ≤ int64_max) ⊎ (id.document_id ≢ 0) × (id.counter < u32))

FitsV1-encode : (id : ShapeIdentity) (s : ℕ) → encode_v1_scalar id ≡ ok s → FitsV1 id
unfolding encode_v1_scalar
FitsV1-encode id s h = ground arith

encode-FitsV1 :
    (id : ShapeIdentity) → FitsV1 id → (s : ℕ) × (encode_v1_scalar id ≡ ok s) × (s < u32 * u32)
unfolding encode_v1_scalar
encode-FitsV1 id (c, inl (d, k)) = (id.counter, ground arith, omega arith)
encode-FitsV1 id (c, inr (d, k)) =
    (pack_halves (squeeze_v1_doc_id id.document_id) (id.counter % u32), ground arith, omega arith)

-- encodeV1Scalar returns a tag for exactly the identities that fit, and that tag has 64 bits.
pub encode_v1_scalar-ok_iff :
    (id : ShapeIdentity) → ((s : ℕ) × (encode_v1_scalar id ≡ ok s) × (s < u32 * u32)) ↔ FitsV1 id
encode_v1_scalar-ok_iff id = (λ (s, h, _). FitsV1-encode id s h, encode-FitsV1 id)

-- The tag of an identity whose counter has 32 bits is decoded, with its document's id as the hint,
-- to the same identity; no warning is given and the thread's state does not change.
pub decode-encode :
    (id : ShapeIdentity) (s : ℕ) (diag : Bool) (d : DedupState)
    → id.counter < u32
    → encode_v1_scalar id ≡ ok s
    → decode_v1_scalar s id.document_id diag d
      ≡ record { result = ok id; dedup = d; warned = false }
unfolding encode_v1_scalar decode_v1_scalar
decode-encode id s diag d k h = ground arith

-- A single-document identity whose counter needs more than 32 bits is encoded, and its tag is
-- decoded to an identity of another document.
pub decode-encode_wide :
    (id : ShapeIdentity) (diag : Bool) (d : DedupState)
    → id.document_id ≡ 0
    → u32 ≤ id.counter
    → id.counter ≤ int64_max
    → (encode_v1_scalar id ≡ ok id.counter)
      × ((decode_v1_scalar id.counter id.document_id diag d).result
          ≡ ok (record { document_id = id.counter / u32; counter = id.counter % u32 }))
      × ((decode_v1_scalar id.counter id.document_id diag d).result ≢ ok id)
unfolding encode_v1_scalar decode_v1_scalar
decode-encode_wide id diag d e lo hi = (ground arith, ground arith, ground arith)

-- Two identities of documents with the same v1 tag have equal counters and equal low 32 bits of
-- their document ids.
pub encode_v1_scalar-collision :
    (a b : ShapeIdentity) (s : ℕ)
    → a.document_id ≢ 0
    → b.document_id ≢ 0
    → encode_v1_scalar a ≡ ok s
    → encode_v1_scalar b ≡ ok s
    → (a.counter ≡ b.counter) × (squeeze_v1_doc_id a.document_id ≡ squeeze_v1_doc_id b.document_id)
unfolding encode_v1_scalar
encode_v1_scalar-collision a b s p q h k = ground arith

-- Without a hint the tag of a multi-document identity is decoded to the low 32 bits of its document
-- id and the whole counter. On a thread with no dedup scope open and a collector given, the
-- warning is given unless those low bits are all zero.
pub decode-no_hint :
    (id : ShapeIdentity) (s : ℕ) (d : DedupState)
    → id.document_id ≢ 0
    → d.depth ≡ 0
    → encode_v1_scalar id ≡ ok s
    → ((decode_v1_scalar s 0 true d).result
        ≡ ok (record { document_id = squeeze_v1_doc_id id.document_id; counter = id.counter }))
      × (((decode_v1_scalar s 0 true d).warned ≡ true) ↔ (squeeze_v1_doc_id id.document_id ≢ 0))
unfolding encode_v1_scalar decode_v1_scalar
decode-no_hint id s d p q h = (ground arith, (ground arith, ground arith))

-- A tag with document bits is refused under the hint of any document whose low 32 bits differ.
pub decode-mismatch :
    (id : ShapeIdentity) (s hint : ℕ) (diag : Bool) (d : DedupState)
    → squeeze_v1_doc_id id.document_id ≢ 0
    → hint ≢ 0
    → squeeze_v1_doc_id hint ≢ squeeze_v1_doc_id id.document_id
    → encode_v1_scalar id ≡ ok s
    → (decode_v1_scalar s hint diag d).result ≡ throw invalid_argument
unfolding encode_v1_scalar decode_v1_scalar
decode-mismatch id s hint diag d p q r h = ground arith
