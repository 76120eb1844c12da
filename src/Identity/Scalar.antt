-- ===== src/Identity/Scalar.antt =====
-- core/shape_identity_v1.{h,cpp}: the v1 tag, a 64-bit scalar that squeezes an identity.
-- A std::int64_t is kept as its 64-bit pattern, so a negative one is at least 2 ^ 63.
use oreo_kernel.Prelude.{
  ℕ, ◌+◌, ◌-◌, ◌*◌, ◌/◌, ◌%◌, ◌^◌, Bool, false, not, ◌&&◌, ltb, nat_beq, if◌then◌else◌, Result, ok,
  throw, invalid_argument, overflow_error,
}
use oreo_kernel.Identity.{ShapeIdentity}
use oreo_kernel.Identity.DedupScope.{DedupState, should_emit_downgrade_warning}

abbrev pub u32 : ℕ
u32 = 2 ^ 32

abbrev pub int64_max : ℕ
int64_max = 2 ^ 63 - 1

-- documentId & 0xFFFFFFFF
unfoldable pub squeeze_v1_doc_id : ℕ → ℕ
squeeze_v1_doc_id document_id = document_id % u32

-- hi << 32 | lo for two 32-bit halves: no bit is shared, so `|` adds.
unfoldable pub pack_halves : ℕ → ℕ → ℕ
pack_halves hi lo = hi * u32 + lo

unfoldable pub encode_v1_scalar : ShapeIdentity → Result ℕ
unfolding squeeze_v1_doc_id pack_halves
encode_v1_scalar id =
    if nat_beq id.counter 0
    then throw invalid_argument
    else if nat_beq id.document_id 0
    then (if ltb int64_max id.counter then throw overflow_error else ok id.counter)
    else if ltb (u32 - 1) id.counter
    then throw overflow_error
    else ok (pack_halves (squeeze_v1_doc_id id.document_id) (id.counter % u32))

-- What decodeV1Scalar leaves behind: the thread's dedup state, and whether it warned.
pub record Decoded : Type 0 where
  pub result : Result ShapeIdentity
  pub dedup : DedupState
  pub warned : Bool

unfoldable pub decode_v1_scalar : ℕ → ℕ → Bool → DedupState → Decoded
unfolding squeeze_v1_doc_id should_emit_downgrade_warning
decode_v1_scalar scalar hint has_diag dedup =
    let hi = scalar / u32 in
    let lo = scalar % u32 in
    if nat_beq hi 0
    then record {
      result = ok (record { document_id = hint; counter = scalar });
      dedup = dedup;
      warned = false;
    }
    else if nat_beq hint 0
    then (let asked = should_emit_downgrade_warning dedup in
        record {
          result = ok (record { document_id = hi; counter = lo });
          dedup = if has_diag then asked.0 else dedup;
          warned = has_diag && asked.1;
        })
    else if not (nat_beq (squeeze_v1_doc_id hint) hi)
    then record { result = throw invalid_argument; dedup = dedup; warned = false }
    else record {
      result = ok (record { document_id = hint; counter = lo });
      dedup = dedup;
      warned = false;
    }
