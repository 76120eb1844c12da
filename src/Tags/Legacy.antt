-- ===== src/Tags/Legacy.antt =====
-- core/tag_allocator.h: the deprecated calls that speak the v1 tag.
use oreo_kernel.Prelude.{
  ℕ, ◌+◌, ◌-◌, ◌/◌, ◌%◌, Bool, ◌&&◌, ◌||◌, not, ltb, nat_beq, if◌then◌else◌, Result, ok, throw,
  ◌>>=◌, invalid_argument, overflow_error, logic_error,
}
use oreo_kernel.Identity.Scalar.{u32, int64_max, encode_v1_scalar}
use oreo_kernel.Tags.{
  TagAllocator, is_negative, is_not_positive, fetch_add, next_shape_identity, peek_shape_identity,
  SnapshotV2, snapshot_v2,
}

unfoldable pub next_tag : TagAllocator → Result ℕ × TagAllocator
unfolding next_shape_identity
next_tag a = let issued = next_shape_identity a in (issued.0 >>= encode_v1_scalar, issued.1)

unfoldable pub peek : TagAllocator → Result ℕ
unfolding peek_shape_identity
peek a = peek_shape_identity a >>= encode_v1_scalar

unfoldable pub allocate_range : TagAllocator → ℕ → Result (ℕ × ℕ) × TagAllocator
unfolding fetch_add
allocate_range a n =
    if is_not_positive n
    then (throw invalid_argument, a)
    else (let prev = a.counter in
        (
          if is_negative prev || ltb int64_max (prev + n + 1)
              then throw overflow_error
              else if not (nat_beq a.document_id 0) && ltb (u32 - 1) (prev + n)
              then throw overflow_error
              else ok (prev + 1, prev + n + 1),
          fetch_add a n,
        ))

unfoldable pub encode_tag : TagAllocator → ℕ → Result ℕ
encode_tag a seq =
    if is_not_positive seq
    then throw invalid_argument
    else encode_v1_scalar (record { document_id = a.document_id; counter = seq })

-- Snapshot::counter is signed; the test on the unsigned v2 counter comes before it is narrowed.
unfoldable pub snapshot : TagAllocator → Result SnapshotV2
unfolding snapshot_v2
snapshot a = snapshot_v2 a >>= λ s. if ltb int64_max s.counter then throw overflow_error else ok s

unfoldable pub restore : TagAllocator → SnapshotV2 → Bool → Result (Unit {0}) × TagAllocator
restore a snap force =
    if is_negative snap.counter
    then (throw invalid_argument, a)
    else if not force && (not (is_negative a.counter) && ltb snap.counter a.counter)
    then (throw logic_error, a)
    else (ok tt, record a { counter = snap.counter; document_id = snap.document_id })

unfoldable pub extract_document_id : ℕ → ℕ
extract_document_id tag = tag / u32 % u32

unfoldable pub extract_counter : ℕ → ℕ
extract_counter tag = tag % u32
