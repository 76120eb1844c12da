-- ===== src/Tags.antt =====
-- core/tag_allocator.h: TagAllocator, which issues the identities of shapes.
-- Each method takes the allocator and returns its result, or what it throws, with the allocator
-- that it leaves. A signed 64-bit or 32-bit value is kept as its bit pattern.
pub mod Legacy
pub mod SipHash
pub mod Occt
pub mod OcctLaws
pub mod Registry
pub mod RegistryLaws
pub mod Issue
use oreo_kernel.Prelude.{
  ℕ, suc, ◌+◌, ◌%◌, ◌^◌, Bool, ◌||◌, not, ◌&&◌, ltb, leb, nat_beq, if◌then◌else◌, [], Result, ok,
  throw, invalid_argument, overflow_error, logic_error,
}
use oreo_kernel.Prelude.Dict.{Dict}
use oreo_kernel.Identity.{ShapeIdentity, u64}
use oreo_kernel.Identity.Scalar.{int64_max}

pub record TagAllocator : Type 0 where
  pub document_id : ℕ
  pub counter : ℕ
  pub occt_tags : Dict ShapeIdentity ℕ
  pub next_occt_tag : ℕ

-- TagAllocator()
abbrev pub fresh : TagAllocator
fresh = record { document_id = 0; counter = 0; occt_tags = []; next_occt_tag = 1 }

-- The sign of a 64-bit pattern.
abbrev pub is_negative : ℕ → Bool
is_negative c = ltb int64_max c

-- counter_.fetch_add(n): atomics wrap.
unfoldable pub fetch_add : TagAllocator → ℕ → TagAllocator
fetch_add a n = record a { counter = (a.counter + n) % u64 }

unfoldable pub next_shape_identity : TagAllocator → Result ShapeIdentity × TagAllocator
unfolding fetch_add
next_shape_identity a =
    let prev = a.counter in
    (
      if is_negative prev || nat_beq prev int64_max
          then throw overflow_error
          else ok (record { document_id = a.document_id; counter = prev + 1 }),
      fetch_add a 1,
    )

unfoldable pub peek_shape_identity : TagAllocator → Result ShapeIdentity
peek_shape_identity a =
    if is_negative a.counter || nat_beq a.counter int64_max
    then throw overflow_error
    else ok (record { document_id = a.document_id; counter = a.counter + 1 })

-- n <= 0 on the pattern of a signed number.
abbrev pub is_not_positive : ℕ → Bool
is_not_positive n = nat_beq n 0 || is_negative n

-- The test `prev > INT64_MAX - n - 1` is made with n positive and prev not negative.
unfoldable pub allocate_range_v2 :
    TagAllocator → ℕ → Result (ShapeIdentity × ShapeIdentity) × TagAllocator
unfolding fetch_add
allocate_range_v2 a n =
    if is_not_positive n
    then (throw invalid_argument, a)
    else (let prev = a.counter in
        (
          if is_negative prev || ltb int64_max (prev + n + 1)
              then throw overflow_error
              else ok (
                record { document_id = a.document_id; counter = prev + 1 },
                record { document_id = a.document_id; counter = prev + n + 1 },
              ),
          fetch_add a n,
        ))

unfoldable pub reset : TagAllocator → TagAllocator
reset a = record { document_id = 0; counter = 0; occt_tags = []; next_occt_tag = 1 }

unfoldable pub reset_counter_only : TagAllocator → TagAllocator
reset_counter_only a = record a { counter = 0 }

unfoldable pub seed : TagAllocator → ℕ → Result (Unit {0}) × TagAllocator
seed a start =
    if not (nat_beq a.counter 0)
    then (throw logic_error, a)
    else if is_negative start
    then (throw invalid_argument, a)
    else (ok tt, record a { counter = start })

pub record SnapshotV2 : Type 0 where
  pub counter : ℕ
  pub document_id : ℕ

unfoldable pub snapshot_v2 : TagAllocator → Result SnapshotV2
snapshot_v2 a =
    if is_negative a.counter
    then throw logic_error
    else ok (record { counter = a.counter; document_id = a.document_id })

-- `current > target` compares signed numbers; the target is not negative here.
unfoldable pub restore_v2 : TagAllocator → SnapshotV2 → Bool → Result (Unit {0}) × TagAllocator
restore_v2 a snap force =
    if ltb int64_max snap.counter
    then (throw invalid_argument, a)
    else if not force && (not (is_negative a.counter) && ltb snap.counter a.counter)
    then (throw logic_error, a)
    else (ok tt, record a { counter = snap.counter; document_id = snap.document_id })
