-- ===== src/Tags/Issue.antt =====
-- Which identities an allocator issues (core/tag_allocator.h).
use oreo_kernel.Prelude.{
  ℕ, zero, suc, ◌+◌, ◌-◌, ◌≤◌, ◌<◌, ◌≡◌, ◌↔◌, ◌⊎◌, refl, List, [], ◌∷◌, true, false, Result, ok,
  throw, overflow_error, arith, ap, ap₂,
}
use oreo_kernel.Identity.{ShapeIdentity}
use oreo_kernel.Identity.Scalar.{int64_max}
use oreo_kernel.Tags.{
  TagAllocator, next_shape_identity, peek_shape_identity, allocate_range_v2, SnapshotV2,
  snapshot_v2, restore_v2,
}

-- n calls of nextShapeIdentity, their results in order.
unfoldable pub issue_many : ℕ → TagAllocator → List (Result ShapeIdentity) × TagAllocator
issue_many zero a = ([], a)
issue_many (suc n) a =
    let (r, a') = next_shape_identity a in let (rs, last) = issue_many n a' in (r ∷ rs, last)

-- The identities of a document with the n counters behind `counter`, in order.
unfoldable pub consecutive : ℕ → ℕ → ℕ → List (Result ShapeIdentity)
consecutive document_id counter zero = []
consecutive document_id counter (suc n) =
    ok (record { document_id = document_id; counter = suc counter })
    ∷ consecutive document_id (suc counter) n

abbrev at_counter : TagAllocator → ℕ → TagAllocator
at_counter a c = record a { counter = c }

next_shape_identity-below_max :
    (a : TagAllocator)
    → a.counter < int64_max
    → next_shape_identity a ≡ (
      ok (record { document_id = a.document_id; counter = suc a.counter }),
      at_counter a (suc a.counter),
    )
unfolding next_shape_identity
next_shape_identity-below_max a h = ground arith

-- As long as the counter stays below INT64_MAX, n calls of nextShapeIdentity issue the n identities
-- behind the counter, in order and in the allocator's document, and change the counter alone.
pub issue_many-eq-consecutive :
    (n : ℕ) (a : TagAllocator)
    → a.counter + n ≤ int64_max
    → issue_many n a ≡ (consecutive a.document_id a.counter n, record a { counter = a.counter + n })
unfolding issue_many consecutive
issue_many-eq-consecutive zero a h = ground arith
issue_many-eq-consecutive (suc n) a h = rw (next_shape_identity-below_max a (omega arith)) (
    rw (issue_many-eq-consecutive n (at_counter a (suc a.counter)) (omega arith))
      (ap (λ c. (consecutive a.document_id a.counter (suc n), at_counter a c)) (omega arith)))

-- peekShapeIdentity tells what the next call of nextShapeIdentity returns or throws.
pub peek-eq-next : (a : TagAllocator) → peek_shape_identity a ≡ (next_shape_identity a).0
unfolding peek_shape_identity next_shape_identity
peek-eq-next a = refl

next_shape_identity-agrees :
    (a b : TagAllocator)
    → a.document_id ≡ b.document_id
    → a.counter ≡ b.counter
    → ((next_shape_identity a).0 ≡ (next_shape_identity b).0)
      × ((next_shape_identity a).1.document_id ≡ (next_shape_identity b).1.document_id)
      × ((next_shape_identity a).1.counter ≡ (next_shape_identity b).1.counter)
unfolding next_shape_identity
next_shape_identity-agrees a b d c = (cc, d, cc)

-- What is issued depends on the document and the counter alone.
issue_many-agrees :
    (n : ℕ) (a b : TagAllocator)
    → a.document_id ≡ b.document_id
    → a.counter ≡ b.counter
    → (issue_many n a).0 ≡ (issue_many n b).0
unfolding issue_many
issue_many-agrees zero a b d c = refl
issue_many-agrees (suc n) a b d c =
    let (same, d', c') = next_shape_identity-agrees a b d c in
    ap₂ (λ r rs. r ∷ rs) same
      (issue_many-agrees n (next_shape_identity a).1 (next_shape_identity b).1 d' c')

-- A snapshot that could be taken and is restored by force, in whatever state the allocator is by
-- then, brings the same identities back: any number of calls return what they would have returned
-- at the snapshot.
pub restore_v2-replays :
    (a later : TagAllocator) (snap : SnapshotV2) (n : ℕ)
    → snapshot_v2 a ≡ ok snap
    → ((restore_v2 later snap true).0 ≡ ok tt)
      × ((issue_many n (restore_v2 later snap true).1).0 ≡ (issue_many n a).0)
unfolding snapshot_v2 restore_v2
restore_v2-replays a later snap n h = (
  ground arith,
  issue_many-agrees n (restore_v2 later snap true).1 a (ground arith) (ground arith),
)

-- Without force, a snapshot is restored exactly if its counter is no negative number and the
-- allocator's counter, read as a signed number, has not passed it; a refused restore changes nothing.
pub restore_v2-ok_iff :
    (a : TagAllocator) (snap : SnapshotV2)
    → (((restore_v2 a snap false).0 ≡ ok tt)
        ↔ ((snap.counter ≤ int64_max) × ((a.counter ≤ snap.counter) ⊎ (int64_max < a.counter))))
      × (((restore_v2 a snap false).1 ≡ a) ⊎ ((restore_v2 a snap false).0 ≡ ok tt))
unfolding restore_v2
restore_v2-ok_iff a snap = ((ground arith, ground arith), ground arith)

-- From a counter of at least 2, two ranges of INT64_MAX identities are both refused, and the call
-- of nextShapeIdentity after them issues an identity that the counter had passed already.
pub allocate_range_v2-rewinds :
    (a : TagAllocator)
    → 2 ≤ a.counter
    → a.counter ≤ int64_max
    → let once = allocate_range_v2 a int64_max in
      let twice = allocate_range_v2 once.1 int64_max in
      (once.0 ≡ throw overflow_error)
      × (twice.0 ≡ throw overflow_error)
      × ((next_shape_identity twice.1).0
          ≡ ok (record { document_id = a.document_id; counter = a.counter - 1 }))
unfolding allocate_range_v2 next_shape_identity
allocate_range_v2-rewinds a h k = (ground arith, ground arith, ground arith)
