-- ===== src/Examples/Tags.antt =====
-- core/tag_allocator.h on small inputs.
use oreo_kernel.Prelude.{
  ℕ, List, ◌+◌, ◌*◌, ◌≡◌, ◌≢◌, ◌⊎◌, ◌↔◌, refl, true, false, [], ◌∷◌, ok, throw, overflow_error,
  logic_error, none, arith, nat_eq,
}
use oreo_kernel.Prelude.Dict.{lookup, insert}
use oreo_kernel.Identity.{ShapeIdentity, identity_eq, is_valid}
use oreo_kernel.Identity.Scalar.{int64_max, u32, encode_v1_scalar}
use oreo_kernel.Tags.{
  TagAllocator, fresh, next_shape_identity, allocate_range_v2, SnapshotV2, snapshot_v2, restore_v2,
}
use oreo_kernel.Tags.Issue.{issue_many, restore_v2-replays, allocate_range_v2-rewinds}
use oreo_kernel.Tags.Occt.{to_occt_tag, passes_through, allot_occt_tag}
use oreo_kernel.Tags.OcctLaws.{fresh-OcctIsValid, to_occt_tag_distinct}
use oreo_kernel.Tags.SipHash.{siphash_2_4}
use oreo_kernel.Tags.SipHash.Laws.{siphash_2_4-eq-siphash}
use oreo_kernel.Tags.SipHash.Paper.{siphash}
use oreo_kernel.Tags.SipHash.Tail.{AreBytes}
use oreo_kernel.Tags.Registry.{Registry, register_document_id}
use oreo_kernel.Tags.RegistryLaws.{IsRegistered, register_document_id_lem, registered-tags_distinct}

abbrev used : TagAllocator
used = record { document_id = 7; counter = 40; occt_tags = []; next_occt_tag = 1 }

abbrev saved : SnapshotV2
saved = record { counter = 40; document_id = 7 }

restore_v2-replays_example :
    ((restore_v2 fresh saved true).0 ≡ ok tt)
    × ((issue_many 2 (restore_v2 fresh saved true).1).0 ≡ (issue_many 2 used).0)
restore_v2-replays_example = restore_v2-replays used fresh saved 2 saves
  where
    saves : snapshot_v2 used ≡ ok saved
    saves = unfold snapshot_v2 in refl

allocate_range_v2-rewinds_example :
    let once = allocate_range_v2 used int64_max in
    let twice = allocate_range_v2 once.1 int64_max in
    (once.0 ≡ throw overflow_error)
    × (twice.0 ≡ throw overflow_error)
    × ((next_shape_identity twice.1).0 ≡ ok (record { document_id = 7; counter = 39 }))
allocate_range_v2-rewinds_example = allocate_range_v2-rewinds used (omega arith) (omega arith)

abbrev foreign : ShapeIdentity
foreign = record { document_id = 9; counter = 5 }

abbrev other : ShapeIdentity
other = record { document_id = 9; counter = 6 }

foreign_tag : (to_occt_tag fresh foreign).0 ≡ ok 1
unfolding to_occt_tag passes_through allot_occt_tag lookup is_valid
foreign_tag = refl

other_tag : (to_occt_tag (to_occt_tag fresh foreign).1 other).0 ≡ ok 2
unfolding to_occt_tag passes_through allot_occt_tag lookup insert is_valid
other_tag = refl

foreign_kept : passes_through foreign ≡ false
unfolding passes_through
foreign_kept = refl

other_kept : passes_through other ≡ false
unfolding passes_through
other_kept = refl

to_occt_tag_distinct_example : ◌≢◌ {A = ℕ} 1 2
to_occt_tag_distinct_example =
    to_occt_tag_distinct fresh foreign other 1 2 fresh-OcctIsValid foreign_kept other_kept
      foreign_tag other_tag (ground arith)

abbrev nine : Registry
nine = (9, 9) ∷ []

register_document_id_lem_example :
    (((register_document_id nine (9 + u32)).0 ≡ ok tt)
      ↔ ((lookup {K = ℕ} {V = ℕ} 9 nine ≡ none) ⊎ IsRegistered nine (9 + u32)))
    × (((register_document_id nine (9 + u32)).0 ≡ ok tt)
          × IsRegistered (register_document_id nine (9 + u32)).1 (9 + u32)
        ⊎ (register_document_id nine (9 + u32) ≡ (throw logic_error, nine)))
register_document_id_lem_example = register_document_id_lem nine (9 + u32)

registered-tags_distinct_example : foreign ≡ foreign
unfolding lookup encode_v1_scalar
registered-tags_distinct_example =
    registered-tags_distinct nine foreign foreign (9 * u32 + 5) (omega arith) (omega arith) refl
      refl refl refl

-- Two vectors of the SipHash paper, under the key of the bytes 0 to 15: the bytes 0 to 14, and
-- nothing.
abbrev paper_input : List ℕ
paper_input = 0 ∷ 1 ∷ 2 ∷ 3 ∷ 4 ∷ 5 ∷ 6 ∷ 7 ∷ 8 ∷ 9 ∷ 10 ∷ 11 ∷ 12 ∷ 13 ∷ 14 ∷ []

siphash_2_4-paper :
    siphash_2_4 paper_input 0x0706050403020100 0x0f0e0d0c0b0a0908 ≡ 0xa129ca6149be45e5
unfolding siphash_2_4
siphash_2_4-paper = refl

siphash_2_4-empty : siphash_2_4 [] 0x0706050403020100 0x0f0e0d0c0b0a0908 ≡ 0x726fdb47dd0e0e31
unfolding siphash_2_4
siphash_2_4-empty = refl

abbrev uuid_start : List ℕ
uuid_start = b'5' ∷ b'5' ∷ b'0' ∷ b'e' ∷ b'8' ∷ b'4' ∷ b'0' ∷ b'0' ∷ b'-' ∷ b'e' ∷ []

uuid_start-AreBytes : AreBytes uuid_start
unfolding AreBytes
uuid_start-AreBytes = ground arith

siphash_2_4-eq-siphash_example : siphash_2_4 uuid_start 1 2 ≡ siphash uuid_start 1 2
siphash_2_4-eq-siphash_example = siphash_2_4-eq-siphash uuid_start 1 2 uuid_start-AreBytes
