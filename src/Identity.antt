-- ===== src/Identity.antt =====
-- core/shape_identity.h: the identity of a shape, a 64-bit document id and a 64-bit counter.
-- A std::uint64_t is a number below `u64`, and a text is the list of its bytes.
pub mod Hex
pub mod HexLaws
pub mod Order
pub mod Scalar
pub mod ScalarLaws
pub mod DedupScope
use oreo_kernel.Prelude.{
  ℕ, ◌^◌, ◌<◌, ◌≡◌, Bool, not, ◌&&◌, ltb, if◌then◌else◌, Eq, arith, nat_beq, ◌↔◌, true,
}

abbrev pub u64 : ℕ
u64 = 2 ^ 64

pub record ShapeIdentity : Type 0 where
  pub document_id : ℕ
  pub counter : ℕ

-- ShapeIdentity{}: what the default member initialisers give.
abbrev pub unset : ShapeIdentity
unset = record { document_id = 0; counter = 0 }

pub record IsU64 (id : ShapeIdentity) : Type 0 where
  pub document_id : id.document_id < u64
  pub counter : id.counter < u64

unfoldable pub is_single_doc : ShapeIdentity → Bool
is_single_doc id = nat_beq id.document_id 0

unfoldable pub is_valid : ShapeIdentity → Bool
is_valid id = not (nat_beq id.counter 0)

abbrev pub identity_beq : ShapeIdentity → ShapeIdentity → Bool
identity_beq a b = nat_beq a.document_id b.document_id && nat_beq a.counter b.counter

pub identity_beq_iff : (a b : ShapeIdentity) → (identity_beq a b ≡ true) ↔ (a ≡ b)
identity_beq_iff a b = ground arith

instance abbrev pub identity_eq : Eq ShapeIdentity
identity_eq = record { eqb = identity_beq; eqb_iff = identity_beq_iff }

-- operator<
unfoldable pub identity_lt : ShapeIdentity → ShapeIdentity → Bool
identity_lt a b =
    if not (nat_beq a.document_id b.document_id)
    then ltb a.document_id b.document_id
    else ltb a.counter b.counter

-- operator<=
unfoldable pub identity_le : ShapeIdentity → ShapeIdentity → Bool
unfolding identity_lt
identity_le a b = not (identity_lt b a)
