-- ===== src/Tags/SipHash.antt =====
-- core/tag_allocator.h: documentIdFromString, with the SipHash-2-4 that stands in the class.
-- A std::uint64_t is a number below `u64`; a string is the list of its bytes, and `p` what of it is
-- left to read.
pub mod Bits
pub mod Tail
pub mod Paper
pub mod Laws
use Prim.Native.Nat.{bit_or, bit_xor}
use oreo_kernel.Prelude.{
  ℕ, zero, suc, ◌+◌, ◌-◌, ◌*◌, ◌/◌, ◌%◌, ◌^◌, List, [], ◌∷◌, length, take, drop,
}
use oreo_kernel.Identity.{u64}

unfoldable pub rotl64 : ℕ → ℕ → ℕ
rotl64 x b = bit_or (x * 2 ^ b % u64) (x / 2 ^ (64 - b))

-- The number of these bytes, the lowest first, as a little-endian host reads it.
unfoldable pub little_endian : List ℕ → ℕ
little_endian [] = 0
little_endian (b ∷ bs) = b + 256 * little_endian bs

unfoldable pub read_u64_le : List ℕ → ℕ
unfolding little_endian
read_u64_le p = little_endian (take 8 p)

-- The variables v0 to v3.
pub record Words : Type 0 where
  pub v0 : ℕ
  pub v1 : ℕ
  pub v2 : ℕ
  pub v3 : ℕ

unfoldable pub sip_round : Words → Words
unfolding rotl64
sip_round s =
    let a0 = (s.v0 + s.v1) % u64 in
    let a1 = bit_xor (rotl64 s.v1 13) a0 in
    let a2 = (s.v2 + s.v3) % u64 in
    let a3 = bit_xor (rotl64 s.v3 16) a2 in
    let b0 = (rotl64 a0 32 + a3) % u64 in
    let b2 = (a2 + a1) % u64 in
    record {
      v0 = b0;
      v1 = bit_xor (rotl64 a1 17) b2;
      v2 = rotl64 b2 32;
      v3 = bit_xor (rotl64 a3 21) b0;
    }

-- A word of the message: exclusive or with v3, two rounds, exclusive or with v0.
unfoldable pub compress : Words → ℕ → Words
unfolding sip_round
compress s m =
    let t = sip_round (sip_round (record s { v3 = bit_xor s.v3 m })) in
    record t { v0 = bit_xor t.v0 m }

-- The loop over the `n` whole words, with what it leaves of the string.
unfoldable pub read_blocks : ℕ → Words → List ℕ → Words × List ℕ
unfolding compress read_u64_le
read_blocks zero s p = (s, p)
read_blocks (suc n) s p = read_blocks n (compress s (read_u64_le p)) (drop 8 p)

-- p[n], which is only read within the string.
unfoldable pub byte_at : ℕ → List ℕ → ℕ
byte_at n [] = 0
byte_at zero (b ∷ bs) = b
byte_at (suc n) (b ∷ bs) = byte_at n bs

-- The switch, whose cases fall through: the one for n + 1 bytes adds p[n].
unfoldable pub or_tail : ℕ → List ℕ → ℕ → ℕ
unfolding byte_at
or_tail zero p b = b
or_tail (suc n) p b = or_tail n p (bit_or b (byte_at n p * 2 ^ (8 * n)))

unfoldable pub initial : ℕ → ℕ → Words
initial k0 k1 = record {
  v0 = bit_xor 0x736f6d6570736575 k0;
  v1 = bit_xor 0x646f72616e646f6d k1;
  v2 = bit_xor 0x6c7967656e657261 k0;
  v3 = bit_xor 0x7465646279746573 k1;
}

-- The four rounds at the end.
unfoldable pub finalize : Words → ℕ
unfolding sip_round
finalize s =
    let t = sip_round (sip_round (sip_round (sip_round (record s { v2 = bit_xor s.v2 0xff })))) in
    bit_xor (bit_xor (bit_xor t.v0 t.v1) t.v2) t.v3

-- inlen & 7 is the rest of a division by 8.
unfoldable pub siphash_2_4 : List ℕ → ℕ → ℕ → ℕ
unfolding read_blocks or_tail initial finalize
siphash_2_4 input k0 k1 =
    let left = length input % 8 in
    let blocks = read_blocks (length input / 8) (initial k0 k1) input in
    finalize (compress blocks.0 (or_tail left blocks.1 (length input * 2 ^ 56 % u64)))

unfoldable pub document_id_from_string : List ℕ → ℕ
unfolding siphash_2_4
document_id_from_string s = siphash_2_4 s 0x0f1e2d3c4b5a6978 0x8796a5b4c3d2e1f0
