-- ===== src/Tags/SipHash/Paper.antt =====
-- SipHash-2-4 as Aumasson and Bernstein define it, for the hash in core/tag_allocator.h.
use Prim.Native.Nat.{bit_or, bit_xor}
use oreo_kernel.Prelude.{
  ℕ, zero, suc, ◌+◌, ◌-◌, ◌*◌, ◌/◌, ◌%◌, ◌^◌, List, [], ◌∷◌, ◌++◌, length, take, drop,
}
use oreo_kernel.Tags.SipHash.{Words}

-- A word rotated to the left by b of its 64 bits.
abbrev rotated : ℕ → ℕ → ℕ
rotated b x = bit_or (x * 2 ^ b % 2 ^ 64) (x / 2 ^ (64 - b))

-- The pair of an addition, and a rotation that the sum is combined with.
abbrev add_rotate_xor : ℕ → ℕ → ℕ → ℕ × ℕ
add_rotate_xor b x y = let sum = (x + y) % 2 ^ 64 in (sum, bit_xor (rotated b y) sum)

-- SipRound: four of these, and two words rotated by half.
unfoldable pub round_of : Words → Words
round_of s =
    let (a, b) = add_rotate_xor 13 s.v0 s.v1 in
    let (c, d) = add_rotate_xor 16 s.v2 s.v3 in
    let (e, f) = add_rotate_xor 21 (rotated 32 a) d in
    let (g, h) = add_rotate_xor 17 c b in record { v0 = e; v1 = h; v2 = rotated 32 g; v3 = f }

unfoldable pub rounds : ℕ → Words → Words
unfolding round_of
rounds zero s = s
rounds (suc n) s = rounds n (round_of s)

-- The number of bytes, the first the lowest.
unfoldable pub number : List ℕ → ℕ
number [] = 0
number (b ∷ bs) = number bs * 256 + b

-- Null bytes up to the last byte of the last word, which is the length modulo 256.
unfoldable pub replicate : ℕ → ℕ → List ℕ
replicate zero b = []
replicate (suc n) b = b ∷ replicate n b

unfoldable pub padded : List ℕ → List ℕ
unfolding replicate
padded s = s ++ (replicate (7 - length s % 8) 0 ++ (length s % 256 ∷ []))

-- The compression of n words, with two rounds for each.
unfoldable pub compressed : ℕ → Words → List ℕ → Words
unfolding rounds number
compressed zero s p = s
compressed (suc n) s p =
    let m = number (take 8 p) in
    let t = rounds 2 (record s { v3 = bit_xor s.v3 m }) in
    compressed n (record t { v0 = bit_xor t.v0 m }) (drop 8 p)

-- The text "somepseudorandomlygeneratedbytes", eight letters to a word with the first the highest.
unfoldable pub start : ℕ → ℕ → Words
unfolding number
start k0 k1 = record {
  v0 = bit_xor (number (b'u' ∷ b'e' ∷ b's' ∷ b'p' ∷ b'e' ∷ b'm' ∷ b'o' ∷ b's' ∷ [])) k0;
  v1 = bit_xor (number (b'm' ∷ b'o' ∷ b'd' ∷ b'n' ∷ b'a' ∷ b'r' ∷ b'o' ∷ b'd' ∷ [])) k1;
  v2 = bit_xor (number (b'a' ∷ b'r' ∷ b'e' ∷ b'n' ∷ b'e' ∷ b'g' ∷ b'y' ∷ b'l' ∷ [])) k0;
  v3 = bit_xor (number (b's' ∷ b'e' ∷ b't' ∷ b'y' ∷ b'b' ∷ b'd' ∷ b'e' ∷ b't' ∷ [])) k1;
}

-- Four rounds at the end.
unfoldable pub finished : Words → ℕ
unfolding rounds
finished s =
    let t = rounds 4 (record s { v2 = bit_xor s.v2 255 }) in
    bit_xor (bit_xor (bit_xor t.v0 t.v1) t.v2) t.v3

unfoldable pub siphash : List ℕ → ℕ → ℕ → ℕ
unfolding padded compressed start finished
siphash s k0 k1 = finished (compressed (suc (length s / 8)) (start k0 k1) (padded s))
