-- ===== src/Tags/SipHash/Tail.antt =====
-- What SipHash in core/tag_allocator.h reads of its input: whole words, and the bytes that are left.
use native.Mathlib.Nat.{one-le-pow}
use oreo_kernel.Prelude.{
  ℕ, zero, suc, ◌+◌, ◌*◌, ◌^◌, ◌<◌, ◌≡◌, refl, ap, ◌∙◌, List, [], ◌∷◌, take, arith,
}
use oreo_kernel.Tags.SipHash.{little_endian, byte_at, or_tail}
use oreo_kernel.Tags.SipHash.Bits.{bit_or-disjoint, pow-byte}

unfoldable pub AreBytes : List ℕ → Type 0
AreBytes [] = Unit
AreBytes (b ∷ bs) = (b < 256) × AreBytes bs

-- One more byte of a number, at the top.
little_endian-take-suc :
    (n : ℕ) (p : List ℕ)
    → little_endian (take (suc n) p) ≡ little_endian (take n p) + byte_at n p * 2 ^ (8 * n)
unfolding little_endian byte_at
little_endian-take-suc zero [] = refl
little_endian-take-suc (suc n) [] = omega arith
little_endian-take-suc zero (b ∷ bs) = omega arith
little_endian-take-suc (suc n) (b ∷ bs) =
    ap (λ x. b + 256 * x) (little_endian-take-suc n bs)
    ∙ ground (arith, ap (λ x. byte_at n bs * x) (pow-byte n))

byte_at-small : (n : ℕ) (p : List ℕ) → AreBytes p → byte_at n p < 256
unfolding byte_at AreBytes
byte_at-small n [] h = omega arith
byte_at-small zero (b ∷ bs) h = h.0
byte_at-small (suc n) (b ∷ bs) h = byte_at-small n bs h.1

times-below : (a b c : ℕ) → a < b → 0 < c → a * c < b * c
times-below a b c p q = grind arith

-- The switch adds the bytes that are left to a number whose bits there are free.
pub or_tail-eq :
    (n : ℕ) (p : List ℕ) (q : ℕ)
    → AreBytes p
    → or_tail n p (q * 2 ^ (8 * n)) ≡ q * 2 ^ (8 * n) + little_endian (take n p)
unfolding or_tail little_endian
or_tail-eq zero p q h = omega arith
or_tail-eq (suc n) p q h =
    let m = 2 ^ (8 * n) in
    let b = byte_at n p in
    let below : b * m < 2 ^ (8 * suc n) = omega (
      arith,
      pow-byte n,
      times-below b 256 m (byte_at-small n p h) (one-le-pow (8 * n) 2 (omega arith)),
    ) in
    let factor : q * 2 ^ (8 * suc n) + b * m ≡ (q * 256 + b) * m =
      ap (λ x. q * x + b * m) (pow-byte n) ∙ omega arith in
    ap (or_tail n p) (bit_or-disjoint (8 * suc n) q (b * m) below ∙ factor)
    ∙ (or_tail-eq n p (q * 256 + b) h ∙ (omega (arith, factor, little_endian-take-suc n p)))
