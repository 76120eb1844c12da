-- ===== src/Tags/SipHash/Bits.antt =====
-- Facts on the bits of a number, for SipHash in core/tag_allocator.h.
use Prim.Native.Nat.{max, digits, bit_or, bit_or-bitwise}
use native.Mathlib.Nat.{le_refl, pow-suc}
use oreo_kernel.Prelude.{
  ℕ, zero, suc, ◌+◌, ◌*◌, ◌/◌, ◌%◌, ◌^◌, ◌≤◌, ◌<◌, ◌≡◌, refl, sym, ap, ◌∙◌, arith,
}

-- An or by its binary digits, as the native operation means it.
abbrev or_digits : ℕ → ℕ → ℕ → ℕ
or_digits fuel x y = digits (λ d. d) max fuel x y

or_digits-nothing : (fuel y : ℕ) → or_digits fuel 0 y ≡ y
or_digits-nothing zero y = refl
or_digits-nothing (suc _) y = refl

-- Any fuel of at least the first number does.
or_digits-eq :
    (x y fuel other : ℕ) (h : x ≤ other) (k : x ≤ fuel) → or_digits fuel x y ≡ or_digits other x y
or_digits-eq zero y fuel other h k = or_digits-nothing fuel y ∙ sym (or_digits-nothing other y)
or_digits-eq (suc x) y (suc fuel) (suc other) h k =
    let low = max (suc x % 2) (y % 2) in
    ap (λ high. high * 2 + low)
      (or_digits-eq (suc x / 2) (y / 2) fuel other (omega arith) (omega arith))
or_digits-eq (suc x) y zero other h k = absurd (omega arith)
or_digits-eq (suc x) y (suc fuel) zero h k = absurd (omega arith)

-- The lowest digit of an or, and the others.
bit_or-halves : (x y : ℕ) → bit_or x y ≡ bit_or (x / 2) (y / 2) * 2 + max (x % 2) (y % 2)
bit_or-halves zero y = simp bit_or-bitwise (omega arith)
bit_or-halves (suc x) y =
    let half = suc x / 2 in
    let enough : half ≤ x = omega arith in
    simp bit_or-bitwise (
      ap (λ high. high * 2 + max (suc x % 2) (y % 2))
        (or_digits-eq half (y / 2) x half (le_refl half) enough))

bit_or-zero_below : (n a : ℕ) → a ≤ n → bit_or a 0 ≡ a
bit_or-zero_below zero zero p = refl
bit_or-zero_below zero (suc a) p = absurd (omega arith)
bit_or-zero_below (suc n) zero p = refl
bit_or-zero_below (suc n) (suc a) p =
    omega (arith, bit_or-halves (suc a) 0, bit_or-zero_below n (suc a / 2) (omega arith))

double-half : (x : ℕ) → x * 2 / 2 ≡ x
double-half x = omega arith

-- Where the low k bits of one number are free for another, an or is a sum.
pub bit_or-disjoint : (k q r : ℕ) → r < 2 ^ k → bit_or (q * 2 ^ k) r ≡ q * 2 ^ k + r
bit_or-disjoint zero q r h = ground (arith, bit_or-zero_below q q (le_refl q))
bit_or-disjoint (suc k) q r h =
    let twice : q * 2 ^ suc k ≡ q * 2 ^ k * 2 = ap (λ x. q * x) (pow-suc 2 k) ∙ omega arith in
    let half : r / 2 < 2 ^ k = omega (arith, pow-suc 2 k) in
    rw twice (
      ground (
        arith,
        bit_or-halves (q * 2 ^ k * 2) r,
        ap (λ x. bit_or x (r / 2)) (double-half (q * 2 ^ k)),
        bit_or-disjoint k q (r / 2) half,
      ))

pow-four : (m : ℕ) → 2 ^ suc (suc (suc (suc m))) ≡ 16 * 2 ^ m
pow-four m =
    omega (
      arith,
      pow-suc 2 m,
      pow-suc 2 (suc m),
      pow-suc 2 (suc (suc m)),
      pow-suc 2 (suc (suc (suc m))),
    )

pub pow-byte : (n : ℕ) → 2 ^ (8 * suc n) ≡ 256 * 2 ^ (8 * n)
pow-byte n =
    let m = 8 * n in
    let exponent : 8 * suc n ≡ suc (suc (suc (suc (suc (suc (suc (suc m))))))) = omega arith in
    ap (λ x. 2 ^ x) exponent ∙ omega (arith, pow-four m, pow-four (suc (suc (suc (suc m)))))
