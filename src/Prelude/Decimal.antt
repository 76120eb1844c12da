-- ===== src/Prelude/Decimal.antt =====
-- std::to_string and std::stoi on numbers that are not negative, over bytes.
use Prim.Native.Nat.{ℕ, zero, suc, ◌+◌, ◌-◌, ◌*◌, ◌/◌, ◌%◌, ◌^◌, ◌≤◌, ◌<◌}
use mathlib.Core.Path.{◌≡◌, ap, ◌∙◌}
use mathlib.Core.Logic.{inl, inr}
use mathlib.Core.Bool.{Bool, true, ◌&&◌}
use mathlib.Core.List.{List, [], ◌∷◌}
use native.Mathlib.Omega.{arith}
use native.Mathlib.Numerals.{unary_clauses}
use oreo_kernel.Prelude.Tests.{ltb, leb, if◌then◌else◌, Bool-cases}
use oreo_kernel.Prelude.Lists.{length}

-- The decimal digits of v before `tail`; the fuel bounds their number.
unfoldable pub decimal_digits : ℕ → ℕ → List ℕ → List ℕ
decimal_digits zero v tail = tail
decimal_digits (suc n) v tail =
    let rest = decimal_digits n (v / 10) ((b'0' + v % 10) ∷ tail) in
    if ltb v 10 then (b'0' + v) ∷ tail else rest

abbrev pub is_ascii_digit : ℕ → Bool
is_ascii_digit c = leb b'0' c && leb c b'9'

unfoldable pub all_digits : List ℕ → Bool
all_digits [] = true
all_digits (c ∷ s) = let rest = all_digits s in is_ascii_digit c && rest

-- The number that the digits of s continue.
unfoldable pub decimal_value : ℕ → List ℕ → ℕ
decimal_value v [] = v
decimal_value v (c ∷ s) = decimal_value (v * 10 + (c - b'0')) s

shorter : (n v : ℕ) → v < 10 ^ suc n → v / 10 < 10 ^ n
shorter n v h = go (10 ^ n) (simp unary_clauses at h)
  where
    go : (p : ℕ) → v < p * 10 → v / 10 < p
    go p h = omega arith

pub decimal_value-decimal_digits :
    (n v : ℕ) (tail : List ℕ)
    → v < 10 ^ n
    → decimal_value 0 (decimal_digits n v tail) ≡ decimal_value v tail
unfolding decimal_value decimal_digits
decimal_value-decimal_digits zero v tail h = ap (λ v. decimal_value v tail) (omega arith)
decimal_value-decimal_digits (suc n) v tail h = elim (Bool-cases (ltb v 10)) [
  | inl e ↦ rw (e, decimal_digits) (ap (λ z. decimal_value z tail) (omega arith))
  | inr e ↦
      rw (e, decimal_digits)
        (decimal_value-decimal_digits n (v / 10) ((b'0' + v % 10) ∷ tail) (shorter n v h)
          ∙ ap (λ z. decimal_value z tail) (omega arith))
]

pub all_digits-decimal_digits :
    (n v : ℕ) (tail : List ℕ) → all_digits tail ≡ true → all_digits (decimal_digits n v tail) ≡ true
unfolding all_digits decimal_digits
all_digits-decimal_digits zero v tail h = h
all_digits-decimal_digits (suc n) v tail h =
    ground (arith, all_digits-decimal_digits n (v / 10) ((b'0' + v % 10) ∷ tail))

length-decimal_digits : (n v : ℕ) (tail : List ℕ) → length tail ≤ length (decimal_digits n v tail)
unfolding decimal_digits
length-decimal_digits zero v tail = omega arith
length-decimal_digits (suc n) v tail =
    ground (arith, length-decimal_digits n (v / 10) ((b'0' + v % 10) ∷ tail))

pub length-decimal_digits-suc :
    (n v : ℕ) (tail : List ℕ) → length tail < length (decimal_digits (suc n) v tail)
unfolding decimal_digits
length-decimal_digits-suc n v tail =
    ground (arith, length-decimal_digits n (v / 10) ((b'0' + v % 10) ∷ tail))
