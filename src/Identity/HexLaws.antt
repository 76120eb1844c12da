-- ===== src/Identity/HexLaws.antt =====
-- The display form of an identity is read back.
use native.Mathlib.Nat.{pow-suc}
use oreo_kernel.Prelude.{
  ℕ, zero, suc, ◌+◌, ◌*◌, ◌/◌, ◌%◌, ◌^◌, ◌<◌, ◌≡◌, refl, List, [], ◌∷◌, ◌++◌, some, length, take,
  drop, length-append, take-append, get_elem?-append_length, drop-append_suc, take-length, arith,
  get_elem?, ap, ◌∙◌,
}
use oreo_kernel.Identity.{ShapeIdentity, IsU64, u64}
use oreo_kernel.Identity.Hex.{
  hex_digit, hex_digits, to_hex, hex_value, push_digit, parse_hex, from_halves, from_hex,
}
use mathlib.Core.Path.{subst}
use mathlib.Core.List.{append_assoc, append-nil}

pub length-hex_digits : (n v : ℕ) → length (hex_digits n v) ≡ n
unfolding hex_digits
length-hex_digits zero v = refl
length-hex_digits (suc n) v = omega (
  arith,
  length-append (hex_digits n (v / 16)) (hex_digit (v % 16) ∷ []),
  length-hex_digits n (v / 16),
)

hex_value-hex_digit : (d : ℕ) → d < 16 → hex_value (hex_digit d) ≡ some d
unfolding hex_digit hex_value
hex_value-hex_digit d h = ground arith

parse_hex-digit :
    (v d : ℕ) (rest : List ℕ)
    → d < 16
    → v < 2 ^ 60
    → parse_hex v (hex_digit d ∷ rest) ≡ parse_hex (v * 16 + d) rest
unfolding parse_hex push_digit
parse_hex-digit v d rest h k =
    rw (hex_value-hex_digit d h, parse_hex) (ap (λ w. parse_hex w rest) (omega arith))

div_lt : (n v : ℕ) → v < 16 ^ suc n → v / 16 < 16 ^ n
div_lt n v h = omega (arith, pow-suc 16 n)

-- Digits that come first are read as their value.
parse_hex-hex_digits :
    (n v : ℕ) (rest : List ℕ)
    → v < 16 ^ n
    → v < u64
    → parse_hex 0 (hex_digits n v ++ rest) ≡ parse_hex v rest
unfolding hex_digits
parse_hex-hex_digits zero v rest h k = ap (λ w. parse_hex w rest) (omega arith)
parse_hex-hex_digits (suc n) v rest h k = rw (append_assoc) (
    parse_hex-hex_digits n (v / 16) (hex_digit (v % 16) ∷ rest) (div_lt n v h) (omega arith)
    ∙ parse_hex-digit (v / 16) (v % 16) rest (omega arith) (omega arith)
    ∙ ap (λ w. parse_hex w rest) (omega arith))

pub parse_hex-sixteen : (v : ℕ) → v < u64 → parse_hex 0 (hex_digits 16 v) ≡ some v
unfolding parse_hex
parse_hex-sixteen v h = rw append-nil at (parse_hex-hex_digits 16 v [] h h)

-- The layout that fromHex asks for: sixteen characters, a dot, sixteen characters.
from_hex-halves :
    (xs ys : List ℕ)
    → length xs ≡ 16
    → length ys ≡ 16
    → from_hex (xs ++ b'.' ∷ ys) ≡ from_halves (parse_hex 0 xs) (parse_hex 0 ys)
unfolding from_hex
from_hex-halves xs ys h k = rw (size, dot, first, second, last)
  where
    s : List ℕ
    s = xs ++ b'.' ∷ ys

    size : length s ≡ 33
    size = omega (arith, length-append xs (b'.' ∷ ys))

    dot : get_elem? s 16 ≡ some b'.'
    dot = subst (λ n. get_elem? s n ≡ some b'.') h (get_elem?-append_length xs b'.' ys)

    first : take 16 s ≡ xs
    first = subst (λ n. take n s ≡ xs) h (take-append xs (b'.' ∷ ys))

    second : drop 17 s ≡ ys
    second = subst (λ n. drop (suc n) s ≡ ys) h (drop-append_suc xs b'.' ys)

    last : take 16 ys ≡ ys
    last = subst (λ n. take n ys ≡ ys) k (take-length ys)

-- Reading the display form of an identity gives the identity back, whatever its document.
pub from_hex-to_hex : (id : ShapeIdentity) → IsU64 id → from_hex (to_hex id) ≡ id
unfolding to_hex
from_hex-to_hex id h =
    from_hex-halves (hex_digits 16 id.document_id) (hex_digits 16 id.counter)
      (length-hex_digits 16 id.document_id) (length-hex_digits 16 id.counter)
    ∙ rw (parse_hex-sixteen id.document_id h.document_id, parse_hex-sixteen id.counter h.counter)
