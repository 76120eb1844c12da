-- ===== src/Identity/Hex.antt =====
-- core/shape_identity.h: ShapeIdentity::toHex and ShapeIdentity::fromHex.
use oreo_kernel.Prelude.{
  ℕ, zero, suc, ◌+◌, ◌-◌, ◌*◌, ◌/◌, ◌%◌, ◌&&◌, List, [], ◌∷◌, ◌++◌, Option, none, some, ltb, leb,
  nat_beq, if◌then◌else◌, length, take, drop, get_elem?,
}
use oreo_kernel.Identity.{ShapeIdentity, u64, unset}

-- A digit as snprintf writes it under %x.
unfoldable pub hex_digit : ℕ → ℕ
hex_digit d = if ltb d 10 then b'0' + d else b'a' + (d - 10)

-- %0<n>llx of a value below 16 ^ n: n digits, the leading zeros included.
unfoldable pub hex_digits : ℕ → ℕ → List ℕ
unfolding hex_digit
hex_digits zero v = []
hex_digits (suc n) v = hex_digits n (v / 16) ++ hex_digit (v % 16) ∷ []

unfoldable pub to_hex : ShapeIdentity → List ℕ
to_hex id = hex_digits 16 id.document_id ++ b'.' ∷ hex_digits 16 id.counter

-- The digit that a character stands for, in either case of letter.
unfoldable pub hex_value : ℕ → Option ℕ
hex_value c =
    if leb b'0' c && leb c b'9'
    then some (c - b'0')
    else if leb b'a' c && leb c b'f'
    then some (c - b'a' + 10)
    else if leb b'A' c && leb c b'F'
    then some (c - b'A' + 10)
    else none

-- (v << 4) | d on 64 bits: the shift leaves the low four bits clear, so `|` adds the digit.
unfoldable pub push_digit : ℕ → ℕ → ℕ
push_digit v d = v * 16 % u64 + d

-- The loop of parseHex16, from the value read so far.
unfoldable pub parse_hex : ℕ → List ℕ → Option ℕ
unfolding hex_value push_digit
parse_hex v [] = some v
parse_hex v (c ∷ cs) = elim (hex_value c) [ none ↦ none | some d ↦ parse_hex (push_digit v d) cs ]

abbrev pub from_halves : Option ℕ → Option ℕ → ShapeIdentity
from_halves (some d) (some c) = record { document_id = d; counter = c }
from_halves (some d) none = unset
from_halves none _ = unset

unfoldable pub from_hex : List ℕ → ShapeIdentity
from_hex s =
    let dot : ℕ = elim (get_elem? s 16) [ none ↦ 0 | some c ↦ c ] in
    if nat_beq (length s) 33 && nat_beq dot b'.'
    then from_halves (parse_hex 0 (take 16 s)) (parse_hex 0 (take 16 (drop 17 s)))
    else unset
