-- ===== src/Naming/Extract.antt =====
-- naming/element_map.cpp: what is read back from the postfixes of a mapped name. Warnings about
-- malformed payloads are left out.
pub mod Laws
use oreo_kernel.Prelude.{
  ℕ, zero, suc, ◌+◌, ◌-◌, ◌*◌, Bool, true, false, ◌&&◌, List, [], ◌∷◌, Option, none, some, ltb, leb,
  if◌then◌else◌, length, take, drop, Result, ok, throw, nat_beq, not,
}
use oreo_kernel.Identity.{ShapeIdentity, unset, u64, is_valid}
use oreo_kernel.Identity.Hex.{hex_value, parse_hex, from_halves}
use oreo_kernel.Identity.Scalar.{int64_max, decode_v1_scalar, encode_v1_scalar}
use oreo_kernel.Identity.DedupScope.{no_scope}
use oreo_kernel.Naming.Name.{Bytes, postfix_tag, postfix_decimal_tag, postfix_identity, postfix_doc}
use oreo_kernel.Naming.Find.{rfind, before_first}

-- extractBaseName
unfoldable pub extract_base_name : Bytes → Bytes
extract_base_name name = before_first (b';' ∷ b':' ∷ []) name

-- The hexadecimal number that the bytes start with, and how many digits it has.
unfoldable pub hex_prefix : ℕ → Bytes → ℕ × ℕ
unfolding hex_value
hex_prefix v [] = (v, 0)
hex_prefix v (c ∷ s) = elim (hex_value c) [
  | none ↦ (v, 0)
  | some d ↦ let (w, n) = hex_prefix (v * 16 + d) s in (w, suc n)
]

unfoldable pub is_decimal : ℕ → Bool
is_decimal c = leb b'0' c && leb c b'9'

unfoldable pub decimal_prefix : ℕ → Bytes → ℕ × ℕ
unfolding is_decimal
decimal_prefix v [] = (v, 0)
decimal_prefix v (c ∷ s) =
    let (w, n) = decimal_prefix (v * 10 + (c - b'0')) s in
    if is_decimal c then (w, suc n) else (v, 0)

-- strtoull and strtoll saturate.
abbrev pub saturate : ℕ → ℕ → ℕ
saturate bound v = if ltb bound v then bound else v

-- extractDocumentId
unfoldable pub extract_document_id_of : Bytes → ℕ
unfolding hex_prefix
extract_document_id_of name = elim (rfind postfix_doc name) [
  | none ↦ 0
  | some i ↦
      let (v, n) = hex_prefix 0 (drop (i + 3) name) in
      if nat_beq n 0 then 0 else saturate (u64 - 1) v
]

pub data Marker : Type 0 where
  identity_p hex_h decimal_t : Marker

-- The last of the places that are given.
abbrev pub later_marker : Option (ℕ × Marker) → Option ℕ → Marker → Option (ℕ × Marker)
later_marker best none kind = best
later_marker none (some p) kind = some (p, kind)
later_marker (some (q, k)) (some p) kind = if ltb q p then some (p, kind) else some (q, k)

unfoldable pub best_marker : Option ℕ → Option ℕ → Option ℕ → Option (ℕ × Marker)
best_marker p h t = later_marker (later_marker (later_marker none p identity_p) h hex_h) t decimal_t

abbrev pub both_fields : Option ℕ → Option ℕ → Option ShapeIdentity
both_fields (some d) (some c) = some (record { document_id = d; counter = c })
both_fields (some d) none = none
both_fields none c = none

-- The payload of ";:P": none if it is truncated or no hexadecimal.
unfoldable pub identity_payload : Bytes → Option ShapeIdentity
unfolding parse_hex
identity_payload s =
    if ltb (length s) 32
    then none
    else both_fields (parse_hex 0 (take 16 s)) (parse_hex 0 (take 16 (drop 16 s)))

-- The scalar of ";:H" or ";:T", none where no digit stands; and how many digits it has.
unfoldable pub scalar_payload : Marker → Bytes → Option (ℕ × ℕ)
unfolding hex_prefix decimal_prefix
scalar_payload decimal_t s =
    let (v, n) = decimal_prefix 0 s in if nat_beq n 0 then none else some (saturate int64_max v, n)
scalar_payload kind s =
    let (v, n) = hex_prefix 0 s in if nat_beq n 0 then none else some (saturate (u64 - 1) v, n)

unfoldable pub decode_scalar : ℕ → ℕ → Option ShapeIdentity
unfolding decode_v1_scalar
decode_scalar scalar hint = elim (decode_v1_scalar scalar hint false no_scope).result [
  | ok id ↦ some id
  | throw _ ↦ none
]

-- The identity of one marker's payload, and how long the payload is.
unfoldable pub payload : Marker → Bytes → ℕ → Option (ShapeIdentity × ℕ)
unfolding identity_payload scalar_payload
payload identity_p s hint = elim (identity_payload s) [ none ↦ none | some id ↦ some (id, 32) ]
payload kind s hint = elim (scalar_payload kind s) [
  | none ↦ none
  | some (scalar, n) ↦ elim (decode_scalar scalar hint) [ none ↦ none | some id ↦ some (id, n) ]
]

-- The identity in the payload of the marker at a place.
unfoldable pub identity_at : Bytes → Option (ℕ × Marker) → ShapeIdentity
unfolding payload
identity_at name none = unset
identity_at name (some (i, kind)) =
    elim (payload kind (drop (i + 3) name) (extract_document_id_of name)) [
      | none ↦ unset
      | some (id, _) ↦ id
    ]

-- extractShapeIdentity
unfoldable pub extract_shape_identity : Bytes → ShapeIdentity
unfolding identity_at best_marker
extract_shape_identity name = identity_at name (
    best_marker (rfind postfix_identity name) (rfind postfix_tag name)
      (rfind postfix_decimal_tag name))

-- extractTag
unfoldable pub extract_tag : Bytes → Result ℕ
unfolding extract_shape_identity is_valid
extract_tag name =
    let id = extract_shape_identity name in if is_valid id then encode_v1_scalar id else ok 0
