-- ===== src/Naming/Name.antt =====
-- naming/mapped_name.h: MappedName and its postfixes; naming/indexed_name.h: IndexedName; and
-- ElementMap::encodeElementName of naming/element_map.cpp.
use oreo_kernel.Prelude.{
  ℕ, zero, suc, ◌/◌, ◌%◌, Bool, true, false, ◌||◌, List, [], ◌∷◌, ◌++◌, ltb, leb, nat_beq,
  if◌then◌else◌, bytes_eq, bytes_beq,
}
use oreo_kernel.Prelude.Int.{ℤ, pos, negsuc, ℤ_eq}
use oreo_kernel.Identity.{ShapeIdentity}
use oreo_kernel.Identity.Hex.{hex_digit, hex_digits}

abbrev pub Bytes : Type 0
Bytes = List ℕ

-- The type is a text; where bytes do not matter it is a native string.
pub record IndexedName (Text : Type 0) : Type 0 where
  pub type : Text
  pub index : ℤ

-- IndexedName::isNull
unfoldable pub is_null_index : IndexedName Bytes → Bool
is_null_index n = bytes_beq n.type [] || elim n.index [ pos i ↦ leb i 0 | negsuc _ ↦ true ]

abbrev pub null_index : IndexedName Bytes
null_index = record { type = []; index = pos 0 }

-- ElementCodes
abbrev pub postfix_tag : Bytes
postfix_tag = b';' ∷ b':' ∷ b'H' ∷ []

abbrev pub postfix_decimal_tag : Bytes
postfix_decimal_tag = b';' ∷ b':' ∷ b'T' ∷ []

abbrev pub postfix_identity : Bytes
postfix_identity = b';' ∷ b':' ∷ b'P' ∷ []

abbrev pub postfix_doc : Bytes
postfix_doc = b';' ∷ b':' ∷ b'Q' ∷ []

abbrev pub postfix_child : Bytes
postfix_child = b';' ∷ b':' ∷ b'C' ∷ []

abbrev pub postfix_duplicate : Bytes
postfix_duplicate = b';' ∷ b'D' ∷ []

unfoldable pub append_postfix : Bytes → Bytes → Bytes
append_postfix name postfix = name ++ postfix

-- The digits of %llx, which writes no leading zero; the fuel bounds their number.
unfoldable pub short_hex : ℕ → ℕ → Bytes → Bytes
unfolding hex_digit
short_hex zero v tail = tail
short_hex (suc n) v tail =
    let rest = short_hex n (v / 16) (hex_digit (v % 16) ∷ tail) in
    if ltb v 16 then hex_digit v ∷ tail else rest

-- A 64-bit pattern has at most 16 digits.
unfoldable pub append_tag : Bytes → ℕ → Bytes
unfolding short_hex
append_tag name tag = name ++ (postfix_tag ++ short_hex 16 tag [])

unfoldable pub append_shape_identity : Bytes → ShapeIdentity → Bytes
unfolding hex_digits
append_shape_identity name id =
    name ++ (postfix_identity ++ (hex_digits 16 id.document_id ++ hex_digits 16 id.counter))

unfoldable pub append_document_id : Bytes → ℕ → Bytes
unfolding hex_digits
append_document_id name document_id =
    if nat_beq document_id 0 then name else name ++ (postfix_doc ++ hex_digits 16 document_id)

unfoldable pub is_mapped : Bytes → Bool
is_mapped [] = false
is_mapped (c ∷ _) = nat_beq c b';'

unfoldable pub encode_element_name : Bytes → ShapeIdentity → Bytes → Bytes
unfolding append_shape_identity append_postfix
encode_element_name name id postfix = append_postfix (append_shape_identity name id) postfix
