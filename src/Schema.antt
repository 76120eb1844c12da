-- ===== src/Schema.antt =====
-- core/schema.{h,cpp}: SchemaVersion. A text is its bytes, and shorter than 2^31 of them.
pub mod VersionLaws
pub mod Header
pub mod Registry
pub mod Migrate
use oreo_kernel.Prelude.{
  ℕ, zero, suc, ◌+◌, ◌-◌, Bool, true, false, ◌&&◌, not, List, [], ◌∷◌, ◌++◌, ltb, leb, nat_beq,
  if◌then◌else◌, Result, ok, throw, invalid_argument, ◌>>=◌, ◌≡◌, ◌↔◌, Eq, arith,
}
use oreo_kernel.Prelude.Decimal.{decimal_digits, decimal_value, all_digits}
use oreo_kernel.Prelude.Int.{ℤ, pos, negsuc, ℤ_beq, ℤ_beq_iff, ltb_ℤ}
use oreo_kernel.Tags.Occt.{int32_max}

pub record SchemaVersion : Type 0 where
  pub major : ℤ
  pub minor : ℤ
  pub patch : ℤ

-- `this` can load `other`.
unfoldable pub version_can_load : SchemaVersion → SchemaVersion → Bool
version_can_load this other = ℤ_beq this.major other.major && not (ltb_ℤ this.minor other.minor)

abbrev pub version_beq : SchemaVersion → SchemaVersion → Bool
version_beq a b = ℤ_beq a.major b.major && (ℤ_beq a.minor b.minor && ℤ_beq a.patch b.patch)

pub version_beq_iff : (a b : SchemaVersion) → (version_beq a b ≡ true) ↔ (a ≡ b)
version_beq_iff a b =
    ground (arith, ℤ_beq_iff a.major b.major, ℤ_beq_iff a.minor b.minor, ℤ_beq_iff a.patch b.patch)

unfoldable pub version_lt : SchemaVersion → SchemaVersion → Bool
version_lt a b =
    if not (ℤ_beq a.major b.major)
    then ltb_ℤ a.major b.major
    else if not (ℤ_beq a.minor b.minor)
    then ltb_ℤ a.minor b.minor
    else ltb_ℤ a.patch b.patch

-- std::to_string of an int, which has at most 10 digits.
unfoldable pub int_text : ℤ → List ℕ
unfolding decimal_digits
int_text (pos n) = decimal_digits 10 n []
int_text (negsuc n) = b'-' ∷ decimal_digits 10 (suc n) []

unfoldable pub version_text : SchemaVersion → List ℕ
unfolding int_text
version_text v = int_text v.major ++ (b'.' ∷ (int_text v.minor ++ (b'.' ∷ int_text v.patch)))

abbrev pub put_number : ℕ → ℕ → SchemaVersion → Result SchemaVersion
put_number field n v =
    if nat_beq field 0
    then ok (record v { major = pos n })
    else if nat_beq field 1
    then ok (record v { minor = pos n })
    else if nat_beq field 2
    then ok (record v { patch = pos n })
    else throw invalid_argument

-- What is done with a segment, the `field`-th one.
unfoldable pub put_segment : List ℕ → ℕ → SchemaVersion → Result SchemaVersion
unfolding all_digits decimal_value
put_segment [] field v = throw invalid_argument
put_segment (c ∷ s) field v =
    if not (all_digits (c ∷ s))
    then throw invalid_argument
    else if ltb int32_max (decimal_value 0 (c ∷ s))
    then throw invalid_argument
    else put_number field (decimal_value 0 (c ∷ s)) v

abbrev pub three_fields : ℕ → SchemaVersion → Result SchemaVersion
three_fields field v = if nat_beq field 3 then ok v else throw invalid_argument

-- The loop over the text, with the part of the segment that it has passed.
unfoldable pub parse_segments : List ℕ → List ℕ → ℕ → SchemaVersion → Result SchemaVersion
unfolding put_segment
parse_segments [] segment field v = put_segment segment field v >>= three_fields (suc field)
parse_segments (c ∷ s) segment field v = elim (nat_beq c b'.') [
  | true ↦ put_segment segment field v >>= parse_segments s [] (suc field)
  | false ↦ parse_segments s (segment ++ c ∷ []) field v
]

unfoldable pub parse_version : List ℕ → Result SchemaVersion
unfolding parse_segments
parse_version [] = throw invalid_argument
parse_version (c ∷ s) =
    parse_segments (c ∷ s) [] 0 (record { major = pos 0; minor = pos 0; patch = pos 0 })
