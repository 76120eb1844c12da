-- ===== src/Schema/VersionLaws.antt =====
-- core/schema.{h,cpp}: a version that is printed is parsed back.
use mathlib.Core.List.{append_assoc, append-nil}
use oreo_kernel.Prelude.{
  ℕ, suc, ◌≤◌, ◌<◌, true, false, List, [], ◌∷◌, ◌++◌, nat_beq, length, length-append, ok, ◌>>=◌,
  ◌≡◌, refl, sym, ap, ◌∙◌, arith,
}
use oreo_kernel.Prelude.Decimal.{
  decimal_digits, decimal_value, all_digits, decimal_value-decimal_digits,
  all_digits-decimal_digits, length-decimal_digits-suc,
}
use oreo_kernel.Prelude.Int.{pos}
use oreo_kernel.Tags.Occt.{int32_max}
use oreo_kernel.Schema.{
  SchemaVersion, int_text, version_text, put_number, three_fields, put_segment, parse_segments,
  parse_version,
}

parse_segments-step :
    (c : ℕ) (s segment : List ℕ) (field : ℕ) (v : SchemaVersion)
    → nat_beq c b'.' ≡ false
    → parse_segments (c ∷ s) segment field v ≡ parse_segments s (segment ++ c ∷ []) field v
unfolding parse_segments
parse_segments-step c s segment field v h = ground arith

parse_segments-dot :
    (s segment : List ℕ) (field : ℕ) (v : SchemaVersion)
    → parse_segments (b'.' ∷ s) segment field v
      ≡ (put_segment segment field v >>= parse_segments s [] (suc field))
unfolding parse_segments
parse_segments-dot s segment field v = refl

all_digits-uncons :
    (c : ℕ) (t : List ℕ)
    → all_digits (c ∷ t) ≡ true
    → (nat_beq c b'.' ≡ false) × (all_digits t ≡ true)
unfolding all_digits
all_digits-uncons c t h = (ground arith, ground arith)

-- The loop passes over digits.
parse_segments-digits :
    (t rest segment : List ℕ) (field : ℕ) (v : SchemaVersion)
    → all_digits t ≡ true
    → parse_segments (t ++ rest) segment field v ≡ parse_segments rest (segment ++ t) field v
parse_segments-digits [] rest segment field v h =
    ap (λ s. parse_segments rest s field v) (sym (append-nil segment))
parse_segments-digits (c ∷ t) rest segment field v h =
    parse_segments-step c (t ++ rest) segment field v (all_digits-uncons c t h).0
    ∙ (parse_segments-digits t rest (segment ++ c ∷ []) field v (all_digits-uncons c t h).1
        ∙ ap (λ s. parse_segments rest s field v) (append_assoc segment (c ∷ []) t))

all_digits-nil : all_digits [] ≡ true
unfolding all_digits
all_digits-nil = refl

decimal_value-nil : (n : ℕ) → decimal_value n [] ≡ n
unfolding decimal_value
decimal_value-nil n = refl

parse_segments-nil :
    (segment : List ℕ) (v : SchemaVersion)
    → parse_segments [] segment 2 v ≡ (put_segment segment 2 v >>= three_fields 3)
unfolding parse_segments
parse_segments-nil segment v = refl

put_segment-digits :
    (s : List ℕ) (field : ℕ) (v : SchemaVersion)
    → 0 < length s
    → all_digits s ≡ true
    → decimal_value 0 s ≤ int32_max
    → put_segment s field v ≡ put_number field (decimal_value 0 s) v
unfolding put_segment
put_segment-digits [] field v l h k = absurd (omega arith)
put_segment-digits (c ∷ s) field v l h k = ground arith

put_segment-decimal_digits :
    (n field : ℕ) (v : SchemaVersion)
    → n ≤ int32_max
    → put_segment (decimal_digits 10 n []) field v ≡ put_number field n v
put_segment-decimal_digits n field v h =
    put_segment-digits (decimal_digits 10 n []) field v (length-decimal_digits-suc 9 n [])
      (all_digits-decimal_digits 10 n [] all_digits-nil) (le value)
    ∙ ap (λ z. put_number field z v) value
  where
    value : decimal_value 0 (decimal_digits 10 n []) ≡ n
    value = decimal_value-decimal_digits 10 n [] (omega arith) ∙ decimal_value-nil n

    le :
        decimal_value 0 (decimal_digits 10 n []) ≡ n
        → decimal_value 0 (decimal_digits 10 n []) ≤ int32_max
    le e = omega arith

-- A number of a version: it is printed with digits alone, and read back.
put_segment-int_text :
    (n field : ℕ) (v : SchemaVersion)
    → n ≤ int32_max
    → put_segment (int_text (pos n)) field v ≡ put_number field n v
unfolding int_text
put_segment-int_text n field v h = put_segment-decimal_digits n field v h

all_digits-int_text : (n : ℕ) → all_digits (int_text (pos n)) ≡ true
unfolding int_text
all_digits-int_text n = all_digits-decimal_digits 10 n [] all_digits-nil

length-int_text : (n : ℕ) → 0 < length (int_text (pos n))
unfolding int_text
length-int_text n = length-decimal_digits-suc 9 n []

segment-then-dot :
    (n field : ℕ) (s : List ℕ) (v w : SchemaVersion)
    → n ≤ int32_max
    → put_number field n v ≡ ok w
    → parse_segments (int_text (pos n) ++ (b'.' ∷ s)) [] field v ≡ parse_segments s [] (suc field) w
segment-then-dot n field s v w h e =
    parse_segments-digits (int_text (pos n)) (b'.' ∷ s) [] field v (all_digits-int_text n)
    ∙ (parse_segments-dot s (int_text (pos n)) field v
        ∙ ap (λ r. r >>= parse_segments s [] (suc field)) (put_segment-int_text n field v h ∙ e))

segment-then-end :
    (n : ℕ) (v w : SchemaVersion)
    → n ≤ int32_max
    → put_number 2 n v ≡ ok w
    → parse_segments (int_text (pos n)) [] 2 v ≡ ok w
segment-then-end n v w h e =
    ap (λ s. parse_segments s [] 2 v) (sym (append-nil (int_text (pos n))))
    ∙ (parse_segments-digits (int_text (pos n)) [] [] 2 v (all_digits-int_text n)
        ∙ (parse_segments-nil (int_text (pos n)) v
            ∙ ap (λ r. r >>= three_fields 3) (put_segment-int_text n 2 v h ∙ e)))

parse_version-segments :
    (s : List ℕ)
    → 0 < length s
    → parse_version s
      ≡ parse_segments s [] 0 (record { major = pos 0; minor = pos 0; patch = pos 0 })
unfolding parse_version
parse_version-segments [] h = absurd (omega arith)
parse_version-segments (c ∷ s) h = refl

version_text-fields :
    (v : SchemaVersion)
    → version_text v ≡ int_text v.major ++ (b'.' ∷ (int_text v.minor ++ (b'.' ∷ int_text v.patch)))
unfolding version_text
version_text-fields v = refl

-- A version whose three numbers are int's and not negative is parsed from the text that toString
-- prints of it.
pub parse_version-version_text :
    (major minor patch : ℕ)
    → major ≤ int32_max
    → minor ≤ int32_max
    → patch ≤ int32_max
    → let v : SchemaVersion = record { major = pos major; minor = pos minor; patch = pos patch } in
      parse_version (version_text v) ≡ ok v
parse_version-version_text major minor patch h k l =
    ap parse_version (version_text-fields v)
    ∙ (parse_version-segments text (
          omega (
            arith,
            length-int_text major,
            length-append (int_text (pos major))
                (b'.' ∷ (int_text (pos minor) ++ (b'.' ∷ int_text (pos patch)))),
          ))
        ∙ (segment-then-dot major 0 (int_text (pos minor) ++ (b'.' ∷ int_text (pos patch))) _ _ h
              refl
            ∙ (segment-then-dot minor 1 (int_text (pos patch)) _ _ k refl
                ∙ segment-then-end patch _ _ l refl)))
  where
    v : SchemaVersion
    v = record { major = pos major; minor = pos minor; patch = pos patch }

    text : List ℕ
    text = int_text (pos major) ++ (b'.' ∷ (int_text (pos minor) ++ (b'.' ∷ int_text (pos patch))))
