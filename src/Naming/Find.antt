-- ===== src/Naming/Find.antt =====
-- std::string::rfind and find of a marker, and the digits behind it.
use oreo_kernel.Prelude.{
  ℕ, zero, suc, ◌+◌, ◌<◌, ◌≡◌, ◌⊎◌, inl, inr, Bool, true, false, ◌&&◌, [], ◌∷◌, ◌++◌, Option, none,
  some, nat_beq, if◌then◌else◌, length, arith, Bool-cases,
}
use oreo_kernel.Naming.Name.{Bytes}

unfoldable pub starts_with : Bytes → Bytes → Bool
starts_with [] s = true
starts_with (p ∷ ps) [] = false
starts_with (p ∷ ps) (c ∷ s) = let rest = starts_with ps s in nat_beq p c && rest

-- data.rfind(marker): the last place where a marker, which is not empty, stands.
unfoldable pub rfind : Bytes → Bytes → Option ℕ
unfolding starts_with
rfind marker [] = none
rfind marker (c ∷ s) = elim (rfind marker s) [
  | some i ↦ some (suc i)
  | none ↦ if starts_with marker (c ∷ s) then some 0 else none
]

-- data.rfind(marker, last): the last one that does not start behind `last`.
unfoldable pub rfind_upto : Bytes → Bytes → ℕ → Option ℕ
unfolding starts_with
rfind_upto marker [] last = none
rfind_upto marker (c ∷ s) zero = if starts_with marker (c ∷ s) then some 0 else none
rfind_upto marker (c ∷ s) (suc last) = elim (rfind_upto marker s last) [
  | some i ↦ some (suc i)
  | none ↦ if starts_with marker (c ∷ s) then some 0 else none
]

-- Everything before the first place where the marker stands.
unfoldable pub before_first : Bytes → Bytes → Bytes
unfolding starts_with
before_first marker [] = []
before_first marker (c ∷ s) =
    let rest = before_first marker s in if starts_with marker (c ∷ s) then [] else c ∷ rest

-- A marker that stands in the second part is found there, whatever comes first.
pub rfind-append :
    (marker xs ys : Bytes) (i : ℕ)
    → rfind marker ys ≡ some i
    → rfind marker (xs ++ ys) ≡ some (length xs + i)
unfolding rfind
rfind-append marker [] ys i h = ground arith
rfind-append marker (x ∷ xs) ys i h = ground (arith, rfind-append marker xs ys i h)

-- A marker that does not stand in the second part starts in the first one, if at all.
pub rfind-append_none :
    (marker xs ys : Bytes)
    → rfind marker ys ≡ none
    → (rfind marker (xs ++ ys) ≡ none)
      ⊎ ((i : ℕ) × (rfind marker (xs ++ ys) ≡ some i) × (i < length xs))
unfolding rfind
rfind-append_none marker [] ys h = inl h
rfind-append_none marker (x ∷ xs) ys h = elim (rfind-append_none marker xs ys h) [
  | inr (i, e, lt) ↦ inr (suc i, rw (e, rfind), omega arith)
  | inl e ↦ elim (Bool-cases (starts_with marker (x ∷ (xs ++ ys)))) [
    | inl b ↦ inr (0, rw (e, b, rfind), omega arith)
    | inr b ↦ inl (rw (e, b, rfind))
  ]
]

-- A byte that no marker starts with.
pub rfind-cons :
    (m : ℕ) (ms : Bytes) (c : ℕ) (s : Bytes)
    → nat_beq m c ≡ false
    → rfind (m ∷ ms) s ≡ none
    → rfind (m ∷ ms) (c ∷ s) ≡ none
unfolding rfind starts_with
rfind-cons m ms c s e h = ground arith
