-- ===== src/Naming/Extract/Laws.antt =====
-- An identity that is appended to a mapped name is read back from it (naming/element_map.cpp).
use mathlib.Core.Path.{subst}
use mathlib.Core.List.{append_assoc}
use oreo_kernel.Prelude.{
  ℕ, zero, suc, ◌+◌, ◌/◌, ◌%◌, ◌<◌, ◌≡◌, ◌⊎◌, inl, inr, refl, sym, ap, ◌∙◌, false, [], ◌∷◌, ◌++◌,
  Option, none, some, ltb, nat_beq, length, take, drop, arith, length-append, take-append,
  drop-append,
}
use oreo_kernel.Identity.{ShapeIdentity, IsU64}
use oreo_kernel.Identity.Hex.{hex_digit, hex_digits, parse_hex}
use oreo_kernel.Identity.HexLaws.{length-hex_digits, parse_hex-sixteen}
use oreo_kernel.Naming.Name.{
  Bytes, postfix_tag, postfix_decimal_tag, postfix_identity, encode_element_name,
  append_shape_identity, append_postfix,
}
use oreo_kernel.Naming.Find.{rfind, rfind-append, rfind-append_none, rfind-cons, starts_with}
use oreo_kernel.Naming.Extract.{
  best_marker, identity_p, identity_payload, payload, identity_at, extract_shape_identity,
}

-- No marker starts in digits that are put before bytes with no marker.
hex_digit-no_marker : (d : ℕ) → nat_beq b';' (hex_digit d) ≡ false
unfolding hex_digit
hex_digit-no_marker d = ground arith

rfind-hex_digits :
    (ms : Bytes) (n v : ℕ) (s : Bytes)
    → rfind (b';' ∷ ms) s ≡ none
    → rfind (b';' ∷ ms) (hex_digits n v ++ s) ≡ none
unfolding hex_digits
rfind-hex_digits ms zero v s h = h
rfind-hex_digits ms (suc n) v s h = rw append_assoc (
    rfind-hex_digits ms n (v / 16) (hex_digit (v % 16) ∷ s)
      (rfind-cons b';' ms (hex_digit (v % 16)) s (hex_digit-no_marker (v % 16)) h))

-- The marker of an identity is found where it stands, and no other one behind it.
rfind-identity :
    (s : Bytes)
    → rfind postfix_identity s ≡ none
    → rfind postfix_identity (postfix_identity ++ s) ≡ some 0
unfolding rfind starts_with
rfind-identity s h = ground arith

rfind-other :
    (m : ℕ) (s : Bytes)
    → nat_beq m b'P' ≡ false
    → rfind (b';' ∷ b':' ∷ m ∷ []) s ≡ none
    → rfind (b';' ∷ b':' ∷ m ∷ []) (postfix_identity ++ s) ≡ none
unfolding rfind starts_with
rfind-other m s e h = ground arith

-- Bytes in which no marker stands that names an identity.
pub record NoMarker (s : Bytes) : Type 0 where
  pub identity : rfind postfix_identity s ≡ none
  pub tag : rfind postfix_tag s ≡ none
  pub decimal : rfind postfix_decimal_tag s ≡ none

-- What stands behind the marker in an encoded name.
abbrev pub body : ShapeIdentity → Bytes → Bytes
body id postfix = hex_digits 16 id.document_id ++ (hex_digits 16 id.counter ++ postfix)

pub body-NoMarker :
    (id : ShapeIdentity) (postfix : Bytes) → NoMarker postfix → NoMarker (body id postfix)
body-NoMarker id postfix h = record {
  identity =
      rfind-hex_digits (b':' ∷ b'P' ∷ []) 16 id.document_id _
        (rfind-hex_digits (b':' ∷ b'P' ∷ []) 16 id.counter postfix h.identity);
  tag =
      rfind-hex_digits (b':' ∷ b'H' ∷ []) 16 id.document_id _
        (rfind-hex_digits (b':' ∷ b'H' ∷ []) 16 id.counter postfix h.tag);
  decimal =
      rfind-hex_digits (b':' ∷ b'T' ∷ []) 16 id.document_id _
        (rfind-hex_digits (b':' ∷ b'T' ∷ []) 16 id.counter postfix h.decimal);
}

pub encode_element_name-parts :
    (name : Bytes) (id : ShapeIdentity) (postfix : Bytes)
    → encode_element_name name id postfix ≡ name ++ (postfix_identity ++ body id postfix)
unfolding encode_element_name append_shape_identity append_postfix
encode_element_name-parts name id postfix = simp append_assoc

-- A place in the name stands before the end of the name.
best_marker-identity :
    (n : ℕ) (h t : Option ℕ)
    → (h ≡ none) ⊎ ((i : ℕ) × (h ≡ some i) × (i < n))
    → (t ≡ none) ⊎ ((i : ℕ) × (t ≡ some i) × (i < n))
    → best_marker (some n) h t ≡ some (n, identity_p)
unfolding best_marker
best_marker-identity n h t p q = elim p [
  | inl e ↦ elim q [ inl f ↦ ground arith | inr (j, f, lt) ↦ ground arith ]
  | inr (i, e, lt) ↦ elim q [ inl f ↦ ground arith | inr (j, f, lt') ↦ ground arith ]
]

split-hex :
    (n v : ℕ) (s : Bytes)
    → (take n (hex_digits n v ++ s) ≡ hex_digits n v) × (drop n (hex_digits n v ++ s) ≡ s)
split-hex n v s = (
  subst (λ k. take k (hex_digits n v ++ s) ≡ hex_digits n v) (length-hex_digits n v)
      (take-append (hex_digits n v) s),
  subst (λ k. drop k (hex_digits n v ++ s) ≡ s) (length-hex_digits n v)
      (drop-append (hex_digits n v) s),
)

identity_payload-fields :
    (s : Bytes) (d c : ℕ)
    → ltb (length s) 32 ≡ false
    → parse_hex 0 (take 16 s) ≡ some d
    → parse_hex 0 (take 16 (drop 16 s)) ≡ some c
    → identity_payload s ≡ some (record { document_id = d; counter = c })
unfolding identity_payload
identity_payload-fields s d c long p q = ground arith

length-body : (id : ShapeIdentity) (postfix : Bytes) → ltb (length (body id postfix)) 32 ≡ false
length-body id postfix = ground (
  arith,
  length-append (hex_digits 16 id.document_id) (hex_digits 16 id.counter ++ postfix),
  length-append (hex_digits 16 id.counter) postfix,
  length-hex_digits 16 id.document_id,
  length-hex_digits 16 id.counter,
)

pub identity_payload-body :
    (id : ShapeIdentity) (postfix : Bytes) → IsU64 id → identity_payload (body id postfix) ≡ some id
identity_payload-body id postfix u =
    let (d, rest) = split-hex 16 id.document_id (hex_digits 16 id.counter ++ postfix) in
    let (c, _) = split-hex 16 id.counter postfix in
    identity_payload-fields (body id postfix) id.document_id id.counter (length-body id postfix)
      (ap (parse_hex 0) d ∙ parse_hex-sixteen id.document_id u.document_id)
      (ap (λ t. parse_hex 0 (take 16 t)) rest
        ∙ ap (parse_hex 0) c
        ∙ parse_hex-sixteen id.counter u.counter)

pub drop-marker : (name s : Bytes) → drop (length name + 3) (name ++ (postfix_identity ++ s)) ≡ s
drop-marker name s =
    subst (λ k. drop k (name ++ (postfix_identity ++ s)) ≡ s) (length-append name postfix_identity)
      (rw (sym (append_assoc name postfix_identity s)) (drop-append (name ++ postfix_identity) s))

-- The identity's marker is the last one that stands in an encoded name.
pub last_marker :
    (name s : Bytes)
    → NoMarker s
    → let full = name ++ (postfix_identity ++ s) in
      best_marker
        (rfind postfix_identity full)
        (rfind postfix_tag full)
        (rfind postfix_decimal_tag full)
      ≡ some (length name, identity_p)
last_marker name s h =
    let end : length name + 0 ≡ length name = omega arith in
    rw
      (rfind-append postfix_identity name (postfix_identity ++ s) 0 (rfind-identity s h.identity)
        ∙ ap some end)
      (best_marker-identity (length name) _ _
        (rfind-append_none postfix_tag name (postfix_identity ++ s) (rfind-other b'H' s refl h.tag))
        (rfind-append_none postfix_decimal_tag name (postfix_identity ++ s)
          (rfind-other b'T' s refl h.decimal)))

extract-parts :
    (name s : Bytes) (i : ℕ) (id : ShapeIdentity)
    → best_marker
        (rfind postfix_identity name)
        (rfind postfix_tag name)
        (rfind postfix_decimal_tag name)
      ≡ some (i, identity_p)
    → drop (i + 3) name ≡ s
    → identity_payload s ≡ some id
    → extract_shape_identity name ≡ id
unfolding extract_shape_identity identity_at payload
extract-parts name s i id m d p = ap (identity_at name) m ∙ ground arith

-- Whatever name an identity is appended to, with a postfix behind that holds no marker of its own,
-- the identity is read back from the encoded name.
pub extract_shape_identity-encode_element_name :
    (name : Bytes) (id : ShapeIdentity) (postfix : Bytes)
    → IsU64 id
    → NoMarker postfix
    → extract_shape_identity (encode_element_name name id postfix) ≡ id
extract_shape_identity-encode_element_name name id postfix u h =
    rw (encode_element_name-parts name id postfix) (
      extract-parts (name ++ (postfix_identity ++ body id postfix)) (body id postfix) (length name)
        id (last_marker name (body id postfix) (body-NoMarker id postfix h))
        (drop-marker name (body id postfix)) (identity_payload-body id postfix u))
