-- ===== src/Naming/RoundTrip/Fields.antt =====
-- naming/element_map.cpp: the numbers, strings and identities of the wire format, read back.
use mathlib.Core.List.{append_assoc}
use oreo_kernel.Prelude.{
  ℕ, zero, suc, ◌+◌, ◌*◌, ◌/◌, ◌%◌, ◌^◌, ◌<◌, ◌≤◌, ◌++◌, true, Option, some, length, length-append,
  take-append, drop-append, ap₂, ◌≡◌, refl, ap, ◌∙◌, arith,
}
use oreo_kernel.Prelude.Int.{ℤ, pos, negsuc, pos_part, neg_part}
use oreo_kernel.Identity.{ShapeIdentity, IsU64}
use oreo_kernel.Identity.Scalar.{u32}
use oreo_kernel.Naming.Name.{Bytes, IndexedName}
use oreo_kernel.Naming.Extract.{extract_shape_identity}
use oreo_kernel.Naming.Wire.{write_le, write_str, write_identity, int_pattern, write_entry}
use oreo_kernel.Naming.Read.{
  ◌>>=◌, read_le, read_str, read_bytes, read_identity, int_of_pattern, read_entry,
}

-- The number that k bytes of v hold.
unfoldable pub low : ℕ → ℕ → ℕ
low zero v = 0
low (suc k) v = v % 256 + 256 * low k (v / 256)

pub read_le-write_le :
    (k v : ℕ) (rest : Bytes) → read_le k (write_le k v ++ rest) ≡ some (low k v, rest)
unfolding read_le write_le low
read_le-write_le zero v rest = refl
read_le-write_le (suc k) v rest = rw (read_le-write_le k (v / 256) rest)

low_2 : (v : ℕ) → v < 2 ^ 16 → low 2 v ≡ v
unfolding low
low_2 v h = omega arith

low_4 : (v : ℕ) → v < u32 → low 4 v ≡ v
unfolding low
low_4 v h = omega arith

low_8 : (v : ℕ) → v < 2 ^ 64 → low 8 v ≡ v
unfolding low
low_8 v h = omega arith

-- A reader that reads `a` goes on with it.
pub bind-some :
    {A B : Type 0} {o : Option A} (a : A) (f : A → Option B) (r : Option B)
    → o ≡ some a
    → f a ≡ r
    → (o >>= f) ≡ r
bind-some a f r e h = ap (λ o. o >>= f) e ∙ h

pub read_u16 :
    (v : ℕ) (rest : Bytes) → v < 2 ^ 16 → read_le 2 (write_le 2 v ++ rest) ≡ some (v, rest)
read_u16 v rest h = read_le-write_le 2 v rest ∙ ap (λ v. some ((v, rest))) (low_2 v h)

pub read_u32 : (v : ℕ) (rest : Bytes) → v < u32 → read_le 4 (write_le 4 v ++ rest) ≡ some (v, rest)
read_u32 v rest h = read_le-write_le 4 v rest ∙ ap (λ v. some ((v, rest))) (low_4 v h)

pub read_bytes-append : (s rest : Bytes) → read_bytes (length s) (s ++ rest) ≡ some (s, rest)
unfolding read_bytes
read_bytes-append s rest =
    ground (arith, length-append s rest, take-append s rest, drop-append s rest)

pub read_str-write_str :
    (s rest : Bytes) → length s < u32 → read_str (write_str s ++ rest) ≡ some (s, rest)
unfolding read_str write_str low
read_str-write_str s rest h =
    ap (λ n. read_bytes n (s ++ rest)) (low_4 (length s) h) ∙ read_bytes-append s rest

read_identity-low :
    (id : ShapeIdentity) (rest : Bytes)
    → read_identity (write_identity id ++ rest)
      ≡ some (record { document_id = low 8 id.document_id; counter = low 8 id.counter }, rest)
unfolding read_identity write_identity low
read_identity-low id rest = refl

pub read_identity-write_identity :
    (id : ShapeIdentity) (rest : Bytes)
    → IsU64 id
    → read_identity (write_identity id ++ rest) ≡ some (id, rest)
unfolding read_identity write_identity low
read_identity-write_identity id rest u =
    ap₂ (λ d c. some ((record { document_id = d; counter = c }, rest)))
      (low_8 id.document_id u.document_id) (low_8 id.counter u.counter)

-- What stands in an int of 32 bits.
abbrev pub IsInt32 : ℤ → Type 0
IsInt32 z = (pos_part z < 2 ^ 31) × (neg_part z ≤ 2 ^ 31)

pub int_pattern-u32 : (z : ℤ) → int_pattern z < u32
unfolding int_pattern
int_pattern-u32 (pos n) = omega arith
int_pattern-u32 (negsuc n) = omega arith

pub int_of_pattern-int_pattern : (z : ℤ) → IsInt32 z → int_of_pattern (int_pattern z) ≡ z
unfolding int_of_pattern int_pattern
int_of_pattern-int_pattern (pos n) h = ground arith
int_of_pattern-int_pattern (negsuc n) h = ground arith

-- An entry that the format holds.
pub record FitsEntry (e : IndexedName Bytes × Bytes) : Type 0 where
  pub type_fits : length e.0.type < 2 ^ 16
  pub index_fits : IsInt32 e.0.index
  pub name_fits : length e.1 < u32

entry_fields :
    (e : IndexedName Bytes × Bytes) (rest : Bytes)
    → write_entry e ++ rest
      ≡ write_le 2 (length e.0.type)
        ++ (e.0.type
            ++ (write_le 4 (int_pattern e.0.index)
                ++ (write_str e.1 ++ (write_identity (extract_shape_identity e.1) ++ rest))))
unfolding write_entry
entry_fields e rest =
    ap (λ t. write_le 2 (length e.0.type) ++ t)
      (append_assoc e.0.type _ rest
        ∙ ap (λ t. e.0.type ++ (write_le 4 (int_pattern e.0.index) ++ t))
            (append_assoc (write_str e.1) _ rest))

-- The identity of an entry is read and dropped, so it need not fit.
pub read_entry-write_entry :
    (hint : ℕ) (e : IndexedName Bytes × Bytes) (rest : Bytes)
    → FitsEntry e
    → read_entry true hint (write_entry e ++ rest) ≡ some (e, rest)
unfolding read_entry
read_entry-write_entry hint e rest h =
    ap (read_entry true hint) (entry_fields e rest)
    ∙ bind-some _ _ _ (read_u16 _ _ h.type_fits) (
        bind-some _ _ _ (read_bytes-append e.0.type _) (
          bind-some _ _ _ (read_u32 _ _ (int_pattern-u32 e.0.index)) (
            bind-some _ _ _ (read_str-write_str e.1 _ h.name_fits) (
              bind-some _ _ _ (read_identity-low (extract_shape_identity e.1) rest) (
                ap (λ z. some (((record { type = e.0.type; index = z }, e.1), rest)))
                  (int_of_pattern-int_pattern e.0.index h.index_fits))))))

-- The smallest entry has 26 bytes.
pub length-write_entry : (e : IndexedName Bytes × Bytes) → 26 ≤ length (write_entry e)
unfolding write_entry
length-write_entry e = omega (
  arith,
  length-append e.0.type (
      write_le 4 (int_pattern e.0.index)
      ++ (write_str e.1 ++ write_identity (extract_shape_identity e.1))),
  length-append e.1 (write_identity (extract_shape_identity e.1)),
)
