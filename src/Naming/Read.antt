-- ===== src/Naming/Read.antt =====
-- naming/element_map.cpp: ElementMap::deserialize. A read past the end makes the whole result null,
-- so a reader returns none, or what it read and the bytes behind it. Warnings are left out.
use oreo_kernel.Prelude.{
  ℕ, zero, suc, ◌+◌, ◌-◌, ◌*◌, ◌/◌, ◌^◌, Bool, true, false, [], ◌∷◌, Option, none, some, ltb,
  nat_beq, if◌then◌else◌, length, take, drop,
}
use oreo_kernel.Prelude.Int.{ℤ, pos, negsuc}
use oreo_kernel.Identity.{ShapeIdentity}
use oreo_kernel.Identity.Scalar.{u32}
use oreo_kernel.Naming.Name.{Bytes, IndexedName}
use oreo_kernel.Naming.Extract.{decode_scalar}
use oreo_kernel.Naming.ElementMap.{ElementMap, empty_map, set_element_name}
use oreo_kernel.Naming.Wire.{
  MapTree, node, Children, no_child, with_map, without_map, format_version,
}

infixl 5 ◌>>=◌
abbrev pub ◌>>=◌ : {A B : Type 0} → Option A → (A → Option B) → Option B
none >>= f = none
some a >>= f = f a

-- readU16, readU32 and readU64.
unfoldable pub read_le : ℕ → Bytes → Option (ℕ × Bytes)
read_le zero s = some (0, s)
read_le (suc n) [] = none
read_le (suc n) (b ∷ s) = elim (read_le n s) [
  | none ↦ none
  | some (v, rest) ↦ some (b + 256 * v, rest)
]

unfoldable pub read_bytes : ℕ → Bytes → Option (Bytes × Bytes)
read_bytes n s = if ltb (length s) n then none else some (take n s, drop n s)

unfoldable pub read_str : Bytes → Option (Bytes × Bytes)
unfolding read_le read_bytes
read_str s = do (n, s) ← read_le 4 s; read_bytes n s

unfoldable pub read_identity : Bytes → Option (ShapeIdentity × Bytes)
unfolding read_le
read_identity s = do
  (d, s) ← read_le 8 s
  (c, s) ← read_le 8 s
  some (record { document_id = d; counter = c }, s)

-- static_cast<int> of a 32-bit pattern.
unfoldable pub int_of_pattern : ℕ → ℤ
int_of_pattern n = if ltb n (2 ^ 31) then pos n else negsuc (u32 - 1 - n)

-- The identity of an entry or a child; a v2 buffer has a scalar there, read under the root's hint.
unfoldable pub read_versioned_identity : Bool → ℕ → Bytes → Option (ShapeIdentity × Bytes)
unfolding read_identity read_le
read_versioned_identity current hint s =
    if current
    then read_identity s
    else do (scalar, s) ← read_le 8 s; id ← decode_scalar scalar hint; some (id, s)

unfoldable pub read_entry : Bool → ℕ → Bytes → Option ((IndexedName Bytes × Bytes) × Bytes)
unfolding read_le read_bytes read_str read_versioned_identity int_of_pattern
read_entry current hint s = do
  (n, s) ← read_le 2 s
  (type, s) ← read_bytes n s
  (index, s) ← read_le 4 s
  (name, s) ← read_str s
  (_, s) ← read_versioned_identity current hint s
  some ((record { type = type; index = int_of_pattern index }, name), s)

unfoldable pub read_entries : Bool → ℕ → ℕ → Bytes → ElementMap → Option (ElementMap × Bytes)
unfolding read_entry
read_entries current hint zero s m = some (m, s)
read_entries current hint (suc n) s m = do
  (e, s) ← read_entry current hint s
  read_entries current hint n s (set_element_name e.0 e.1 false m).1

-- No bytes stand for a child with no map.
unfoldable pub child_map : (Bytes → Option MapTree) → Bytes → Option (Option MapTree)
child_map read_map [] = some none
child_map read_map (b ∷ s) = elim (read_map (b ∷ s)) [ none ↦ none | some t ↦ some (some t) ]

unfoldable pub read_child_map : (Bytes → Option MapTree) → Bytes → Option (Option MapTree × Bytes)
unfolding read_le read_bytes child_map
read_child_map read_map s = do
  (n, s) ← read_le 4 s
  (part, s) ← read_bytes n s
  child ← child_map read_map part
  some (child, s)

-- One child: its identity, its postfix and its map.
unfoldable pub read_child :
    (Bytes → Option MapTree)
    → Bool
    → ℕ
    → Bytes
    → Option ((ShapeIdentity × (Bytes × Option MapTree)) × Bytes)
unfolding read_versioned_identity read_str read_child_map
read_child read_map current hint s = do
  (id, s) ← read_versioned_identity current hint s
  (postfix, s) ← read_str s
  (child, s) ← read_child_map read_map s
  some ((id, (postfix, child)), s)

abbrev pub add_child : ShapeIdentity × (Bytes × Option MapTree) → Children → Children
add_child (id, (postfix, none)) cs = without_map id postfix cs
add_child (id, (postfix, some t)) cs = with_map id postfix t cs

unfoldable pub read_children :
    (Bytes → Option MapTree) → Bool → ℕ → ℕ → Bytes → Option (Children × Bytes)
unfolding read_child
read_children read_map current hint zero s = some (no_child, s)
read_children read_map current hint (suc n) s = do
  (child, s) ← read_child read_map current hint s
  (cs, s) ← read_children read_map current hint n s
  some (add_child child cs, s)

-- The guards on the counts: no entry or child has fewer bytes.
abbrev pub min_entry_bytes : Bool → ℕ
min_entry_bytes true = 26
min_entry_bytes false = 18

abbrev pub min_child_bytes : Bool → ℕ
min_child_bytes true = 24
min_child_bytes false = 16

unfoldable pub plausible : ℕ → ℕ → Bytes → Option Bytes
plausible count size s = if ltb (length s / size) count then none else some s

-- The whole buffer is read.
unfoldable pub at_end : MapTree → Bytes → Option MapTree
at_end t [] = some t
at_end t (_ ∷ _) = none

unfoldable pub read_versioned_map : (Bytes → Option MapTree) → Bool → ℕ → Bytes → Option MapTree
unfolding read_le plausible read_entries read_children at_end
read_versioned_map read_map current hint s = do
  (entries, s) ← read_le 4 s
  s ← plausible entries (min_entry_bytes current) s
  (m, s) ← read_entries current hint entries s empty_map
  (children, s) ← read_le 4 s
  s ← plausible children (min_child_bytes current) s
  (cs, s) ← read_children read_map current hint children s
  at_end (node m cs) s

unfoldable pub read_body : (Bytes → Option MapTree) → ℕ → ℕ → Bytes → Option MapTree
unfolding read_versioned_map
read_body read_map hint version s =
    if nat_beq version format_version
    then read_versioned_map read_map true hint s
    else if nat_beq version 2
    then read_versioned_map read_map false hint s
    else none

-- The fuel is how many levels more may be nested: 17 with the root, for depths from 0 to 16.
unfoldable pub deserialize_with_depth : ℕ → ℕ → Bytes → Option MapTree
unfolding read_le read_body
deserialize_with_depth zero hint s = none
deserialize_with_depth (suc levels) hint s =
    let read_map = deserialize_with_depth levels hint in
    if ltb (length s) 8
    then none
    else do (version, s) ← read_le 4 s; read_body read_map hint version s

unfoldable pub deserialize : ℕ → Bytes → Option MapTree
unfolding deserialize_with_depth
deserialize hint s = deserialize_with_depth 17 hint s
