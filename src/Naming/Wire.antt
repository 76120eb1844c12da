-- ===== src/Naming/Wire.antt =====
-- naming/element_map.cpp: ElementMap::serialize, the bytes of an element map and its children.
use oreo_kernel.Prelude.{
  ℕ, zero, suc, ◌-◌, ◌/◌, ◌%◌, ◌^◌, Bool, true, ◌&&◌, [], ◌∷◌, ◌++◌, leb, if◌then◌else◌, length,
  Result, ok, throw, length_error,
}
use oreo_kernel.Prelude.Int.{ℤ, pos, negsuc}
use oreo_kernel.Prelude.Dict.{Dict}
use oreo_kernel.Identity.{ShapeIdentity}
use oreo_kernel.Identity.Scalar.{u32}
use oreo_kernel.Naming.Name.{Bytes, IndexedName}
use oreo_kernel.Naming.Extract.{extract_shape_identity}
use oreo_kernel.Naming.ElementMap.{ElementMap, in_order}

-- An element map with its children_; a child's map can be missing.
mutual
  pub data MapTree : Type 0 where
    node : ElementMap → Children → MapTree

  pub data Children : Type 0 where
    no_child : Children
    with_map : ShapeIdentity → Bytes → MapTree → Children → Children
    without_map : ShapeIdentity → Bytes → Children → Children

-- writeU16, writeU32 and writeU64 for 2, 4 and 8 bytes: the lowest byte first.
unfoldable pub write_le : ℕ → ℕ → Bytes
write_le zero v = []
write_le (suc n) v = v % 256 ∷ write_le n (v / 256)

unfoldable pub write_identity : ShapeIdentity → Bytes
unfolding write_le
write_identity id = write_le 8 id.document_id ++ write_le 8 id.counter

unfoldable pub write_str : Bytes → Bytes
unfolding write_le
write_str s = write_le 4 (length s) ++ s

-- static_cast<std::uint32_t> of an int.
unfoldable pub int_pattern : ℤ → ℕ
int_pattern (pos n) = n % u32
int_pattern (negsuc n) = u32 - 1 - n % u32

unfoldable pub write_entry : IndexedName Bytes × Bytes → Bytes
unfolding write_le int_pattern write_str write_identity
write_entry (i, name) =
    write_le 2 (length i.type)
    ++ (i.type
        ++ (write_le 4 (int_pattern i.index)
            ++ (write_str name ++ write_identity (extract_shape_identity name))))

unfoldable pub write_entries : Dict (IndexedName Bytes) Bytes → Bytes
unfolding write_entry
write_entries [] = []
write_entries (e ∷ es) = write_entry e ++ write_entries es

unfoldable pub child_count : Children → ℕ
child_count no_child = 0
child_count (with_map _ _ _ cs) = suc (child_count cs)
child_count (without_map _ _ cs) = suc (child_count cs)

abbrev pub format_version : ℕ
format_version = 3

unfoldable mutual
  unfolding write_entries child_count write_identity write_str write_le

  pub write_map : MapTree → Bytes
  write_map (node m cs) =
      write_le 4 format_version
      ++ (write_le 4 (length m.index_to_mapped)
          ++ (write_entries (in_order m.index_to_mapped)
              ++ (write_le 4 (child_count cs) ++ write_children cs)))

  pub write_children : Children → Bytes
  write_children no_child = []
  write_children (with_map id postfix t cs) =
      write_identity id
      ++ (write_str postfix
          ++ (write_le 4 (length (write_map t)) ++ (write_map t ++ write_children cs)))
  write_children (without_map id postfix cs) =
      write_identity id ++ (write_str postfix ++ (write_le 4 0 ++ write_children cs))

-- The tests of the lengths, each of which throws the same exception.
unfoldable pub fits_entries : Dict (IndexedName Bytes) Bytes → Bool
fits_entries [] = true
fits_entries (e ∷ es) =
    let rest = fits_entries es in
    (leb (length e.0.type) (2 ^ 16 - 1) && leb (length e.1) (u32 - 1)) && rest

unfoldable mutual
  unfolding write_map fits_entries child_count

  pub fits_map : MapTree → Bool
  fits_map (node m cs) =
      let below = fits_children cs in
      (leb (length m.index_to_mapped) (u32 - 1) && fits_entries m.index_to_mapped)
      && (leb (child_count cs) (u32 - 1) && below)

  pub fits_children : Children → Bool
  fits_children no_child = true
  fits_children (with_map id postfix t cs) =
      let inner = fits_map t in
      let rest = fits_children cs in
      (leb (length postfix) (u32 - 1) && (leb (length (write_map t)) (u32 - 1) && inner)) && rest
  fits_children (without_map id postfix cs) =
      let rest = fits_children cs in leb (length postfix) (u32 - 1) && rest

unfoldable pub serialize : MapTree → Result Bytes
unfolding fits_map write_map
serialize t = if fits_map t then ok (write_map t) else throw length_error
