-- ===== src/Naming/RoundTrip/Trees.antt =====
-- naming/element_map.cpp: whole element maps, children included, written and read back.
use mathlib.Core.List.{append-nil}
use oreo_kernel.Prelude.{
  ℕ, zero, suc, ◌*◌, ◌/◌, ◌≤◌, ◌<◌, true, [], ◌++◌, Option, some, ok, length, length-append, ◌≡◌,
  refl, sym, ap, ◌∙◌, arith,
}
use oreo_kernel.Prelude.Dict.{Dict}
use oreo_kernel.Identity.Scalar.{u32}
use oreo_kernel.Naming.Name.{Bytes, IndexedName}
use oreo_kernel.Naming.ElementMap.{ElementMap, empty_map, in_order}
use oreo_kernel.Naming.Wire.{
  MapTree, node, Children, no_child, with_map, without_map, write_le, write_entries, write_map,
  write_children, child_count, fits_entries, fits_map, fits_children, serialize, format_version,
}
use oreo_kernel.Naming.Read.{
  read_children, read_versioned_map, plausible, deserialize_with_depth, deserialize,
}
use oreo_kernel.Naming.RoundTrip.Fields.{bind-some, read_u32}
use oreo_kernel.Naming.RoundTrip.Entries.{
  set_all, int_indices, read_entries-write_entries, length-write_entries, length-in_order,
  fits_entries-in_order, int_indices-in_order,
}
use oreo_kernel.Naming.RoundTrip.Children.{
  is_storable, storable_children, rebuilt, rebuilt_children, ReadsBack,
  read_children-write_children,
}

plausible-some :
    (count size : ℕ) (s : Bytes) → count ≤ length s / size → plausible count size s ≡ some s
unfolding plausible
plausible-some count size s h = ground arith

length-write_children : (cs : Children) → 24 * child_count cs ≤ length (write_children cs)
unfolding write_children child_count
length-write_children no_child = omega arith
length-write_children (without_map id postfix cs) =
    omega
      (arith, length-write_children cs, length-append postfix (write_le 4 0 ++ write_children cs))
length-write_children (with_map id postfix t cs) = omega (
  arith,
  length-write_children cs,
  length-append postfix (write_le 4 (length (write_map t)) ++ (write_map t ++ write_children cs)),
  length-append (write_map t) (write_children cs),
)

-- The bytes behind the version.
abbrev map_body : Dict (IndexedName Bytes) Bytes → Children → Bytes
map_body es cs =
    write_le 4 (length es)
    ++ (write_entries es ++ (write_le 4 (child_count cs) ++ write_children cs))

read_versioned_map-map_body :
    (read_map : Bytes → Option MapTree) (levels hint : ℕ) (es : Dict (IndexedName Bytes) Bytes)
    (cs : Children)
    → ReadsBack read_map levels
    → length es < u32
    → child_count cs < u32
    → fits_entries es ≡ true
    → int_indices es ≡ true
    → fits_children cs ≡ true
    → storable_children cs levels ≡ true
    → read_versioned_map read_map true hint (map_body es cs)
      ≡ some (node (set_all es empty_map) (rebuilt_children cs))
unfolding read_versioned_map
read_versioned_map-map_body read_map levels hint es cs back h k f g f' g' =
    bind-some _ _ _ (read_u32 _ _ h) (
      bind-some _ _ _
        (plausible-some (length es) 26 _ (
          omega (
            arith,
            length-write_entries es,
            length-append (write_entries es) (write_le 4 (child_count cs) ++ write_children cs),
          )))
        (bind-some _ _ _ (read_entries-write_entries hint es empty_map _ f g) (
          bind-some _ _ _ (read_u32 _ _ k) (
            bind-some _ _ _
              (plausible-some (child_count cs) 24 _ (omega (arith, length-write_children cs)))
              (bind-some _ _ _
                (ap (read_children read_map true hint (child_count cs))
                    (sym (append-nil (write_children cs)))
                  ∙ read_children-write_children read_map levels hint cs [] back f' g')
                refl)))))

write_map-map_body :
    (m : ElementMap) (cs : Children)
    → write_map (node m cs) ≡ write_le 4 format_version ++ map_body (in_order m.index_to_mapped) cs
unfolding write_map
write_map-map_body m cs =
    ap
      (λ n.
        write_le 4 format_version
        ++ (write_le 4 n
            ++ (write_entries (in_order m.index_to_mapped)
                ++ (write_le 4 (child_count cs) ++ write_children cs))))
      (sym (length-in_order m.index_to_mapped))

deserialize_with_depth-body :
    (levels hint : ℕ) (body : Bytes)
    → 4 ≤ length body
    → deserialize_with_depth (suc levels) hint (write_le 4 format_version ++ body)
      ≡ read_versioned_map (deserialize_with_depth levels hint) true hint body
unfolding deserialize_with_depth write_le
deserialize_with_depth-body levels hint body h = ground arith

deserialize_with_depth-ReadsBack :
    (hint levels : ℕ) → ReadsBack (deserialize_with_depth levels hint) levels
unfolding is_storable fits_map rebuilt
deserialize_with_depth-ReadsBack hint zero (node m cs) f g = absurd (ground arith)
deserialize_with_depth-ReadsBack hint (suc levels) (node m cs) f g =
    ap (deserialize_with_depth (suc levels) hint) (write_map-map_body m cs)
    ∙ (deserialize_with_depth-body levels hint _ (omega arith)
        ∙ read_versioned_map-map_body (deserialize_with_depth levels hint) levels hint
            (in_order m.index_to_mapped) cs (deserialize_with_depth-ReadsBack hint levels)
            (ground (arith, length-in_order m.index_to_mapped)) (ground arith)
            (fits_entries-in_order m.index_to_mapped ∙ ground arith)
            (int_indices-in_order m.index_to_mapped ∙ ground arith) (ground arith) (ground arith))

serialize-ok :
    (t : MapTree) (bytes : Bytes)
    → serialize t ≡ ok bytes
    → (fits_map t ≡ true) × (write_map t ≡ bytes)
unfolding serialize
serialize-ok t bytes e = (ground arith, ground arith)

-- If a tree of element maps serializes, all its numbers are machine numbers and it has at most 17
-- levels of maps (the root and 16 below it), then deserialize reads the bytes whatever the hint,
-- and gives the tree in which the entries of each map are set again in their order.
pub deserialize-serialize :
    (hint : ℕ) (t : MapTree) (bytes : Bytes)
    → serialize t ≡ ok bytes
    → is_storable t 17 ≡ true
    → deserialize hint bytes ≡ some (rebuilt t)
unfolding deserialize
deserialize-serialize hint t bytes e g =
    ap (deserialize_with_depth 17 hint) (sym (serialize-ok t bytes e).1)
    ∙ deserialize_with_depth-ReadsBack hint 17 t (serialize-ok t bytes e).0 g
