-- ===== src/Naming/RoundTrip/Children.antt =====
-- naming/element_map.cpp: the children of an element map, written and read back.
use mathlib.Core.List.{append_assoc}
use oreo_kernel.Prelude.{
  ℕ, zero, suc, ◌<◌, Bool, true, false, ◌&&◌, [], ◌++◌, Option, none, some, ltb, length, ◌≡◌, refl,
  ap, ◌∙◌, arith,
}
use oreo_kernel.Identity.{ShapeIdentity, IsU64, u64}
use oreo_kernel.Identity.Scalar.{u32}
use oreo_kernel.Naming.Name.{Bytes}
use oreo_kernel.Naming.ElementMap.{empty_map, in_order}
use oreo_kernel.Naming.Wire.{
  MapTree, node, Children, no_child, with_map, without_map, write_le, write_str, write_identity,
  write_map, write_children, child_count, fits_map, fits_children,
}
use oreo_kernel.Naming.Read.{read_children, read_child, read_child_map, child_map, add_child}
use oreo_kernel.Naming.RoundTrip.Fields.{
  bind-some, read_u32, read_bytes-append, read_str-write_str, read_identity-write_identity,
}
use oreo_kernel.Naming.RoundTrip.Entries.{set_all, int_indices}

-- The map that reading makes: the entries set again one after the other, in every map of the tree.
unfoldable mutual
  unfolding set_all in_order

  pub rebuilt : MapTree → MapTree
  rebuilt (node m cs) = node (set_all (in_order m.index_to_mapped) empty_map) (rebuilt_children cs)

  pub rebuilt_children : Children → Children
  rebuilt_children no_child = no_child
  rebuilt_children (with_map id postfix t cs) =
      with_map id postfix (rebuilt t) (rebuilt_children cs)
  rebuilt_children (without_map id postfix cs) = without_map id postfix (rebuilt_children cs)

-- The words of an identity are std::uint64_t.
abbrev pub u64_identity : ShapeIdentity → Bool
u64_identity id = ltb id.document_id u64 && ltb id.counter u64

-- The numbers of the maps are machine numbers, and there are at most so many levels of maps.
unfoldable mutual
  unfolding int_indices

  pub is_storable : MapTree → ℕ → Bool
  is_storable (node m cs) zero = false
  is_storable (node m cs) (suc levels) =
      let below = storable_children cs levels in int_indices m.index_to_mapped && below

  pub storable_children : Children → ℕ → Bool
  storable_children no_child levels = true
  storable_children (with_map id postfix t cs) levels =
      let inner = is_storable t levels in
      let rest = storable_children cs levels in u64_identity id && (inner && rest)
  storable_children (without_map id postfix cs) levels =
      let rest = storable_children cs levels in u64_identity id && rest

-- A reader that reads back the maps with at most so many levels.
abbrev pub ReadsBack : (Bytes → Option MapTree) → ℕ → Type 0
ReadsBack read_map levels =
    (t : MapTree)
    → fits_map t ≡ true
    → is_storable t levels ≡ true
    → read_map (write_map t) ≡ some (rebuilt t)

u64_identity-IsU64 : (id : ShapeIdentity) → u64_identity id ≡ true → IsU64 id
u64_identity-IsU64 id h = record { document_id = ground arith; counter = ground arith }

child_map-write_map :
    (read_map : Bytes → Option MapTree) (t : MapTree)
    → read_map (write_map t) ≡ some (rebuilt t)
    → child_map read_map (write_map t) ≡ some (some (rebuilt t))
unfolding child_map write_map rebuilt
child_map-write_map read_map (node m cs) e = rw e

read_child_map-write_map :
    (read_map : Bytes → Option MapTree) (t : MapTree) (rest : Bytes)
    → length (write_map t) < u32
    → read_map (write_map t) ≡ some (rebuilt t)
    → read_child_map read_map (write_le 4 (length (write_map t)) ++ (write_map t ++ rest))
      ≡ some (some (rebuilt t), rest)
unfolding read_child_map
read_child_map-write_map read_map t rest h e = bind-some _ _ _ (read_u32 _ _ h) (
    bind-some _ _ _ (read_bytes-append (write_map t) rest)
      (bind-some _ _ _ (child_map-write_map read_map t e) refl))

no_map_bytes :
    (read_map : Bytes → Option MapTree) (rest : Bytes)
    → read_child_map read_map (write_le 4 0 ++ rest) ≡ some (none, rest)
unfolding read_child_map child_map write_le
no_map_bytes read_map rest = bind-some _ _ _ (read_bytes-append [] rest) refl

-- The children are written one behind the other.
with_map_bytes :
    (id : ShapeIdentity) (postfix : Bytes) (t : MapTree) (cs : Children) (rest : Bytes)
    → write_children (with_map id postfix t cs) ++ rest
      ≡ write_identity id
        ++ (write_str postfix
            ++ (write_le 4 (length (write_map t)) ++ (write_map t ++ (write_children cs ++ rest))))
unfolding write_children
with_map_bytes id postfix t cs rest =
    ap (λ s. write_identity id ++ s)
      (append_assoc (write_str postfix) _ rest
        ∙ ap (λ s. write_str postfix ++ (write_le 4 (length (write_map t)) ++ s))
            (append_assoc (write_map t) _ rest))

without_map_bytes :
    (id : ShapeIdentity) (postfix : Bytes) (cs : Children) (rest : Bytes)
    → write_children (without_map id postfix cs) ++ rest
      ≡ write_identity id ++ (write_str postfix ++ (write_le 4 0 ++ (write_children cs ++ rest)))
unfolding write_children
without_map_bytes id postfix cs rest =
    ap (λ s. write_identity id ++ s) (append_assoc (write_str postfix) _ rest)

read_child-fields :
    (read_map : Bytes → Option MapTree) (hint : ℕ) (id : ShapeIdentity) (postfix s rest : Bytes)
    (child : Option MapTree)
    → u64_identity id ≡ true
    → length postfix < u32
    → read_child_map read_map s ≡ some (child, rest)
    → read_child read_map true hint (write_identity id ++ (write_str postfix ++ s))
      ≡ some ((id, (postfix, child)), rest)
unfolding read_child
read_child-fields read_map hint id postfix s rest child u h e =
    bind-some _ _ _ (read_identity-write_identity id _ (u64_identity-IsU64 id u))
      (bind-some _ _ _ (read_str-write_str postfix s h) (bind-some _ _ _ e refl))

read_children-zero :
    (read_map : Bytes → Option MapTree) (hint : ℕ) (rest : Bytes)
    → read_children read_map true hint 0 rest ≡ some (no_child, rest)
unfolding read_children
read_children-zero read_map hint rest = refl

read_children-suc :
    (read_map : Bytes → Option MapTree) (hint n : ℕ) (s s' rest : Bytes)
    (child : ShapeIdentity × (Bytes × Option MapTree)) (cs : Children)
    → read_child read_map true hint s ≡ some (child, s')
    → read_children read_map true hint n s' ≡ some (cs, rest)
    → read_children read_map true hint (suc n) s ≡ some (add_child child cs, rest)
unfolding read_children
read_children-suc read_map hint n s s' rest child cs e f =
    bind-some _ _ _ e (bind-some _ _ _ f refl)

pub read_children-write_children :
    (read_map : Bytes → Option MapTree) (levels hint : ℕ) (cs : Children) (rest : Bytes)
    → ReadsBack read_map levels
    → fits_children cs ≡ true
    → storable_children cs levels ≡ true
    → read_children read_map true hint (child_count cs) (write_children cs ++ rest)
      ≡ some (rebuilt_children cs, rest)
unfolding child_count rebuilt_children fits_children storable_children
read_children-write_children read_map levels hint no_child rest back f g =
    read_children-zero read_map hint rest
read_children-write_children read_map levels hint (without_map id postfix cs) rest back f g =
    ap (read_children read_map true hint (suc (child_count cs)))
      (without_map_bytes id postfix cs rest)
    ∙ read_children-suc read_map hint (child_count cs) _ _ rest _ _
        (read_child-fields read_map hint id postfix _ _ none (ground arith) (ground arith)
          (no_map_bytes read_map (write_children cs ++ rest)))
        (read_children-write_children read_map levels hint cs rest back (ground arith)
          (ground arith))
read_children-write_children read_map levels hint (with_map id postfix t cs) rest back f g =
    ap (read_children read_map true hint (suc (child_count cs)))
      (with_map_bytes id postfix t cs rest)
    ∙ read_children-suc read_map hint (child_count cs) _ _ rest _ _
        (read_child-fields read_map hint id postfix _ _ (some (rebuilt t)) (ground arith)
          (ground arith)
          (read_child_map-write_map read_map t _ (ground arith)
            (back t (ground arith) (ground arith))))
        (read_children-write_children read_map levels hint cs rest back (ground arith)
          (ground arith))
