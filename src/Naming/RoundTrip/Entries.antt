-- ===== src/Naming/RoundTrip/Entries.antt =====
-- naming/element_map.cpp: the entries of an element map, written in order and read back.
use mathlib.Core.List.{append_assoc}
use oreo_kernel.Prelude.{
  ℕ, suc, ◌*◌, ◌^◌, ◌≤◌, Bool, true, false, ◌&&◌, [], ◌∷◌, ◌++◌, some, ltb, leb, length,
  length-append, ◌≡◌, refl, ap, ◌∙◌, arith,
}
use oreo_kernel.Prelude.Int.{pos_part, neg_part}
use oreo_kernel.Prelude.Dict.{Dict}
use oreo_kernel.Naming.Name.{Bytes, IndexedName}
use oreo_kernel.Naming.ElementMap.{ElementMap, set_element_name, put_in_order, in_order}
use oreo_kernel.Naming.Wire.{write_entry, write_entries, fits_entries}
use oreo_kernel.Naming.Read.{read_entries}
use oreo_kernel.Naming.RoundTrip.Fields.{
  bind-some, FitsEntry, read_entry-write_entry, length-write_entry,
}

-- What reading the entries does: they are set one after the other.
unfoldable pub set_all : Dict (IndexedName Bytes) Bytes → ElementMap → ElementMap
set_all [] m = m
set_all (e ∷ es) m = set_all es (set_element_name e.0 e.1 false m).1

-- Each index is an int.
unfoldable pub int_indices : Dict (IndexedName Bytes) Bytes → Bool
int_indices [] = true
int_indices (e ∷ es) =
    let rest = int_indices es in
    (ltb (pos_part e.0.index) (2 ^ 31) && leb (neg_part e.0.index) (2 ^ 31)) && rest

fits_entry :
    (e : IndexedName Bytes × Bytes) (es : Dict (IndexedName Bytes) Bytes)
    → fits_entries (e ∷ es) ≡ true
    → int_indices (e ∷ es) ≡ true
    → FitsEntry e
unfolding fits_entries int_indices
fits_entry e es f g = record {
  type_fits = ground arith;
  index_fits = (ground arith, ground arith);
  name_fits = ground arith;
}

fits_rest :
    (e : IndexedName Bytes × Bytes) (es : Dict (IndexedName Bytes) Bytes)
    → fits_entries (e ∷ es) ≡ true
    → fits_entries es ≡ true
unfolding fits_entries
fits_rest e es f = ground arith

int_rest :
    (e : IndexedName Bytes × Bytes) (es : Dict (IndexedName Bytes) Bytes)
    → int_indices (e ∷ es) ≡ true
    → int_indices es ≡ true
unfolding int_indices
int_rest e es f = ground arith

pub read_entries-write_entries :
    (hint : ℕ) (es : Dict (IndexedName Bytes) Bytes) (m : ElementMap) (rest : Bytes)
    → fits_entries es ≡ true
    → int_indices es ≡ true
    → read_entries true hint (length es) (write_entries es ++ rest) m ≡ some (set_all es m, rest)
unfolding read_entries write_entries set_all
read_entries-write_entries hint [] m rest f g = refl
read_entries-write_entries hint (e ∷ es) m rest f g =
    ap (λ s. read_entries true hint (suc (length es)) s m)
      (append_assoc (write_entry e) (write_entries es) rest)
    ∙ bind-some _ _ _ (read_entry-write_entry hint e _ (fits_entry e es f g))
        (read_entries-write_entries hint es _ rest (fits_rest e es f) (int_rest e es g))

-- The guard on the number of entries.
pub length-write_entries :
    (es : Dict (IndexedName Bytes) Bytes) → 26 * length es ≤ length (write_entries es)
unfolding write_entries
length-write_entries [] = omega arith
length-write_entries (e ∷ es) = omega (
  arith,
  length-write_entries es,
  length-write_entry e,
  length-append (write_entry e) (write_entries es),
)

length-put_in_order :
    (e : IndexedName Bytes × Bytes) (es : Dict (IndexedName Bytes) Bytes)
    → length (put_in_order e es) ≡ suc (length es)
unfolding put_in_order
length-put_in_order e [] = refl
length-put_in_order e (f ∷ fs) = ground (arith, length-put_in_order e fs)

pub length-in_order : (es : Dict (IndexedName Bytes) Bytes) → length (in_order es) ≡ length es
unfolding in_order
length-in_order [] = refl
length-in_order (e ∷ es) = length-put_in_order e (in_order es) ∙ ap suc (length-in_order es)

fits_entries-put_in_order :
    (e : IndexedName Bytes × Bytes) (es : Dict (IndexedName Bytes) Bytes)
    → fits_entries (put_in_order e es) ≡ fits_entries (e ∷ es)
unfolding put_in_order fits_entries
fits_entries-put_in_order e [] = refl
fits_entries-put_in_order e (f ∷ fs) = ground (arith, fits_entries-put_in_order e fs)

pub fits_entries-in_order :
    (es : Dict (IndexedName Bytes) Bytes) → fits_entries (in_order es) ≡ fits_entries es
unfolding in_order fits_entries
fits_entries-in_order [] = refl
fits_entries-in_order (e ∷ es) =
    ground (arith, fits_entries-put_in_order e (in_order es), fits_entries-in_order es)

int_indices-put_in_order :
    (e : IndexedName Bytes × Bytes) (es : Dict (IndexedName Bytes) Bytes)
    → int_indices (put_in_order e es) ≡ int_indices (e ∷ es)
unfolding put_in_order int_indices
int_indices-put_in_order e [] = refl
int_indices-put_in_order e (f ∷ fs) = ground (arith, int_indices-put_in_order e fs)

pub int_indices-in_order :
    (es : Dict (IndexedName Bytes) Bytes) → int_indices (in_order es) ≡ int_indices es
unfolding in_order int_indices
int_indices-in_order [] = refl
int_indices-in_order (e ∷ es) =
    ground (arith, int_indices-put_in_order e (in_order es), int_indices-in_order es)
