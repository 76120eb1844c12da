-- ===== src/Naming/ElementMap/Laws.antt =====
-- The two maps of an ElementMap under setElementName and removeElement (naming/element_map.cpp).
use oreo_kernel.Prelude.{
  ℕ, zero, suc, ◌≡◌, inl, inr, none, some, bytes_eq, bytes_beq_iff, arith, Option-cases,
}
use oreo_kernel.Prelude.Dict.{lookup, erase, contains, lookup-insert, lookup-erase}
use oreo_kernel.Naming.Name.{Bytes, IndexedName}
use oreo_kernel.Naming.ElementMap.{
  ElementMap, index_eq, index_beq_iff, has_mapped_name, drop_old_name, store_name, free_name,
  overwrite_name,
}

-- A name that resolves belongs to the index that it resolves to.
abbrev pub IsSound : ElementMap → Type 0
IsSound m =
    (n : Bytes) (i : IndexedName Bytes)
    → lookup n m.mapped_to_index ≡ some i
    → lookup i m.index_to_mapped ≡ some n

-- The name of an index resolves to it.
abbrev pub IsComplete : ElementMap → Type 0
IsComplete m =
    (n : Bytes) (i : IndexedName Bytes)
    → lookup i m.index_to_mapped ≡ some n
    → lookup n m.mapped_to_index ≡ some i

-- Each map is the other one's inverse.
abbrev pub IsBijective : ElementMap → Type 0
IsBijective m = IsSound m × IsComplete m

pub store_name-IsSound :
    (i : IndexedName Bytes) (n : Bytes) (m : ElementMap)
    → lookup n m.mapped_to_index ≡ none
    → IsSound m
    → IsSound (store_name i n m)
unfolding store_name drop_old_name
store_name-IsSound i n m free s q j h = elim (Option-cases (lookup i m.index_to_mapped)) [
  | inl e ↦ ground (
    arith,
    lookup-insert n q i m.mapped_to_index,
    lookup-insert i j n m.index_to_mapped,
    s q j,
    index_beq_iff i j,
    bytes_beq_iff n q,
  )
  | inr (old, e) ↦ ground (
    arith,
    lookup-insert n q i (erase old m.mapped_to_index),
    lookup-erase old q m.mapped_to_index,
    lookup-insert i j n m.index_to_mapped,
    s q j,
    index_beq_iff i j,
    bytes_beq_iff n q,
    bytes_beq_iff old q,
  )
]

pub store_name-IsComplete :
    (i : IndexedName Bytes) (n : Bytes) (m : ElementMap)
    → lookup n m.mapped_to_index ≡ none
    → IsComplete m
    → IsComplete (store_name i n m)
unfolding store_name drop_old_name
store_name-IsComplete i n m free c q j h = elim (Option-cases (lookup i m.index_to_mapped)) [
  | inl e ↦ ground (
    arith,
    lookup-insert n q i m.mapped_to_index,
    lookup-insert i j n m.index_to_mapped,
    c q j,
    index_beq_iff i j,
    bytes_beq_iff n q,
  )
  | inr (old, e) ↦ ground (
    arith,
    lookup-insert n q i (erase old m.mapped_to_index),
    lookup-erase old q m.mapped_to_index,
    lookup-insert i j n m.index_to_mapped,
    c q j,
    c old i,
    index_beq_iff i j,
    bytes_beq_iff n q,
    bytes_beq_iff old q,
  )
]

-- A reverse mapping can be dropped.
erase_name-IsSound :
    (n : Bytes) (m : ElementMap)
    → IsSound m
    → IsSound (record m { mapped_to_index = erase n m.mapped_to_index })
erase_name-IsSound n m s q j h =
    ground (arith, lookup-erase n q m.mapped_to_index, s q j, bytes_beq_iff n q)

pub overwrite_name-IsSound :
    (i : IndexedName Bytes) (n : Bytes) (m : ElementMap)
    → IsSound m
    → IsSound (overwrite_name i n m)
unfolding overwrite_name
overwrite_name-IsSound i n m s =
    store_name-IsSound i n (record m { mapped_to_index = erase n m.mapped_to_index })
      (ground (arith, lookup-erase n n m.mapped_to_index, bytes_beq_iff n n))
      (erase_name-IsSound n m s)

-- A name that was found free is free.
pub free_name-free :
    (n : Bytes) (attempt left : ℕ) (m : ElementMap) (free : Bytes)
    → free_name n attempt left m ≡ some free
    → lookup free m.mapped_to_index ≡ none
unfolding free_name has_mapped_name contains
free_name-free n attempt zero m free h = cc
free_name-free n attempt (suc left) m free h =
    ground (arith, free_name-free n (suc attempt) left m free)

pub lookup-store_name :
    (i : IndexedName Bytes) (n : Bytes) (m : ElementMap)
    → lookup n (store_name i n m).mapped_to_index ≡ some i
unfolding store_name
lookup-store_name i n m =
    ground (arith, lookup-insert n n i (drop_old_name i m).mapped_to_index, bytes_beq_iff n n)
