-- ===== src/Naming/ElementMap/Runs.antt =====
-- Sequences of calls on an ElementMap (naming/element_map.cpp).
use oreo_kernel.Prelude.{
  ◌≡◌, ◌≢◌, refl, inl, inr, ap, ◌∙◌, Bool, true, false, ◌||◌, List, [], ◌∷◌, none, some,
  if◌then◌else◌, ◌==◌, bytes_eq, bytes_beq, bytes_beq_iff, arith, Bool-cases, Option-cases,
}
use oreo_kernel.Prelude.Dict.{Dict, lookup, erase, lookup-insert, lookup-erase}
use oreo_kernel.Identity.{ShapeIdentity}
use oreo_kernel.Naming.Name.{Bytes, IndexedName, is_null_index, postfix_child, encode_element_name}
use oreo_kernel.Naming.ElementMap.{
  ElementMap, empty_map, index_eq, index_beq_iff, store_name, drop_old_name, free_name,
  overwrite_name, set_owned_name, set_element_name, remove_element, import_names, has_indexed_name,
  import_child_names, in_order, clear, c_string,
}
use oreo_kernel.Naming.ElementMap.Laws.{
  IsSound, IsBijective, store_name-IsSound, store_name-IsComplete, overwrite_name-IsSound,
  free_name-free, lookup-store_name,
}

set_owned_name-IsSound :
    (i : IndexedName Bytes) (n : Bytes) (overwrite : Bool) (owner : IndexedName Bytes)
    (m : ElementMap)
    → IsSound m
    → IsSound (set_owned_name i n overwrite owner m).1
unfolding set_owned_name
set_owned_name-IsSound i n overwrite owner m s = elim (Bool-cases (owner == i)) [
  | inl e ↦ rw (e, set_owned_name) s
  | inr e ↦ elim (Bool-cases overwrite) [
    | inl o ↦ rw (e, o, set_owned_name) (overwrite_name-IsSound i n m s)
    | inr o ↦ elim (Option-cases (free_name n 1 100 m)) [
      | inl f ↦ rw (e, o, f, set_owned_name) (overwrite_name-IsSound i n m s)
      | inr (free, f) ↦
          rw (e, o, f, set_owned_name)
            (store_name-IsSound i free m (free_name-free n 1 100 m free f) s)
    ]
  ]
]

pub set_element_name-IsSound :
    (i : IndexedName Bytes) (n : Bytes) (overwrite : Bool) (m : ElementMap)
    → IsSound m
    → IsSound (set_element_name i n overwrite m).1
unfolding set_element_name
set_element_name-IsSound i n overwrite m s = elim (Bool-cases (is_null_index i || bytes_beq n [])) [
  | inl e ↦ rw (e, set_element_name) s
  | inr e ↦ elim (Option-cases (lookup n m.mapped_to_index)) [
    | inl f ↦ rw (e, f, set_element_name) (store_name-IsSound i n m f s)
    | inr (owner, f) ↦ rw (e, f, set_element_name) (set_owned_name-IsSound i n overwrite owner m s)
  ]
]

remove_element-IsSound :
    (i : IndexedName Bytes) (m : ElementMap) → IsSound m → IsSound (remove_element i m)
unfolding remove_element
remove_element-IsSound i m s q j h = elim (Option-cases (lookup i m.index_to_mapped)) [
  | inl e ↦ ground (arith, s q j)
  | inr (old, e) ↦ ground (
    arith,
    lookup-erase old q m.mapped_to_index,
    lookup-erase i j m.index_to_mapped,
    s q j,
    index_beq_iff i j,
    bytes_beq_iff old q,
  )
]

import_names-IsSound :
    (id : ShapeIdentity) (postfix : Bytes) (es : Dict (IndexedName Bytes) Bytes) (m : ElementMap)
    → IsSound m
    → IsSound (import_names id postfix es m)
unfolding import_names
import_names-IsSound id postfix [] m s = s
import_names-IsSound id postfix (e ∷ es) m s = elim (Bool-cases (has_indexed_name e.0 m)) [
  | inl b ↦ rw (b, import_names) (import_names-IsSound id postfix es m s)
  | inr b ↦
      rw (b, import_names)
        (import_names-IsSound id postfix es _
          (set_element_name-IsSound e.0 (encode_element_name e.1 id postfix) false m s))
]

-- A call of one of the methods that change the two maps.
pub data Call : Type 0 where
  set : IndexedName Bytes → Bytes → Bool → Call
  remove : IndexedName Bytes → Call
  import_child : ElementMap → ShapeIdentity → Bytes → Call
  clear_all : Call

unfoldable pub apply_call : Call → ElementMap → ElementMap
apply_call (set i n overwrite) m = (set_element_name i n overwrite m).1
apply_call (remove i) m = remove_element i m
apply_call (import_child child id postfix) m = import_child_names child id postfix m
apply_call clear_all m = clear m

unfoldable pub apply_calls : List Call → ElementMap → ElementMap
unfolding apply_call
apply_calls [] m = m
apply_calls (c ∷ cs) m = apply_calls cs (apply_call c m)

empty_map-IsSound : IsSound empty_map
unfolding lookup
empty_map-IsSound n i h = cc

import_child_names-IsSound :
    (child : ElementMap) (id : ShapeIdentity) (postfix : Bytes) (m : ElementMap)
    → IsSound m
    → IsSound (import_child_names child id postfix m)
unfolding import_child_names
import_child_names-IsSound child id postfix m s =
    import_names-IsSound id (if bytes_beq postfix [] then postfix_child else c_string postfix)
      (in_order child.index_to_mapped) m s

apply_call-IsSound : (c : Call) (m : ElementMap) → IsSound m → IsSound (apply_call c m)
unfolding apply_call clear
apply_call-IsSound (set i n overwrite) m s = set_element_name-IsSound i n overwrite m s
apply_call-IsSound (remove i) m s = remove_element-IsSound i m s
apply_call-IsSound (import_child child id postfix) m s =
    import_child_names-IsSound child id postfix m s
apply_call-IsSound clear_all m s = empty_map-IsSound

calls-IsSound : (cs : List Call) (m : ElementMap) → IsSound m → IsSound (apply_calls cs m)
unfolding apply_calls
calls-IsSound [] m s = s
calls-IsSound (c ∷ cs) m s = calls-IsSound cs (apply_call c m) (apply_call-IsSound c m s)

-- On an element map in which a name that resolves belongs to the index that it resolves to, as in the
-- empty one, this stays so whatever is called; and calls behind a clear do what they do on the empty
-- map.
pub apply_calls-IsSound :
    (cs : List Call) (m : ElementMap)
    → IsSound m
    → IsSound (apply_calls cs m) × (apply_calls (clear_all ∷ cs) m ≡ apply_calls cs empty_map)
unfolding apply_calls apply_call clear
apply_calls-IsSound cs m s = (calls-IsSound cs m s, refl)

-- For an index and a name that are not null, while the maps are inverse to each other and a free name
-- is among the hundred that are tried: setElementName without `overwrite` keeps the maps inverse, and
-- the name that it returns resolves to the index.
pub set_element_name-IsBijective :
    (i : IndexedName Bytes) (n : Bytes) (m : ElementMap)
    → is_null_index i ≡ false
    → bytes_beq n [] ≡ false
    → free_name n 1 100 m ≢ none
    → IsBijective m
    → let (returned, m') = set_element_name i n false m in
      IsBijective m' × (lookup returned m'.mapped_to_index ≡ some i)
unfolding set_element_name set_owned_name
set_element_name-IsBijective i n m p q room (s, c) =
    elim (Option-cases (lookup n m.mapped_to_index)) [
      | inl f ↦ rw (p, q, f, set_element_name) (stored n f)
      | inr (owner, f) ↦ rw (p, q, f, set_element_name) (owned owner f)
    ]
  where
    stored :
        (k : Bytes)
        → lookup k m.mapped_to_index ≡ none
        → IsBijective (store_name i k m) × (lookup k (store_name i k m).mapped_to_index ≡ some i)
    stored k f =
        ((store_name-IsSound i k m f s, store_name-IsComplete i k m f c), lookup-store_name i k m)

    owned :
        (owner : IndexedName Bytes)
        → lookup n m.mapped_to_index ≡ some owner
        → IsBijective (set_owned_name i n false owner m).1
          × (lookup
                (set_owned_name i n false owner m).0
                (set_owned_name i n false owner m).1.mapped_to_index
              ≡ some i)
    owned owner f = elim (Bool-cases (owner == i)) [
      | inl e ↦ rw (e, set_owned_name) ((s, c), f ∙ ap some ((index_beq_iff owner i).0 e))
      | inr e ↦ elim (Option-cases (free_name n 1 100 m)) [
        | inl g ↦ absurd (room g)
        | inr (free, g) ↦ rw (e, g, set_owned_name) (stored free (free_name-free n 1 100 m free g))
      ]
    ]

-- Overwriting a name that another index has leaves both indices with the name, while it resolves to
-- the new one alone.
pub set_element_name-overwritten :
    (i j : IndexedName Bytes) (n : Bytes) (m : ElementMap)
    → is_null_index i ≡ false
    → bytes_beq n [] ≡ false
    → i ≢ j
    → lookup n m.mapped_to_index ≡ some j
    → IsSound m
    → let m' = (set_element_name i n true m).1 in
      (lookup i m'.index_to_mapped ≡ some n)
      × (lookup j m'.index_to_mapped ≡ some n)
      × (lookup n m'.mapped_to_index ≡ some i)
unfolding set_element_name set_owned_name overwrite_name store_name drop_old_name
set_element_name-overwritten i j n m p q ne h s = elim (Option-cases (lookup i m.index_to_mapped)) [
  | inl e ↦ ground (
    arith,
    lookup-insert n n i (erase n m.mapped_to_index),
    lookup-insert i i n m.index_to_mapped,
    lookup-insert i j n m.index_to_mapped,
    s n j,
    index_beq_iff i j,
    index_beq_iff j i,
    index_beq_iff i i,
    bytes_beq_iff n n,
  )
  | inr (old, e) ↦ ground (
    arith,
    lookup-insert n n i (erase old (erase n m.mapped_to_index)),
    lookup-insert i i n m.index_to_mapped,
    lookup-insert i j n m.index_to_mapped,
    s n j,
    index_beq_iff i j,
    index_beq_iff j i,
    index_beq_iff i i,
    bytes_beq_iff n n,
  )
]
