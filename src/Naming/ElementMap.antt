-- ===== src/Naming/ElementMap.antt =====
-- naming/element_map.{h,cpp}: the two-way map between indexed and mapped names.
-- A std::map is an association list; what is read from it in order is sorted where it is read.
pub mod Laws
pub mod Runs
use oreo_kernel.Prelude.{
  ℕ, zero, suc, ◌+◌, ◌-◌, ◌/◌, ◌%◌, Bool, true, false, ◌&&◌, ◌||◌, not, List, [], ◌∷◌, ◌++◌, Option,
  none, some, ltb, nat_beq, if◌then◌else◌, ◌==◌, Eq, bytes_eq, bytes_beq, bytes_beq_iff, ◌≡◌, ◌↔◌,
  arith, length,
}
use oreo_kernel.Prelude.Int.{ℤ, pos, negsuc, ℤ_beq, ℤ_beq_iff, ltb_ℤ, ℤ_eq}
use oreo_kernel.Prelude.Decimal.{decimal_digits}
use oreo_kernel.Prelude.Dict.{Dict, lookup, insert, erase, contains}
use oreo_kernel.Identity.{ShapeIdentity}
use oreo_kernel.Naming.Name.{
  Bytes, IndexedName, is_null_index, null_index, postfix_duplicate, postfix_child,
  encode_element_name,
}

-- IndexedName::operator==
abbrev pub index_beq : IndexedName Bytes → IndexedName Bytes → Bool
index_beq a b = let same = bytes_beq a.type b.type in ℤ_beq a.index b.index && same

pub index_beq_iff : (a b : IndexedName Bytes) → (index_beq a b ≡ true) ↔ (a ≡ b)
index_beq_iff a b = ground (arith, bytes_beq_iff a.type b.type, ℤ_beq_iff a.index b.index)

instance abbrev pub index_eq : Eq (IndexedName Bytes)
index_eq = record { eqb = index_beq; eqb_iff = index_beq_iff }

-- duplicateCounter_ is never read: it is left out. The children are those of the wire format.
pub record ElementMap : Type 0 where
  pub index_to_mapped : Dict (IndexedName Bytes) Bytes
  pub mapped_to_index : Dict Bytes (IndexedName Bytes)
  pub type_counters : Dict Bytes ℤ

abbrev pub empty_map : ElementMap
empty_map = record { index_to_mapped = []; mapped_to_index = []; type_counters = [] }

unfoldable pub get_mapped_name : IndexedName Bytes → ElementMap → Bytes
get_mapped_name i m = elim (lookup i m.index_to_mapped) [ none ↦ [] | some n ↦ n ]

unfoldable pub get_index_of : Bytes → ElementMap → IndexedName Bytes
get_index_of n m = elim (lookup n m.mapped_to_index) [ none ↦ null_index | some i ↦ i ]

unfoldable pub has_indexed_name : IndexedName Bytes → ElementMap → Bool
has_indexed_name i m = contains i m.index_to_mapped

unfoldable pub has_mapped_name : Bytes → ElementMap → Bool
has_mapped_name n m = contains n m.mapped_to_index

-- Any name that the index had is dropped.
unfoldable pub drop_old_name : IndexedName Bytes → ElementMap → ElementMap
drop_old_name i m = elim (lookup i m.index_to_mapped) [
  | none ↦ m
  | some n ↦ record m { mapped_to_index = erase n m.mapped_to_index }
]

unfoldable pub count_type : IndexedName Bytes → Dict Bytes ℤ → Dict Bytes ℤ
count_type i counters =
    let counter : ℤ = elim (lookup i.type counters) [ none ↦ pos 0 | some c ↦ c ] in
    insert i.type (if ltb_ℤ counter i.index then i.index else counter) counters

-- The end of setElementName, where the name is free.
unfoldable pub store_name : IndexedName Bytes → Bytes → ElementMap → ElementMap
unfolding drop_old_name count_type
store_name i n m =
    let m' = drop_old_name i m in
    record {
      index_to_mapped = insert i n m'.index_to_mapped;
      mapped_to_index = insert n i m'.mapped_to_index;
      type_counters = count_type i m'.type_counters;
    }

unfoldable pub disambiguated : Bytes → ℕ → Bytes
unfolding decimal_digits
disambiguated name attempt = name ++ (postfix_duplicate ++ decimal_digits 10 attempt [])

-- The first of `left` attempts whose name is free.
unfoldable pub free_name : Bytes → ℕ → ℕ → ElementMap → Option Bytes
unfolding disambiguated
free_name name attempt zero m = none
free_name name attempt (suc left) m =
    let later = free_name name (suc attempt) left m in
    if has_mapped_name (disambiguated name attempt) m
    then later
    else some (disambiguated name attempt)

-- The reverse mapping of a name that another index has is dropped first.
unfoldable pub overwrite_name : IndexedName Bytes → Bytes → ElementMap → ElementMap
unfolding store_name
overwrite_name i n m = store_name i n (record m { mapped_to_index = erase n m.mapped_to_index })

-- The recursive calls are written out: one is made with a free name that is not empty, the other
-- with `overwrite` set, where the same index still does not own the name.
unfoldable pub set_owned_name :
    IndexedName Bytes → Bytes → Bool → IndexedName Bytes → ElementMap → Bytes × ElementMap
unfolding free_name overwrite_name
set_owned_name i n overwrite owner m =
    if owner == i
    then (n, m)
    else if overwrite
    then (n, overwrite_name i n m)
    else elim (free_name n 1 100 m) [
      | some free ↦ (free, store_name i free m)
      | none ↦ (n, overwrite_name i n m)
    ]

unfoldable pub set_element_name : IndexedName Bytes → Bytes → Bool → ElementMap → Bytes × ElementMap
unfolding set_owned_name is_null_index
set_element_name i n overwrite m =
    if is_null_index i || bytes_beq n [] then ([], m) else elim (lookup n m.mapped_to_index) [
      | none ↦ (n, store_name i n m)
      | some owner ↦ set_owned_name i n overwrite owner m
    ]

unfoldable pub remove_element : IndexedName Bytes → ElementMap → ElementMap
remove_element i m = elim (lookup i m.index_to_mapped) [
  | none ↦ m
  | some n ↦ record m {
    mapped_to_index = erase n m.mapped_to_index;
    index_to_mapped = erase i m.index_to_mapped;
  }
]

-- IndexedName::operator<
unfoldable pub bytes_lt : Bytes → Bytes → Bool
bytes_lt [] [] = false
bytes_lt [] (b ∷ bs) = true
bytes_lt (a ∷ rest) [] = false
bytes_lt (a ∷ rest) (b ∷ bs) =
    let later = bytes_lt rest bs in if ltb a b then true else if nat_beq a b then later else false

unfoldable pub index_lt : IndexedName Bytes → IndexedName Bytes → Bool
unfolding bytes_lt
index_lt a b = if bytes_beq a.type b.type then ltb_ℤ a.index b.index else bytes_lt a.type b.type

-- The entries of a std::map in its order.
unfoldable pub put_in_order :
    IndexedName Bytes × Bytes → Dict (IndexedName Bytes) Bytes → Dict (IndexedName Bytes) Bytes
unfolding index_lt
put_in_order e [] = e ∷ []
put_in_order e (f ∷ fs) =
    let rest = put_in_order e fs in if index_lt e.0 f.0 then e ∷ f ∷ fs else f ∷ rest

unfoldable pub in_order : Dict (IndexedName Bytes) Bytes → Dict (IndexedName Bytes) Bytes
unfolding put_in_order
in_order [] = []
in_order (e ∷ es) = put_in_order e (in_order es)

-- getAll and count; an empty type asks for all.
unfoldable pub of_type : Bytes → Dict (IndexedName Bytes) Bytes → Dict (IndexedName Bytes) Bytes
of_type type [] = []
of_type type (e ∷ es) =
    let rest = of_type type es in
    if bytes_beq type [] || bytes_beq e.0.type type then e ∷ rest else rest

unfoldable pub get_all : Bytes → ElementMap → Dict (IndexedName Bytes) Bytes
unfolding of_type in_order
get_all type m = of_type type (in_order m.index_to_mapped)

unfoldable pub count : Bytes → ElementMap → ℕ
unfolding of_type
count type m = length (of_type type m.index_to_mapped)

unfoldable pub clear : ElementMap → ElementMap
clear m = empty_map

-- importChildNames, over the child's entries: names that are there are not overwritten.
unfoldable pub import_names :
    ShapeIdentity → Bytes → Dict (IndexedName Bytes) Bytes → ElementMap → ElementMap
import_names id postfix [] m = m
import_names id postfix (e ∷ es) m = import_names id postfix es (
    if has_indexed_name e.0 m
    then m
    else (set_element_name e.0 (encode_element_name e.1 id postfix) false m).1)

-- What c_str() passes on of a text: the bytes before the first NUL.
unfoldable pub c_string : Bytes → Bytes
c_string [] = []
c_string (b ∷ bs) = let rest = c_string bs in if nat_beq b 0 then [] else b ∷ rest

unfoldable pub import_child_names : ElementMap → ShapeIdentity → Bytes → ElementMap → ElementMap
unfolding import_names in_order c_string
import_child_names child id postfix m =
    import_names id (if bytes_beq postfix [] then postfix_child else c_string postfix)
      (in_order child.index_to_mapped) m
