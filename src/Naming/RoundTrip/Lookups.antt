-- ===== src/Naming/RoundTrip/Lookups.antt =====
-- naming/element_map.cpp: the names of an element map that was written and read back.
use oreo_kernel.Prelude.{
  ℕ, Bool, true, false, ◌&&◌, ◌||◌, not, [], ◌∷◌, Option, none, some, ok, ◌==◌, if◌then◌else◌, ◌≡◌,
  refl, ap, ◌∙◌, arith, bytes_eq, bytes_beq, bytes_beq_iff, Option-cases, inl, inr,
}
use oreo_kernel.Prelude.Dict.{Dict, lookup, contains, lookup-insert, lookup-erase, erase}
use oreo_kernel.Naming.Name.{Bytes, IndexedName, is_null_index}
use oreo_kernel.Naming.ElementMap.{
  ElementMap, empty_map, index_eq, index_beq_iff, set_element_name, store_name, drop_old_name,
  put_in_order, in_order, get_mapped_name,
}
use oreo_kernel.Naming.Wire.{node, Children, serialize}
use oreo_kernel.Naming.Read.{deserialize}
use oreo_kernel.Naming.RoundTrip.Entries.{set_all}
use oreo_kernel.Naming.RoundTrip.Children.{is_storable, rebuilt, rebuilt_children}
use oreo_kernel.Naming.RoundTrip.Trees.{deserialize-serialize}

unfoldable name_in : Bytes → Dict (IndexedName Bytes) Bytes → Bool
name_in n [] = false
name_in n (e ∷ es) = let rest = name_in n es in bytes_beq e.1 n || rest

-- No index twice, no name twice, no null index and no empty name.
unfoldable pub is_distinct : Dict (IndexedName Bytes) Bytes → Bool
unfolding name_in contains lookup
is_distinct [] = true
is_distinct (e ∷ es) =
    let rest = is_distinct es in
    (not (is_null_index e.0) && not (bytes_beq e.1 []))
    && (not (contains e.0 es) && (not (name_in e.1 es) && rest))

name_in-put_in_order :
    (n : Bytes) (e : IndexedName Bytes × Bytes) (es : Dict (IndexedName Bytes) Bytes)
    → name_in n (put_in_order e es) ≡ name_in n (e ∷ es)
unfolding put_in_order name_in
name_in-put_in_order n e [] = refl
name_in-put_in_order n e (f ∷ fs) = ground (arith, name_in-put_in_order n e fs)

-- The entries that the new one is put behind have other indices.
lookup-put_in_order :
    (i : IndexedName Bytes) (e : IndexedName Bytes × Bytes) (es : Dict (IndexedName Bytes) Bytes)
    → lookup e.0 es ≡ none
    → lookup i (put_in_order e es) ≡ lookup i (e ∷ es)
unfolding put_in_order lookup
lookup-put_in_order i e [] h = refl
lookup-put_in_order i e (f ∷ fs) h = ground (
  arith,
  lookup-put_in_order i e fs,
  index_beq_iff f.0 i,
  index_beq_iff e.0 i,
  index_beq_iff f.0 e.0,
)

is_distinct-put_in_order :
    (e : IndexedName Bytes × Bytes) (es : Dict (IndexedName Bytes) Bytes)
    → is_distinct (e ∷ es) ≡ true
    → is_distinct (put_in_order e es) ≡ true
unfolding put_in_order is_distinct contains name_in lookup
is_distinct-put_in_order e [] h = ground arith
is_distinct-put_in_order e (f ∷ fs) h = ground (
  arith,
  name_in-put_in_order f.1 e fs,
  lookup-put_in_order f.0 e fs,
  is_distinct-put_in_order e fs,
  index_beq_iff e.0 f.0,
  index_beq_iff f.0 e.0,
  bytes_beq_iff e.1 f.1,
  bytes_beq_iff f.1 e.1,
)

lookup-none :
    (e : IndexedName Bytes × Bytes) (es : Dict (IndexedName Bytes) Bytes)
    → is_distinct (e ∷ es) ≡ true
    → lookup e.0 es ≡ none
unfolding is_distinct contains
lookup-none e es h = ground arith

is_distinct-rest :
    (e : IndexedName Bytes × Bytes) (es : Dict (IndexedName Bytes) Bytes)
    → is_distinct (e ∷ es) ≡ true
    → is_distinct es ≡ true
unfolding is_distinct
is_distinct-rest e es h = ground arith

name_in-in_order :
    (n : Bytes) (es : Dict (IndexedName Bytes) Bytes) → name_in n (in_order es) ≡ name_in n es
unfolding in_order name_in
name_in-in_order n [] = refl
name_in-in_order n (e ∷ es) =
    name_in-put_in_order n e (in_order es) ∙ ap (λ b. bytes_beq e.1 n || b) (name_in-in_order n es)

lookup-in_order :
    (i : IndexedName Bytes) (es : Dict (IndexedName Bytes) Bytes)
    → is_distinct es ≡ true
    → lookup i (in_order es) ≡ lookup i es
unfolding in_order lookup
lookup-in_order i [] h = refl
lookup-in_order i (e ∷ es) h =
    lookup-put_in_order i e (in_order es)
      (lookup-in_order e.0 es (is_distinct-rest e es h) ∙ lookup-none e es h)
    ∙ ap (λ o. if e.0 == i then some e.1 else o) (lookup-in_order i es (is_distinct-rest e es h))

is_distinct-cons :
    (e : IndexedName Bytes × Bytes) (es fs : Dict (IndexedName Bytes) Bytes)
    → is_distinct (e ∷ es) ≡ true
    → lookup e.0 fs ≡ lookup e.0 es
    → name_in e.1 fs ≡ name_in e.1 es
    → is_distinct fs ≡ true
    → is_distinct (e ∷ fs) ≡ true
unfolding is_distinct contains
is_distinct-cons e es fs h l n d = ground arith

is_distinct-in_order :
    (es : Dict (IndexedName Bytes) Bytes) → is_distinct es ≡ true → is_distinct (in_order es) ≡ true
unfolding in_order
is_distinct-in_order [] h = h
is_distinct-in_order (e ∷ es) h = is_distinct-put_in_order e (in_order es) (
    is_distinct-cons e es (in_order es) h (lookup-in_order e.0 es (is_distinct-rest e es h))
      (name_in-in_order e.1 es) (is_distinct-in_order es (is_distinct-rest e es h)))

lookup-mapped :
    (i : IndexedName Bytes) (n q : Bytes) (m : ElementMap)
    → bytes_beq n q ≡ false
    → lookup q m.mapped_to_index ≡ none
    → lookup q (store_name i n m).mapped_to_index ≡ none
unfolding store_name drop_old_name
lookup-mapped i n q m h free = elim (Option-cases (lookup i m.index_to_mapped)) [
  | inl e ↦ ground (arith, lookup-insert n q i m.mapped_to_index)
  | inr (old, e) ↦ ground (
    arith,
    lookup-insert n q i (erase old m.mapped_to_index),
    lookup-erase old q m.mapped_to_index,
  )
]

lookup-index :
    (i j : IndexedName Bytes) (n : Bytes) (m : ElementMap)
    → lookup j (store_name i n m).index_to_mapped
      ≡ (if i == j then some n else lookup j m.index_to_mapped)
unfolding store_name drop_old_name
lookup-index i j n m = elim (Option-cases (lookup i m.index_to_mapped)) [
  | inl e ↦ ground (arith, lookup-insert i j n m.index_to_mapped)
  | inr (old, e) ↦ ground (arith, lookup-insert i j n m.index_to_mapped)
]

pub set_element_name-fresh :
    (i : IndexedName Bytes) (n : Bytes) (m : ElementMap)
    → is_null_index i ≡ false
    → bytes_beq n [] ≡ false
    → lookup n m.mapped_to_index ≡ none
    → (set_element_name i n false m).1 ≡ store_name i n m
unfolding set_element_name
set_element_name-fresh i n m h k free = rw (h, k, free) refl

fresh-suc :
    (e : IndexedName Bytes × Bytes) (es : Dict (IndexedName Bytes) Bytes) (m : ElementMap)
    → is_distinct (e ∷ es) ≡ true
    → ((n : Bytes) → name_in n (e ∷ es) ≡ true → lookup n m.mapped_to_index ≡ none)
    → (n : Bytes) → name_in n es ≡ true
    → lookup n (store_name e.0 e.1 m).mapped_to_index ≡ none
unfolding is_distinct name_in
fresh-suc e es m d free n h =
    lookup-mapped e.0 e.1 n m (ground (arith, bytes_beq_iff e.1 n)) (free n (ground arith))

set_element_name-head :
    (e : IndexedName Bytes × Bytes) (es : Dict (IndexedName Bytes) Bytes) (m : ElementMap)
    → is_distinct (e ∷ es) ≡ true
    → ((n : Bytes) → name_in n (e ∷ es) ≡ true → lookup n m.mapped_to_index ≡ none)
    → (set_element_name e.0 e.1 false m).1 ≡ store_name e.0 e.1 m
unfolding is_distinct name_in
set_element_name-head e es m d free =
    set_element_name-fresh e.0 e.1 m (ground arith) (ground arith)
      (free e.1 (ground (arith, bytes_beq_iff e.1 e.1)))

-- An index is looked up among the entries first.
among : Option Bytes → Option Bytes → Option Bytes
among none o = o
among (some n) o = some n

lookup-set_all :
    (es : Dict (IndexedName Bytes) Bytes) (m : ElementMap) (i : IndexedName Bytes)
    → is_distinct es ≡ true
    → ((n : Bytes) → name_in n es ≡ true → lookup n m.mapped_to_index ≡ none)
    → lookup i (set_all es m).index_to_mapped ≡ among (lookup i es) (lookup i m.index_to_mapped)
unfolding set_all lookup among
lookup-set_all [] m i d free = refl
lookup-set_all (e ∷ es) m i d free =
    ap (λ m. lookup i (set_all es m).index_to_mapped) (set_element_name-head e es m d free)
    ∙ (lookup-set_all es (store_name e.0 e.1 m) i (is_distinct-rest e es d)
          (fresh-suc e es m d free)
        ∙ ground (arith, lookup-index e.0 i e.1 m, lookup-none e es d, index_beq_iff e.0 i))

lookup-rebuilt :
    (es : Dict (IndexedName Bytes) Bytes) (i : IndexedName Bytes)
    → is_distinct es ≡ true
    → lookup i (set_all (in_order es) empty_map).index_to_mapped ≡ lookup i es
unfolding lookup among
lookup-rebuilt es i d =
    lookup-set_all (in_order es) empty_map i (is_distinct-in_order es d) (λ n h. refl)
    ∙ (ap (λ o. among o none) (lookup-in_order i es d)
        ∙ elim (lookup i es) as (λ o. among o none ≡ o) [ none ↦ refl | some n ↦ refl ])

-- An element map whose indices and names are distinct and not null, and which serializes with
-- machine numbers and at most 17 levels of maps, is read back, under any hint, as a map in which
-- each index has the name that it had.
pub get_mapped_name-deserialize :
    (hint : ℕ) (m : ElementMap) (cs : Children) (bytes : Bytes)
    → serialize (node m cs) ≡ ok bytes
    → is_storable (node m cs) 17 ≡ true
    → is_distinct m.index_to_mapped ≡ true
    → (m' : ElementMap) × (deserialize hint bytes ≡ some (node m' (rebuilt_children cs)))
      × ((i : IndexedName Bytes) → get_mapped_name i m' ≡ get_mapped_name i m)
unfolding rebuilt get_mapped_name
get_mapped_name-deserialize hint m cs bytes e g d = (
  set_all (in_order m.index_to_mapped) empty_map,
  deserialize-serialize hint (node m cs) bytes e g,
  λ i. ap (λ o. elim o [ none ↦ [] | some n ↦ n ]) (lookup-rebuilt m.index_to_mapped i d),
)
