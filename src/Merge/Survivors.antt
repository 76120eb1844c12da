-- ===== src/Merge/Survivors.antt =====
-- The first pass of threeWayMerge (feature/merge.cpp): which feature each id gets.
use mathlib.Core.Path.{subst}
use mathlib.Core.Option.{some-injective}
use oreo_kernel.Prelude.{
  ℕ, suc, ◌+◌, String, Bool, false, ◌≡◌, inl, inr, refl, sym, ap, ◌∙◌, List, [], ◌∷◌, Option, none,
  some, arith, if◌then◌else◌, ◌==◌, string_eq, eq_iff, get_elem?, Bool-cases, Option-cases,
}
use oreo_kernel.Prelude.Int.{ℤ}
use oreo_kernel.Prelude.Dict.{Dict, lookup, insert, lookup-insert}
use oreo_kernel.Feature.{Feature}
use oreo_kernel.Feature.ParamJson.{Json}
use oreo_kernel.Merge.{
  index_from, index_by_id, side_feature, place, merge_id, merge_ids, ordered_ids,
}
use oreo_kernel.Merge.Content.{merge_one, merge_three}
use oreo_kernel.Merge.Content.Added.{merge_added}
use oreo_kernel.Merge.Content.Names.{is_member}
use oreo_kernel.Merge.Content.Pointwise.{is_member-first_occurrences, is_member-append, or-false}
use oreo_kernel.Merge.Order.{ids}

-- The last position of an id.
last_index : String → List Feature → Option ℕ
last_index id [] = none
last_index id (f ∷ fs) = elim (last_index id fs) [
  | some i ↦ some (suc i)
  | none ↦ if f.id == id then some 0 else none
]

abbrev shifted : ℕ → Option ℕ → Option ℕ → Option ℕ
shifted i none old = old
shifted i (some k) old = some (i + k)

lookup-index_from :
    (id : String) (i : ℕ) (fs : List Feature) (m : Dict String ℕ)
    → lookup id (index_from i fs m) ≡ shifted i (last_index id fs) (lookup id m)
unfolding index_from last_index
lookup-index_from id i [] m = refl
lookup-index_from id i (f ∷ fs) m =
    lookup-index_from id (suc i) fs (insert f.id i m) ∙ ground (arith, lookup-insert f.id id i m)

-- The feature at the last position has the id.
last_index-id :
    (id : String) (fs : List Feature) (k : ℕ)
    → last_index id fs ≡ some k
    → (f : Feature) × (get_elem? fs k ≡ some f) × (f.id ≡ id)
unfolding last_index
last_index-id id [] k h = absurd (cc)
last_index-id id (f ∷ fs) k h = elim (Option-cases (last_index id fs)) [
  | inl e ↦ (f, ground arith, ground (arith, eq_iff f.id id))
  | inr (i, e) ↦ let (g, at, named) = last_index-id id fs i e in (g, ground arith, named)
]

last_index-absent :
    (id : String) (fs : List Feature) → is_member id (ids fs) ≡ false → last_index id fs ≡ none
unfolding last_index is_member
last_index-absent id [] h = refl
last_index-absent id (f ∷ fs) h = ground (arith, last_index-absent id fs)

at_last : List Feature → Option ℕ → Option Feature
at_last fs none = none
at_last fs (some k) = get_elem? fs k

side_feature-at_last :
    (fs : List Feature) (id : String) → side_feature fs id ≡ at_last fs (last_index id fs)
unfolding side_feature index_by_id at_last lookup
side_feature-at_last fs id = ground (arith, lookup-index_from id 0 fs [])

pub side_feature-id :
    (fs : List Feature) (id : String) (f : Feature) → side_feature fs id ≡ some f → f.id ≡ id
unfolding at_last
side_feature-id fs id f h = elim (Option-cases (last_index id fs)) [
  | inl e ↦ ground (arith, side_feature-at_last fs id)
  | inr (k, e) ↦
      let (g, at, named) = last_index-id id fs k e in ground (arith, side_feature-at_last fs id)
]

pub side_feature-absent :
    (fs : List Feature) (id : String) → is_member id (ids fs) ≡ false → side_feature fs id ≡ none
unfolding at_last
side_feature-absent fs id h = ground (arith, side_feature-at_last fs id, last_index-absent id fs h)

merge_one-absent :
    (json_eq : Json → Json → Bool) (id : String) (hint : ℤ) (b o t : Option Feature)
    → b ≡ none
    → o ≡ none
    → t ≡ none
    → (merge_one json_eq id hint b o t).0 ≡ none
unfolding merge_one
merge_one-absent json_eq id hint none none none p q r = refl
merge_one-absent json_eq id hint none none (some t) p q r = absurd (cc)
merge_one-absent json_eq id hint none (some o) t p q r = absurd (cc)
merge_one-absent json_eq id hint (some b) o t p q r = absurd (cc)

-- Whatever the sides, the merged feature carries the id that they carry.
merge_one-id :
    (json_eq : Json → Json → Bool) (id : String) (hint : ℤ) (b o t : Option Feature) (f : Feature)
    → ((g : Feature) → b ≡ some g → g.id ≡ id)
    → ((g : Feature) → o ≡ some g → g.id ≡ id)
    → ((g : Feature) → t ≡ some g → g.id ≡ id)
    → (merge_one json_eq id hint b o t).0 ≡ some f
    → f.id ≡ id
unfolding merge_one merge_three merge_added
merge_one-id json_eq id hint none none none f hb ho ht h = absurd (cc)
merge_one-id json_eq id hint none (some o) none f hb ho ht h = ground (arith, ho o)
merge_one-id json_eq id hint none none (some t) f hb ho ht h = ground (arith, ht t)
merge_one-id json_eq id hint none (some o) (some t) f hb ho ht h = ground (arith, ho o)
merge_one-id json_eq id hint (some b) none none f hb ho ht h = absurd (cc)
merge_one-id json_eq id hint (some b) none (some t) f hb ho ht h = ground (arith, hb b)
merge_one-id json_eq id hint (some b) (some o) none f hb ho ht h = ground (arith, hb b)
merge_one-id json_eq id hint (some b) (some o) (some t) f hb ho ht h =
    ap (λ g. g.id) (sym (some-injective _ f h)) ∙ hb b refl

module _ (json_eq : Json → Json → Bool) (base ours theirs : List Feature) where
  abbrev fate : String → Option Feature
  fate id = (merge_id json_eq base ours theirs id).0

  abbrev survivors : List String → Dict String Feature → Dict String Feature
  survivors xs m = (merge_ids json_eq base ours theirs xs m).0

  lookup-place :
      (x id : String) (f : Option Feature) (m : Dict String Feature)
      → lookup id (place x f m)
        ≡ (if x == id then elim f [ none ↦ lookup id m | some g ↦ some g ] else lookup id m)
  lookup-place x id none m = ground arith
  lookup-place x id (some f) m = lookup-insert x id f m

  survivors-settled :
      (id : String) (xs : List String) (m : Dict String Feature)
      → lookup id m ≡ fate id
      → lookup id (survivors xs m) ≡ fate id
  unfolding merge_ids
  survivors-settled id [] m h = h
  survivors-settled id (x ∷ xs) m h =
      survivors-settled id xs (place x (fate x) m) (elim (Bool-cases (x == id)) [
        | inr e ↦ lookup-place x id (fate x) m ∙ rw e h
        | inl e ↦
            subst (λ y. lookup id (place y (fate y) m) ≡ fate id) (sym ((eq_iff x id).0 e))
              (lookup-place id id (fate id) m ∙ ground (arith, eq_iff id id))
      ])

  -- An id that was walked over has its fate, any other is missing.
  lookup-survivors :
      (id : String) (xs : List String) (m : Dict String Feature)
      → lookup id m ≡ none
      → lookup id (survivors xs m) ≡ (if is_member id xs then fate id else none)
  unfolding merge_ids is_member
  lookup-survivors id [] m h = h
  lookup-survivors id (x ∷ xs) m h = elim (Bool-cases (x == id)) [
    | inl e ↦ rw e (
        subst (λ y. lookup id (survivors xs (place y (fate y) m)) ≡ fate id)
          (sym ((eq_iff x id).0 e))
          (survivors-settled id xs (place id (fate id) m)
            (lookup-place id id (fate id) m ∙ ground (arith, eq_iff id id))))
    | inr e ↦
        rw e (lookup-survivors id xs (place x (fate x) m) (lookup-place x id (fate x) m ∙ rw e h))
  ]

  pub fate-absent :
      (id : String) → is_member id (ordered_ids base ours theirs) ≡ false → fate id ≡ none
  unfolding ordered_ids is_member merge_id
  fate-absent id h =
      let all = sym (is_member-first_occurrences id [] _ refl) ∙ h in
      let (not_base, rest) = or-false (sym (is_member-append id (ids base) _) ∙ all) in
      let (not_ours, not_theirs) =
        or-false (sym (is_member-append id (ids ours) (ids theirs)) ∙ rest) in
      merge_one-absent json_eq id _ _ _ _ (side_feature-absent base id not_base)
        (side_feature-absent ours id not_ours) (side_feature-absent theirs id not_theirs)

  -- After the first pass mergedById holds under each id its fate.
  pub lookup-merge_ids :
      (id : String) → lookup id (survivors (ordered_ids base ours theirs) []) ≡ fate id
  unfolding lookup
  lookup-merge_ids id =
      lookup-survivors id (ordered_ids base ours theirs) [] refl
      ∙ elim (Bool-cases (is_member id (ordered_ids base ours theirs))) [
        | inl e ↦ rw e
        | inr e ↦ rw e (sym (fate-absent id e))
      ]

  -- A merged feature carries the id it is found under.
  pub fate-id : (id : String) (f : Feature) → fate id ≡ some f → f.id ≡ id
  unfolding merge_id
  fate-id id f h =
      merge_one-id json_eq id _ _ _ _ f (side_feature-id base id) (side_feature-id ours id)
        (side_feature-id theirs id) h
