-- ===== src/Merge/Sequence.antt =====
-- The second and third pass of threeWayMerge (feature/merge.cpp): the order has no id twice, and
-- every feature of it enters the merged tree.
use mathlib.Core.Path.{subst}
use mathlib.Core.List.{append-nil, append_assoc}
use oreo_kernel.Prelude.{
  String, true, false, ◌≡◌, ◌⊎◌, inl, inr, refl, sym, ap, ◌∙◌, List, [], ◌∷◌, ◌++◌, none, some,
  arith, if◌then◌else◌, ◌==◌, ◌||◌, ◌&&◌, string_eq, eq_iff, Bool-cases, Option-cases,
}
use oreo_kernel.Prelude.Dict.{Dict, lookup, contains}
use oreo_kernel.Feature.{Feature}
use oreo_kernel.Tree.{FeatureTree, add_feature}
use oreo_kernel.Tree.Find.{find_first}
use oreo_kernel.Tree.Unique.{IsAbsent, IsAbsent-append}
use oreo_kernel.Merge.{materialise}
use oreo_kernel.Merge.Content.Names.{is_member}
use oreo_kernel.Merge.Content.Pointwise.{is_member-append, or-false}
use oreo_kernel.Merge.Order.{ids, retained_ids, place_new, append_new, merged_order}

abbrev pub IsDistinct : List String → Type 0
IsDistinct [] = Unit
IsDistinct (x ∷ xs) = (is_member x xs ≡ false) × IsDistinct xs

IsDistinct-append :
    (x : String) (xs : List String)
    → IsDistinct xs
    → is_member x xs ≡ false
    → IsDistinct (xs ++ x ∷ [])
unfolding is_member
IsDistinct-append x [] d h = (refl, tt)
IsDistinct-append x (y ∷ ys) (n, d) h = (
  ground (arith, is_member-append y ys (x ∷ []), eq_iff x y, eq_iff y x),
  IsDistinct-append x ys d (or-false h).1,
)

module _ {V : Type 0} (merged : Dict String V) where
  is_member-retained_ids :
      (x : String) (xs : List String)
      → is_member x (retained_ids merged xs) ≡ (is_member x xs && contains x merged)
  unfolding is_member retained_ids
  is_member-retained_ids x [] = refl
  is_member-retained_ids x (y ∷ ys) = elim (Bool-cases (y == x)) [
    | inl e ↦
        subst
          (λ z.
            is_member x (retained_ids merged (z ∷ ys))
            ≡ (((z == x) || is_member x ys) && contains x merged))
          (sym ((eq_iff y x).0 e)) (ground (arith, eq_iff x x, is_member-retained_ids x ys))
    | inr e ↦ ground (arith, is_member-retained_ids x ys)
  ]

  IsDistinct-retained_ids : (xs : List String) → IsDistinct xs → IsDistinct (retained_ids merged xs)
  unfolding retained_ids
  IsDistinct-retained_ids [] d = tt
  IsDistinct-retained_ids (x ∷ xs) (n, d) = elim (Bool-cases (contains x merged)) [
    | inl e ↦
        rw (e, retained_ids)
          (ground (arith, is_member-retained_ids x xs), IsDistinct-retained_ids xs d)
    | inr e ↦ rw (e, retained_ids) (IsDistinct-retained_ids xs d)
  ]

  IsDistinct-place_new :
      (placed : List String) (x : String)
      → IsDistinct placed
      → IsDistinct (place_new merged placed x)
  unfolding place_new
  IsDistinct-place_new placed x d = elim (Bool-cases (is_member x placed)) [
    | inl e ↦ rw (e, place_new) d
    | inr e ↦ elim (Bool-cases (contains x merged)) [
      | inl c ↦ rw (e, c, place_new) (IsDistinct-append x placed d e)
      | inr c ↦ rw (e, c, place_new) d
    ]
  ]

  IsDistinct-append_new :
      (placed side : List String) → IsDistinct placed → IsDistinct (append_new merged placed side)
  unfolding append_new
  IsDistinct-append_new placed [] d = d
  IsDistinct-append_new placed (x ∷ xs) d =
      IsDistinct-append_new (place_new merged placed x) xs (IsDistinct-place_new placed x d)

  is_member-place_new :
      (x : String) (placed : List String) (y : String)
      → is_member x (place_new merged placed y)
        ≡ (is_member x placed || ((y == x) && contains x merged))
  unfolding place_new is_member
  is_member-place_new x placed y = elim (Bool-cases (y == x)) [
    | inr e ↦ ground (arith, is_member-append x placed (y ∷ []))
    | inl e ↦
        subst
          (λ z.
            is_member x (place_new merged placed z)
            ≡ (is_member x placed || ((z == x) && contains x merged)))
          (sym ((eq_iff y x).0 e)) (ground (arith, is_member-append x placed (x ∷ []), eq_iff x x))
  ]

  is_member-append_new :
      (x : String) (placed side : List String)
      → is_member x (append_new merged placed side)
        ≡ (is_member x placed || (is_member x side && contains x merged))
  unfolding append_new is_member
  is_member-append_new x placed [] = ground arith
  is_member-append_new x placed (y ∷ ys) =
      is_member-append_new x (place_new merged placed y) ys
      ∙ ground (arith, is_member-place_new x placed y)

pub merged_order-IsDistinct :
    {V : Type 0} (merged : Dict String V) (base ours theirs : List Feature)
    → IsDistinct (ids base)
    → IsDistinct (merged_order merged base ours theirs)
unfolding merged_order
merged_order-IsDistinct merged base ours theirs d =
    IsDistinct-append_new merged _ (ids theirs)
      (IsDistinct-append_new merged _ (ids ours) (IsDistinct-retained_ids merged (ids base) d))

-- The order holds the ids of any side that survived.
pub is_member-merged_order :
    {V : Type 0} (merged : Dict String V) (base ours theirs : List Feature) (x : String)
    → is_member x (merged_order merged base ours theirs)
      ≡ (is_member x (ids base ++ (ids ours ++ ids theirs)) && contains x merged)
unfolding merged_order
is_member-merged_order merged base ours theirs x = ground (
  arith,
  is_member-append_new merged x (append_new merged (retained_ids merged (ids base)) (ids ours))
      (ids theirs),
  is_member-append_new merged x (retained_ids merged (ids base)) (ids ours),
  is_member-retained_ids merged x (ids base),
  is_member-append x (ids base) (ids ours ++ ids theirs),
  is_member-append x (ids ours) (ids theirs),
)

-- The features of an order, each under its id.
pub pick : Dict String Feature → List String → List Feature
pick merged [] = []
pick merged (x ∷ xs) = elim (lookup x merged) [
  | none ↦ pick merged xs
  | some f ↦ f ∷ pick merged xs
]

abbrev pub IsKeyed : Dict String Feature → Type 0
IsKeyed merged = (x : String) (f : Feature) → lookup x merged ≡ some f → f.id ≡ x

-- Each id of the order has its feature, and the list holds none of them.
abbrev pub CanAdd : Dict String Feature → List String → List Feature → Type 0
CanAdd merged [] fs = Unit
CanAdd merged (x ∷ xs) fs = (contains x merged ≡ true) × IsAbsent x fs × CanAdd merged xs fs

CanAdd-append :
    (merged : Dict String Feature) (xs : List String) (fs : List Feature) (f : Feature)
    → is_member f.id xs ≡ false
    → CanAdd merged xs fs
    → CanAdd merged xs (fs ++ f ∷ [])
unfolding is_member
CanAdd-append merged [] fs f h c = tt
CanAdd-append merged (x ∷ xs) fs f h (has, absent, c) =
    let (ne, h') = or-false {a = x == f.id} {b = is_member f.id xs} h in
    (
      has,
      IsAbsent-append x fs f (ground (arith, eq_iff x f.id, eq_iff f.id x)) absent,
      CanAdd-append merged xs fs f h' c,
    )

features-add :
    {S : Type 0} (f : Feature) (t : FeatureTree S)
    → IsAbsent f.id t.features
    → ((add_feature f t).0 ≡ true) × ((add_feature f t).1.features ≡ t.features ++ f ∷ [])
unfolding add_feature
features-add f t h = (rw (h, add_feature), rw (h, add_feature))

contains-lookup :
    (x : String) (m : Dict String Feature)
    → contains x m ≡ true
    → (f : Feature) × (lookup x m ≡ some f)
unfolding contains
contains-lookup x m h = elim (Option-cases (lookup x m)) [
  | inl e ↦ absurd (ground arith)
  | inr (f, e) ↦ (f, e)
]

pub features-materialise :
    {S : Type 0} (merged : Dict String Feature) (xs : List String) (t : FeatureTree S)
    → IsKeyed merged
    → IsDistinct xs
    → CanAdd merged xs t.features
    → (materialise merged xs t).features ≡ t.features ++ pick merged xs
unfolding materialise pick
features-materialise merged [] t k d c = sym (append-nil t.features)
features-materialise merged (x ∷ xs) t k (n, d) (has, absent, c) =
    let (f, at) = contains-lookup x merged has in
    let named : f.id ≡ x = k x f at in
    let absent' : IsAbsent f.id t.features =
      subst (λ y. IsAbsent y t.features) (sym named) absent in
    let (added, grown) = features-add f t absent' in
    let n' : is_member f.id xs ≡ false = subst (λ y. is_member y xs ≡ false) (sym named) n in
    let c' = CanAdd-append merged xs t.features f n' c in
    rw (at, added, pick, materialise)
      (features-materialise merged xs (add_feature f t).1 k d
          (subst (CanAdd merged xs) (sym grown) c')
        ∙ rw grown (append_assoc t.features (f ∷ []) (pick merged xs)))

-- Among the picked features each id of the order finds its own.
pub find_first-pick :
    (merged : Dict String Feature) (xs : List String) (x : String)
    → IsKeyed merged
    → find_first x (pick merged xs) ≡ (if is_member x xs then lookup x merged else none)
unfolding find_first pick is_member
find_first-pick merged [] x k = refl
find_first-pick merged (y ∷ ys) x k = elim (Option-cases (lookup y merged)) [
  | inl e ↦ rw (e, pick) (find_first-pick merged ys x k ∙ skip (Bool-cases (y == x)) e)
  | inr (f, e) ↦
      rw (e, pick)
        (ground (
          arith,
          find_first-pick merged ys x k,
          k y f,
          eq_iff y x,
          eq_iff f.id x,
          ap (λ z. lookup z merged) {x = y} {y = x},
        ))
]
  where
    skip :
        ((y == x) ≡ true) ⊎ ((y == x) ≡ false)
        → lookup y merged ≡ none
        → (if is_member x ys then lookup x merged else none)
          ≡ (if (y == x) || is_member x ys then lookup x merged else none)
    skip (inr e) h = rw e
    skip (inl e) h = rw e (ground (arith, ap (λ z. lookup z merged) ((eq_iff y x).0 e)))
