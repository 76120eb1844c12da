-- ===== src/Merge/Content/Pointwise.antt =====
-- The merge of a feature that all sides have, parameter by parameter (feature/merge.cpp).
use mathlib.Core.Path.{subst}
use oreo_kernel.Prelude.{
  String, Bool, false, ◌≡◌, ◌≢◌, inl, inr, refl, sym, ◌∙◌, List, [], ◌∷◌, ◌++◌, Option, none, some,
  arith, if◌then◌else◌, ◌==◌, ◌||◌, string_eq, eq_iff, Bool-cases, Option-cases,
}
use oreo_kernel.Prelude.Dict.{Dict, lookup, lookup-insert, lookup-erase}
use oreo_kernel.Feature.{Feature, ParamValue}
use oreo_kernel.Feature.ParamJson.{Json}
use oreo_kernel.Merge.Params.{
  ParamMergeOutcome, merge_one_param, merge_both_changed, conflicting, changed,
}
use oreo_kernel.Merge.Content.{place_param, merge_params, merge_three}
use oreo_kernel.Merge.Content.Names.{is_member, first_occurrences, keys}

-- A walk over distinct occurrences sees what the list holds.
pub is_member-first_occurrences :
    (x : String) (seen xs : List String)
    → is_member x seen ≡ false
    → is_member x (first_occurrences seen xs) ≡ is_member x xs
unfolding is_member first_occurrences
is_member-first_occurrences x seen [] h = refl
is_member-first_occurrences x seen (y ∷ ys) h = ground (
  arith,
  is_member-first_occurrences x seen ys h,
  is_member-first_occurrences x (y ∷ seen) ys,
  eq_iff y x,
)

pub is_member-append :
    (x : String) (xs ys : List String) → is_member x (xs ++ ys) ≡ (is_member x xs || is_member x ys)
unfolding is_member
is_member-append x [] ys = refl
is_member-append x (y ∷ xs) ys = ground (arith, is_member-append x xs ys)

pub or-false : {a b : Bool} → (a || b) ≡ false → (a ≡ false) × (b ≡ false)
or-false {a} {b} h = ground arith

pub lookup-not_key :
    {V : Type 0} (x : String) (m : Dict String V) → is_member x (keys m) ≡ false → lookup x m ≡ none
unfolding is_member keys lookup
lookup-not_key x [] h = refl
lookup-not_key x ((k, v) ∷ m) h = ground (arith, lookup-not_key x m)

module _ (json_eq : Json → Json → Bool) (id : String) (base ours theirs : Feature) where
  -- What is merged of the parameter `name`.
  abbrev pub outcome : String → ParamMergeOutcome
  outcome name =
      merge_one_param json_eq (lookup name base.params) (lookup name ours.params)
        (lookup name theirs.params)

  conflict-keeps_base :
      (b o t : Option ParamValue)
      → (merge_one_param json_eq b o t).conflict ≢ none
      → (merge_one_param json_eq b o t).value ≡ b
  unfolding merge_one_param merge_both_changed conflicting
  conflict-keeps_base b none none h = ground arith
  conflict-keeps_base b none (some t) h = ground arith
  conflict-keeps_base b (some o) none h = ground arith
  conflict-keeps_base b (some o) (some t) h = ground arith

  lookup-place_param :
      (name other : String) (out : ParamMergeOutcome) (params : Dict String ParamValue)
      → lookup other (place_param name out params) ≡ (
          if name == other
          then elim out.conflict [ none ↦ out.value | some _ ↦ lookup other params ]
          else lookup other params)
  unfolding place_param
  lookup-place_param name other out params = elim (Option-cases out.value) [
    | inl e ↦ ground (arith, lookup-erase name other params)
    | inr (v, e) ↦ ground (arith, lookup-insert name other v params)
  ]

  -- Placing the outcome of a name settles that name, and settles no other.
  place-settled :
      (x n : String) (params : Dict String ParamValue)
      → lookup n params ≡ (outcome n).value
      → lookup n (place_param x (outcome x) params) ≡ (outcome n).value
  place-settled x n params h = elim (Bool-cases (x == n)) [
    | inr e ↦ lookup-place_param x n (outcome x) params ∙ rw e h
    | inl e ↦
        subst (λ y. lookup n (place_param y (outcome y) params) ≡ (outcome n).value)
          (sym ((eq_iff x n).0 e))
          (lookup-place_param n n (outcome n) params ∙ ground (arith, eq_iff n n))
  ]

  place-base :
      (n : String) (params : Dict String ParamValue)
      → lookup n params ≡ lookup n base.params
      → lookup n (place_param n (outcome n) params) ≡ (outcome n).value
  place-base n params h =
      lookup-place_param n n (outcome n) params
      ∙ ground (
        arith,
        eq_iff n n,
        conflict-keeps_base (lookup n base.params) (lookup n ours.params) (lookup n theirs.params),
      )

  merge_params-settled :
      (n : String) (names : List String) (params : Dict String ParamValue)
      → lookup n params ≡ (outcome n).value
      → lookup n (merge_params json_eq id base ours theirs names params).0 ≡ (outcome n).value
  unfolding merge_params
  merge_params-settled n [] params h = h
  merge_params-settled n (x ∷ xs) params h =
      merge_params-settled n xs (place_param x (outcome x) params) (place-settled x n params h)

  -- A name that is walked over is settled; any other is left at the base.
  lookup-merge_params :
      (n : String) (names : List String) (params : Dict String ParamValue)
      → lookup n params ≡ lookup n base.params
      → lookup n (merge_params json_eq id base ours theirs names params).0
        ≡ (if is_member n names then (outcome n).value else lookup n base.params)
  unfolding merge_params is_member
  lookup-merge_params n [] params h = h
  lookup-merge_params n (x ∷ xs) params h = elim (Bool-cases (x == n)) [
    | inl e ↦ rw e (
        subst
          (λ y.
            lookup n
              (merge_params json_eq id base ours theirs xs (place_param y (outcome y) params)).0
            ≡ (outcome n).value)
          (sym ((eq_iff x n).0 e))
          (merge_params-settled n xs (place_param n (outcome n) params) (place-base n params h)))
    | inr e ↦ rw e (
        lookup-merge_params n xs (place_param x (outcome x) params)
          (lookup-place_param x n (outcome x) params ∙ rw e h))
  ]

  -- A name that is not walked over is missing on all sides.
  missing_everywhere :
      (n : String)
      → is_member n
          (first_occurrences [] (keys base.params ++ (keys ours.params ++ keys theirs.params)))
        ≡ false
      → (lookup n base.params ≡ none)
        × (lookup n ours.params ≡ none)
        × (lookup n theirs.params ≡ none)
  unfolding is_member
  missing_everywhere n h =
      let all = sym (is_member-first_occurrences n [] (kb ++ (ko ++ kt)) refl) ∙ h in
      let (out_b, out_ot) = or-false (sym (is_member-append n kb (ko ++ kt)) ∙ all) in
      let (out_o, out_t) = or-false (sym (is_member-append n ko kt) ∙ out_ot) in
      (
        lookup-not_key n base.params out_b,
        lookup-not_key n ours.params out_o,
        lookup-not_key n theirs.params out_t,
      )
    where
      kb : List String
      kb = keys base.params

      ko : List String
      ko = keys ours.params

      kt : List String
      kt = keys theirs.params

  missing-outcome :
      (n : String)
      → is_member n
          (first_occurrences [] (keys base.params ++ (keys ours.params ++ keys theirs.params)))
        ≡ false
      → lookup n base.params ≡ (outcome n).value
  unfolding merge_one_param changed
  missing-outcome n h = let (b, o, t) = missing_everywhere n h in rw (b, o, t)

  pub missing-conflict :
      (n : String)
      → is_member n
          (first_occurrences [] (keys base.params ++ (keys ours.params ++ keys theirs.params)))
        ≡ false
      → (outcome n).conflict ≡ none
  unfolding merge_one_param changed
  missing-conflict n h = let (b, o, t) = missing_everywhere n h in rw (b, o, t)

  -- Each parameter of the merged feature is what mergeOneParam makes of the three sides' values of
  -- that name, and is missing where that leaves it out.
  pub lookup-merge_three :
      (n : String)
      → lookup n (merge_three json_eq id base ours theirs).0.params
        ≡ (merge_one_param json_eq
            (lookup n base.params)
            (lookup n ours.params)
            (lookup n theirs.params)).value
  unfolding merge_three
  lookup-merge_three n =
      let names =
        first_occurrences [] (keys base.params ++ (keys ours.params ++ keys theirs.params)) in
      lookup-merge_params n names base.params refl
      ∙ elim (Bool-cases (is_member n names)) [ inl e ↦ rw e | inr e ↦ rw e (missing-outcome n e) ]
