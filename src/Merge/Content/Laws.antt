-- ===== src/Merge/Content/Laws.antt =====
-- What the merge of a feature keeps of each side (feature/merge.cpp, the case of three sides).
use mathlib.Core.Path.{subst}
use oreo_kernel.Prelude.{
  String, Bool, true, false, ◌≡◌, ◌⊎◌, ◌↔◌, inl, inr, refl, ◌∙◌, ap, List, [], ◌∷◌, ◌++◌, Option,
  none, arith, if◌then◌else◌, ◌==◌, string_eq, eq_iff, Bool-cases, Option-cases,
}
use oreo_kernel.Prelude.Dict.{Dict, lookup}
use oreo_kernel.Feature.{Feature, ParamValue}
use oreo_kernel.Feature.ParamJson.{Json}
use oreo_kernel.Merge.Params.{ParamMergeOutcome, bool_beq, merge_one_param, changed, clean}
use oreo_kernel.Merge.Content.{
  merge_type, merge_suppressed, place_param, param_conflicts, merge_params, merge_three,
}
use oreo_kernel.Merge.Content.Names.{is_member, first_occurrences, keys}
use oreo_kernel.Merge.Content.Pointwise.{outcome, lookup-merge_three, missing-conflict}

append-nil_parts : {A : Type 0} (xs ys : List A) → xs ++ ys ≡ [] → (xs ≡ []) × (ys ≡ [])
append-nil_parts [] ys h = (refl, h)
append-nil_parts (x ∷ xs) ys h = (cc, cc)

-- The flag has two values, so sides that both toggled it agree: it is the side's that toggled it.
pub merge_suppressed_lem :
    (id : String) (base ours theirs : Feature)
    → merge_suppressed id base ours theirs ≡ (
      if bool_beq ours.suppressed base.suppressed then theirs.suppressed else ours.suppressed,
      [],
    )
unfolding merge_suppressed
merge_suppressed_lem id base ours theirs = ground arith

pub merge_type-clean_iff :
    (id : String) (base ours theirs : Feature)
    → ((merge_type id base ours theirs).1 ≡ [])
      ↔ ((ours.type ≡ base.type) ⊎ ((theirs.type ≡ base.type) ⊎ (ours.type ≡ theirs.type)))
unfolding merge_type
merge_type-clean_iff id base ours theirs = (
  ground (
    arith,
    eq_iff ours.type base.type,
    eq_iff theirs.type base.type,
    eq_iff ours.type theirs.type,
  ),
  ground (
    arith,
    eq_iff ours.type base.type,
    eq_iff theirs.type base.type,
    eq_iff ours.type theirs.type,
  ),
)

module _ (json_eq : Json → Json → Bool) (id : String) (base ours theirs : Feature) where
  abbrev out : String → ParamMergeOutcome
  out = outcome json_eq id base ours theirs

  param_conflicts-clean_iff :
      (name : String) → (param_conflicts id name (out name) ≡ []) ↔ ((out name).conflict ≡ none)
  unfolding param_conflicts
  param_conflicts-clean_iff name = elim (Option-cases (out name).conflict) [
    | inl e ↦ (λ _. e, λ _. rw (e))
    | inr (c, e) ↦ (λ h. absurd (ground arith), λ h. absurd (cc))
  ]

  merge_params-clean :
      (names : List String) (params : Dict String ParamValue)
      → ((n : String) → (out n).conflict ≡ none)
      → (merge_params json_eq id base ours theirs names params).1 ≡ []
  unfolding merge_params
  merge_params-clean [] params h = refl
  merge_params-clean (x ∷ xs) params h =
      rw ((param_conflicts-clean_iff x).1 (h x))
        (merge_params-clean xs (place_param x (out x) params) h)

  clean-merge_params :
      (n : String) (names : List String) (params : Dict String ParamValue)
      → (merge_params json_eq id base ours theirs names params).1 ≡ []
      → is_member n names ≡ true
      → (out n).conflict ≡ none
  unfolding merge_params is_member
  clean-merge_params n [] params h m = cc
  clean-merge_params n (x ∷ xs) params h m =
      let (first, rest) = append-nil_parts _ _ h in
      elim (Bool-cases (x == n)) [
        | inl e ↦
            subst (λ y. (out y).conflict ≡ none) ((eq_iff x n).0 e)
              ((param_conflicts-clean_iff x).0 first)
        | inr e ↦ clean-merge_params n xs (place_param x (out x) params) rest (ground arith)
      ]

  -- The merge of a feature that all sides have is clean exactly if the type was not changed in two
  -- ways and no parameter is in conflict; the suppressed flag never is, and neither is a type that one
  -- side changed while the other changed a parameter or the flag.
  pub merge_three-clean_iff : ((merge_three json_eq id base ours theirs).1 ≡ []) ↔ (
      ((ours.type ≡ base.type) ⊎ ((theirs.type ≡ base.type) ⊎ (ours.type ≡ theirs.type)))
      × ((n : String)
          → (merge_one_param json_eq
              (lookup n base.params)
              (lookup n ours.params)
              (lookup n theirs.params)).conflict
            ≡ none))
  unfolding merge_three
  merge_three-clean_iff = (
    λ h.
        let (type_clean, rest) = append-nil_parts _ _ h in
        let (_, params_clean) = append-nil_parts _ _ rest in
        (
          (merge_type-clean_iff id base ours theirs).0 type_clean,
          λ n. elim (Bool-cases (is_member n names)) [
            | inl e ↦ clean-merge_params n names base.params params_clean e
            | inr e ↦ missing-conflict json_eq id base ours theirs n e
          ],
        ),
    λ (t, ps).
        rw
          (
            (merge_type-clean_iff id base ours theirs).1 t,
            ap (λ p. p.1) (merge_suppressed_lem id base ours theirs),
          )
          (merge_params-clean names base.params ps),
  )
    where
      names : List String
      names = first_occurrences [] (keys base.params ++ (keys ours.params ++ keys theirs.params))

-- The type and flag of one side, where the other did not leave the base.
merge_type_one_side :
    (id : String) (base side : Feature)
    → ((merge_type id base side base).0 ≡ side.type)
      × ((merge_type id base base side).0 ≡ side.type)
unfolding merge_type
merge_type_one_side id base side = (
  ground (arith, eq_iff side.type base.type, eq_iff base.type base.type),
  ground (arith, eq_iff side.type base.type, eq_iff base.type base.type),
)

merge_suppressed_one_side :
    (id : String) (base side : Feature)
    → ((merge_suppressed id base side base).0 ≡ side.suppressed)
      × ((merge_suppressed id base base side).0 ≡ side.suppressed)
unfolding merge_suppressed
merge_suppressed_one_side id base side = (ground arith, ground arith)

module _ (json_eq : Json → Json → Bool) where
  -- A side's value, or the base's where it compares equal to that.
  abbrev pub taken_over : Option ParamValue → Option ParamValue → Option ParamValue
  taken_over base side = if changed json_eq base side then side else base

  merge_one_param_one_side :
      (base side : Option ParamValue)
      → changed json_eq base base ≡ false
      → (merge_one_param json_eq base side base ≡ clean (taken_over base side))
        × (merge_one_param json_eq base base side ≡ clean (taken_over base side))
  unfolding merge_one_param
  merge_one_param_one_side base side h = (ground arith, ground arith)

  -- Where only one side, ours or theirs, left the base, the merge is clean and takes over that
  -- side's type, flag and every parameter that it changed, added or removed. The parameters of the
  -- base are asked to compare equal to themselves.
  pub merge_three_one_side :
      (id : String) (base side : Feature) (n : String)
      → ((m : String) → changed json_eq (lookup m base.params) (lookup m base.params) ≡ false)
      → let left = merge_three json_eq id base side base in
        let right = merge_three json_eq id base base side in
        let b = lookup n base.params in
        let s = lookup n side.params in
        (left.1 ≡ [])
        × (right.1 ≡ [])
        × (left.0.type ≡ side.type)
        × (right.0.type ≡ side.type)
        × (left.0.suppressed ≡ side.suppressed)
        × (right.0.suppressed ≡ side.suppressed)
        × (lookup n left.0.params ≡ taken_over b s)
        × (lookup n right.0.params ≡ taken_over b s)
  merge_three_one_side id base side n refl_base = (
    (merge_three-clean_iff json_eq id base side base).1
        (inr (inl refl), λ m. ap (λ o. o.conflict) (one_side m).0),
    (merge_three-clean_iff json_eq id base base side).1
        (inl refl, λ m. ap (λ o. o.conflict) (one_side m).1),
    unfold merge_three in (merge_type_one_side id base side).0,
    unfold merge_three in (merge_type_one_side id base side).1,
    unfold merge_three in (merge_suppressed_one_side id base side).0,
    unfold merge_three in (merge_suppressed_one_side id base side).1,
    lookup-merge_three json_eq id base side base n ∙ ap (λ o. o.value) (one_side n).0,
    lookup-merge_three json_eq id base base side n ∙ ap (λ o. o.value) (one_side n).1,
  )
    where
      one_side :
          (m : String)
          → (merge_one_param json_eq
                (lookup m base.params)
                (lookup m side.params)
                (lookup m base.params)
              ≡ clean (taken_over (lookup m base.params) (lookup m side.params)))
            × (merge_one_param json_eq
                  (lookup m base.params)
                  (lookup m base.params)
                  (lookup m side.params)
                ≡ clean (taken_over (lookup m base.params) (lookup m side.params)))
      one_side m =
          merge_one_param_one_side (lookup m base.params) (lookup m side.params) (refl_base m)
