-- ===== src/Tree/Edits.antt =====
-- Sequences of edits (feature/feature_tree.cpp): what every one of them keeps.
use mathlib.Core.Path.{subst}
use oreo_kernel.Prelude.{
  ℕ, String, Bool, ◌≡◌, ◌⊎◌, refl, sym, List, [], ◌∷◌, arith, get_elem?, Option-cases, inl, inr,
  erase_at, Bool-cases, nat_beq,
}
use oreo_kernel.Prelude.Int.{ℤ, pos, negsuc}
use oreo_kernel.Feature.{Feature, ParamValue}
use oreo_kernel.Tree.{
  FeatureTree, find_index, mark_dirty_from, add_feature, insert_feature, remove_feature,
  change_feature, update_parameter, suppress_feature, move_at, move_to, move_feature,
  set_rollback_index,
}
use oreo_kernel.Tree.Refs.{rewrite_features, replace_reference}
use oreo_kernel.Tree.Unique.{
  UniqueIds, UniqueIds-append, UniqueIds-insert_at, UniqueIds-erase_at, UniqueIds-modify_at,
  UniqueIds-rewrite, IsAbsent-erased,
}

-- A call of one of the methods that edit a tree.
pub data Edit : Type 0 where
  add : Feature → Edit
  insert : ℤ → Feature → Edit
  remove : String → Edit
  update : String → String → ParamValue → Edit
  suppress : String → Bool → Edit
  move : String → ℤ → Edit
  replace : String → String → Edit
  rollback : ℤ → Edit

module _ {S : Type 0} where
  unfoldable pub apply_edit : Edit → FeatureTree S → FeatureTree S
  apply_edit (add f) t = (add_feature f t).1
  apply_edit (insert i f) t = (insert_feature i f t).1
  apply_edit (remove id) t = (remove_feature id t).1
  apply_edit (update id name value) t = update_parameter id name value t
  apply_edit (suppress id b) t = suppress_feature id b t
  apply_edit (move id i) t = (move_feature id i t).1
  apply_edit (replace old new) t = (replace_reference old new t).1
  apply_edit (rollback i) t = set_rollback_index i t

  unfoldable pub apply_edits : List Edit → FeatureTree S → FeatureTree S
  unfolding apply_edit
  apply_edits [] t = t
  apply_edits (e ∷ es) t = apply_edits es (apply_edit e t)

  abbrev pub HasUniqueIds : FeatureTree S → Type 0
  HasUniqueIds t = UniqueIds t.features

  change-HasUniqueIds :
      (id : String) (change : Feature → Feature) (t : FeatureTree S)
      → ((f : Feature) → (change f).id ≡ f.id)
      → HasUniqueIds t
      → HasUniqueIds (change_feature id change t)
  unfolding change_feature mark_dirty_from
  change-HasUniqueIds id change t keeps u = elim (Option-cases (find_index id t.features)) [
    | inl e ↦ rw (e, change_feature) u
    | inr (i, e) ↦ rw (e, change_feature) (UniqueIds-modify_at i change t.features keeps u)
  ]

  add-HasUniqueIds :
      (f : Feature) (t : FeatureTree S) → HasUniqueIds t → HasUniqueIds (add_feature f t).1
  unfolding add_feature
  add-HasUniqueIds f t u = elim (Option-cases (find_index f.id t.features)) [
    | inl e ↦ rw (e, add_feature) (UniqueIds-append t.features f u e)
    | inr (i, e) ↦ rw (e, add_feature) u
  ]

  insert-HasUniqueIds :
      (index : ℤ) (f : Feature) (t : FeatureTree S)
      → HasUniqueIds t
      → HasUniqueIds (insert_feature index f t).1
  unfolding insert_feature mark_dirty_from
  insert-HasUniqueIds index f t u = elim (Option-cases (find_index f.id t.features)) [
    | inl e ↦ rw (e, insert_feature) (UniqueIds-insert_at _ f t.features u e)
    | inr (i, e) ↦ rw (e, insert_feature) u
  ]

  remove-HasUniqueIds :
      (id : String) (t : FeatureTree S) → HasUniqueIds t → HasUniqueIds (remove_feature id t).1
  unfolding remove_feature mark_dirty_from
  remove-HasUniqueIds id t u = elim (Option-cases (find_index id t.features)) [
    | inl e ↦ rw (e, remove_feature) u
    | inr (i, e) ↦ rw (e, remove_feature) (UniqueIds-erase_at i t.features u)
  ]

  move_at-HasUniqueIds :
      (old new : ℕ) (t : FeatureTree S) → HasUniqueIds t → HasUniqueIds (move_at old new t)
  unfolding move_at mark_dirty_from
  move_at-HasUniqueIds old new t u = elim (Option-cases (get_elem? t.features old)) [
    | inl e ↦ rw (e, move_at) u
    | inr (f, e) ↦
        rw (e, move_at)
          (UniqueIds-insert_at new f (erase_at old t.features) (UniqueIds-erase_at old t.features u)
            (IsAbsent-erased old t.features f u e))
  ]

  move_to-HasUniqueIds :
      (old new : ℕ) (t : FeatureTree S) → HasUniqueIds t → HasUniqueIds (move_to old new t)
  unfolding move_to
  move_to-HasUniqueIds old new t u = elim (Bool-cases (nat_beq new old)) [
    | inl e ↦ rw (e, move_to) u
    | inr e ↦ rw (e, move_to) (move_at-HasUniqueIds old new t u)
  ]

  move-HasUniqueIds :
      (id : String) (index : ℤ) (t : FeatureTree S)
      → HasUniqueIds t
      → HasUniqueIds (move_feature id index t).1
  unfolding move_feature
  move-HasUniqueIds id index t u = elim (Option-cases (find_index id t.features)) [
    | inl e ↦ rw (e, move_feature) u
    | inr (i, e) ↦ rw (e, move_feature) (move_to-HasUniqueIds i _ t u)
  ]

  features-replace_reference :
      (old new : String) (t : FeatureTree S)
      → ((replace_reference old new t).1.features ≡ t.features)
        ⊎ ((replace_reference old new t).1.features ≡ (rewrite_features old new t.features).0)
  unfolding replace_reference mark_dirty_from
  features-replace_reference old new t = ground arith

  replace-HasUniqueIds :
      (old new : String) (t : FeatureTree S)
      → HasUniqueIds t
      → HasUniqueIds (replace_reference old new t).1
  replace-HasUniqueIds old new t u = elim (features-replace_reference old new t) [
    | inl e ↦ subst UniqueIds (sym e) u
    | inr e ↦ subst UniqueIds (sym e) (UniqueIds-rewrite old new t.features u)
  ]

  rollback-HasUniqueIds :
      (i : ℤ) (t : FeatureTree S) → HasUniqueIds t → HasUniqueIds (set_rollback_index i t)
  unfolding set_rollback_index
  rollback-HasUniqueIds (pos i) t u = u
  rollback-HasUniqueIds (negsuc i) t u = u

  apply_edit-HasUniqueIds :
      (e : Edit) (t : FeatureTree S) → HasUniqueIds t → HasUniqueIds (apply_edit e t)
  unfolding apply_edit update_parameter suppress_feature
  apply_edit-HasUniqueIds (add f) t u = add-HasUniqueIds f t u
  apply_edit-HasUniqueIds (insert i f) t u = insert-HasUniqueIds i f t u
  apply_edit-HasUniqueIds (remove id) t u = remove-HasUniqueIds id t u
  apply_edit-HasUniqueIds (update id name value) t u = change-HasUniqueIds id _ t (λ f. refl) u
  apply_edit-HasUniqueIds (suppress id b) t u = change-HasUniqueIds id _ t (λ f. refl) u
  apply_edit-HasUniqueIds (move id i) t u = move-HasUniqueIds id i t u
  apply_edit-HasUniqueIds (replace old new) t u = replace-HasUniqueIds old new t u
  apply_edit-HasUniqueIds (rollback i) t u = rollback-HasUniqueIds i t u

  -- However a tree with unique feature ids is edited, its feature ids stay unique.
  pub apply_edits-HasUniqueIds :
      (es : List Edit) (t : FeatureTree S) → HasUniqueIds t → HasUniqueIds (apply_edits es t)
  unfolding apply_edits
  apply_edits-HasUniqueIds [] t u = u
  apply_edits-HasUniqueIds (e ∷ es) t u =
      apply_edits-HasUniqueIds es (apply_edit e t) (apply_edit-HasUniqueIds e t u)
