-- ===== src/Merge/Whole.antt =====
-- threeWayMerge as a whole (feature/merge.cpp).
use oreo_kernel.Prelude.{
  String, Bool, true, ◌≡◌, inl, inr, refl, sym, ap, ◌∙◌, List, [], ◌∷◌, ◌++◌, none, arith,
  if◌then◌else◌, string_eq, Bool-cases, Option-cases, beq_refl,
}
use oreo_kernel.Prelude.Dict.{Dict, lookup, contains}
use oreo_kernel.Feature.{Feature}
use oreo_kernel.Feature.ParamJson.{Json}
use oreo_kernel.Tree.{empty_tree, find_index, get_feature}
use oreo_kernel.Tree.Find.{find_first, get_feature-eq-find_first}
use oreo_kernel.Merge.{
  three_way_merge, merge_id, merge_ids, ordered_ids, side_feature, base_index_of,
}
use oreo_kernel.Merge.Content.{merge_one}
use oreo_kernel.Merge.Content.Names.{is_member}
use oreo_kernel.Merge.Content.Pointwise.{is_member-first_occurrences}
use oreo_kernel.Merge.Order.{ids, merged_order}
use oreo_kernel.Merge.Sequence.{
  IsDistinct, IsKeyed, CanAdd, pick, features-materialise, find_first-pick, merged_order-IsDistinct,
  is_member-merged_order,
}
use oreo_kernel.Merge.Survivors.{lookup-merge_ids, fate-id, fate-absent}

module _ (json_eq : Json → Json → Bool) (base ours theirs : List Feature) where
  survivors : Dict String Feature
  survivors = (merge_ids json_eq base ours theirs (ordered_ids base ours theirs) []).0

  order : List String
  order = merged_order survivors base ours theirs

  survivors-IsKeyed : IsKeyed survivors
  unfolding survivors
  survivors-IsKeyed x f h =
      fate-id json_eq base ours theirs x f (sym (lookup-merge_ids json_eq base ours theirs x) ∙ h)

  -- Every id of a list that holds only survivors can be added to the empty tree.
  CanAdd-empty :
      (xs : List String)
      → ((x : String) → is_member x xs ≡ true → contains x survivors ≡ true)
      → CanAdd survivors xs []
  unfolding find_index is_member
  CanAdd-empty [] h = tt
  CanAdd-empty (x ∷ xs) h =
      (h x (ground (arith, beq_refl x)), refl, CanAdd-empty xs (λ y m. h y (ground arith)))

  features-three_way_merge :
      (S : Type 0)
      → IsDistinct (ids base)
      → (three_way_merge {S = S} json_eq base ours theirs).merged.features ≡ pick survivors order
  unfolding three_way_merge survivors order
  features-three_way_merge S d =
      features-materialise survivors order empty_tree survivors-IsKeyed
        (merged_order-IsDistinct survivors base ours theirs d)
        (CanAdd-empty order
          (λ x m. ground (arith, is_member-merged_order survivors base ours theirs x)))

  -- An id that survived is in the order.
  order_complete :
      (x : String) → (if is_member x order then lookup x survivors else none) ≡ lookup x survivors
  unfolding order survivors ordered_ids is_member contains
  order_complete x = elim (Option-cases (lookup x survivors)) [
    | inl e ↦ ground arith
    | inr (f, e) ↦ elim (Bool-cases (is_member x (ids base ++ (ids ours ++ ids theirs)))) [
      | inl m ↦ ground (arith, is_member-merged_order survivors base ours theirs x)
      | inr m ↦
          let gone =
            fate-absent json_eq base ours theirs x
              (is_member-first_occurrences x [] (ids base ++ (ids ours ++ ids theirs)) refl ∙ m) in
          ground (arith, gone, lookup-merge_ids json_eq base ours theirs x)
    ]
  ]

  -- Where the base holds no id twice, the merged tree has for each id exactly what is merged of the
  -- features of that id on the three sides, and lacks the ids for which nothing is left.
  pub get_feature-three_way_merge :
      (S : Type 0) (id : String)
      → IsDistinct (ids base)
      → get_feature id (three_way_merge {S = S} json_eq base ours theirs).merged
        ≡ (merge_one json_eq id
            (base_index_of base id)
            (side_feature base id)
            (side_feature ours id)
            (side_feature theirs id)).0
  unfolding merge_id
  get_feature-three_way_merge S id d =
      get_feature-eq-find_first id (three_way_merge json_eq base ours theirs).merged
      ∙ ap (find_first id) (features-three_way_merge S d)
      ∙ find_first-pick survivors order id survivors-IsKeyed
      ∙ order_complete id
      ∙ unfold survivors in (lookup-merge_ids json_eq base ours theirs id)
