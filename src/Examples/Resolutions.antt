-- ===== src/Examples/Resolutions.antt =====
-- applyResolutions of feature/merge.cpp on the conflicts of a small part.
use oreo_kernel.Prelude.{
  String, Bool, true, false, ◌≡◌, refl, ap, ◌∙◌, List, [], ◌∷◌, none, some, ok, string_eq,
}
use oreo_kernel.Prelude.Int.{pos}
use oreo_kernel.Feature.{Feature, string, bool, not_executed}
use oreo_kernel.Tree.{find_index}
use oreo_kernel.Merge.Conflict.{
  MergeConflict, make_conflict, make_add_remove_conflict, param_conflict, suppression_conflict,
  type_conflict,
}
use oreo_kernel.Merge.Resolutions.{
  Resolution, ResolveChoice, choose_ours, choose_theirs, choose_base, choose_custom,
  apply_resolutions, get_bool, get_string, chosen_value,
}
use oreo_kernel.Merge.ResolutionLaws.{
  IsTyped, is_custom, ReturnsUnique, apply_resolutions-ReturnsUnique,
}

abbrev box : Feature
box = record {
  id = "A";
  type = "Box";
  params = ("w", string "1") ∷ [];
  suppressed = false;
  status = not_executed;
}

abbrev cut : Feature
cut = record box { id = "B"; type = "Cut" }

abbrev by_param : MergeConflict
by_param = make_conflict param_conflict "A" "w" (string "1") (string "") (string "2")

abbrev by_flag : MergeConflict
by_flag = make_conflict suppression_conflict "A" "" (bool false) (bool true) (bool false)

abbrev by_type : MergeConflict
by_type = make_conflict type_conflict "A" "" (string "Box") (string "Plate") (string "Rod")

abbrev by_removal : MergeConflict
by_removal = make_add_remove_conflict "B" (some cut) none (some cut) (pos 1)

abbrev pick : String → String → ResolveChoice → Resolution
pick id name choice = record {
  feature_id = id;
  param_name = name;
  choice = choice;
  custom_value = string "";
}

abbrev conflicts : List MergeConflict
conflicts = by_param ∷ by_flag ∷ by_type ∷ by_removal ∷ []

abbrev picks : List Resolution
picks = pick "A" "w" choose_ours ∷ pick "A" "" choose_theirs ∷ pick "B" "" choose_theirs ∷ []

by_param-IsTyped : IsTyped by_param
unfolding make_conflict
by_param-IsTyped = record { flags = λ e r n. cc; types = λ e r n. cc }

-- A side that is not a custom value chooses one of the three values.
flags_chosen :
    (c : ResolveChoice)
    → is_custom c ≡ false
    → (b : Bool) × (get_bool (chosen_value by_flag (pick "A" "" c)) ≡ ok b)
unfolding is_custom get_bool chosen_value make_conflict
flags_chosen choose_ours n = (true, refl)
flags_chosen choose_theirs n = (false, refl)
flags_chosen choose_base n = (false, refl)
flags_chosen choose_custom n = cc

types_chosen :
    (c : ResolveChoice)
    → is_custom c ≡ false
    → (s : String) × (get_string (chosen_value by_type (pick "A" "" c)) ≡ ok s)
unfolding is_custom get_string chosen_value make_conflict
types_chosen choose_ours n = ("Plate", refl)
types_chosen choose_theirs n = ("Rod", refl)
types_chosen choose_base n = ("Box", refl)
types_chosen choose_custom n = cc

chosen_value-choice :
    (c : MergeConflict) (r : Resolution)
    → is_custom r.choice ≡ false
    → chosen_value c r ≡ chosen_value c (pick "A" "" r.choice)
unfolding is_custom chosen_value
chosen_value-choice c r n = go r.choice n
  where
    go :
        (choice : ResolveChoice)
        → is_custom choice ≡ false
        → chosen_value c (record r { choice = choice }) ≡ chosen_value c (pick "A" "" choice)
    go choose_ours k = refl
    go choose_theirs k = refl
    go choose_base k = refl
    go choose_custom k = cc

by_flag-IsTyped : IsTyped by_flag
unfolding make_conflict
by_flag-IsTyped = record {
  flags = λ e r n.
      let (b, h) = flags_chosen r.choice n in
      (b, ap get_bool (chosen_value-choice by_flag r n) ∙ h);
  types = λ e r n. cc;
}

by_type-IsTyped : IsTyped by_type
unfolding make_conflict
by_type-IsTyped = record {
  flags = λ e r n. cc;
  types = λ e r n.
      let (s, h) = types_chosen r.choice n in
      (s, ap get_string (chosen_value-choice by_type r n) ∙ h);
}

by_removal-IsTyped : IsTyped by_removal
unfolding make_add_remove_conflict
by_removal-IsTyped = record { flags = λ e r n. cc; types = λ e r n. cc }

apply_resolutions-ReturnsUnique_example :
    ReturnsUnique (apply_resolutions (box ∷ []) conflicts picks)
unfolding is_custom find_index
apply_resolutions-ReturnsUnique_example =
    apply_resolutions-ReturnsUnique (box ∷ []) conflicts picks
      (by_param-IsTyped, (by_flag-IsTyped, (by_type-IsTyped, (by_removal-IsTyped, tt))))
      (refl, (refl, (refl, tt))) (refl, tt)
