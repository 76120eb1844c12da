-- ===== src/Examples/Merge.antt =====
-- feature/merge.cpp on a small part with two branches.
use oreo_kernel.Prelude.{
  ℕ, String, Bool, true, false, ◌≡◌, inl, refl, [], ◌∷◌, Option, some, none, ◌==◌, string_eq, arith,
  eq_iff,
}
use oreo_kernel.Prelude.Dict.{lookup}
use oreo_kernel.Feature.{Feature, string, not_executed}
use oreo_kernel.Feature.ParamJson.{Json, text, param_value_to_json}
use oreo_kernel.Tree.{get_feature}
use oreo_kernel.Merge.{three_way_merge, side_feature, base_index_of}
use oreo_kernel.Merge.Content.{merge_one, merge_three}
use oreo_kernel.Merge.Content.Names.{is_member}
use oreo_kernel.Merge.Content.Laws.{merge_three-clean_iff}
use oreo_kernel.Merge.Params.{merge_one_param, changed, param_value_equals}
use oreo_kernel.Merge.Params.Laws.{
  IsPartialEquivalence, agree, textbook_merge, merge_one_param-eq-textbook,
}
use oreo_kernel.Merge.Whole.{get_feature-three_way_merge}

-- Texts compare as texts; nothing else occurs here.
abbrev text_of : Json → Option String
text_of (text s) = some s
text_of _ = none

abbrev same_text : Option String → Option String → Bool
same_text (some a) (some b) = a == b
same_text _ _ = false

abbrev same : Json → Json → Bool
same a b = same_text (text_of a) (text_of b)

same_text_sym : (a b : Option String) → same_text a b ≡ true → same_text b a ≡ true
same_text_sym (some a) (some b) h = ground (arith, eq_iff a b, eq_iff b a)
same_text_sym (some a) none h = h
same_text_sym none (some b) h = h
same_text_sym none none h = h

same_text_trans :
    (a b c : Option String) → same_text a b ≡ true → same_text b c ≡ true → same_text a c ≡ true
same_text_trans (some a) (some b) (some c) h k = ground (arith, eq_iff a b, eq_iff b c, eq_iff a c)
same_text_trans (some a) (some b) none h k = k
same_text_trans (some a) none c h k = cc
same_text_trans none b c h k = h

same-IsPartialEquivalence : IsPartialEquivalence same
same-IsPartialEquivalence = record {
  symmetric = λ a b. same_text_sym (text_of a) (text_of b);
  transitive = λ a b c. same_text_trans (text_of a) (text_of b) (text_of c);
}

merge_one_param-eq-textbook_example :
    let v = some (string "1") in
    let w = some (string "2") in
    ((merge_one_param same v w v).conflict ≡ (textbook_merge same v w v).conflict)
    × (agree same (merge_one_param same v w v).value (textbook_merge same v w v).value ≡ true)
unfolding param_value_equals param_value_to_json
merge_one_param-eq-textbook_example =
    merge_one_param-eq-textbook same (some (string "1")) (some (string "2")) (some (string "1"))
      same-IsPartialEquivalence refl refl refl

abbrev base : Feature
base = record {
  id = "A";
  type = "Box";
  params = ("w", string "1") ∷ ("h", string "5") ∷ [];
  suppressed = false;
  status = not_executed;
}

abbrev ours : Feature
ours = record base { params = ("w", string "2") ∷ ("h", string "5") ∷ [] }

abbrev theirs : Feature
theirs = record base { params = ("w", string "1") ∷ []; suppressed = true }

unchanged : (m : String) → changed same (lookup m base.params) (lookup m base.params) ≡ false
unfolding lookup changed param_value_equals param_value_to_json
unchanged m = ground arith

abbrev added : Feature
added = record base { id = "B" }

get_feature-three_way_merge_example :
    get_feature "A"
      (three_way_merge {S = ℕ} same (base ∷ []) (ours ∷ added ∷ []) (theirs ∷ [])).merged
    ≡ (merge_one same "A"
        (base_index_of (base ∷ []) "A")
        (side_feature (base ∷ []) "A")
        (side_feature (ours ∷ added ∷ []) "A")
        (side_feature (theirs ∷ []) "A")).0
unfolding is_member
get_feature-three_way_merge_example =
    get_feature-three_way_merge same (base ∷ []) (ours ∷ added ∷ []) (theirs ∷ []) ℕ "A" (refl, tt)

param_clean :
    (n : String)
    → (merge_one_param same
        (lookup n base.params)
        (lookup n ours.params)
        (lookup n theirs.params)).conflict
      ≡ none
unfolding merge_one_param changed param_value_equals param_value_to_json lookup
param_clean n = ground arith

merge_three-clean_iff_example : (merge_three same "A" base ours theirs).1 ≡ []
merge_three-clean_iff_example =
    (merge_three-clean_iff same "A" base ours theirs).1 (inl refl, param_clean)
