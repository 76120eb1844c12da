-- ===== src/Merge/Resolutions.antt =====
-- feature/merge.{h,cpp}: applyResolutions. A diagnostic that only reports is left out.
use oreo_kernel.Prelude.{
  String, Bool, true, false, ◌&&◌, List, [], ◌∷◌, ◌++◌, Option, none, some, if◌then◌else◌, ◌==◌,
  string_eq, ltb, length, insert_at, Result, ok, throw, bad_variant_access,
}
use oreo_kernel.Prelude.Int.{ℤ, pos, negsuc}
use oreo_kernel.Prelude.Dict.{insert}
use oreo_kernel.Feature.{Feature, ParamValue, bool, string}
use oreo_kernel.Merge.Conflict.{
  MergeConflict, param_conflict, suppression_conflict, type_conflict, add_remove_conflict,
  position_conflict,
}

pub data ResolveChoice : Type 0 where
  choose_ours choose_theirs choose_base choose_custom : ResolveChoice

pub record Resolution : Type 0 where
  pub feature_id : String
  pub param_name : String
  pub choice : ResolveChoice
  pub custom_value : ParamValue

-- byKey.find: the last resolution with the key wins.
unfoldable pub find_resolution : String → String → List Resolution → Option Resolution
find_resolution id name [] = none
find_resolution id name (r ∷ rs) =
    let later = find_resolution id name rs in
    elim later [
      | some s ↦ some s
      | none ↦ if r.feature_id == id && r.param_name == name then some r else none
    ]

unfoldable pub chosen_value : MergeConflict → Resolution → ParamValue
chosen_value c r = elim r.choice [
  | choose_ours ↦ c.ours_value
  | choose_theirs ↦ c.theirs_value
  | choose_base ↦ c.base_value
  | choose_custom ↦ r.custom_value
]

-- std::get<bool> and std::get<std::string>
unfoldable pub get_bool : ParamValue → Result Bool
get_bool (bool b) = ok b
get_bool _ = throw bad_variant_access

unfoldable pub get_string : ParamValue → Result String
get_string (string s) = ok s
get_string _ = throw bad_variant_access

-- findFeature(id), and a change of what it finds.
unfoldable pub change_first : String → (Feature → Feature) → List Feature → List Feature
change_first id change [] = []
change_first id change (f ∷ fs) =
    let rest = change_first id change fs in if f.id == id then change f ∷ fs else f ∷ rest

unfoldable pub has_feature : String → List Feature → Bool
has_feature id [] = false
has_feature id (f ∷ fs) = let later = has_feature id fs in if f.id == id then true else later

unfoldable pub remove_from_out : String → List Feature → List Feature
remove_from_out id [] = []
remove_from_out id (f ∷ fs) =
    let rest = remove_from_out id fs in if f.id == id then fs else f ∷ rest

abbrev pub insert_at_hint : ℤ → Feature → List Feature → List Feature
insert_at_hint (negsuc _) f out = out ++ f ∷ []
insert_at_hint (pos i) f out = if ltb (length out) i then out ++ f ∷ [] else insert_at i f out

unfoldable pub replace_in_out : ℤ → Feature → List Feature → List Feature
unfolding change_first has_feature
replace_in_out hint f out =
    if has_feature f.id out then change_first f.id (λ _. f) out else insert_at_hint hint f out

-- What one side did to the feature: a snapshot to put back, or none for its removal.
unfoldable pub enact : MergeConflict → Option Feature → List Feature → List Feature
enact c none out = remove_from_out c.feature_id out
enact c (some f) out = replace_in_out c.insert_index_hint f out

-- A custom value is no feature, so it falls back to the base.
unfoldable pub resolve_add_remove : MergeConflict → Resolution → List Feature → List Feature
unfolding enact
resolve_add_remove c r out = elim r.choice [
  | choose_ours ↦ enact c c.ours_snapshot out
  | choose_theirs ↦ enact c c.theirs_snapshot out
  | choose_base ↦ enact c c.base_snapshot out
  | choose_custom ↦ enact c c.base_snapshot out
]

-- Without the feature a value is not even read.
unfoldable pub apply_resolution : MergeConflict → Resolution → List Feature → Result (List Feature)
unfolding chosen_value
apply_resolution c r out = elim c.kind [
  | param_conflict ↦ ok (
      change_first c.feature_id
        (λ f. record f { params = insert c.param_name (chosen_value c r) f.params }) out)
  | suppression_conflict ↦
      if has_feature c.feature_id out
      then elim (get_bool (chosen_value c r)) [
        | throw e ↦ throw e
        | ok b ↦ ok (change_first c.feature_id (λ f. record f { suppressed = b }) out)
      ]
      else ok out
  | type_conflict ↦
      if has_feature c.feature_id out
      then elim (get_string (chosen_value c r)) [
        | throw e ↦ throw e
        | ok s ↦ ok (change_first c.feature_id (λ f. record f { type = s }) out)
      ]
      else ok out
  | add_remove_conflict ↦ ok (resolve_add_remove c r out)
  | position_conflict ↦ ok out
]

-- The loop over the conflicts; one without a resolution is passed over.
unfoldable pub apply_resolutions :
    List Feature → List MergeConflict → List Resolution → Result (List Feature)
unfolding find_resolution
apply_resolutions out [] rs = ok out
apply_resolutions out (c ∷ cs) rs = elim (find_resolution c.feature_id c.param_name rs) [
  | none ↦ apply_resolutions out cs rs
  | some r ↦ elim (apply_resolution c r out) [
    | throw e ↦ throw e
    | ok out' ↦ apply_resolutions out' cs rs
  ]
]
