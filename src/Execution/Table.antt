-- ===== src/Execution/Table.antt =====
-- feature/feature_schema.cpp: the registry of the schemas of all feature types. The descriptions are
-- left out.
use oreo_kernel.Prelude.{
  ℕ, String, Bool, true, false, List, [], ◌∷◌, Option, none, some, if◌then◌else◌, ◌==◌, string_eq,
}
use oreo_kernel.Config.{
  ParamType, double_type, int_type, bool_type, vec_type, pnt_type, dir_type, ax1_type, ax2_type,
  element_ref_type, element_ref_list_type,
}
use oreo_kernel.Execution.{ParamSpec, FeatureSchema}

-- A ParamSpec as its declaration initializes it, of a name and a type.
abbrev pub spec_of : String → ParamType → ParamSpec
spec_of name type = record {
  name = name;
  type = type;
  required = true;
  min_inclusive = none;
  max_inclusive = none;
  non_zero = false;
  vec_components_positive = false;
  vec_non_zero = true;
  ref_kind = "";
  list_non_empty = true;
}

abbrev pub dbl : String → Option ℕ → Option ℕ → ParamSpec
dbl name low high = record (spec_of name double_type) { min_inclusive = low; max_inclusive = high }

abbrev pub dbl_positive : String → ParamSpec
dbl_positive name = record (dbl name none none) { min_inclusive = some 0; non_zero = true }

abbrev pub dbl_non_zero : String → ParamSpec
dbl_non_zero name = record (dbl name none none) { non_zero = true }

-- The minimum is given as a double.
abbrev pub int_min : String → ℕ → ParamSpec
int_min name low = record (spec_of name int_type) { min_inclusive = some low }

abbrev pub bool_optional : String → ParamSpec
bool_optional name = record (spec_of name bool_type) { required = false }

abbrev pub vec_spec : String → Bool → ParamSpec
vec_spec name positive = record (spec_of name vec_type) { vec_components_positive = positive }

abbrev pub elem_ref : String → String → ParamSpec
elem_ref name kind = record (spec_of name element_ref_type) { ref_kind = kind }

abbrev pub elem_ref_list : String → String → ParamSpec
elem_ref_list name kind = record (spec_of name element_ref_list_type) { ref_kind = kind }

-- -2.0 * M_PI, 2.0 * M_PI, -89.0, 89.0 and 1.0 as doubles.
abbrev full_turn_back : Option ℕ
full_turn_back = some 0xc01921fb54442d18

abbrev full_turn : Option ℕ
full_turn = some 0x401921fb54442d18

abbrev least_draft : Option ℕ
least_draft = some 0xc056400000000000

abbrev greatest_draft : Option ℕ
greatest_draft = some 0x4056400000000000

abbrev one_double : ℕ
one_double = 0x3ff0000000000000

abbrev entry : String → List ParamSpec → Bool → FeatureSchema
entry type params base = record { type = type; params = params; requires_base_shape = base }

-- The entries of the map, in the order in which the constructor adds them.
abbrev pub schemas : List FeatureSchema
schemas =
    entry "MakeBox" ((vec_spec "dimensions" true) ∷ []) false
    ∷ entry "MakeCylinder" ((dbl_positive "radius") ∷ (dbl_positive "height") ∷ []) false
    ∷ entry "MakeSphere" ((dbl_positive "radius") ∷ []) false
    ∷ entry "MakeCone"
        ((dbl_positive "radius1") ∷ (dbl "radius2" (some 0) none) ∷ (dbl_positive "height") ∷ [])
        false
    ∷ entry "MakeTorus" ((dbl_positive "majorRadius") ∷ (dbl_positive "minorRadius") ∷ []) false
    ∷ entry "MakeWedge" ((vec_spec "dimensions" true) ∷ (dbl "ltx" (some 0) none) ∷ []) false
    ∷ entry "Extrude" ((vec_spec "direction" false) ∷ []) true
    ∷ entry "Revolve" ((spec_of "axis" ax1_type) ∷ (dbl "angle" full_turn_back full_turn) ∷ []) true
    ∷ entry "Fillet" ((elem_ref_list "edges" "Edge") ∷ (dbl_positive "radius") ∷ []) true
    ∷ entry "Chamfer" ((elem_ref_list "edges" "Edge") ∷ (dbl_positive "distance") ∷ []) true
    ∷ entry "BooleanUnion" ((elem_ref "tool" "") ∷ []) true
    ∷ entry "BooleanSubtract" ((elem_ref "tool" "") ∷ []) true
    ∷ entry "BooleanIntersect" ((elem_ref "tool" "") ∷ []) true
    ∷ entry "Loft" ((elem_ref_list "profiles" "") ∷ (bool_optional "makeSolid") ∷ []) false
    ∷ entry "Sweep" ((elem_ref "profile" "") ∷ (elem_ref "path" "") ∷ []) false
    ∷ entry "Shell" ((elem_ref_list "faces" "Face") ∷ (dbl_non_zero "thickness") ∷ []) true
    ∷ entry "Mirror" ((spec_of "plane" ax2_type) ∷ []) true
    ∷ entry "LinearPattern"
        ((vec_spec "direction" false)
          ∷ (int_min "count" one_double)
          ∷ (dbl "spacing" (some 0) none)
          ∷ [])
        true
    ∷ entry "CircularPattern"
        ((spec_of "axis" ax1_type)
          ∷ (int_min "count" one_double)
          ∷ (dbl "angle" full_turn_back full_turn)
          ∷ [])
        true
    ∷ entry "Draft"
        ((elem_ref_list "faces" "Face")
          ∷ (dbl "angle" least_draft greatest_draft)
          ∷ (spec_of "pullDirection" dir_type)
          ∷ [])
        true
    ∷ entry "Hole"
        ((elem_ref "face" "Face")
          ∷ (spec_of "center" pnt_type)
          ∷ (dbl_positive "diameter")
          ∷ (dbl_positive "depth")
          ∷ [])
        true
    ∷ entry "Pocket" ((elem_ref "profile" "") ∷ (dbl_positive "depth") ∷ []) true
    ∷ entry "Offset" ((dbl_non_zero "distance") ∷ []) true
    ∷ entry "Thicken" ((dbl_non_zero "thickness") ∷ []) true
    ∷ entry "SplitBody" ((spec_of "point" pnt_type) ∷ (spec_of "normal" dir_type) ∷ []) true
    ∷ entry "VariableFillet"
        ((elem_ref "edge" "Edge") ∷ (dbl_positive "startRadius") ∷ (dbl_positive "endRadius") ∷ [])
        true
    ∷ entry "MakeFace" ([]) true
    ∷ entry "Combine" ((elem_ref_list "shapes" "") ∷ []) true
    ∷ entry "Rib"
        ((spec_of "direction" dir_type) ∷ (dbl_positive "thickness") ∷ (elem_ref "profile" "") ∷ [])
        true
    ∷ []

-- FeatureSchemaRegistry::find
unfoldable pub find_in : String → List FeatureSchema → Option FeatureSchema
find_in type [] = none
find_in type (s ∷ rest) = let later = find_in type rest in if s.type == type then some s else later

unfoldable pub find_schema : String → Option FeatureSchema
unfolding find_in
find_schema type = find_in type schemas

-- FeatureSchema::find
unfoldable pub declares : String → List ParamSpec → Bool
declares name [] = false
declares name (s ∷ rest) = let later = declares name rest in if s.name == name then true else later
