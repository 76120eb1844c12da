-- ===== src/Feature/ParamJson.antt =====
-- feature/param_json.cpp: paramValueToJson. The JSON library itself is not part of the repository:
-- a Json is what its initialiser lists build, and its operator== is a parameter where it is used.
use oreo_kernel.Prelude.{ℕ, String, Bool, List, [], ◌∷◌}
use oreo_kernel.Prelude.Int.{ℤ}
use oreo_kernel.Feature.{
  ElementRef, Triple, ParamValue, double, int, bool, string, vec, pnt, dir, ax1, ax2, pln,
  element_ref, element_ref_list, config_ref,
}

mutual
  pub data Json : Type 0 where
    float : ℕ → Json
    integer : ℤ → Json
    boolean : Bool → Json
    text : String → Json
    object : Fields → Json
    array : Items → Json

  pub data Fields : Type 0 where
    end : Fields
    field : String → Json → Fields → Fields

  pub data Items : Type 0 where
    nil : Items
    cons : Json → Items → Items

abbrev coordinates : String → String → String → Triple → Fields → Fields
coordinates x y z t rest = field x (float t.x) (field y (float t.y) (field z (float t.z) rest))

unfoldable pub ref_to_json : ElementRef → Json
ref_to_json r = object (
    field "featureId" (text r.feature_id)
      (field "elementName" (text r.element_name) (field "elementType" (text r.element_type) end)))

unfoldable pub refs_to_json : List ElementRef → Items
unfolding ref_to_json
refs_to_json [] = nil
refs_to_json (r ∷ rs) = cons (ref_to_json r) (refs_to_json rs)

unfoldable pub param_value_to_json : ParamValue → Json
unfolding ref_to_json refs_to_json
param_value_to_json (double d) = float d
param_value_to_json (int i) = integer i
param_value_to_json (bool b) = boolean b
param_value_to_json (string s) = text s
param_value_to_json (pnt p) = object (field "type" (text "point") (coordinates "x" "y" "z" p end))
param_value_to_json (vec v) = object (field "type" (text "vec") (coordinates "x" "y" "z" v end))
param_value_to_json (dir d) = object (field "type" (text "dir") (coordinates "x" "y" "z" d end))
param_value_to_json (ax1 p d) =
    object
      (field "type" (text "ax1") (coordinates "px" "py" "pz" p (coordinates "dx" "dy" "dz" d end)))
param_value_to_json (ax2 p d x) = object (
    field "type" (text "ax2") (
      coordinates "px" "py" "pz" p
        (coordinates "dx" "dy" "dz" d (coordinates "xx" "xy" "xz" x end))))
param_value_to_json (pln p d) =
    object
      (field "type" (text "pln") (coordinates "px" "py" "pz" p (coordinates "dx" "dy" "dz" d end)))
param_value_to_json (element_ref r) = ref_to_json r
param_value_to_json (element_ref_list rs) = array (refs_to_json rs)
param_value_to_json (config_ref name) =
    object (field "type" (text "configRef") (field "name" (text name) end))
