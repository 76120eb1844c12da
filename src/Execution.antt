-- ===== src/Execution.antt =====
-- feature/feature_schema.{h,cpp}: the descriptors of a feature's parameters and the checks of a value
-- against one. The words of an error are left out.
pub mod Table
pub mod Validate
pub mod Program
pub mod Dispatch
pub mod Tame
pub mod Params
pub mod Execute
use oreo_kernel.Prelude.{
  ℕ, ◌%◌, ◌^◌, String, Bool, true, false, ◌&&◌, ◌||◌, not, List, [], ◌∷◌, Option, none, some, ltb,
  nat_beq, if◌then◌else◌, ◌==◌, string_eq,
}
use oreo_kernel.Prelude.Int.{ℤ, pos}
use oreo_kernel.Feature.{
  ElementRef, Triple, ParamValue, double, int, bool, string, vec, pnt, dir, ax1, ax2, pln,
  element_ref, element_ref_list, config_ref,
}
use oreo_kernel.Config.{ParamType}
use oreo_kernel.Config.Values.{Doubles, value_index, type_index}

-- What the code asks of a double, and of OCCT's vectors and frames. Of a plane, a ParamValue keeps
-- the location and the axis; whether the rest of its frame is finite is asked of it.
pub record Reals : Type 0 where
  pub doubles : Doubles
  pub at_most : ℕ → ℕ → Bool
  pub magnitude : Triple → ℕ
  pub y_direction : (direction x_direction : Triple) → Triple
  pub pln_is_finite : (location axis : Triple) → Bool

pub record ParamSpec : Type 0 where
  pub name : String
  pub type : ParamType
  pub required : Bool
  pub min_inclusive : Option ℕ
  pub max_inclusive : Option ℕ
  pub non_zero : Bool
  pub vec_components_positive : Bool
  pub vec_non_zero : Bool
  pub ref_kind : String
  pub list_non_empty : Bool

pub record FeatureSchema : Type 0 where
  pub type : String
  pub params : List ParamSpec
  pub requires_base_shape : Bool

-- The ErrorCodes INVALID_INPUT, INTERNAL_ERROR and OUT_OF_RANGE.
abbrev pub invalid_input_code : ℤ
invalid_input_code = pos 1

abbrev pub internal_error_code : ℤ
internal_error_code = pos 21

abbrev pub out_of_range_code : ℤ
out_of_range_code = pos 102

-- 1e-12
abbrev pub vec_zero_epsilon : ℕ
vec_zero_epsilon = 0x3d719799812dea11

-- std::fabs clears the sign bit.
abbrev pub fabs : ℕ → ℕ
fabs d = d % 2 ^ 63

unfoldable pub is_sub_shape_ref_kind : String → Bool
is_sub_shape_ref_kind kind = kind == "Face" || (kind == "Edge" || kind == "Vertex")

unfoldable pub check_element_ref : ElementRef → String → Bool
unfolding is_sub_shape_ref_kind
check_element_ref ref allowed =
    if ref.feature_id == ""
    then false
    else if ref.element_name == ""
    then false
    else if ref.element_name == "ROOT" && is_sub_shape_ref_kind allowed
    then false
    else not (not (allowed == "") && not (ref.element_type == allowed))

-- The loop over a list of references.
unfoldable pub check_element_refs : List ElementRef → String → Bool
unfolding check_element_ref
check_element_refs [] allowed = true
check_element_refs (ref ∷ refs) allowed =
    let later = check_element_refs refs allowed in check_element_ref ref allowed && later

-- An error with its code unless the test holds; none is for no error.
abbrev pub unless : Bool → ℤ → Option ℤ → Option ℤ
unless b code rest = if b then rest else some code

module _ (R : Reals) where
  open R use {doubles, at_most, magnitude, y_direction, pln_is_finite}

  abbrev pub finite_triple : Triple → Bool
  finite_triple t = doubles.is_finite t.x && (doubles.is_finite t.y && doubles.is_finite t.z)

  unfoldable pub is_ax1_valid : (location direction : Triple) → Bool
  is_ax1_valid location direction = finite_triple location && finite_triple direction

  unfoldable pub is_ax2_valid : (location direction x_direction : Triple) → Bool
  is_ax2_valid location direction x_direction =
      finite_triple location
      && (finite_triple direction
          && (finite_triple x_direction && finite_triple (y_direction direction x_direction)))

  -- The bounds of validateNumeric, on the number as a double.
  unfoldable pub check_bounds : ParamSpec → ℕ → Option ℤ
  check_bounds spec x =
      unless (elim spec.min_inclusive [ none ↦ true | some low ↦ not (doubles.less x low) ])
        out_of_range_code
        (unless (elim spec.max_inclusive [ none ↦ true | some high ↦ not (doubles.less high x) ])
          out_of_range_code
          (unless (not (spec.non_zero && at_most (fabs x) vec_zero_epsilon)) out_of_range_code
            none))

  unfoldable pub check_vec : ParamSpec → Triple → Option ℤ
  check_vec spec v = unless (finite_triple v) out_of_range_code (
      unless (not (spec.vec_non_zero && at_most (magnitude v) vec_zero_epsilon)) invalid_input_code
        (unless
          (not
            (spec.vec_components_positive && (at_most v.x 0 || (at_most v.y 0 || at_most v.z 0))))
          out_of_range_code none))

  -- The switch on the type, where the value is of this type.
  unfoldable pub validate_contents : ParamSpec → ParamValue → Option ℤ
  unfolding check_bounds check_vec is_ax1_valid is_ax2_valid check_element_refs
  validate_contents spec (double x) =
      unless (doubles.is_finite x) out_of_range_code (check_bounds spec x)
  validate_contents spec (int z) = check_bounds spec (doubles.of_int z)
  validate_contents spec (bool _) = none
  validate_contents spec (string _) = none
  validate_contents spec (vec v) = check_vec spec v
  validate_contents spec (pnt p) = unless (finite_triple p) out_of_range_code none
  validate_contents spec (dir d) = unless (finite_triple d) out_of_range_code none
  validate_contents spec (ax1 l d) = unless (is_ax1_valid l d) out_of_range_code none
  validate_contents spec (ax2 l d x) = unless (is_ax2_valid l d x) out_of_range_code none
  validate_contents spec (pln l a) = unless (pln_is_finite l a) out_of_range_code none
  validate_contents spec (element_ref r) =
      unless (check_element_ref r spec.ref_kind) invalid_input_code none
  validate_contents spec (element_ref_list rs) =
      if spec.list_non_empty && elim rs [ [] ↦ true | _ ∷ _ ↦ false ]
      then some invalid_input_code
      else unless (check_element_refs rs spec.ref_kind) invalid_input_code none
  validate_contents spec (config_ref _) = some internal_error_code

  -- validateOne: none, or the code of the error. A ConfigRef that is left has the same code as any
  -- other value of a wrong type.
  unfoldable pub validate_one : ParamSpec → ParamValue → Option ℤ
  unfolding value_index type_index validate_contents
  validate_one spec v =
      unless (nat_beq (value_index v) (type_index spec.type)) invalid_input_code
        (validate_contents spec v)
