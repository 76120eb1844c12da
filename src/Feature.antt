-- ===== src/Feature.antt =====
-- feature/feature.h: features, their parameters and references; feature/param_json.cpp: the JSON
-- value that a parameter is written as.
-- A double is its 64-bit IEEE 754 pattern. A gp_Pnt, gp_Vec, gp_Dir, gp_Ax1, gp_Ax2 or gp_Pln is the
-- list of coordinates that its accessors return. A map of parameters has one entry for each name.
pub mod ParamJson
use oreo_kernel.Prelude.{ℕ, String, Bool, false, ◌||◌, List, [], ◌==◌, string_eq}
use oreo_kernel.Prelude.Int.{ℤ}
use oreo_kernel.Prelude.Dict.{Dict}

pub record ElementRef : Type 0 where
  pub feature_id : String
  pub element_name : String
  pub element_type : String

-- ElementRef::isNull
unfoldable pub is_null_ref : ElementRef → Bool
is_null_ref r = r.feature_id == "" || r.element_name == ""

pub record Triple : Type 0 where
  pub x : ℕ
  pub y : ℕ
  pub z : ℕ

-- The alternatives of the variant, in its order.
pub data ParamValue : Type 0 where
  double : ℕ → ParamValue
  int : ℤ → ParamValue
  bool : Bool → ParamValue
  string : String → ParamValue
  vec : Triple → ParamValue
  pnt : Triple → ParamValue
  dir : Triple → ParamValue
  ax1 : (location direction : Triple) → ParamValue
  ax2 : (location direction x_direction : Triple) → ParamValue
  pln : (location axis : Triple) → ParamValue
  element_ref : ElementRef → ParamValue
  element_ref_list : List ElementRef → ParamValue
  config_ref : String → ParamValue

pub data FeatureStatus : Type 0 where
  status_ok broken_reference execution_failed suppressed_status not_executed : FeatureStatus

-- errorMessage is left out: it says in words what the status says.
pub record Feature : Type 0 where
  pub id : String
  pub type : String
  pub params : Dict String ParamValue
  pub suppressed : Bool
  pub status : FeatureStatus
