-- ===== src/Execution/Program.antt =====
-- feature/feature.cpp: how the execution of a feature proceeds. A step takes the context's allocator
-- and returns a value or the way in which the function is left, with the allocator.
use oreo_kernel.Prelude.{
  ℕ, String, Bool, List, none, some, string_eq, Result, ok, throw, Exception, out_of_range,
  bad_variant_access,
}
use oreo_kernel.Prelude.Int.{ℤ}
use oreo_kernel.Prelude.Dict.{Dict, lookup}
use oreo_kernel.Identity.{ShapeIdentity}
use oreo_kernel.Tags.{TagAllocator, next_shape_identity}
use oreo_kernel.Feature.{
  Triple, ElementRef, ParamValue, double, int, bool, vec, pnt, dir, ax1, ax2, element_ref,
  element_ref_list,
}

-- How executeFeature is left before an operation has its result: with BrokenReference or with
-- ExecutionFailed set; by an exception of Feature::get; by another one; or as no branch has the type.
pub data Stop : Type 0 where
  broken failed unknown_type : Stop
  bad_parameter thrown : Exception → Stop

pub data Run {ℓ} (A : Type ℓ) : Type ℓ where
  done : A → Run A
  stopped : Stop → Run A

abbrev pub Program {ℓ} : Type ℓ → Type ℓ
Program A = TagAllocator → Run A × TagAllocator

infixl 5 ◌>>=◌
abbrev pub ◌>>=◌ {ℓ κ} : {A : Type ℓ} {B : Type κ} → Program A → (A → Program B) → Program B
◌>>=◌ m f tags = elim ((m tags).0) [ done a ↦ f a (m tags).1 | stopped s ↦ (stopped s, (m tags).1) ]

abbrev pub return {ℓ} : {A : Type ℓ} → A → Program A
return a tags = (done a, tags)

abbrev pub stop {ℓ} : {A : Type ℓ} → Stop → Program A
stop s tags = (stopped s, tags)

-- What a call returns, or throws with `raise`.
abbrev pub lift {ℓ} : {A : Type ℓ} → (Exception → Stop) → Result A → Program A
lift raise (ok a) = return a
lift raise (throw e) = stop (raise e)

-- std::get of an alternative.
unfoldable pub double_of : ParamValue → Result ℕ
double_of (double x) = ok x
double_of _ = throw bad_variant_access

unfoldable pub int_of : ParamValue → Result ℤ
int_of (int z) = ok z
int_of _ = throw bad_variant_access

unfoldable pub vec_of : ParamValue → Result Triple
vec_of (vec v) = ok v
vec_of _ = throw bad_variant_access

unfoldable pub pnt_of : ParamValue → Result Triple
pnt_of (pnt p) = ok p
pnt_of _ = throw bad_variant_access

unfoldable pub dir_of : ParamValue → Result Triple
dir_of (dir d) = ok d
dir_of _ = throw bad_variant_access

unfoldable pub ax1_of : ParamValue → Result (Triple × Triple)
ax1_of (ax1 l d) = ok (l, d)
ax1_of _ = throw bad_variant_access

unfoldable pub ax2_of : ParamValue → Result (Triple × Triple × Triple)
ax2_of (ax2 l d x) = ok (l, d, x)
ax2_of _ = throw bad_variant_access

unfoldable pub ref_of : ParamValue → Result ElementRef
ref_of (element_ref r) = ok r
ref_of _ = throw bad_variant_access

unfoldable pub refs_of : ParamValue → Result (List ElementRef)
refs_of (element_ref_list rs) = ok rs
refs_of _ = throw bad_variant_access

unfoldable pub bool_of : ParamValue → Result Bool
bool_of (bool b) = ok b
bool_of _ = throw bad_variant_access

module _ {A : Type 0} (as_type : ParamValue → Result A) (name : String)
    (params : Dict String ParamValue) where
  -- Feature::get
  unfoldable pub get_param : Result A
  get_param = elim (lookup name params) [ none ↦ throw out_of_range | some v ↦ as_type v ]

  unfoldable pub get : Program A
  unfolding get_param
  get = lift bad_parameter get_param

  -- Feature::getOr
  unfoldable pub get_or : A → A
  get_or default = elim (lookup name params) [
    | none ↦ default
    | some v ↦ elim (as_type v) [ ok a ↦ a | throw _ ↦ default ]
  ]

-- ctx.tags().nextShapeIdentity()
unfoldable pub issue_identity : Program ShapeIdentity
issue_identity tags = let (r, tags') = next_shape_identity tags in lift thrown r tags'
