-- ===== src/Execution/Params.antt =====
-- The parameters of a feature that validateFeature accepts (feature/feature_schema.cpp) are there, and
-- of the types that its execution reads (feature/feature.h, Feature::get).
use oreo_kernel.Prelude.{
  ℕ, String, true, false, ◌≡◌, inl, inr, refl, List, [], ◌∷◌, none, some, arith, nat_beq, string_eq,
  Result, ok, Bool-cases, Option-cases,
}
use oreo_kernel.Prelude.Int.{ℤ}
use oreo_kernel.Prelude.Dict.{Dict, lookup}
use oreo_kernel.Feature.{
  Triple, ElementRef, ParamValue, double, int, vec, pnt, dir, ax1, ax2, element_ref,
  element_ref_list,
}
use oreo_kernel.Config.Values.{value_index, type_index}
use oreo_kernel.Execution.{Reals, ParamSpec, validate_one}
use oreo_kernel.Execution.Validate.{validate_params}
use oreo_kernel.Execution.Program.{
  get_param, double_of, int_of, vec_of, pnt_of, dir_of, ax1_of, ax2_of, ref_of, refs_of,
}
use oreo_kernel.Execution.Tame.{HasParam}

-- The parameter is there, with the variant index.
abbrev pub HasIndex : ℕ → String → Dict String ParamValue → Type 0
HasIndex index name params =
    (v : ParamValue) × (lookup name params ≡ some v) × (nat_beq (value_index v) index ≡ true)

has_param :
    {A : Type 0} (as_type : ParamValue → Result A) (name : String) (params : Dict String ParamValue)
    (v : ParamValue)
    → lookup name params ≡ some v
    → (x : A) × (as_type v ≡ ok x)
    → HasParam as_type name params
unfolding get_param
has_param as_type name params v found (x, e) = (x, rw (found, get_param) e)

double_of-indexed :
    (v : ParamValue) → nat_beq (value_index v) 0 ≡ true → (x : ℕ) × (double_of v ≡ ok x)
unfolding value_index double_of
double_of-indexed (double x) h = (x, refl)
double_of-indexed _ h = absurd (ground arith)

pub has_double :
    (name : String) (params : Dict String ParamValue)
    → HasIndex 0 name params
    → HasParam double_of name params
has_double name params (v, found, e) =
    has_param double_of name params v found (double_of-indexed v e)

int_of-indexed : (v : ParamValue) → nat_beq (value_index v) 1 ≡ true → (x : ℤ) × (int_of v ≡ ok x)
unfolding value_index int_of
int_of-indexed (int z) h = (z, refl)
int_of-indexed _ h = absurd (ground arith)

pub has_int :
    (name : String) (params : Dict String ParamValue)
    → HasIndex 1 name params
    → HasParam int_of name params
has_int name params (v, found, e) = has_param int_of name params v found (int_of-indexed v e)

vec_of-indexed :
    (v : ParamValue) → nat_beq (value_index v) 4 ≡ true → (x : Triple) × (vec_of v ≡ ok x)
unfolding value_index vec_of
vec_of-indexed (vec v) h = (v, refl)
vec_of-indexed _ h = absurd (ground arith)

pub has_vec :
    (name : String) (params : Dict String ParamValue)
    → HasIndex 4 name params
    → HasParam vec_of name params
has_vec name params (v, found, e) = has_param vec_of name params v found (vec_of-indexed v e)

pnt_of-indexed :
    (v : ParamValue) → nat_beq (value_index v) 5 ≡ true → (x : Triple) × (pnt_of v ≡ ok x)
unfolding value_index pnt_of
pnt_of-indexed (pnt p) h = (p, refl)
pnt_of-indexed _ h = absurd (ground arith)

pub has_pnt :
    (name : String) (params : Dict String ParamValue)
    → HasIndex 5 name params
    → HasParam pnt_of name params
has_pnt name params (v, found, e) = has_param pnt_of name params v found (pnt_of-indexed v e)

dir_of-indexed :
    (v : ParamValue) → nat_beq (value_index v) 6 ≡ true → (x : Triple) × (dir_of v ≡ ok x)
unfolding value_index dir_of
dir_of-indexed (dir d) h = (d, refl)
dir_of-indexed _ h = absurd (ground arith)

pub has_dir :
    (name : String) (params : Dict String ParamValue)
    → HasIndex 6 name params
    → HasParam dir_of name params
has_dir name params (v, found, e) = has_param dir_of name params v found (dir_of-indexed v e)

ax1_of-indexed :
    (v : ParamValue)
    → nat_beq (value_index v) 7 ≡ true
    → (x : (Triple × Triple)) × (ax1_of v ≡ ok x)
unfolding value_index ax1_of
ax1_of-indexed (ax1 l d) h = ((l, d), refl)
ax1_of-indexed _ h = absurd (ground arith)

pub has_ax1 :
    (name : String) (params : Dict String ParamValue)
    → HasIndex 7 name params
    → HasParam ax1_of name params
has_ax1 name params (v, found, e) = has_param ax1_of name params v found (ax1_of-indexed v e)

ax2_of-indexed :
    (v : ParamValue)
    → nat_beq (value_index v) 8 ≡ true
    → (x : (Triple × Triple × Triple)) × (ax2_of v ≡ ok x)
unfolding value_index ax2_of
ax2_of-indexed (ax2 l d x) h = ((l, d, x), refl)
ax2_of-indexed _ h = absurd (ground arith)

pub has_ax2 :
    (name : String) (params : Dict String ParamValue)
    → HasIndex 8 name params
    → HasParam ax2_of name params
has_ax2 name params (v, found, e) = has_param ax2_of name params v found (ax2_of-indexed v e)

ref_of-indexed :
    (v : ParamValue) → nat_beq (value_index v) 10 ≡ true → (x : ElementRef) × (ref_of v ≡ ok x)
unfolding value_index ref_of
ref_of-indexed (element_ref r) h = (r, refl)
ref_of-indexed _ h = absurd (ground arith)

pub has_ref :
    (name : String) (params : Dict String ParamValue)
    → HasIndex 10 name params
    → HasParam ref_of name params
has_ref name params (v, found, e) = has_param ref_of name params v found (ref_of-indexed v e)

refs_of-indexed :
    (v : ParamValue)
    → nat_beq (value_index v) 11 ≡ true
    → (x : List ElementRef) × (refs_of v ≡ ok x)
unfolding value_index refs_of
refs_of-indexed (element_ref_list rs) h = (rs, refl)
refs_of-indexed _ h = absurd (ground arith)

pub has_refs :
    (name : String) (params : Dict String ParamValue)
    → HasIndex 11 name params
    → HasParam refs_of name params
has_refs name params (v, found, e) = has_param refs_of name params v found (refs_of-indexed v e)

-- A required parameter of a schema.
abbrev pub Fits : ParamSpec → Dict String ParamValue → Type 0
Fits spec params = elim spec.required [
  | true ↦ HasIndex (type_index spec.type) spec.name params
  | false ↦ Unit
]

abbrev pub AllFit : List ParamSpec → Dict String ParamValue → Type 0
AllFit [] params = Unit
AllFit (spec ∷ specs) params = Fits spec params × AllFit specs params

Fits-of :
    (spec : ParamSpec) (params : Dict String ParamValue)
    → HasIndex (type_index spec.type) spec.name params
    → Fits spec params
Fits-of spec params h =
    elim spec.required
      as (λ b. elim b [ true ↦ HasIndex (type_index spec.type) spec.name params | false ↦ Unit ]) [
        | true ↦ h
        | false ↦ tt
      ]

Fits-optional :
    (spec : ParamSpec) (params : Dict String ParamValue) → spec.required ≡ false → Fits spec params
Fits-optional spec params h = rw h tt

module _ (R : Reals) where
  validate_one-index :
      (spec : ParamSpec) (v : ParamValue)
      → validate_one R spec v ≡ none
      → nat_beq (value_index v) (type_index spec.type) ≡ true
  unfolding validate_one
  validate_one-index spec v h = elim (Bool-cases (nat_beq (value_index v) (type_index spec.type))) [
    | inl e ↦ e
    | inr e ↦ absurd (ground (arith, h, e))
  ]

  pub validate_params-AllFit :
      (specs : List ParamSpec) (params : Dict String ParamValue)
      → validate_params R specs params ≡ none
      → AllFit specs params
  unfolding validate_params
  validate_params-AllFit [] params h = tt
  validate_params-AllFit (spec ∷ specs) params h = elim (Option-cases (lookup spec.name params)) [
    | inl missing ↦ elim (Bool-cases spec.required) [
      | inl e ↦ absurd (ground (arith, h, e, missing))
      | inr e ↦ (
        Fits-optional spec params e,
        validate_params-AllFit specs params (rw (missing, e, validate_params) at h),
      )
    ]
    | inr (v, found) ↦ elim (Option-cases (validate_one R spec v)) [
      | inl e ↦ (
        Fits-of spec params (v, found, validate_one-index spec v e),
        validate_params-AllFit specs params (rw (found, e, validate_params) at h),
      )
      | inr (code, e) ↦ absurd (ground (arith, h, e, found))
    ]
  ]
