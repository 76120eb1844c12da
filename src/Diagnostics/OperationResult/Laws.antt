-- ===== src/Diagnostics/OperationResult/Laws.antt =====
-- The flags of an OperationResult, and chains of flatMap (core/operation_result.h).
use mathlib.Core.List.{append_assoc}
use oreo_kernel.Prelude.{
  ◌≡◌, ◌⊎◌, inl, inr, sym, ap, ◌∙◌, true, false, ◌||◌, List, [], ◌∷◌, ◌++◌, none, some, arith,
  Bool-cases, Option-cases,
}
use oreo_kernel.Prelude.Int.{ℤ_beq_iff}
use oreo_kernel.Diagnostics.{
  severity_fatal, severity_error, severity_warning, Diagnostic, is_error, is_warning, is_fatal,
  any_of,
}
use oreo_kernel.Diagnostics.OperationResult.{
  Flags, OperationResult, flag, flag_all, no_flags, recompute_flags, success, failure, has_errors,
  has_warnings, has_fatal, is_geometry_degraded, is_naming_degraded, merge_next, flat_map,
}

-- The flags tell of these diagnostics, or of what they told of before.
abbrev Tells : List Diagnostic → Flags → Flags → Type 0
Tells ds f g =
    (g.errors ≡ (any_of is_error ds || f.errors))
    × (g.warnings ≡ (any_of is_warning ds || f.warnings))
    × (g.fatal ≡ (any_of is_fatal ds || f.fatal))
    × (g.geometry_degraded ≡ (any_of (λ d. d.geometry_degraded) ds || f.geometry_degraded))
    × (g.naming_degraded ≡ (any_of (λ d. d.naming_degraded) ds || f.naming_degraded))

flag_all-Tells : (ds : List Diagnostic) (f : Flags) → Tells ds f (flag_all ds f)
unfolding flag_all flag any_of is_error is_warning
flag_all-Tells [] f = ground arith
flag_all-Tells (d ∷ ds) f = ground (
  arith,
  flag_all-Tells ds (flag d f),
  ℤ_beq_iff d.severity severity_fatal,
  ℤ_beq_iff d.severity severity_error,
  ℤ_beq_iff d.severity severity_warning,
)

-- A result has a value that counts, or it has failed.
abbrev pub Failed : {U : Type 0} → OperationResult U → Type 0
Failed r = (r.is_ok ≡ false) ⊎ (r.value ≡ none)

pub data Outcome {U : Type 0} (r : OperationResult U) : Type 0 where
  done : (v : U) → r.is_ok ≡ true → r.value ≡ some v → Outcome r
  failed : Failed r → Outcome r

pub outcome : {U : Type 0} (r : OperationResult U) → Outcome r
outcome r = elim (Bool-cases r.is_ok) [
  | inr o ↦ failed (inl o)
  | inl o ↦ elim (Option-cases r.value) [ inl n ↦ failed (inr n) | inr (v, n) ↦ done v o n ]
]

module _ {U : Type 0} (ds : List Diagnostic) (r : OperationResult U) where
  pub merge_next-done :
      (v : U)
      → r.is_ok ≡ true
      → r.value ≡ some v
      → merge_next ds r ≡ success v (ds ++ r.diagnostics)
  unfolding merge_next
  merge_next-done v o n = rw (o, n)

  pub merge_next-Failed : Failed r → merge_next ds r ≡ failure (ds ++ r.diagnostics)
  unfolding merge_next
  merge_next-Failed (inl o) = rw o
  merge_next-Failed (inr n) = elim (Bool-cases r.is_ok) [ inl o ↦ rw (o, n) | inr o ↦ rw o ]

module _ {T U : Type 0} (f : T → OperationResult U) (r : OperationResult T) where
  flat_map-done :
      (v : T) → r.is_ok ≡ true → r.value ≡ some v → flat_map f r ≡ merge_next r.diagnostics (f v)
  unfolding flat_map
  flat_map-done v o n = rw (o, n)

  flat_map-Failed : Failed r → flat_map f r ≡ failure r.diagnostics
  unfolding flat_map
  flat_map-Failed (inl o) = rw o
  flat_map-Failed (inr n) = elim (Bool-cases r.is_ok) [ inl o ↦ rw (o, n) | inr o ↦ rw o ]

merge_next-append :
    {U : Type 0} (a b : List Diagnostic) (r : OperationResult U)
    → merge_next (a ++ b) r ≡ merge_next a (merge_next b r)
unfolding merge_next success failure recompute_flags
merge_next-append {U} a b r =
    let joined = append_assoc a b r.diagnostics in
    elim (outcome r) [
      | done v o n ↦
          merge_next-done (a ++ b) r v o n
          ∙ (ap (success v) joined ∙ sym (ap (merge_next a) (merge_next-done b r v o n)))
      | failed h ↦
          merge_next-Failed (a ++ b) r h
          ∙ (ap (failure {T = U}) joined ∙ sym (ap (merge_next a) (merge_next-Failed b r h)))
    ]

flat_map-merge_next :
    {U V : Type 0} (g : U → OperationResult V) (ds : List Diagnostic) (next : OperationResult U)
    → flat_map g (merge_next ds next) ≡ merge_next ds (flat_map g next)
unfolding flat_map merge_next success failure recompute_flags
flat_map-merge_next g ds next = elim (outcome next) [
  | done v o n ↦
      ap (flat_map g) (merge_next-done ds next v o n)
      ∙ (merge_next-append ds next.diagnostics (g v)
          ∙ sym (ap (merge_next ds) (flat_map-done g next v o n)))
  | failed h ↦
      ap (flat_map g) (merge_next-Failed ds next h)
      ∙ sym (ap (merge_next ds) (flat_map-Failed g next h))
]

-- A chain of steps may be bracketed either way: the value or the failure is the same, and so are
-- the diagnostics, in their order, and the flags.
pub flat_map_assoc :
    {T U V : Type 0} (f : T → OperationResult U) (g : U → OperationResult V) (r : OperationResult T)
    → flat_map g (flat_map f r) ≡ flat_map (λ v. flat_map g (f v)) r
unfolding flat_map failure recompute_flags
flat_map_assoc f g r = elim (outcome r) [
  | done v o n ↦
      ap (flat_map g) (flat_map-done f r v o n)
      ∙ (flat_map-merge_next g r.diagnostics (f v)
          ∙ sym (flat_map-done (λ v. flat_map g (f v)) r v o n))
  | failed h ↦
      ap (flat_map g) (flat_map-Failed f r h) ∙ sym (flat_map-Failed (λ v. flat_map g (f v)) r h)
]

-- The queries answer what a scan of the diagnostics finds.
abbrev pub IsScanned : {T : Type 0} → OperationResult T → Type 0
IsScanned r =
    (has_errors r ≡ any_of is_error r.diagnostics)
    × (has_warnings r ≡ any_of is_warning r.diagnostics)
    × (has_fatal r ≡ any_of is_fatal r.diagnostics)
    × (is_geometry_degraded r ≡ any_of (λ d. d.geometry_degraded) r.diagnostics)
    × (is_naming_degraded r ≡ any_of (λ d. d.naming_degraded) r.diagnostics)

pub success-IsScanned : {T : Type 0} (v : T) (ds : List Diagnostic) → IsScanned (success v ds)
unfolding success recompute_flags has_errors has_warnings has_fatal is_geometry_degraded
    is_naming_degraded
success-IsScanned v ds = ground (arith, flag_all-Tells ds no_flags)

pub failure-IsScanned : (T : Type 0) (ds : List Diagnostic) → IsScanned (failure {T = T} ds)
unfolding failure recompute_flags has_errors has_warnings has_fatal is_geometry_degraded
    is_naming_degraded
failure-IsScanned T ds = ground (arith, flag_all-Tells ds no_flags)

merge_next-IsScanned :
    {U : Type 0} (ds : List Diagnostic) (r : OperationResult U) → IsScanned (merge_next ds r)
merge_next-IsScanned {U} ds r = elim (outcome r) [
  | done v o n ↦ rw (merge_next-done ds r v o n) (success-IsScanned v (ds ++ r.diagnostics))
  | failed h ↦ rw (merge_next-Failed ds r h) (failure-IsScanned U (ds ++ r.diagnostics))
]

-- The flags of the result of a chain are those of a scan of its diagnostics.
pub flat_map-IsScanned :
    {T U : Type 0} (f : T → OperationResult U) (r : OperationResult T) → IsScanned (flat_map f r)
flat_map-IsScanned {U = U} f r = elim (outcome r) [
  | done v o n ↦ rw (flat_map-done f r v o n) (merge_next-IsScanned r.diagnostics (f v))
  | failed h ↦ rw (flat_map-Failed f r h) (failure-IsScanned U r.diagnostics)
]
