-- ===== src/Diagnostics/OperationResult.antt =====
-- core/operation_result.h: OperationResult, a value or a failure with the diagnostics of both.
-- The reading of value() on a failed result, which asserts, is left out.
pub mod Laws
pub mod Chains
use oreo_kernel.Prelude.{
  ℕ, Bool, true, false, ◌&&◌, ◌||◌, not, List, [], ◌∷◌, ◌++◌, Option, none, some, nat_beq,
  if◌then◌else◌, length, Result, ok, throw, runtime_error,
}
use oreo_kernel.Prelude.Int.{ℤ_beq}
use oreo_kernel.Diagnostics.{
  Text, severity_error, Diagnostic, is_error, is_warning, is_fatal, any_of, keep,
}

pub record Flags : Type 0 where
  pub errors : Bool
  pub warnings : Bool
  pub fatal : Bool
  pub geometry_degraded : Bool
  pub naming_degraded : Bool

pub record OperationResult (T : Type 0) : Type 0 where
  pub value : Option T
  pub diagnostics : List Diagnostic
  pub is_ok : Bool
  pub flags : Flags
  pub cached_size : ℕ

-- The flags after one more diagnostic.
unfoldable pub flag : Diagnostic → Flags → Flags
flag d f =
    let marked : Flags =
      (if is_fatal d
        then record f { fatal = true; errors = true }
        else if ℤ_beq d.severity severity_error
        then record f { errors = true }
        else if is_warning d
        then record f { warnings = true }
        else f) in
    record marked {
      geometry_degraded = d.geometry_degraded || f.geometry_degraded;
      naming_degraded = d.naming_degraded || f.naming_degraded;
    }

unfoldable pub flag_all : List Diagnostic → Flags → Flags
flag_all [] f = f
flag_all (d ∷ ds) f = flag_all ds (flag d f)

abbrev pub no_flags : Flags
no_flags = record {
  errors = false;
  warnings = false;
  fatal = false;
  geometry_degraded = false;
  naming_degraded = false;
}

abbrev first_message : List Diagnostic → Text
first_message [] = []
first_message (d ∷ ds) = d.message

-- The loop of operator==, which compares neither values nor texts.
unfoldable pub same_diagnostics : List Diagnostic → List Diagnostic → Bool
same_diagnostics [] [] = true
same_diagnostics [] (e ∷ es) = false
same_diagnostics (d ∷ ds) [] = false
same_diagnostics (d ∷ ds) (e ∷ es) =
    let later = same_diagnostics ds es in
    ℤ_beq d.severity e.severity && (ℤ_beq d.code e.code && later)

abbrev xor : Bool → Bool → Bool
xor true b = not b
xor false b = b

module _ {T : Type 0} where
  unfoldable pub recompute_flags : OperationResult T → OperationResult T
  unfolding flag_all
  recompute_flags r = record r {
    flags = flag_all r.diagnostics no_flags;
    cached_size = length r.diagnostics;
  }

  unfoldable pub success : T → List Diagnostic → OperationResult T
  unfolding recompute_flags
  success v ds =
      recompute_flags (record {
        value = some v;
        diagnostics = ds;
        is_ok = true;
        flags = no_flags;
        cached_size = 0;
      })

  unfoldable pub failure : List Diagnostic → OperationResult T
  unfolding recompute_flags
  failure ds =
      recompute_flags (record {
        value = none;
        diagnostics = ds;
        is_ok = false;
        flags = no_flags;
        cached_size = 0;
      })

  unfoldable pub set_diagnostics : List Diagnostic → OperationResult T → OperationResult T
  unfolding recompute_flags
  set_diagnostics ds r = recompute_flags (record r { diagnostics = ds })

  -- The reading of *value_ on an empty optional is undefined; ok_ rules it out.
  unfoldable pub value_or_throw : OperationResult T → Result T
  value_or_throw r =
      if not r.is_ok
      then throw runtime_error
      else elim r.value [ none ↦ throw runtime_error | some v ↦ ok v ]

  unfoldable pub value_or : T → OperationResult T → T
  value_or default r = if r.is_ok then elim r.value [ none ↦ default | some v ↦ v ] else default

  -- A cached flag counts while the number of diagnostics is that of the scan.
  abbrev cached : OperationResult T → Bool → Bool → Bool
  cached r flag scanned =
      if not (nat_beq (length r.diagnostics) r.cached_size) then scanned else flag

  unfoldable pub has_errors : OperationResult T → Bool
  unfolding any_of is_error
  has_errors r = cached r r.flags.errors (any_of is_error r.diagnostics)

  unfoldable pub has_warnings : OperationResult T → Bool
  unfolding any_of is_warning
  has_warnings r = cached r r.flags.warnings (any_of is_warning r.diagnostics)

  unfoldable pub has_fatal : OperationResult T → Bool
  unfolding any_of
  has_fatal r = cached r r.flags.fatal (any_of is_fatal r.diagnostics)

  unfoldable pub is_geometry_degraded : OperationResult T → Bool
  unfolding any_of
  is_geometry_degraded r =
      cached r r.flags.geometry_degraded (any_of (λ d. d.geometry_degraded) r.diagnostics)

  unfoldable pub is_naming_degraded : OperationResult T → Bool
  unfolding any_of
  is_naming_degraded r =
      cached r r.flags.naming_degraded (any_of (λ d. d.naming_degraded) r.diagnostics)

  -- errorMessage, of the first error.
  unfoldable pub error_message : OperationResult T → Text
  unfolding keep is_error
  error_message r = first_message (keep is_error r.diagnostics)

  -- operator==
  unfoldable pub result_beq : OperationResult T → OperationResult T → Bool
  unfolding same_diagnostics
  result_beq r s =
      not (xor r.is_ok s.is_ok)
      && (nat_beq (length r.diagnostics) (length s.diagnostics)
          && same_diagnostics r.diagnostics s.diagnostics)

-- The end of flatMap, on the result of the next step.
unfoldable pub merge_next : {U : Type 0} → List Diagnostic → OperationResult U → OperationResult U
unfolding success failure
merge_next ds next =
    if next.is_ok
    then elim next.value [
      | none ↦ failure (ds ++ next.diagnostics)
      | some v ↦ success v (ds ++ next.diagnostics)
    ]
    else failure (ds ++ next.diagnostics)

module _ {T U : Type 0} where
  unfoldable pub map_value : (T → U) → OperationResult T → OperationResult U
  unfolding success failure
  map_value f r =
      if not r.is_ok
      then failure r.diagnostics
      else elim r.value [ none ↦ failure r.diagnostics | some v ↦ success (f v) r.diagnostics ]

  unfoldable pub flat_map : (T → OperationResult U) → OperationResult T → OperationResult U
  unfolding merge_next
  flat_map f r =
      if not r.is_ok
      then failure r.diagnostics
      else elim r.value [ none ↦ failure r.diagnostics | some v ↦ merge_next r.diagnostics (f v) ]
