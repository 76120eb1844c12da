-- ===== src/Diagnostics/Scope.antt =====
-- core/diagnostic_scope.{h,cpp}: DiagnosticScope, which hands the diagnostics that are reported while
-- it is open to an OperationResult. The constructor's cast of the count to an int is exact below
-- 2^31 diagnostics. `poisoned_` is returned with what observes it. The destructor of debug builds is
-- modelled without the exception that report never throws.
pub mod Laws
use oreo_kernel.Prelude.{
  ℕ, Bool, true, false, ◌||◌, not, List, [], leb, nat_beq, if◌then◌else◌, length, drop,
}
use oreo_kernel.Diagnostics.{
  Text, severity_warning, code_internal_error, Diagnostic, diagnostic_of, is_error, is_warning,
  any_of, Env,
}
use oreo_kernel.Diagnostics.Collector.{Collector, LastResort, Reported, report}
use oreo_kernel.Diagnostics.OperationResult.{OperationResult, success, failure}

pub record Scope : Type 0 where
  pub start_index : ℕ
  pub generation : ℕ
  pub poisoned : Bool
  pub extracted : Bool

unfoldable pub open_scope : Collector → Scope
open_scope c = record {
  start_index = length c.diagnostics;
  generation = c.generation;
  poisoned = false;
  extracted = false;
}

abbrev is_stale : Collector → Scope → Bool
is_stale c s = not (nat_beq s.generation c.generation)

-- The diagnostics from the start index on.
abbrev pub since : Collector → Scope → List Diagnostic
since c s = drop s.start_index c.diagnostics

unfoldable pub extract_diagnostics : Collector → Scope → List Diagnostic × Scope
extract_diagnostics c s =
    if is_stale c s
    then ([], record s { extracted = true; poisoned = true })
    else if leb (length c.diagnostics) s.start_index
    then ([], record s { extracted = true })
    else (since c s, record s { extracted = true })

-- hasErrors and hasWarnings
unfoldable pub scope_has : (Diagnostic → Bool) → Collector → Scope → Bool × Scope
unfolding any_of
scope_has test c s =
    if is_stale c s then (false, record s { poisoned = true }) else (any_of test (since c s), s)

module _ {T : Type 0} where
  unfoldable pub make_result : T → Collector → Scope → OperationResult T × Scope
  unfolding extract_diagnostics any_of is_error success failure
  make_result v c s =
      let (ds, s') = extract_diagnostics c s in
      (if any_of is_error ds then failure ds else success v ds, s')

  unfoldable pub make_failure : Collector → Scope → OperationResult T × Scope
  unfolding extract_diagnostics failure
  make_failure c s = let (ds, s') = extract_diagnostics c s in (failure ds, s')

-- The destructor, which warns of errors that nobody extracted; the text is fixed, and left out.
unfoldable pub close_scope : Env → Scope → Collector → LastResort → Collector × LastResort
unfolding any_of is_error report
close_scope env s c ring =
    if s.extracted || (is_stale c s || not (any_of is_error (since c s)))
    then (c, ring)
    else (let r = report env (diagnostic_of severity_warning code_internal_error [] []) c ring in
        (r.collector, r.last_resort))
