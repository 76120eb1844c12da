-- ===== src/Examples/Diagnostics.antt =====
-- core/diagnostic.cpp, diagnostic_scope.cpp and operation_result.h on a few diagnostics.
use oreo_kernel.Prelude.{ℕ, ◌+◌, false, ◌≡◌, refl, List, [], ◌∷◌, if◌then◌else◌, length, arith}
use oreo_kernel.Prelude.Int.{pos}
use oreo_kernel.Diagnostics.{
  Diagnostic, diagnostic_of, severity_warning, severity_error, Env, is_fatal, is_error, is_warning,
  any_of, keep,
}
use oreo_kernel.Diagnostics.Collector.{
  Collector, LastResort, new_collector, set_max_diagnostics, error_count, errors, warnings,
  has_errors, report, clear,
}
use oreo_kernel.Diagnostics.Collector.Laws.{
  Call, report_call, clear_call, apply_calls, apply_calls-Counts,
}
use oreo_kernel.Diagnostics.Collector.Bounded.{Keeps, reports, stamped, reports-first_kept}
use oreo_kernel.Diagnostics.OperationResult.{OperationResult, success, failure, flat_map}
use oreo_kernel.Diagnostics.OperationResult.Chains.{chain, trail, IsTrail, chain-IsTrail}
use oreo_kernel.Diagnostics.Scope.{open_scope, make_result}
use oreo_kernel.Diagnostics.Scope.Laws.{make_result-room, make_result-full}

abbrev empty_ring : LastResort
empty_ring = record { writes = []; index = 0 }

abbrev calm : Env
calm = record { now = 5; marker_now = 6; thread = 1; out_of_memory = false }

abbrev warned : Diagnostic
warned = diagnostic_of severity_warning (pos 1) [] []

abbrev erred : Diagnostic
erred = diagnostic_of severity_error (pos 2) [] []

abbrev three : List (Env × Diagnostic)
three = (calm, warned) ∷ ((calm, warned) ∷ ((calm, erred) ∷ []))

reports-first_kept_example :
    Keeps 2
      (stamped 0 three)
      (apply_calls (reports three) (set_max_diagnostics 2 new_collector, empty_ring)).0
reports-first_kept_example =
    reports-first_kept 2 three empty_ring (omega arith) (refl, (refl, (refl, tt)))

-- The error is the one that is dropped.
error_dropped :
    has_errors (apply_calls (reports three) (set_max_diagnostics 2 new_collector, empty_ring)).0
    ≡ false
unfolding has_errors apply_calls set_max_diagnostics report is_warning
error_dropped = refl

abbrev calls : List Call
calls = report_call calm erred ∷ clear_call ∷ report_call calm warned ∷ report_call calm erred ∷ []

apply_calls-Counts_example :
    let c = (apply_calls calls (new_collector, empty_ring)).0 in
    (error_count c ≡ length (errors c))
    × (c.counters.warnings ≡ length (warnings c))
    × (c.counters.fatals ≡ length (keep is_fatal c.diagnostics))
    × (c.counters.geometry_degraded ≡ any_of (λ d. d.geometry_degraded) c.diagnostics)
    × (c.counters.naming_degraded ≡ any_of (λ d. d.naming_degraded) c.diagnostics)
apply_calls-Counts_example = apply_calls-Counts calls empty_ring

after_calls : error_count (apply_calls calls (new_collector, empty_ring)).0 ≡ 1
unfolding error_count apply_calls report clear is_warning
after_calls = refl

make_result-room_example :
    let ds = stamped 0 three in
    (make_result {T = ℕ} 7
      (apply_calls (reports three) (new_collector, empty_ring)).0
      (open_scope new_collector)).0
    ≡ (if any_of is_error ds then failure ds else success {T = ℕ} 7 ds)
make_result-room_example =
    make_result-room 7 three new_collector empty_ring (omega arith) (refl, (refl, (refl, tt)))

abbrev full : Collector
full = record new_collector { diagnostics = warned ∷ []; max_diagnostics = 1 }

make_result-full_example :
    (make_result {T = ℕ} 7 (apply_calls (reports three) (full, empty_ring)).0 (open_scope full)).0
    ≡ success {T = ℕ} 7 []
make_result-full_example = make_result-full 7 three full empty_ring (omega arith)

abbrev step : ℕ → OperationResult ℕ
step n = success (n + 1) (warned ∷ [])

abbrev stop : ℕ → OperationResult ℕ
stop n = failure (warned ∷ [])

chain-IsTrail_example :
    IsTrail
      (warned ∷ [])
      (trail (step ∷ stop ∷ step ∷ []) 3)
      (chain (step ∷ stop ∷ step ∷ []) (success 3 (warned ∷ [])))
chain-IsTrail_example = chain-IsTrail (step ∷ stop ∷ step ∷ []) 3 (warned ∷ [])

-- The third step is not run.
three_reports : length (chain (step ∷ stop ∷ step ∷ []) (success 3 (warned ∷ []))).diagnostics ≡ 3
unfolding chain flat_map
three_reports = refl
