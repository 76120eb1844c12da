-- ===== src/Diagnostics/Collector/Laws.antt =====
-- The counters of a DiagnosticCollector over sequences of calls (core/diagnostic.cpp).
use oreo_kernel.Prelude.{
  ℕ, zero, suc, ◌+◌, ◌≡◌, inl, inr, refl, ap, Bool, true, false, ◌||◌, List, [], ◌∷◌, ◌++◌, leb,
  if◌then◌else◌, length, arith, Bool-cases,
}
use oreo_kernel.Prelude.Int.{ℤ_beq_iff}
use oreo_kernel.Diagnostics.{
  severity_fatal, severity_error, severity_warning, Diagnostic, is_error, is_warning, is_fatal, Env,
  stamp_metadata, keep, any_of,
}
use oreo_kernel.Diagnostics.Collector.{
  Counters, no_counters, Collector, new_collector, LastResort, bump_counters, bump_all,
  recompute_counters, mark_truncated, drop_report, store_report, report, clear, set_max_diagnostics,
  set_context_id, add_sink, clear_sinks, error_count, errors, warnings,
}

-- A call that can change a collector.
pub data Call : Type 0 where
  report_call : Env → Diagnostic → Call
  clear_call clear_sinks_call : Call
  cap_call context_call sink_call : ℕ → Call

unfoldable pub apply_call : Call → Collector × LastResort → Collector × LastResort
apply_call (report_call env d) (c, ring) =
    let r = report env d c ring in (r.collector, r.last_resort)
apply_call clear_call (c, ring) = (clear c, ring)
apply_call clear_sinks_call (c, ring) = (clear_sinks c, ring)
apply_call (cap_call cap) (c, ring) = (set_max_diagnostics cap c, ring)
apply_call (context_call id) (c, ring) = (set_context_id id c, ring)
apply_call (sink_call sink) (c, ring) = (add_sink sink c, ring)

unfoldable pub apply_calls : List Call → Collector × LastResort → Collector × LastResort
unfolding apply_call
apply_calls [] s = s
apply_calls (call ∷ calls) s = apply_calls calls (apply_call call s)

-- The counters are those of the stored diagnostics.
abbrev IsCounted : Collector → Type 0
IsCounted c = c.counters ≡ bump_all c.diagnostics no_counters

bump_all-append :
    (ds : List Diagnostic) (d : Diagnostic) (k : Counters)
    → bump_all (ds ++ d ∷ []) k ≡ bump_counters d (bump_all ds k)
unfolding bump_all
bump_all-append [] d k = refl
bump_all-append (e ∷ ds) d k = bump_all-append ds d (bump_counters e k)

store_report-IsCounted :
    (d : Diagnostic) (c : Collector) → IsCounted c → IsCounted (store_report d c)
unfolding store_report
store_report-IsCounted d c h =
    rw (bump_all-append c.diagnostics d no_counters) (ap (bump_counters d) h)

mark_truncated-IsCounted :
    (env : Env) (ds : List Diagnostic) (c : Collector)
    → IsCounted c
    → IsCounted (mark_truncated env ds c)
unfolding mark_truncated recompute_counters
mark_truncated-IsCounted env [] c h = h
mark_truncated-IsCounted env (d ∷ ds) c h = refl

choose-IsCounted :
    (b : Bool) (c e : Collector) → IsCounted c → IsCounted e → IsCounted (if b then c else e)
choose-IsCounted true c e h k = h
choose-IsCounted false c e h k = k

drop_report-IsCounted : (env : Env) (c : Collector) → IsCounted c → IsCounted (drop_report env c)
unfolding drop_report
drop_report-IsCounted env c h =
    choose-IsCounted c.truncated _ _ h (mark_truncated-IsCounted env c.diagnostics _ h)

pub report-IsCounted :
    (env : Env) (d : Diagnostic) (c : Collector) (ring : LastResort)
    → IsCounted c
    → IsCounted (report env d c ring).collector
unfolding report
report-IsCounted env d c ring h = elim (Bool-cases (leb c.max_diagnostics (length c.diagnostics))) [
  | inl full ↦ rw full (drop_report-IsCounted env c h)
  | inr room ↦ elim (Bool-cases env.out_of_memory) [
    | inl o ↦ rw (room, o) h
    | inr o ↦
        rw (room, o) (store_report-IsCounted (stamp_metadata env.now env.thread c.context_id d) c h)
  ]
]

apply_call-IsCounted :
    (call : Call) (c : Collector) (ring : LastResort)
    → IsCounted c
    → IsCounted (apply_call call (c, ring)).0
unfolding apply_call clear bump_all set_max_diagnostics add_sink
apply_call-IsCounted (report_call env d) c ring h = report-IsCounted env d c ring h
apply_call-IsCounted clear_call c ring h = refl
apply_call-IsCounted clear_sinks_call c ring h = h
apply_call-IsCounted (cap_call cap) c ring h = h
apply_call-IsCounted (context_call id) c ring h = h
apply_call-IsCounted (sink_call zero) c ring h = h
apply_call-IsCounted (sink_call (suc s)) c ring h = ground arith

apply_calls-IsCounted :
    (calls : List Call) (c : Collector) (ring : LastResort)
    → IsCounted c
    → IsCounted (apply_calls calls (c, ring)).0
unfolding apply_calls
apply_calls-IsCounted [] c ring h = h
apply_calls-IsCounted (call ∷ calls) c ring h =
    let s = apply_call call (c, ring) in
    apply_calls-IsCounted calls s.0 s.1 (apply_call-IsCounted call c ring h)

-- What the counters say of a list of diagnostics.
abbrev Counts : List Diagnostic → Counters → Counters → Type 0
Counts ds k b =
    (b.errors + b.fatals ≡ k.errors + k.fatals + length (keep is_error ds))
    × (b.warnings ≡ k.warnings + length (keep is_warning ds))
    × (b.fatals ≡ k.fatals + length (keep is_fatal ds))
    × (b.geometry_degraded ≡ (any_of (λ d. d.geometry_degraded) ds || k.geometry_degraded))
    × (b.naming_degraded ≡ (any_of (λ d. d.naming_degraded) ds || k.naming_degraded))

bump_all-Counts : (ds : List Diagnostic) (k : Counters) → Counts ds k (bump_all ds k)
unfolding bump_all bump_counters keep any_of is_error is_warning
bump_all-Counts [] k = ground arith
bump_all-Counts (d ∷ ds) k = ground (
  arith,
  bump_all-Counts ds (bump_counters d k),
  ℤ_beq_iff d.severity severity_fatal,
  ℤ_beq_iff d.severity severity_error,
  ℤ_beq_iff d.severity severity_warning,
)

-- Whatever is called on a new collector, its counters, which are kept incrementally, agree with the
-- diagnostics that it holds: the numbers of errors with fatal ones, of warnings and of fatal ones,
-- and whether one of them says that the geometry or the naming is degraded.
pub apply_calls-Counts :
    (calls : List Call) (ring : LastResort)
    → let c = (apply_calls calls (new_collector, ring)).0 in
      (error_count c ≡ length (errors c))
      × (c.counters.warnings ≡ length (warnings c))
      × (c.counters.fatals ≡ length (keep is_fatal c.diagnostics))
      × (c.counters.geometry_degraded ≡ any_of (λ d. d.geometry_degraded) c.diagnostics)
      × (c.counters.naming_degraded ≡ any_of (λ d. d.naming_degraded) c.diagnostics)
unfolding error_count errors warnings bump_all
apply_calls-Counts calls ring =
    let c = (apply_calls calls (new_collector, ring)).0 in
    let h = apply_calls-IsCounted calls new_collector ring refl in
    ground (arith, bump_all-Counts c.diagnostics no_counters, h)
