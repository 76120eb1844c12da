-- ===== src/Diagnostics/Collector.antt =====
-- core/diagnostic.{h,cpp}: DiagnosticCollector. A std::size_t has 64 bits. The counters of type int
-- stay below the number of diagnostics. A sink is a pointer, 0 for null; a call of its onReport is
-- an event that report returns, since a sink may not throw.
pub mod Laws
pub mod Bounded
use oreo_kernel.Prelude.{
  ℕ, suc, ◌+◌, ◌-◌, ◌%◌, ◌^◌, Bool, true, false, ◌||◌, List, [], ◌∷◌, ◌++◌, map, Option, none, some,
  ltb, leb, nat_beq, if◌then◌else◌, length,
}
use oreo_kernel.Prelude.Int.{ℤ_beq}
use oreo_kernel.Diagnostics.{
  Text, severity_fatal, severity_error, severity_warning, code_diag_truncated, Diagnostic,
  diagnostic_of, is_error, is_warning, is_fatal, is_plain_error, Env, stamp_metadata, keep,
}

abbrev pub u64 : ℕ
u64 = 2 ^ 64

-- errorCount_, warningCount_, fatalCount_, geometryDegraded_ and namingDegraded_.
pub record Counters : Type 0 where
  pub errors : ℕ
  pub warnings : ℕ
  pub fatals : ℕ
  pub geometry_degraded : Bool
  pub naming_degraded : Bool

abbrev pub no_counters : Counters
no_counters = record {
  errors = 0;
  warnings = 0;
  fatals = 0;
  geometry_degraded = false;
  naming_degraded = false;
}

pub record Collector : Type 0 where
  pub diagnostics : List Diagnostic
  pub generation : ℕ
  pub counters : Counters
  pub context_id : ℕ
  pub max_diagnostics : ℕ
  pub truncated : Bool
  pub overflow_count : ℕ
  pub sinks : List ℕ

abbrev pub new_collector : Collector
new_collector = record {
  diagnostics = [];
  generation = 0;
  counters = no_counters;
  context_id = 0;
  max_diagnostics = 10000;
  truncated = false;
  overflow_count = 0;
  sinks = [];
}

-- The thread's ring of 16 slots for what could not be stored: the writes to it, the latest first, of
-- which the last 16 are there, and lastResortIndex_.
pub record LastResort : Type 0 where
  pub writes : List Diagnostic
  pub index : ℕ

unfoldable pub bump_counters : Diagnostic → Counters → Counters
bump_counters d k =
    let counted : Counters =
      (if is_fatal d
        then record k { fatals = k.fatals + 1 }
        else if is_plain_error d
        then record k { errors = k.errors + 1 }
        else if is_warning d
        then record k { warnings = k.warnings + 1 }
        else k) in
    record counted {
      geometry_degraded = d.geometry_degraded || k.geometry_degraded;
      naming_degraded = d.naming_degraded || k.naming_degraded;
    }

unfoldable pub bump_all : List Diagnostic → Counters → Counters
bump_all [] k = k
bump_all (d ∷ ds) k = bump_all ds (bump_counters d k)

unfoldable pub recompute_counters : Collector → Collector
unfolding bump_all
recompute_counters c = record c { counters = bump_all c.diagnostics no_counters }

-- diagnostics_.back() = marker
unfoldable pub replace_back : Diagnostic → List Diagnostic → List Diagnostic
replace_back marker [] = []
replace_back marker (d ∷ []) = marker ∷ []
replace_back marker (d ∷ (e ∷ ds)) = d ∷ replace_back marker (e ∷ ds)

-- The texts of the marker are fixed, and left out.
abbrev pub truncation_marker : Diagnostic
truncation_marker = diagnostic_of severity_warning code_diag_truncated [] []

-- The marker in place of the last of the diagnostics that are stored.
unfoldable pub mark_truncated : Env → List Diagnostic → Collector → Collector
unfolding replace_back recompute_counters
mark_truncated env [] c = record c { truncated = true }
mark_truncated env (d ∷ ds) c = recompute_counters (record c {
  truncated = true;
  diagnostics =
      replace_back (stamp_metadata env.marker_now env.thread c.context_id truncation_marker)
        (d ∷ ds);
})

-- The part of report for a collector at its cap.
unfoldable pub drop_report : Env → Collector → Collector
unfolding mark_truncated
drop_report env c =
    let counted = record c { overflow_count = (c.overflow_count + 1) % u64 } in
    if c.truncated then counted else mark_truncated env c.diagnostics counted

-- push_back and bumpCounters_
unfoldable pub store_report : Diagnostic → Collector → Collector
unfolding bump_counters
store_report d c = record c {
  diagnostics = c.diagnostics ++ d ∷ [];
  counters = bump_counters d c.counters;
}

-- What report leaves, and the calls of onReport.
pub record Reported : Type 0 where
  pub collector : Collector
  pub last_resort : LastResort
  pub forwarded : List (ℕ × Diagnostic)

unfoldable pub report : Env → Diagnostic → Collector → LastResort → Reported
unfolding drop_report store_report stamp_metadata
report env diag c ring =
    let d = stamp_metadata env.now env.thread c.context_id diag in
    if leb c.max_diagnostics (length c.diagnostics)
    then record { collector = drop_report env c; last_resort = ring; forwarded = [] }
    else if env.out_of_memory
    then record {
      collector = record c { overflow_count = (c.overflow_count + 1) % u64 };
      last_resort = record { writes = d ∷ ring.writes; index = (ring.index + 1) % u64 };
      forwarded = [];
    }
    else record {
      collector = store_report d c;
      last_resort = ring;
      forwarded = map (λ sink. (sink, d)) c.sinks;
    }

unfoldable pub clear : Collector → Collector
clear c = record c {
  diagnostics = [];
  counters = no_counters;
  truncated = false;
  generation = (c.generation + 1) % u64;
}

unfoldable pub set_max_diagnostics : ℕ → Collector → Collector
set_max_diagnostics cap c = record c { max_diagnostics = if nat_beq cap 0 then u64 - 1 else cap }

abbrev pub set_context_id : ℕ → Collector → Collector
set_context_id id c = record c { context_id = id }

unfoldable pub add_sink : ℕ → Collector → Collector
add_sink sink c = if nat_beq sink 0 then c else record c { sinks = c.sinks ++ sink ∷ [] }

abbrev pub clear_sinks : Collector → Collector
clear_sinks c = record c { sinks = [] }

unfoldable pub has_errors : Collector → Bool
has_errors c = ltb 0 (c.counters.errors + c.counters.fatals)

unfoldable pub has_warnings : Collector → Bool
has_warnings c = ltb 0 c.counters.warnings

unfoldable pub has_fatal : Collector → Bool
has_fatal c = ltb 0 c.counters.fatals

unfoldable pub error_count : Collector → ℕ
error_count c = c.counters.errors + c.counters.fatals

-- errors() and warnings()
unfoldable pub errors : Collector → List Diagnostic
unfolding keep is_error
errors c = keep is_error c.diagnostics

unfoldable pub warnings : Collector → List Diagnostic
unfolding keep is_warning
warnings c = keep is_warning c.diagnostics

-- The search from the back.
unfoldable pub last_error_in : List Diagnostic → Option Diagnostic
unfolding is_error
last_error_in [] = none
last_error_in (d ∷ ds) = elim (last_error_in ds) [
  | some e ↦ some e
  | none ↦ if is_error d then some d else none
]

unfoldable pub last_error_opt : Collector → Option Diagnostic
unfolding last_error_in
last_error_opt c = last_error_in c.diagnostics
