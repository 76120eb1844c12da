-- ===== src/Identity/DedupScope.antt =====
-- core/shape_identity_v1.cpp: LegacyDowngradeDedupScope, which lets a deserializer warn once.
use oreo_kernel.Prelude.{
  ℕ, ◌+◌, ◌-◌, ◌≤◌, ◌≡◌, refl, Bool, true, false, nat_beq, if◌then◌else◌, arith,
}

-- The two thread-local variables g_dedupDepth and g_dedupWarned.
pub record DedupState : Type 0 where
  pub depth : ℕ
  pub warned : Bool

abbrev pub no_scope : DedupState
no_scope = record { depth = 0; warned = false }

-- The constructor of the scope.
unfoldable pub enter_scope : DedupState → DedupState
enter_scope s = record {
  depth = s.depth + 1;
  warned = if nat_beq s.depth 0 then false else s.warned;
}

-- Its destructor; a scope is left only after it was entered, so the depth is positive.
unfoldable pub leave_scope : DedupState → DedupState
leave_scope s = record {
  depth = s.depth - 1;
  warned = if nat_beq (s.depth - 1) 0 then false else s.warned;
}

unfoldable pub should_emit_downgrade_warning : DedupState → DedupState × Bool
should_emit_downgrade_warning s =
    if nat_beq s.depth 0
    then (s, true)
    else if s.warned
    then (s, false)
    else (record s { warned = true }, true)

-- What happens on a thread between two points: scopes open and close, decodes ask to warn.
pub data Trace : Type 0 where
  done : Trace
  ask : Trace → Trace
  scope : Trace → Trace → Trace

bit : Bool → ℕ
bit b = if b then 1 else 0

-- The state after a trace, and the number of warnings that were let through.
unfoldable pub run_trace : Trace → DedupState → DedupState × ℕ
unfolding bit enter_scope leave_scope should_emit_downgrade_warning
run_trace done s = (s, 0)
run_trace (ask rest) s =
    let asked = should_emit_downgrade_warning s in
    let later = run_trace rest asked.0 in (later.0, bit asked.1 + later.1)
run_trace (scope inner rest) s =
    let within = run_trace inner (enter_scope s) in
    let later = run_trace rest (leave_scope within.0) in (later.0, within.1 + later.1)

-- Left to warn: one if nothing has warned in the open scope.
abbrev budget : DedupState → ℕ
budget s = if s.warned then 0 else 1

budget-ask :
    (s : DedupState)
    → 1 ≤ s.depth
    → bit (should_emit_downgrade_warning s).1 + budget (should_emit_downgrade_warning s).0
      ≤ budget s
unfolding bit should_emit_downgrade_warning
budget-ask s h = ground arith

-- Inside a scope the depth comes back, and the warnings fit the budget.
run_trace-inside :
    (t : Trace) (s : DedupState)
    → 1 ≤ s.depth
    → ((run_trace t s).0.depth ≡ s.depth)
      × ((run_trace t s).1 + budget (run_trace t s).0 ≤ budget s)
unfolding run_trace
run_trace-inside done s h = (refl, omega arith)
run_trace-inside (ask rest) s h =
    ground (arith, run_trace-inside rest (should_emit_downgrade_warning s).0)
run_trace-inside (scope inner rest) s h = ground (
  arith,
  run_trace-inside inner (enter_scope s),
  run_trace-inside rest (leave_scope (run_trace inner (enter_scope s)).0),
)

-- A scope opened on a thread with none open lets at most one warning through, however its work
-- nests further scopes, and leaves the thread as it was: no scope open and nothing warned.
pub run_trace-le_one :
    (t : Trace) (s : DedupState)
    → s.depth ≡ 0
    → ((run_trace t (enter_scope s)).1 ≤ 1)
      × (leave_scope (run_trace t (enter_scope s)).0 ≡ no_scope)
unfolding enter_scope leave_scope
run_trace-le_one t s h = ground (arith, run_trace-inside t (enter_scope s))
