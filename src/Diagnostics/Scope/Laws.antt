-- ===== src/Diagnostics/Scope/Laws.antt =====
-- What a DiagnosticScope hands on of the reports made in it (core/diagnostic_scope.{h,cpp}).
use oreo_kernel.Prelude.{
  ◌+◌, ◌≤◌, ◌≡◌, inl, inr, sym, ap, ◌∙◌, true, not, List, [], leb, leb→le, choose-false, nat_beq,
  if◌then◌else◌, length, drop, drop_past, drop-append, arith, Bool-cases,
}
use oreo_kernel.Diagnostics.{Diagnostic, Env, is_error, any_of}
use oreo_kernel.Diagnostics.Collector.{Collector, LastResort}
use oreo_kernel.Diagnostics.Collector.Laws.{apply_calls}
use oreo_kernel.Diagnostics.Collector.Bounded.{
  reports, stamped, HasMemory, reports-length, reports-room,
}
use oreo_kernel.Diagnostics.OperationResult.{OperationResult, success, failure}
use oreo_kernel.Diagnostics.Scope.{Scope, open_scope, extract_diagnostics, make_result}

extract-fresh :
    (c : Collector) (s : Scope)
    → s.generation ≡ c.generation
    → extract_diagnostics c s ≡ (drop s.start_index c.diagnostics, record s { extracted = true })
unfolding extract_diagnostics
extract-fresh c s h =
    choose-false (not (nat_beq s.generation c.generation)) _ _ (ground arith)
    ∙ elim (Bool-cases (leb (length c.diagnostics) s.start_index)) [
      | inl past ↦
          rw (past, drop_past s.start_index c.diagnostics (leb→le (length c.diagnostics) _ past))
      | inr more ↦ rw more
    ]

-- makeResult on the diagnostics that were extracted.
abbrev result_of : {T : Type 0} → T → List Diagnostic → OperationResult T
result_of v ds = if any_of is_error ds then failure ds else success v ds

make_result-fresh :
    {T : Type 0} (v : T) (c : Collector) (s : Scope)
    → s.generation ≡ c.generation
    → (make_result v c s).0 ≡ result_of v (drop s.start_index c.diagnostics)
unfolding make_result
make_result-fresh v c s h = rw (extract-fresh c s h)

module _ {T : Type 0} (v : T) (rs : List (Env × Diagnostic)) (c : Collector)
    (ring : LastResort) where
  abbrev after : Collector
  after = (apply_calls (reports rs) (c, ring)).0

  -- A result made in a scope carries exactly what was reported in it, in order, and fails exactly if
  -- one of these is an error: where the collector has room for them all, and memory.
  pub make_result-room :
      length c.diagnostics + length rs ≤ c.max_diagnostics
      → HasMemory rs
      → let ds = stamped c.context_id rs in
        (make_result v after (open_scope c)).0
        ≡ (if any_of is_error ds then failure ds else success v ds)
  unfolding open_scope
  make_result-room h m =
      let (all, generation) = reports-room rs c ring h m in
      make_result-fresh v after (open_scope c) (sym generation)
      ∙ ap (result_of v) (
          ap (drop (length c.diagnostics)) all
          ∙ drop-append c.diagnostics (stamped c.context_id rs))

  -- What is reported in a scope that is opened on a full collector is lost: the operation succeeds
  -- without a diagnostic, also if it reported errors.
  pub make_result-full :
      c.max_diagnostics ≤ length c.diagnostics
      → (make_result v after (open_scope c)).0 ≡ success v []
  unfolding open_scope any_of
  make_result-full h =
      let (size, generation) = reports-length rs c ring h in
      make_result-fresh v after (open_scope c) (sym generation)
      ∙ ap (result_of v) (drop_past (length c.diagnostics) after.diagnostics (omega (arith, size)))
