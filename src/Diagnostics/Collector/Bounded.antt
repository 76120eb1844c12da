-- ===== src/Diagnostics/Collector/Bounded.antt =====
-- What a DiagnosticCollector keeps of the diagnostics reported to it (core/diagnostic.cpp).
use mathlib.Core.List.{append_assoc, append-nil}
use oreo_kernel.Prelude.{
  ℕ, suc, ◌+◌, ◌-◌, ◌%◌, ◌≤◌, ◌<◌, ◌≡◌, inl, inr, refl, sym, ap, ◌∙◌, true, false, List, [], ◌∷◌,
  ◌++◌, ltb, nat_beq, ltb→lt, choose-false, leb, length, length-append, take, take-append, arith,
  Bool-cases,
}
use oreo_kernel.Diagnostics.{Diagnostic, Env, stamp_metadata, code_diag_truncated}
use oreo_kernel.Diagnostics.Collector.{
  u64, Collector, LastResort, recompute_counters, replace_back, truncation_marker, mark_truncated,
  drop_report, store_report, report, set_max_diagnostics, new_collector,
}
use oreo_kernel.Diagnostics.Collector.Laws.{Call, report_call, apply_call, apply_calls}

-- Reports one behind the other, each with what it reads of its surroundings.
abbrev pub reports : List (Env × Diagnostic) → List Call
reports [] = []
reports ((env, d) ∷ rs) = report_call env d ∷ reports rs

-- The diagnostics as they are stored.
abbrev pub stamped : ℕ → List (Env × Diagnostic) → List Diagnostic
stamped context [] = []
stamped context ((env, d) ∷ rs) = stamp_metadata env.now env.thread context d ∷ stamped context rs

abbrev pub HasMemory : List (Env × Diagnostic) → Type 0
HasMemory [] = Unit
HasMemory ((env, d) ∷ rs) = (env.out_of_memory ≡ false) × HasMemory rs

-- The log after the cap was passed: the first `cap` diagnostics, the last of them replaced.
abbrev pub IsTruncated : ℕ → List Diagnostic → Collector → Type 0
IsTruncated cap log c =
    (c.truncated ≡ true)
    × ((marker : Diagnostic) × (marker.code ≡ code_diag_truncated)
        × (c.diagnostics ≡ replace_back marker (take cap log)))

length-stamped :
    (context : ℕ) (rs : List (Env × Diagnostic)) → length (stamped context rs) ≡ length rs
length-stamped context [] = refl
length-stamped context (r ∷ rs) = ap suc (length-stamped context rs)

module _ (env : Env) (d : Diagnostic) (c : Collector) (ring : LastResort) where
  apply_call-full :
      c.max_diagnostics ≤ length c.diagnostics
      → apply_call (report_call env d) (c, ring) ≡ (drop_report env c, ring)
  unfolding apply_call report
  apply_call-full h = ground arith

  apply_call-room :
      length c.diagnostics < c.max_diagnostics
      → env.out_of_memory ≡ false
      → apply_call (report_call env d) (c, ring)
        ≡ (store_report (stamp_metadata env.now env.thread c.context_id d) c, ring)
  unfolding apply_call report
  apply_call-room h m = elim (Bool-cases (leb c.max_diagnostics (length c.diagnostics))) [
    | inl full ↦ absurd (ground arith)
    | inr room ↦ rw (room, m)
  ]

drop_report-truncated :
    (env : Env) (c : Collector)
    → c.truncated ≡ true
    → drop_report env c ≡ record c { overflow_count = (c.overflow_count + 1) % u64 }
unfolding drop_report
drop_report-truncated env c t = rw t

drop_report-first :
    (env : Env) (c : Collector)
    → c.truncated ≡ false
    → drop_report env c
      ≡ mark_truncated env c.diagnostics
          (record c { overflow_count = (c.overflow_count + 1) % u64 })
unfolding drop_report
drop_report-first env c t = choose-false c.truncated _ _ t

-- A collector that is truncated and full only counts.
reports-full :
    (rs : List (Env × Diagnostic)) (c : Collector) (ring : LastResort)
    → c.truncated ≡ true
    → c.max_diagnostics ≤ length c.diagnostics
    → let out = (apply_calls (reports rs) (c, ring)).0 in
      (out.truncated ≡ true)
      × (out.diagnostics ≡ c.diagnostics)
      × (out.overflow_count % u64 ≡ (c.overflow_count + length rs) % u64)
unfolding apply_calls
reports-full [] c ring t h = (t, refl, omega arith)
reports-full ((env, d) ∷ rs) c ring t h =
    let counted : Collector = record c { overflow_count = (c.overflow_count + 1) % u64 } in
    let step =
      apply_call-full env d c ring h ∙ ap (λ x. (x, ring)) (drop_report-truncated env c t) in
    let (t', e, n) = reports-full rs counted ring t h in
    rw (step, apply_calls) (t', e, omega (arith, n))

length-replace_back :
    (m : Diagnostic) (ds : List Diagnostic) → length (replace_back m ds) ≡ length ds
unfolding replace_back
length-replace_back m [] = refl
length-replace_back m (d ∷ []) = refl
length-replace_back m (d ∷ (e ∷ ds)) = omega (arith, length-replace_back m (e ∷ ds))

-- The report that finds the collector full first.
mark_truncated_lem :
    (env : Env) (ds : List Diagnostic) (c : Collector)
    → 0 < length ds
    → let out = mark_truncated env ds c in
      (out.truncated ≡ true)
      × (out.max_diagnostics ≡ c.max_diagnostics)
      × (out.overflow_count ≡ c.overflow_count)
      × ((marker : Diagnostic) × (marker.code ≡ code_diag_truncated)
          × (out.diagnostics ≡ replace_back marker ds))
unfolding mark_truncated recompute_counters stamp_metadata
mark_truncated_lem env [] c h = absurd (omega arith)
mark_truncated_lem env (d ∷ ds) c h = (
  refl,
  refl,
  refl,
  (stamp_metadata env.marker_now env.thread c.context_id truncation_marker, refl, refl),
)

mark_truncated-length :
    (env : Env) (ds : List Diagnostic) (c : Collector)
    → length ds ≡ length c.diagnostics
    → let out = mark_truncated env ds c in
      (length out.diagnostics ≡ length c.diagnostics)
      × (out.max_diagnostics ≡ c.max_diagnostics)
      × (out.generation ≡ c.generation)
unfolding mark_truncated recompute_counters
mark_truncated-length env [] c h = (refl, refl, refl)
mark_truncated-length env (d ∷ ds) c h =
    let m = stamp_metadata env.marker_now env.thread c.context_id truncation_marker in
    (length-replace_back m (d ∷ ds) ∙ h, refl, refl)

drop_report-length :
    (env : Env) (c : Collector)
    → let out = drop_report env c in
      (length out.diagnostics ≡ length c.diagnostics)
      × (out.max_diagnostics ≡ c.max_diagnostics)
      × (out.generation ≡ c.generation)
drop_report-length env c = elim (Bool-cases c.truncated) [
  | inl t ↦ rw (drop_report-truncated env c t) (refl, refl, refl)
  | inr t ↦
      let counted : Collector = record c { overflow_count = (c.overflow_count + 1) % u64 } in
      rw (drop_report-first env c t) (mark_truncated-length env c.diagnostics counted refl)
]

-- Reports to a full collector leave as many diagnostics, and the generation.
pub reports-length :
    (rs : List (Env × Diagnostic)) (c : Collector) (ring : LastResort)
    → c.max_diagnostics ≤ length c.diagnostics
    → let out = (apply_calls (reports rs) (c, ring)).0 in
      (length out.diagnostics ≡ length c.diagnostics) × (out.generation ≡ c.generation)
unfolding apply_calls
reports-length [] c ring h = (refl, refl)
reports-length ((env, d) ∷ rs) c ring h =
    let (size, cap, generation) = drop_report-length env c in
    let (size', generation') =
      reports-length rs (drop_report env c) ring (omega (arith, size, cap)) in
    rw (apply_call-full env d c ring h, apply_calls) (size' ∙ size, generation' ∙ generation)

-- Reports that there is room for are all stored, in their order.
pub reports-room :
    (rs : List (Env × Diagnostic)) (c : Collector) (ring : LastResort)
    → length c.diagnostics + length rs ≤ c.max_diagnostics
    → HasMemory rs
    → let out = (apply_calls (reports rs) (c, ring)).0 in
      (out.diagnostics ≡ c.diagnostics ++ stamped c.context_id rs) × (out.generation ≡ c.generation)
unfolding apply_calls store_report
reports-room [] c ring h m = (sym (append-nil c.diagnostics), refl)
reports-room ((env, d) ∷ rs) c ring h (m, ms) =
    let d' = stamp_metadata env.now env.thread c.context_id d in
    let size = length-append c.diagnostics (d' ∷ []) in
    let (all, generation) = reports-room rs (store_report d' c) ring (omega (arith, size)) ms in
    rw (apply_call-room env d c ring (omega arith) m, apply_calls)
      (all ∙ append_assoc c.diagnostics (d' ∷ []) (stamped c.context_id rs), generation)

-- What is kept of a log of reports under a cap.
abbrev pub Keeps : ℕ → List Diagnostic → Collector → Type 0
Keeps cap log c =
    (length log ≤ cap → (c.diagnostics ≡ log) × (c.truncated ≡ false))
    × (cap < length log → IsTruncated cap log c)
    × (c.overflow_count % u64 ≡ (length log - cap) % u64)

reports-overflow :
    (env : Env) (d : Diagnostic) (rs : List (Env × Diagnostic)) (c : Collector) (ring : LastResort)
    → c.truncated ≡ false
    → c.overflow_count ≡ 0
    → 0 < c.max_diagnostics
    → length c.diagnostics ≡ c.max_diagnostics
    → (ds : List Diagnostic) → length ds ≡ suc (length rs)
    → Keeps c.max_diagnostics
        (c.diagnostics ++ ds)
        (apply_calls (reports ((env, d) ∷ rs)) (c, ring)).0
unfolding apply_calls drop_report
reports-overflow env d rs c ring t o p full ds k =
    let counted : Collector = record c { overflow_count = (c.overflow_count + 1) % u64 } in
    let marked = mark_truncated env c.diagnostics counted in
    let (t', m', o', (marker, code, back)) =
      mark_truncated_lem env c.diagnostics counted (omega arith) in
    let step =
      apply_call-full env d c ring (omega arith)
      ∙ ap (λ (x : Collector). (x, ring)) (drop_report-first env c t) in
    let (t'', e, n) =
      reports-full rs marked ring t'
        (omega (arith, ap length back, length-replace_back marker c.diagnostics)) in
    let size = length-append c.diagnostics ds in
    let prefix : take c.max_diagnostics (c.diagnostics ++ ds) ≡ c.diagnostics =
      rw (← full) (take-append c.diagnostics ds) in
    rw (step, apply_calls)
      (
        λ fits. absurd (omega arith),
        λ _. (t'', (marker, code, e ∙ back ∙ ap (replace_back marker) (sym prefix))),
        omega arith,
      )

reports-Keeps :
    (rs : List (Env × Diagnostic)) (c : Collector) (ring : LastResort)
    → c.truncated ≡ false
    → c.overflow_count ≡ 0
    → 0 < c.max_diagnostics
    → length c.diagnostics ≤ c.max_diagnostics
    → HasMemory rs
    → Keeps c.max_diagnostics
        (c.diagnostics ++ stamped c.context_id rs)
        (apply_calls (reports rs) (c, ring)).0
unfolding apply_calls store_report
reports-Keeps [] c ring t o p le m =
    let same = append-nil c.diagnostics in
    (
      λ _. (sym same, t),
      λ over. absurd (omega (arith, ap length same)),
      omega (arith, ap length same),
    )
reports-Keeps ((env, d) ∷ rs) c ring t o p le (m, ms) =
    let d' = stamp_metadata env.now env.thread c.context_id d in
    elim (Bool-cases (ltb (length c.diagnostics) c.max_diagnostics)) [
      | inl room ↦
          let stored = store_report d' c in
          let h = ltb→lt (length c.diagnostics) c.max_diagnostics room in
          rw (apply_call-room env d c ring h m, apply_calls)
            (rw (← append_assoc c.diagnostics (d' ∷ []) (stamped c.context_id rs)) (
              reports-Keeps rs stored ring t o p
                (omega (arith, length-append c.diagnostics (d' ∷ []), h)) ms))
      | inr full ↦
          reports-overflow env d rs c ring t o p (ground arith) (d' ∷ stamped c.context_id rs)
            (ap suc (length-stamped c.context_id rs))
    ]

-- The reports to a new collector under a positive cap that is left alone, with memory for each: what
-- is kept is the log of them all, as long as it does not exceed the cap; beyond, it is the first
-- `cap` of them with the last of these replaced by a marker, and the others are counted.
pub reports-first_kept :
    (cap : ℕ) (rs : List (Env × Diagnostic)) (ring : LastResort)
    → 0 < cap
    → HasMemory rs
    → Keeps cap
        (stamped 0 rs)
        (apply_calls (reports rs) (set_max_diagnostics cap new_collector, ring)).0
unfolding set_max_diagnostics
reports-first_kept cap rs ring p m =
    rw (choose-false (nat_beq cap 0) (u64 - 1) cap (ground arith)) (
      reports-Keeps rs (record new_collector { max_diagnostics = cap }) ring refl refl p
        (omega arith) m)
