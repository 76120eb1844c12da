-- ===== src/Diagnostics/OperationResult/Chains.antt =====
-- Chains of flatMap (core/operation_result.h), step by step.
use mathlib.Core.Path.{subst}
use mathlib.Core.List.{append_assoc, append-nil}
use oreo_kernel.Prelude.{
  ◌≡◌, refl, sym, ap, ◌∙◌, Bool, true, false, List, [], ◌∷◌, ◌++◌, Option, none, some,
  if◌then◌else◌, arith,
}
use oreo_kernel.Diagnostics.{Diagnostic}
use oreo_kernel.Diagnostics.OperationResult.{
  OperationResult, success, failure, merge_next, flat_map, recompute_flags,
}
use oreo_kernel.Diagnostics.OperationResult.Laws.{
  IsScanned, done, failed, outcome, Failed, merge_next-done, merge_next-Failed, success-IsScanned,
  failure-IsScanned,
}

module _ {T : Type 0} where
  -- The result of one step after the other, by flatMap.
  unfoldable pub chain : List (T → OperationResult T) → OperationResult T → OperationResult T
  unfolding flat_map
  chain [] r = r
  chain (f ∷ fs) r = chain fs (flat_map f r)

  -- The value that a result brings on, if it is a success.
  abbrev brought : OperationResult T → Option T
  brought r = if r.is_ok then r.value else none

  -- What the steps report up to the first that fails, and the last value if none does.
  unfoldable pub trail : List (T → OperationResult T) → T → List Diagnostic × Option T
  trail [] v = ([], some v)
  trail (f ∷ fs) v = elim (brought (f v)) [
    | none ↦ ((f v).diagnostics, none)
    | some w ↦ let (ds, last) = trail fs w in ((f v).diagnostics ++ ds, last)
  ]

  flat_map-failure :
      (f : T → OperationResult T) (ds : List Diagnostic) → flat_map f (failure ds) ≡ failure ds
  unfolding flat_map failure recompute_flags
  flat_map-failure f ds = refl

  flat_map-success :
      (f : T → OperationResult T) (v : T) (ds : List Diagnostic)
      → flat_map f (success v ds) ≡ merge_next ds (f v)
  unfolding flat_map success recompute_flags
  flat_map-success f v ds = refl

  chain-failure :
      (fs : List (T → OperationResult T)) (ds : List Diagnostic)
      → chain fs (failure ds) ≡ failure ds
  unfolding chain
  chain-failure [] ds = refl
  chain-failure (f ∷ fs) ds = ap (chain fs) (flat_map-failure f ds) ∙ chain-failure fs ds

  abbrev pub is_present : Option T → Bool
  is_present none = false
  is_present (some _) = true

  -- What a chain leaves, from a success on that reported `ds`.
  pub record IsTrail (ds : List Diagnostic) (t : List Diagnostic × Option T) (r : OperationResult T)
      : Type 0 where
    pub diagnostics : r.diagnostics ≡ ds ++ t.0
    pub value : r.value ≡ t.1
    pub is_ok : r.is_ok ≡ is_present t.1
    pub scanned : IsScanned r

  failure-IsTrail : (ds es : List Diagnostic) → IsTrail ds (es, none) (failure (ds ++ es))
  unfolding failure recompute_flags
  failure-IsTrail ds es = record {
    diagnostics = refl;
    value = refl;
    is_ok = refl;
    scanned = failure-IsScanned T (ds ++ es);
  }

  success-IsTrail : (v : T) (ds : List Diagnostic) → IsTrail ds ([], some v) (success v ds)
  unfolding success recompute_flags
  success-IsTrail v ds = record {
    diagnostics = sym (append-nil ds);
    value = refl;
    is_ok = refl;
    scanned = success-IsScanned v ds;
  }

  -- What a step reported goes before what comes behind it.
  IsTrail-before :
      (ds es : List Diagnostic) (t : List Diagnostic × Option T) (r : OperationResult T)
      → IsTrail (ds ++ es) t r
      → IsTrail ds (es ++ t.0, t.1) r
  IsTrail-before ds es t r h = record {
    diagnostics = h.diagnostics ∙ append_assoc ds es t.0;
    value = h.value;
    is_ok = h.is_ok;
    scanned = h.scanned;
  }

  brought-done :
      (r : OperationResult T) (v : T) → r.is_ok ≡ true → r.value ≡ some v → brought r ≡ some v
  brought-done r v o n = ground arith

  brought-Failed : (r : OperationResult T) → Failed r → brought r ≡ none
  brought-Failed r h = ground arith

  abbrev go_on :
      (T → OperationResult T)
      → List (T → OperationResult T)
      → T
      → Option T
      → List Diagnostic × Option T
  go_on f fs v b = elim b [
    | none ↦ ((f v).diagnostics, none)
    | some w ↦ ((f v).diagnostics ++ (trail fs w).0, (trail fs w).1)
  ]

  trail-done :
      (f : T → OperationResult T) (fs : List (T → OperationResult T)) (v w : T)
      → (f v).is_ok ≡ true
      → (f v).value ≡ some w
      → trail (f ∷ fs) v ≡ ((f v).diagnostics ++ (trail fs w).0, (trail fs w).1)
  unfolding trail
  trail-done f fs v w o n = ap (go_on f fs v) (brought-done (f v) w o n)

  trail-Failed :
      (f : T → OperationResult T) (fs : List (T → OperationResult T)) (v : T)
      → Failed (f v)
      → trail (f ∷ fs) v ≡ ((f v).diagnostics, none)
  unfolding trail
  trail-Failed f fs v h = ap (go_on f fs v) (brought-Failed (f v) h)

  -- A chain of steps, from a success with a value on: the result has the diagnostics of the start and
  -- of each step, in order, up to the first step that is no success with a value, that step's own
  -- diagnostics included; it is a success with the last step's value if there is no such step, and a
  -- failure without a value otherwise; and its flags are those of a scan of all its diagnostics.
  pub chain-IsTrail :
      (fs : List (T → OperationResult T)) (v : T) (ds : List Diagnostic)
      → IsTrail ds (trail fs v) (chain fs (success v ds))
  unfolding chain trail
  chain-IsTrail [] v ds = success-IsTrail v ds
  chain-IsTrail (f ∷ fs) v ds = elim (outcome (f v)) [
    | done w o n ↦ rw (flat_map-success f v ds ∙ merge_next-done ds (f v) w o n) (
        subst (λ t. IsTrail ds t (chain fs (success w (ds ++ (f v).diagnostics))))
          (sym (trail-done f fs v w o n))
          (IsTrail-before ds (f v).diagnostics (trail fs w) _
            (chain-IsTrail fs w (ds ++ (f v).diagnostics))))
    | failed h ↦
        rw
          (ap (chain fs) (flat_map-success f v ds ∙ merge_next-Failed ds (f v) h)
            ∙ chain-failure fs (ds ++ (f v).diagnostics))
          (subst (λ t. IsTrail ds t (failure (ds ++ (f v).diagnostics)))
            (sym (trail-Failed f fs v h)) (failure-IsTrail ds (f v).diagnostics))
  ]
