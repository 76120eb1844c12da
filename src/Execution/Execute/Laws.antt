-- ===== src/Execution/Execute/Laws.antt =====
-- executeFeature on a feature that validateFeature accepts, and in a replay (feature/feature.cpp).
use mathlib.Core.Path.{subst, fun_ext}
use oreo_kernel.Prelude.{
  String, Bool, true, false, ◌≡◌, inl, inr, refl, sym, ap, ◌∙◌, List, [], ◌∷◌, Option, none, some,
  arith, ◌==◌, string_eq, if◌then◌else◌, Result, Bool-cases, Option-cases, eq_iff,
}
use oreo_kernel.Prelude.Dict.{Dict}
use oreo_kernel.Tags.{TagAllocator}
use oreo_kernel.Feature.{Feature, ElementRef, ParamValue, status_ok}
use oreo_kernel.Tree.Resolve.{Shapes, ResolvedRef}
use oreo_kernel.Tree.Replay.{Executed}
use oreo_kernel.Tree.Deterministic.{SameTags, plain, IsDeterministic}
use oreo_kernel.Config.Values.{type_index}
use oreo_kernel.Execution.Execute.{outcome, execute_checked, execute_feature, executor}
use oreo_kernel.Execution.{Reals, FeatureSchema}
use oreo_kernel.Execution.Table.{find_in, find_schema, schemas}
use oreo_kernel.Execution.Validate.{validate_params, validate_feature}
use oreo_kernel.Execution.Params.{
  AllFit, validate_params-AllFit, has_double, has_int, has_vec, has_pnt, has_dir, has_ax1, has_ax2,
  has_ref, has_refs,
}
use oreo_kernel.Execution.Program.{Run, done, stopped}
use oreo_kernel.Execution.Dispatch.{
  Operations, fillet, chamfer, boolean_union, boolean_subtract, boolean_intersect,
  make_face_from_wire, dispatch_type,
}
use oreo_kernel.Execution.Tame.{Alike, same_tags, equal_tags, Fine, Tame}
use oreo_kernel.Execution.Tame.Branches.{
  IsPure, call-Tame, combine_with-Tame, run_boolean-Tame, run_circular_pattern-Tame, run_cone-Tame,
  run_draft-Tame, run_edges-Tame, run_hole-Tame, run_linear_pattern-Tame, run_loft-Tame,
  run_mirror-Tame, run_one-Tame, run_pocket-Tame, run_revolve-Tame, run_rib-Tame, run_shell-Tame,
  run_split_body-Tame, run_sweep-Tame, run_two-Tame, run_variable_fillet-Tame, run_vec-Tame,
  run_wedge-Tame,
}

-- A property of every entry of a list of schemas.
infixr 20 ◌⊕◌
data AllOf (P : FeatureSchema → Type 0) : List FeatureSchema → Type 0 where
  none_left : AllOf P []
  ◌⊕◌ : {s : FeatureSchema} {ss : List FeatureSchema} → P s → AllOf P ss → AllOf P (s ∷ ss)

find_in-AllOf :
    (P : FeatureSchema → Type 0) (type : String) (ss : List FeatureSchema) (s : FeatureSchema)
    → AllOf P ss
    → find_in type ss ≡ some s
    → P s × (s.type ≡ type)
unfolding find_in
find_in-AllOf P type [] s all h = absurd (ground arith)
find_in-AllOf P type (t ∷ ss) s (here ⊕ all) h = elim (Bool-cases (t.type == type)) [
  | inl e ↦
      let same : t ≡ s = ground (arith, h, e) in
      (subst P same here, ap (λ (u : FeatureSchema). u.type) (sym same) ∙ (eq_iff t.type type).0 e)
  | inr e ↦ find_in-AllOf P type ss s all (rw (e, find_in) at h)
]

module _ ⦃rel : Alike⦄ (K : Shapes) (O : Operations K) (q : IsPure K O)
    (r : ElementRef → Result (ResolvedRef K)) (p : Dict String ParamValue) (c : K.Named) where
  -- Each feature type of the registry has a branch, which reads parameters that its schema requires.
  schemas-Tame : AllOf (λ s. AllFit s.params p → Tame (dispatch_type K O r p c s.type)) schemas
  unfolding dispatch_type type_index
  schemas-Tame =
      (λ f. run_vec-Tame K O q r p c "dimensions" _ (has_vec _ p f.0))
      ⊕ (λ f.
          run_two-Tame K O q r p c "radius" "height" _ (has_double _ p f.0) (has_double _ p f.1.0))
      ⊕ (λ f. run_one-Tame K O q r p c "radius" _ (has_double _ p f.0))
      ⊕ (λ f.
          run_cone-Tame K O q r p c (has_double _ p f.0) (has_double _ p f.1.0)
            (has_double _ p f.1.1.0))
      ⊕ (λ f.
          run_two-Tame K O q r p c "majorRadius" "minorRadius" _ (has_double _ p f.0)
            (has_double _ p f.1.0))
      ⊕ (λ f. run_wedge-Tame K O q r p c (has_vec _ p f.0) (has_double _ p f.1.0))
      ⊕ (λ f. run_vec-Tame K O q r p c "direction" _ (has_vec _ p f.0))
      ⊕ (λ f. run_revolve-Tame K O q r p c (has_ax1 _ p f.0) (has_double _ p f.1.0))
      ⊕ (λ f. run_edges-Tame K O q r p c "radius" fillet (has_refs _ p f.0) (has_double _ p f.1.0))
      ⊕ (λ f.
          run_edges-Tame K O q r p c "distance" chamfer (has_refs _ p f.0) (has_double _ p f.1.0))
      ⊕ (λ f. run_boolean-Tame K O q r p c boolean_union (has_ref _ p f.0))
      ⊕ (λ f. run_boolean-Tame K O q r p c boolean_subtract (has_ref _ p f.0))
      ⊕ (λ f. run_boolean-Tame K O q r p c boolean_intersect (has_ref _ p f.0))
      ⊕ (λ f. run_loft-Tame K O q r p c (has_refs _ p f.0))
      ⊕ (λ f. run_sweep-Tame K O q r p c (has_ref _ p f.0) (has_ref _ p f.1.0))
      ⊕ (λ f. run_shell-Tame K O q r p c (has_refs _ p f.0) (has_double _ p f.1.0))
      ⊕ (λ f. run_mirror-Tame K O q r p c (has_ax2 _ p f.0))
      ⊕ (λ f.
          run_linear_pattern-Tame K O q r p c (has_vec _ p f.0) (has_int _ p f.1.0)
            (has_double _ p f.1.1.0))
      ⊕ (λ f.
          run_circular_pattern-Tame K O q r p c (has_ax1 _ p f.0) (has_int _ p f.1.0)
            (has_double _ p f.1.1.0))
      ⊕ (λ f.
          run_draft-Tame K O q r p c (has_refs _ p f.0) (has_double _ p f.1.0)
            (has_dir _ p f.1.1.0))
      ⊕ (λ f.
          run_hole-Tame K O q r p c (has_ref _ p f.0) (has_pnt _ p f.1.0) (has_double _ p f.1.1.0)
            (has_double _ p f.1.1.1.0))
      ⊕ (λ f. run_pocket-Tame K O q r p c (has_double _ p f.1.0))
      ⊕ (λ f. run_one-Tame K O q r p c "distance" _ (has_double _ p f.0))
      ⊕ (λ f. run_one-Tame K O q r p c "thickness" _ (has_double _ p f.0))
      ⊕ (λ f. run_split_body-Tame K O q r p c (has_pnt _ p f.0) (has_dir _ p f.1.0))
      ⊕ (λ f.
          run_variable_fillet-Tame K O q r p c (has_ref _ p f.0) (has_double _ p f.1.0)
            (has_double _ p f.1.1.0))
      ⊕ (λ f. call-Tame K O q r (make_face_from_wire c))
      ⊕ (λ f. combine_with-Tame K O q r p c _)
      ⊕ (λ f. run_rib-Tame K O q r p c (has_dir _ p f.0) (has_double _ p f.1.0))
      ⊕ none_left

accepted-schema :
    (R : Reals) (f : Feature)
    → (validate_feature R f).accepted ≡ true
    → (s : FeatureSchema) × (find_schema f.type ≡ some s)
      × (validate_params R s.params f.params ≡ none)
unfolding validate_feature
accepted-schema R f h = elim (Option-cases (find_schema f.type)) [
  | inl n ↦ absurd (ground (arith, h, n))
  | inr (s, n) ↦ elim (Option-cases (validate_params R s.params f.params)) [
    | inl e ↦ (s, n, e)
    | inr (code, e) ↦ absurd (ground (arith, h, n, e))
  ]
]

dispatch-Tame :
    ⦃rel : Alike⦄ (K : Shapes) (R : Reals) (O : Operations K)
    (r : ElementRef → Result (ResolvedRef K)) (f : Feature) (c : K.Named)
    → IsPure K O
    → (validate_feature R f).accepted ≡ true
    → Tame (dispatch_type K O r f.params c f.type)
unfolding find_schema
dispatch-Tame K R O r f c q h =
    let (s, n, e) = accepted-schema R f h in
    let (tame, same) =
      find_in-AllOf (λ s. AllFit s.params f.params → Tame (dispatch_type K O r f.params c s.type))
        f.type schemas s (schemas-Tame K O q r f.params c) n in
    subst (λ t. Tame (dispatch_type K O r f.params c t)) same
      (tame (validate_params-AllFit R s.params f.params e))

-- The dispatch of a feature that validateFeature accepts finds a branch for its type, and each
-- parameter that the branch asks for is there and of the type that it asks for: it is not left by an
-- exception of Feature::get, nor as a feature of unknown type, whatever the operations do.
pub dispatch_type-Fine :
    (K : Shapes) (R : Reals) (O : Operations K) (r : ElementRef → Result (ResolvedRef K))
    (f : Feature) (c : K.Named) (tags : TagAllocator)
    → (validate_feature R f).accepted ≡ true
    → Fine (dispatch_type K O r f.params c f.type tags).0
dispatch_type-Fine K R O r f c tags h =
    let q : IsPure ⦃rel = equal_tags⦄ K O =
      λ op a b e. (ap (λ t. (O.perform op t).0) e, ap (λ t. (O.perform op t).1) e) in
    let tame = dispatch-Tame ⦃rel = equal_tags⦄ K R O r f c q h in (tame.apply tags tags refl).1

-- What two executions leave that agree.
abbrev SameExecuted : (K : Shapes) → Executed K → Executed K → Type 0
SameExecuted K e e' = (e.value ≡ e'.value) × (e.status ≡ e'.status) × SameTags e.tags e'.tags

outcome-agrees :
    (K : Shapes) (run run' : Run (Option K.Named)) (t t' : TagAllocator)
    → run ≡ run'
    → SameTags t t'
    → SameExecuted K (outcome K run t) (outcome K run' t')
unfolding outcome
outcome-agrees K (done (some shape)) run' t t' e s = rw (← e) (refl, refl, s)
outcome-agrees K (done none) run' t t' e s = rw (← e) (refl, refl, s)
outcome-agrees K (stopped x) run' t t' e s = rw (← e) (refl, refl, s)

choose-agrees :
    (K : Shapes) (b : Bool) (x x' y y' : Executed K)
    → SameExecuted K x x'
    → SameExecuted K y y'
    → SameExecuted K (if b then x else y) (if b then x' else y')
choose-agrees K true x x' y y' h k = h
choose-agrees K false x x' y y' h k = k

module _ (K : Shapes) (R : Reals) (O : Operations K) (q : IsPure ⦃rel = same_tags⦄ K O)
    (a b : TagAllocator) (f : Feature) (c : K.Named) (r : ElementRef → Result (ResolvedRef K)) where
  execute_checked-agrees :
      SameTags a b → SameExecuted K (execute_checked K R O a f c r) (execute_checked K R O b f c r)
  unfolding execute_checked
  execute_checked-agrees s = elim (Bool-cases (validate_feature R f).accepted) [
    | inl v ↦
        let (same, _, s') = (dispatch-Tame ⦃rel = same_tags⦄ K R O r f c q v).apply a b s in
        rw v (outcome-agrees K _ _ _ _ same s')
    | inr v ↦ rw v (refl, refl, s)
  ]

execute_feature-agrees :
    (K : Shapes) (R : Reals) (O : Operations K) (q : IsPure ⦃rel = same_tags⦄ K O)
    (a b : TagAllocator) (f : Feature) (c : K.Named) (r : ElementRef → Result (ResolvedRef K))
    → SameTags a b
    → SameExecuted K (execute_feature K R O a f c r) (execute_feature K R O b f c r)
unfolding execute_feature
execute_feature-agrees K R O q a b f c r s =
    choose-agrees K f.suppressed _ _ _ _ (refl, refl, s)
      (execute_checked-agrees K R O q a b (record f { status = status_ok }) c r s)

-- The executor of the replay engine is deterministic, if each geometry operation is, and the
-- transformer does not read the status that it is given.
pub executor-IsDeterministic :
    (K : Shapes) (R : Reals) (O : Operations K) (transform : Option (Feature → Feature))
    → IsPure ⦃rel = same_tags⦄ K O
    → ((t : Feature → Feature) (f g : Feature) → transform ≡ some t → plain f ≡ plain g → t f ≡ t g)
    → IsDeterministic K (executor K R O transform)
unfolding execute_feature
executor-IsDeterministic K R O transform q h = record {
  execute = λ a b f g c r r' s e same.
      let fg = ap (λ (x : Feature). record x { status = status_ok }) e in
      let step = execute_feature-agrees K R O q a b f c r s in
      subst (λ x. SameExecuted K (execute_feature K R O a f c r) (execute_feature K R O b x c r'))
        fg
        (subst (λ x. SameExecuted K (execute_feature K R O a f c r) (execute_feature K R O b f c x))
          (fun_ext same) step);
  transform = h;
}
