-- ===== src/Execution/Tame/Branches.antt =====
-- The branches of executeFeature's dispatch are tame, where their parameters are there
-- (feature/feature.cpp).
use oreo_kernel.Prelude.{ℕ, String, ◌≡◌, List, [], ◌∷◌, Result, ltb, length}
use oreo_kernel.Prelude.Dict.{Dict}
use oreo_kernel.Tags.{TagAllocator}
use oreo_kernel.Feature.{Triple, ElementRef, is_null_ref, ParamValue}
use oreo_kernel.Tree.Resolve.{Shapes, ResolvedRef}
use oreo_kernel.Execution.Program.{
  broken, failed, double_of, int_of, vec_of, pnt_of, dir_of, ax1_of, ax2_of, ref_of, refs_of,
}
use oreo_kernel.Execution.Dispatch.{
  NamedSub, Operation, Operations, revolve, shell, mirror, pattern_linear, pattern_circular, draft,
  hole, pocket, split_body, fillet_variable, combine, loft, sweep, rib, make_cone, make_wedge, call,
  resolve, sub_of, resolve_subs, resolve_boolean_tool, wrap, loft_profiles, combine_shapes,
  run_edges, run_boolean, run_shell, run_linear_pattern, run_circular_pattern, run_draft, run_hole,
  profile_of, run_pocket, run_rib, run_split_body, run_variable_fillet, combine_with, run_loft,
  run_sweep, run_vec, run_one, run_two, run_cone, run_wedge, run_revolve, run_mirror,
}
use oreo_kernel.Execution.Tame.{
  Alike, Tame, return-Tame, stop-Tame, lift-Tame, if-Tame, bind-Tame, answer-agrees,
  issue_identity-Tame, HasParam, get-Tame,
}

-- A geometry operation does the same with allocators that are alike.
abbrev pub IsPure : ⦃rel : Alike⦄ (K : Shapes) → Operations K → Type 0
IsPure ⦃rel⦄ K O =
    (op : Operation K) (a b : TagAllocator)
    → rel.same a b
    → ((O.perform op a).0 ≡ (O.perform op b).0) × rel.same (O.perform op a).1 (O.perform op b).1

module _ ⦃rel : Alike⦄ (K : Shapes) (O : Operations K) (q : IsPure K O)
    (resolver : ElementRef → Result (ResolvedRef K)) where
  pub call-Tame : (op : Operation K) → Tame (call K O resolver op)
  unfolding call
  call-Tame op = record { apply = λ a b s. let (e, t) = q op a b s in answer-agrees _ _ _ _ e t }

  resolve-Tame : (ref : ElementRef) → Tame (resolve K O resolver ref)
  unfolding resolve
  resolve-Tame ref =
      bind-Tame _ _ (lift-Tame (resolver ref))
        λ r. if-Tame r.resolved (return-Tame r) (stop-Tame broken tt)

  resolve_subs-Tame : (refs : List ElementRef) → Tame (resolve_subs K O resolver refs)
  unfolding resolve_subs
  resolve_subs-Tame [] = return-Tame []
  resolve_subs-Tame (ref ∷ refs) =
      bind-Tame _ _ (resolve-Tame ref) λ r.
        bind-Tame _ _ (resolve_subs-Tame refs) λ subs. return-Tame (sub_of K O resolver r ∷ subs)

  wrap-Tame : (shape : K.Topo) → Tame (wrap K O resolver shape)
  unfolding wrap
  wrap-Tame shape = bind-Tame _ _ issue_identity-Tame λ id. return-Tame (O.named shape id)

  loft_profiles-Tame : (refs : List ElementRef) → Tame (loft_profiles K O resolver refs)
  unfolding loft_profiles
  loft_profiles-Tame [] = return-Tame []
  loft_profiles-Tame (ref ∷ refs) = bind-Tame _ _ (resolve-Tame ref) λ r.
      bind-Tame _ _ (wrap-Tame r.shape)
        λ profile. bind-Tame _ _ (loft_profiles-Tame refs) λ rest. return-Tame (profile ∷ rest)

  combine_shapes-Tame : (refs : List ElementRef) → Tame (combine_shapes K O resolver refs)
  unfolding combine_shapes
  combine_shapes-Tame [] = return-Tame []
  combine_shapes-Tame (ref ∷ refs) = bind-Tame _ _ (resolve-Tame ref) λ r.
      bind-Tame _ _ (if-Tame r.is_whole_shape (return-Tame r.named_shape) (wrap-Tame r.shape))
        λ shape. bind-Tame _ _ (combine_shapes-Tame refs) λ rest. return-Tame (shape ∷ rest)

  module _ (params : Dict String ParamValue) (current : K.Named) where
    abbrev Has : {A : Type 0} → (ParamValue → Result A) → String → Type 0
    Has as_type name = HasParam as_type name params

    pub run_edges-Tame :
        (size : String) (op : K.Named → List (NamedSub K) → ℕ → Operation K)
        → Has refs_of "edges"
        → Has double_of size
        → Tame (run_edges K O resolver params current size op)
    unfolding run_edges
    run_edges-Tame size op e x = bind-Tame _ _ (get-Tame refs_of "edges" params e) λ refs.
        bind-Tame _ _ (get-Tame double_of size params x)
          λ n. bind-Tame _ _ (resolve_subs-Tame refs) λ subs. call-Tame (op current subs n)

    pub run_boolean-Tame :
        (op : K.Named → K.Named → Operation K)
        → Has ref_of "tool"
        → Tame (run_boolean K O resolver params current op)
    unfolding run_boolean resolve_boolean_tool
    run_boolean-Tame op h =
        bind-Tame _ _
          (bind-Tame _ _ (get-Tame ref_of "tool" params h) λ ref.
            bind-Tame _ _ (resolve-Tame ref)
              λ r. if-Tame r.is_whole_shape (return-Tame r.named_shape) (stop-Tame broken tt))
          λ tool. call-Tame (op current tool)

    pub run_shell-Tame :
        Has refs_of "faces"
        → Has double_of "thickness"
        → Tame (run_shell K O resolver params current)
    unfolding run_shell
    run_shell-Tame e x = bind-Tame _ _ (get-Tame refs_of "faces" params e) λ refs.
        bind-Tame _ _ (get-Tame double_of "thickness" params x)
          λ n. bind-Tame _ _ (resolve_subs-Tame refs) λ subs. call-Tame (shell current subs n)

    pub run_linear_pattern-Tame :
        Has vec_of "direction"
        → Has int_of "count"
        → Has double_of "spacing"
        → Tame (run_linear_pattern K O resolver params current)
    unfolding run_linear_pattern
    run_linear_pattern-Tame h0 h1 h2 = bind-Tame _ _ (get-Tame vec_of "direction" params h0) λ d.
        bind-Tame _ _ (get-Tame int_of "count" params h1) λ n.
          bind-Tame _ _ (get-Tame double_of "spacing" params h2)
            λ x. call-Tame (pattern_linear current d n x)

    pub run_circular_pattern-Tame :
        Has ax1_of "axis"
        → Has int_of "count"
        → Has double_of "angle"
        → Tame (run_circular_pattern K O resolver params current)
    unfolding run_circular_pattern
    run_circular_pattern-Tame h0 h1 h2 = bind-Tame _ _ (get-Tame ax1_of "axis" params h0) λ d.
        bind-Tame _ _ (get-Tame int_of "count" params h1) λ n.
          bind-Tame _ _ (get-Tame double_of "angle" params h2)
            λ x. call-Tame (pattern_circular current d n x)

    pub run_draft-Tame :
        Has refs_of "faces"
        → Has double_of "angle"
        → Has dir_of "pullDirection"
        → Tame (run_draft K O resolver params current)
    unfolding run_draft
    run_draft-Tame h0 h1 h2 = bind-Tame _ _ (get-Tame refs_of "faces" params h0) λ refs.
        bind-Tame _ _ (get-Tame double_of "angle" params h1) λ x.
          bind-Tame _ _ (get-Tame dir_of "pullDirection" params h2)
            λ d. bind-Tame _ _ (resolve_subs-Tame refs) λ subs. call-Tame (draft current subs x d)

    pub run_hole-Tame :
        Has ref_of "face"
        → Has pnt_of "center"
        → Has double_of "diameter"
        → Has double_of "depth"
        → Tame (run_hole K O resolver params current)
    unfolding run_hole
    run_hole-Tame h0 h1 h2 h3 = bind-Tame _ _ (get-Tame ref_of "face" params h0) λ ref.
        bind-Tame _ _ (get-Tame pnt_of "center" params h1) λ c.
          bind-Tame _ _ (get-Tame double_of "diameter" params h2) λ x.
            bind-Tame _ _ (get-Tame double_of "depth" params h3) λ y.
              bind-Tame _ _ (resolve-Tame ref)
                λ r. call-Tame (hole current (sub_of K O resolver r) c x y)

    profile_of-Tame : (ref : ElementRef) → Tame (profile_of K O resolver params current ref)
    unfolding profile_of
    profile_of-Tame ref =
        if-Tame (is_null_ref ref) (stop-Tame failed tt)
          (bind-Tame _ _ (resolve-Tame ref) λ r. wrap-Tame r.shape)

    pub run_pocket-Tame : Has double_of "depth" → Tame (run_pocket K O resolver params current)
    unfolding run_pocket
    run_pocket-Tame h0 =
        bind-Tame _ _ (get-Tame double_of "depth" params h0)
          λ x. bind-Tame _ _ (profile_of-Tame _) λ profile. call-Tame (pocket current profile x)

    pub run_rib-Tame :
        Has dir_of "direction"
        → Has double_of "thickness"
        → Tame (run_rib K O resolver params current)
    unfolding run_rib
    run_rib-Tame h0 h1 = bind-Tame _ _ (get-Tame dir_of "direction" params h0) λ d.
        bind-Tame _ _ (get-Tame double_of "thickness" params h1)
          λ x. bind-Tame _ _ (profile_of-Tame _) λ profile. call-Tame (rib current profile d x)

    pub run_split_body-Tame :
        Has pnt_of "point" → Has dir_of "normal" → Tame (run_split_body K O resolver params current)
    unfolding run_split_body
    run_split_body-Tame h0 h1 = bind-Tame _ _ (get-Tame pnt_of "point" params h0) λ p.
        bind-Tame _ _ (get-Tame dir_of "normal" params h1) λ d. call-Tame (split_body current p d)

    pub run_variable_fillet-Tame :
        Has ref_of "edge"
        → Has double_of "startRadius"
        → Has double_of "endRadius"
        → Tame (run_variable_fillet K O resolver params current)
    unfolding run_variable_fillet
    run_variable_fillet-Tame h0 h1 h2 = bind-Tame _ _ (get-Tame ref_of "edge" params h0) λ ref.
        bind-Tame _ _ (get-Tame double_of "startRadius" params h1) λ x.
          bind-Tame _ _ (get-Tame double_of "endRadius" params h2) λ y.
            bind-Tame _ _ (resolve-Tame ref)
              λ r. call-Tame (fillet_variable current (sub_of K O resolver r) x y)

    pub combine_with-Tame :
        (refs : List ElementRef) → Tame (combine_with K O resolver params current refs)
    unfolding combine_with
    combine_with-Tame [] = stop-Tame failed tt
    combine_with-Tame (ref ∷ refs) =
        bind-Tame _ _ (combine_shapes-Tame (ref ∷ refs))
          λ shapes. call-Tame (combine (current ∷ shapes))

    pub run_loft-Tame : Has refs_of "profiles" → Tame (run_loft K O resolver params current)
    unfolding run_loft
    run_loft-Tame h = bind-Tame _ _ (get-Tame refs_of "profiles" params h) λ refs.
        if-Tame (ltb (length refs) 2) (stop-Tame failed tt)
          (bind-Tame _ _ (loft_profiles-Tame refs) λ profiles. call-Tame (loft profiles _))

    pub run_sweep-Tame :
        Has ref_of "profile" → Has ref_of "path" → Tame (run_sweep K O resolver params current)
    unfolding run_sweep
    run_sweep-Tame h0 h1 = bind-Tame _ _ (get-Tame ref_of "profile" params h0) λ a.
        bind-Tame _ _ (get-Tame ref_of "path" params h1) λ b. bind-Tame _ _ (resolve-Tame a) λ r.
          bind-Tame _ _ (resolve-Tame b) λ t.
            bind-Tame _ _ (wrap-Tame r.shape)
              λ profile. bind-Tame _ _ (wrap-Tame t.shape) λ path. call-Tame (sweep profile path)

    pub run_vec-Tame :
        (name : String) (op : Triple → Operation K)
        → Has vec_of name
        → Tame (run_vec K O resolver params current name op)
    unfolding run_vec
    run_vec-Tame name op h0 = bind-Tame _ _ (get-Tame vec_of name params h0) λ v. call-Tame (op v)

    pub run_one-Tame :
        (name : String) (op : ℕ → Operation K)
        → Has double_of name
        → Tame (run_one K O resolver params current name op)
    unfolding run_one
    run_one-Tame name op h0 =
        bind-Tame _ _ (get-Tame double_of name params h0) λ x. call-Tame (op x)

    pub run_two-Tame :
        (first second : String) (op : ℕ → ℕ → Operation K)
        → Has double_of first
        → Has double_of second
        → Tame (run_two K O resolver params current first second op)
    unfolding run_two
    run_two-Tame first second op h0 h1 =
        bind-Tame _ _ (get-Tame double_of first params h0)
          λ x. bind-Tame _ _ (get-Tame double_of second params h1) λ y. call-Tame (op x y)

    pub run_cone-Tame :
        Has double_of "radius1"
        → Has double_of "radius2"
        → Has double_of "height"
        → Tame (run_cone K O resolver params current)
    unfolding run_cone
    run_cone-Tame h0 h1 h2 = bind-Tame _ _ (get-Tame double_of "radius1" params h0) λ x.
        bind-Tame _ _ (get-Tame double_of "radius2" params h1) λ y.
          bind-Tame _ _ (get-Tame double_of "height" params h2) λ z. call-Tame (make_cone x y z)

    pub run_wedge-Tame :
        Has vec_of "dimensions" → Has double_of "ltx" → Tame (run_wedge K O resolver params current)
    unfolding run_wedge
    run_wedge-Tame h0 h1 = bind-Tame _ _ (get-Tame vec_of "dimensions" params h0) λ d.
        bind-Tame _ _ (get-Tame double_of "ltx" params h1) λ x. call-Tame (make_wedge d.x d.y d.z x)

    pub run_revolve-Tame :
        Has ax1_of "axis" → Has double_of "angle" → Tame (run_revolve K O resolver params current)
    unfolding run_revolve
    run_revolve-Tame h0 h1 = bind-Tame _ _ (get-Tame ax1_of "axis" params h0) λ d.
        bind-Tame _ _ (get-Tame double_of "angle" params h1) λ x. call-Tame (revolve current d x)

    pub run_mirror-Tame : Has ax2_of "plane" → Tame (run_mirror K O resolver params current)
    unfolding run_mirror
    run_mirror-Tame h0 =
        bind-Tame _ _ (get-Tame ax2_of "plane" params h0) λ d. call-Tame (mirror current d)
