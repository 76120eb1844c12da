-- ===== src/Execution/Dispatch.antt =====
-- feature/feature.cpp: executeFeature's dispatch on the type of a feature, to one call of a geometry
-- operation. What an operation does is a parameter, an Operations.
use oreo_kernel.Prelude.{
  ℕ, String, Bool, true, List, [], ◌∷◌, Option, ltb, if◌then◌else◌, length, ◌==◌, string_eq, Result,
}
use oreo_kernel.Prelude.Int.{ℤ}
use oreo_kernel.Prelude.Dict.{Dict}
use oreo_kernel.Identity.{ShapeIdentity}
use oreo_kernel.Naming.Name.{IndexedName}
use oreo_kernel.Tags.{TagAllocator}
use oreo_kernel.Feature.{Triple, ElementRef, is_null_ref, ParamValue}
use oreo_kernel.Tree.Resolve.{Shapes, ResolvedRef}
use oreo_kernel.Execution.Program.{
  broken, failed, unknown_type, thrown, Program, ◌>>=◌, return, stop, lift, get, get_or,
  issue_identity, double_of, int_of, vec_of, pnt_of, dir_of, ax1_of, ax2_of, ref_of, refs_of,
  bool_of,
}

module _ (K : Shapes) where
  -- NamedEdge and NamedFace.
  abbrev pub NamedSub : Type 0
  NamedSub = IndexedName String × K.Topo

  -- The calls of the geometry operations, with their arguments in order.
  pub data Operation : Type 0 where
    extrude : K.Named → Triple → Operation
    revolve : K.Named → (Triple × Triple) → ℕ → Operation
    fillet chamfer shell : K.Named → List NamedSub → ℕ → Operation
    boolean_union boolean_subtract boolean_intersect : K.Named → K.Named → Operation
    mirror : K.Named → (Triple × Triple × Triple) → Operation
    pattern_linear : K.Named → Triple → ℤ → ℕ → Operation
    pattern_circular : K.Named → (Triple × Triple) → ℤ → ℕ → Operation
    draft : K.Named → List NamedSub → ℕ → Triple → Operation
    hole : K.Named → NamedSub → Triple → (diameter depth : ℕ) → Operation
    pocket : K.Named → K.Named → ℕ → Operation
    offset thicken : K.Named → ℕ → Operation
    split_body : K.Named → (point normal : Triple) → Operation
    fillet_variable : K.Named → NamedSub → (start end : ℕ) → Operation
    make_face_from_wire : K.Named → Operation
    combine : List K.Named → Operation
    loft : List K.Named → Bool → Operation
    sweep : K.Named → K.Named → Operation
    rib : K.Named → K.Named → Triple → ℕ → Operation
    make_box : (x y z : ℕ) → Operation
    make_cylinder make_torus : ℕ → ℕ → Operation
    make_sphere : ℕ → Operation
    make_cone : ℕ → ℕ → ℕ → Operation
    make_wedge : (x y z ltx : ℕ) → Operation

  -- What an operation returns, none for a failed GeomResult, or throws, with the allocator; and
  -- NamedShape's constructor.
  pub record Operations : Type 0 where
    pub perform : Operation → TagAllocator → Result (Option K.Named) × TagAllocator
    pub named : K.Topo → ShapeIdentity → K.Named

  module _ (O : Operations) (resolver : ElementRef → Result (ResolvedRef K)) where
    unfoldable pub call : Operation → Program (Option K.Named)
    call operation tags = let (r, tags') = O.perform operation tags in lift thrown r tags'

    -- A reference that has to resolve: resolveRef and its like.
    unfoldable pub resolve : ElementRef → Program (ResolvedRef K)
    resolve ref = do r ← lift thrown (resolver ref); if r.resolved then return r else stop broken

    abbrev pub sub_of : ResolvedRef K → NamedSub
    sub_of r = (r.indexed_name, r.shape)

    -- resolveEdges and resolveFaces
    unfoldable pub resolve_subs : List ElementRef → Program (List NamedSub)
    unfolding resolve
    resolve_subs [] = return []
    resolve_subs (ref ∷ refs) = do
      r ← resolve ref
      subs ← resolve_subs refs
      return (sub_of r ∷ subs)

    unfoldable pub resolve_boolean_tool : String → Dict String ParamValue → Program K.Named
    unfolding get resolve
    resolve_boolean_tool name params = do
      ref ← get ref_of name params
      r ← resolve ref
      if r.is_whole_shape then return r.named_shape else stop broken

    -- The shape that a reference names, under a fresh identity.
    unfoldable pub wrap : K.Topo → Program K.Named
    unfolding issue_identity
    wrap shape = do id ← issue_identity; return (O.named shape id)

    -- The loop of Loft over its profiles.
    unfoldable pub loft_profiles : List ElementRef → Program (List K.Named)
    unfolding resolve wrap
    loft_profiles [] = return []
    loft_profiles (ref ∷ refs) = do
      r ← resolve ref
      profile ← wrap r.shape
      rest ← loft_profiles refs
      return (profile ∷ rest)

    abbrev contributor : ResolvedRef K → Program K.Named
    contributor r = if r.is_whole_shape then return r.named_shape else wrap r.shape

    -- The loop of Combine over its references.
    unfoldable pub combine_shapes : List ElementRef → Program (List K.Named)
    unfolding resolve wrap
    combine_shapes [] = return []
    combine_shapes (ref ∷ refs) = do
      r ← resolve ref
      shape ← contributor r
      rest ← combine_shapes refs
      return (shape ∷ rest)

    module _ (params : Dict String ParamValue) (current : K.Named) where
      abbrev number : String → Program ℕ
      number name = get double_of name params

      -- Fillet and Chamfer.
      unfoldable pub run_edges :
          String → (K.Named → List NamedSub → ℕ → Operation) → Program (Option K.Named)
      unfolding get resolve_subs call
      run_edges size operation = do
        refs ← get refs_of "edges" params
        x ← number size
        edges ← resolve_subs refs
        call (operation current edges x)

      unfoldable pub run_boolean : (K.Named → K.Named → Operation) → Program (Option K.Named)
      unfolding resolve_boolean_tool call
      run_boolean operation = do
        tool ← resolve_boolean_tool "tool" params
        call (operation current tool)

      unfoldable pub run_shell : Program (Option K.Named)
      unfolding get resolve_subs call
      run_shell = do
        refs ← get refs_of "faces" params
        thickness ← number "thickness"
        faces ← resolve_subs refs
        call (shell current faces thickness)

      unfoldable pub run_linear_pattern : Program (Option K.Named)
      unfolding get call
      run_linear_pattern = do
        direction ← get vec_of "direction" params
        count ← get int_of "count" params
        spacing ← number "spacing"
        call (pattern_linear current direction count spacing)

      unfoldable pub run_circular_pattern : Program (Option K.Named)
      unfolding get call
      run_circular_pattern = do
        axis ← get ax1_of "axis" params
        count ← get int_of "count" params
        angle ← number "angle"
        call (pattern_circular current axis count angle)

      unfoldable pub run_draft : Program (Option K.Named)
      unfolding get resolve_subs call
      run_draft = do
        refs ← get refs_of "faces" params
        angle ← number "angle"
        direction ← get dir_of "pullDirection" params
        faces ← resolve_subs refs
        call (draft current faces angle direction)

      unfoldable pub run_hole : Program (Option K.Named)
      unfolding get resolve call
      run_hole = do
        ref ← get ref_of "face" params
        center ← get pnt_of "center" params
        diameter ← number "diameter"
        depth ← number "depth"
        r ← resolve ref
        call (hole current (sub_of r) center diameter depth)

      abbrev null_ref : ElementRef
      null_ref = record { feature_id = ""; element_name = ""; element_type = "" }

      -- A profile that is not null is resolved and wrapped.
      unfoldable pub profile_of : ElementRef → Program K.Named
      unfolding resolve wrap
      profile_of ref = if is_null_ref ref then stop failed else (do r ← resolve ref; wrap r.shape)

      unfoldable pub run_pocket : Program (Option K.Named)
      unfolding get get_or profile_of call
      run_pocket = do
        depth ← number "depth"
        profile ← profile_of (get_or ref_of "profile" params null_ref)
        call (pocket current profile depth)

      unfoldable pub run_rib : Program (Option K.Named)
      unfolding get get_or profile_of call
      run_rib = do
        direction ← get dir_of "direction" params
        thickness ← number "thickness"
        profile ← profile_of (get_or ref_of "profile" params null_ref)
        call (rib current profile direction thickness)

      unfoldable pub run_split_body : Program (Option K.Named)
      unfolding get call
      run_split_body = do
        point ← get pnt_of "point" params
        direction ← get dir_of "normal" params
        call (split_body current point direction)

      unfoldable pub run_variable_fillet : Program (Option K.Named)
      unfolding get resolve call
      run_variable_fillet = do
        ref ← get ref_of "edge" params
        start ← number "startRadius"
        end ← number "endRadius"
        r ← resolve ref
        call (fillet_variable current (sub_of r) start end)

      -- Combine, with the references of "shapes" or none.
      unfoldable pub combine_with : List ElementRef → Program (Option K.Named)
      unfolding combine_shapes call
      combine_with [] = stop failed
      combine_with (ref ∷ refs) = do
        shapes ← combine_shapes (ref ∷ refs)
        call (combine (current ∷ shapes))

      unfoldable pub run_loft : Program (Option K.Named)
      unfolding get get_or loft_profiles call
      run_loft = do
        refs ← get refs_of "profiles" params
        if ltb (length refs) 2 then stop failed else (do
          profiles ← loft_profiles refs
          call (loft profiles (get_or bool_of "makeSolid" params true)))

      unfoldable pub run_sweep : Program (Option K.Named)
      unfolding get resolve wrap call
      run_sweep = do
        profile_ref ← get ref_of "profile" params
        path_ref ← get ref_of "path" params
        profile_shape ← resolve profile_ref
        path_shape ← resolve path_ref
        profile ← wrap profile_shape.shape
        path ← wrap path_shape.shape
        call (sweep profile path)

      -- The types whose operation takes plain parameters.
      unfoldable pub run_vec : String → (Triple → Operation) → Program (Option K.Named)
      unfolding get call
      run_vec name operation = do v ← get vec_of name params; call (operation v)

      unfoldable pub run_one : String → (ℕ → Operation) → Program (Option K.Named)
      unfolding get call
      run_one name operation = do x ← number name; call (operation x)

      unfoldable pub run_two : String → String → (ℕ → ℕ → Operation) → Program (Option K.Named)
      unfolding get call
      run_two first second operation = do x ← number first; y ← number second; call (operation x y)

      unfoldable pub run_cone : Program (Option K.Named)
      unfolding get call
      run_cone = do
        r1 ← number "radius1"
        r2 ← number "radius2"
        h ← number "height"
        call (make_cone r1 r2 h)

      unfoldable pub run_wedge : Program (Option K.Named)
      unfolding get call
      run_wedge = do
        d ← get vec_of "dimensions" params
        ltx ← number "ltx"
        call (make_wedge d.x d.y d.z ltx)

      unfoldable pub run_revolve : Program (Option K.Named)
      unfolding get call
      run_revolve = do
        axis ← get ax1_of "axis" params
        angle ← number "angle"
        call (revolve current axis angle)

      unfoldable pub run_mirror : Program (Option K.Named)
      unfolding get call
      run_mirror = do plane ← get ax2_of "plane" params; call (mirror current plane)

      -- The branches in their order, as pairs of a type and what is done for it.
      abbrev pub branches : List (String × Program (Option K.Named))
      branches =
          ("Extrude", run_vec "direction" (extrude current))
          ∷ ("Revolve", run_revolve)
          ∷ ("Fillet", run_edges "radius" fillet)
          ∷ ("Chamfer", run_edges "distance" chamfer)
          ∷ ("BooleanUnion", run_boolean boolean_union)
          ∷ ("BooleanSubtract", run_boolean boolean_subtract)
          ∷ ("BooleanIntersect", run_boolean boolean_intersect)
          ∷ ("Shell", run_shell)
          ∷ ("Mirror", run_mirror)
          ∷ ("LinearPattern", run_linear_pattern)
          ∷ ("CircularPattern", run_circular_pattern)
          ∷ ("Draft", run_draft)
          ∷ ("Hole", run_hole)
          ∷ ("Pocket", run_pocket)
          ∷ ("Offset", run_one "distance" (offset current))
          ∷ ("Thicken", run_one "thickness" (thicken current))
          ∷ ("SplitBody", run_split_body)
          ∷ ("VariableFillet", run_variable_fillet)
          ∷ ("MakeFace", call (make_face_from_wire current))
          ∷ ("Combine", combine_with (get_or refs_of "shapes" params []))
          ∷ ("Loft", run_loft)
          ∷ ("Sweep", run_sweep)
          ∷ ("Rib", run_rib)
          ∷ ("MakeBox", run_vec "dimensions" (λ d. make_box d.x d.y d.z))
          ∷ ("MakeCylinder", run_two "radius" "height" make_cylinder)
          ∷ ("MakeSphere", run_one "radius" make_sphere)
          ∷ ("MakeCone", run_cone)
          ∷ ("MakeTorus", run_two "majorRadius" "minorRadius" make_torus)
          ∷ ("MakeWedge", run_wedge)
          ∷ []

      -- The chain of tests of the type.
      unfoldable pub choose :
          String → List (String × Program (Option K.Named)) → Program (Option K.Named)
      choose type [] = stop unknown_type
      choose type (branch ∷ rest) =
          let later = choose type rest in if branch.0 == type then branch.1 else later

      unfoldable pub dispatch_type : String → Program (Option K.Named)
      unfolding choose
      dispatch_type type = choose type branches
