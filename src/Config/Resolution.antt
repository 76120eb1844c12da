-- ===== src/Config/Resolution.antt =====
-- What resolveConfigRefs makes of a feature (feature/config.cpp), and what follows for the replay.
use oreo_kernel.Prelude.{
  String, true, ◌≡◌, inl, inr, refl, ap, [], ◌∷◌, Option, none, some, string_eq, arith,
  Option-cases,
}
use oreo_kernel.Prelude.Dict.{Dict, lookup}
use oreo_kernel.Feature.{Feature, ParamValue, FeatureStatus}
use oreo_kernel.Tree.Resolve.{Shapes}
use oreo_kernel.Tree.Replay.{Executor, ReplayState, is_broken, dispatch, dispatch_transformed}
use oreo_kernel.Config.{ConfigSchema, resolve_value, resolve_params, resolve_config_refs}

module _ (inputs : ConfigSchema) (config : Dict String ParamValue) where
  -- Every parameter of a map resolves.
  abbrev pub AllResolve : Dict String ParamValue → Type 0
  AllResolve [] = Unit
  AllResolve (entry ∷ params) =
      ((w : ParamValue) × (resolve_value inputs config entry.1 ≡ some w)) × AllResolve params

  resolved_value : Option ParamValue → Option ParamValue
  resolved_value none = none
  resolved_value (some v) = resolve_value inputs config v

  lookup-resolve_params :
      (n : String) (params : Dict String ParamValue) (s : FeatureStatus)
      → AllResolve params
      → (lookup n (resolve_params inputs config params s).0 ≡ resolved_value (lookup n params))
        × ((resolve_params inputs config params s).1 ≡ s)
  unfolding resolve_params lookup resolved_value
  lookup-resolve_params n [] s h = (refl, refl)
  lookup-resolve_params n ((k, v) ∷ params) s ((w, e), h) =
      let (found, status) = lookup-resolve_params n params s h in
      rw (e, resolve_params) (ground (arith, found, e), status)

  -- Where every placeholder resolves, each parameter is what it stands for, and the copy keeps the
  -- feature's id, type, flag and status.
  pub lookup-resolve_config_refs :
      (f : Feature) (n : String)
      → AllResolve f.params
      → let out = resolve_config_refs inputs config f in
        (lookup n out.params
          ≡ elim (lookup n f.params) [ none ↦ none | some v ↦ resolve_value inputs config v ])
        × (record out { params = f.params } ≡ f)
  unfolding resolve_config_refs resolved_value
  lookup-resolve_config_refs f n h =
      let (found, status) = lookup-resolve_params n f.params f.status h in
      (found, ap (λ s. record f { status = s }) status)

  resolve_params-broken :
      (params : Dict String ParamValue) (s : FeatureStatus)
      → is_broken s ≡ true
      → is_broken (resolve_params inputs config params s).1 ≡ true
  unfolding resolve_params is_broken
  resolve_params-broken [] s h = h
  resolve_params-broken ((k, v) ∷ params) s h =
      elim (Option-cases (resolve_value inputs config v)) [
        | inl e ↦ rw (e, resolve_params)
        | inr (w, e) ↦ rw (e, resolve_params) (resolve_params-broken params s h)
      ]

  -- A feature that is broken stays so: in a replay under this transformer it is not executed again,
  -- whatever the configuration, and the shape and the allocator stay as they are.
  pub dispatch-resolve_config_refs :
      (K : Shapes) (x : Executor K) (f : Feature)
      (st : ReplayState K (record x { transform = some (resolve_config_refs inputs config) }))
      → is_broken f.status ≡ true
      → let out =
          dispatch K (record x { transform = some (resolve_config_refs inputs config) }) f st in
        (is_broken out.0 ≡ true) × (out.1 ≡ st.current) × (out.2 ≡ st.tags)
  unfolding dispatch dispatch_transformed resolve_config_refs
  dispatch-resolve_config_refs K x f st h =
      let b : is_broken (resolve_config_refs inputs config f).status ≡ true =
        resolve_params-broken f.params f.status h in
      rw (b, dispatch_transformed) (b, refl, refl)
