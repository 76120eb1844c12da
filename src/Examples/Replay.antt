-- ===== src/Examples/Replay.antt =====
-- feature/feature_tree.cpp: replay on a small tree, where a shape is a number and 0 is the null shape.
use oreo_kernel.Prelude.{
  ℕ, ◌+◌, ◌%◌, String, true, false, ◌≡◌, refl, ap, ◌∙◌, [], ◌∷◌, Option, some, none, ◌==◌,
  string_eq, if◌then◌else◌, arith, nat_beq, Result, ok, throw, out_of_range,
}
use oreo_kernel.Prelude.Dict.{Dict, lookup}
use oreo_kernel.Prelude.Int.{pos}
use oreo_kernel.Feature.{
  Feature, ElementRef, is_null_ref, ParamValue, element_ref, FeatureStatus, status_ok,
  broken_reference, not_executed, execution_failed,
}
use oreo_kernel.Identity.{u64}
use oreo_kernel.Tags.{TagAllocator, fresh, next_shape_identity}
use oreo_kernel.Tree.{FeatureTree, empty_tree}
use oreo_kernel.Tree.Resolve.{
  Shapes, ResolvedRef, resolve_reference, plain_name, is_suppressed, split_at_digit, stoi,
  leading_number, is_digit, resolve_root,
}
use oreo_kernel.Tree.Replay.{Executor, replay}
use oreo_kernel.Tree.Deterministic.{plain, SameTags, IsDeterministic}
use oreo_kernel.Tree.ReplayLaws.{replay-deterministic}
use oreo_kernel.Tree.Settled.{AllSettled, Spends, replay-settles}
use oreo_kernel.Tree.ResolveLaws.{resolve_reference-resolved}

abbrev pub numbers : Shapes
numbers = record {
  Named = ℕ;
  Topo = ℕ;
  no_shape = 0;
  is_null = λ n. nat_beq n 0;
  shape = λ n. n;
  no_topo = 0;
  topo_is_null = λ n. nat_beq n 0;
  elements = λ n. none;
  sub_shapes = λ kind n. [];
}

abbrev profile_of : Option ParamValue → Option ElementRef
profile_of (some (element_ref r)) = some r
profile_of _ = none

abbrev value_of : Option ElementRef → ℕ → (ElementRef → Result (ResolvedRef numbers)) → Option ℕ
value_of none s resolver = some (s + 1)
value_of (some r) s resolver = elim (resolver r) [
  | throw _ ↦ none
  | ok res ↦ if res.resolved then some (s + res.shape) else none
]

abbrev status_of : Option ℕ → FeatureStatus
status_of none = broken_reference
status_of (some _) = status_ok

abbrev bump : TagAllocator → TagAllocator
bump a = (next_shape_identity a).1

-- A feature allocates one identity. Without a profile it adds 1 to the shape, with one it adds that.
abbrev pub adder : Executor numbers
adder = record {
  execute = λ a f s resolver. record {
    value = value_of (profile_of (lookup "profile" f.params)) s resolver;
    status = status_of (value_of (profile_of (lookup "profile" f.params)) s resolver);
    tags = bump a;
  };
  transform = none;
}

value_of-agrees :
    (p : Option ElementRef) (s : ℕ) (r q : ElementRef → Result (ResolvedRef numbers))
    → ((e : ElementRef) → r e ≡ q e)
    → value_of p s r ≡ value_of p s q
value_of-agrees none s r q h = refl
value_of-agrees (some e) s r q h = rw (h e, value_of)

value_of_params-agrees :
    (f g : Feature) (s : ℕ) (r q : ElementRef → Result (ResolvedRef numbers))
    → plain f ≡ plain g
    → ((e : ElementRef) → r e ≡ q e)
    → value_of (profile_of (lookup "profile" f.params)) s r
      ≡ value_of (profile_of (lookup "profile" g.params)) s q
value_of_params-agrees f g s r q e h =
    ap (λ k. value_of (profile_of (lookup "profile" k.params)) s r) e
    ∙ value_of-agrees (profile_of (lookup "profile" g.params)) s r q h

adder-IsDeterministic : IsDeterministic numbers adder
unfolding next_shape_identity
adder-IsDeterministic = record {
  execute = λ a b f g s r q t e h. (
    value_of_params-agrees f g s r q e h,
    ap status_of (value_of_params-agrees f g s r q e h),
    record { document = t.document; counter = ap (λ c. (c + 1) % u64) t.counter },
  );
  transform = λ t f g h e. cc;
}

adder-Spends : Spends numbers adder (λ _. 1)
unfolding next_shape_identity
adder-Spends a f s r h = omega arith

abbrev block : Feature
block = record {
  id = "B";
  type = "MakeBox";
  params = [];
  suppressed = false;
  status = not_executed;
}

abbrev joined : Feature
joined = record {
  id = "J";
  type = "BooleanUnion";
  params =
      (
        "profile",
        element_ref (record { feature_id = "B"; element_name = "ROOT"; element_type = "Solid" }),
      )
      ∷ [];
  suppressed = false;
  status = not_executed;
}

abbrev part : FeatureTree ℕ
part = record empty_tree { features = block ∷ joined ∷ [] }

abbrev stale : FeatureTree ℕ
stale = record empty_tree {
  features = block ∷ record joined { status = execution_failed } ∷ [];
  cache = ("J", 17) ∷ [];
}

replay-deterministic_example :
    let r = replay numbers adder part fresh in
    let r' = replay numbers adder stale (record fresh { counter = 9 }) in
    (r.0 ≡ r'.0)
    × (r.1.current ≡ r'.1.current)
    × (r.1.tree.cache ≡ r'.1.tree.cache)
    × (r.1.tree.snapshots_before ≡ r'.1.tree.snapshots_before)
    × SameTags r.1.tags r'.1.tags
replay-deterministic_example =
    replay-deterministic numbers adder part stale fresh (record fresh { counter = 9 })
      adder-IsDeterministic (refl, (refl, tt)) refl

replay-settles_example :
    ((replay numbers adder stale fresh).0 ≡ ok tt)
    × AllSettled stale.features (replay numbers adder stale fresh).1.tree
replay-settles_example =
    replay-settles numbers adder (λ _. 1) stale fresh adder-Spends (omega arith)

abbrev cached_block : Dict String ℕ
cached_block = ("B", 5) ∷ []

abbrev whole : ElementRef
whole = record { feature_id = "B"; element_name = "ROOT"; element_type = "Solid" }

abbrev whole_resolved : ResolvedRef numbers
whole_resolved = record {
  shape = 5;
  indexed_name = record { type = "Shape"; index = pos 1 };
  resolved = true;
  named_shape = 5;
  is_whole_shape = true;
}

whole_resolves :
    resolve_reference numbers (block ∷ joined ∷ []) cached_block whole ≡ ok whole_resolved
unfolding resolve_reference resolve_root is_suppressed lookup is_null_ref
whole_resolves = refl

resolve_reference-resolved_example :
    (is_null_ref whole ≡ false)
    × (is_suppressed numbers (block ∷ joined ∷ []) "B" ≡ false)
    × (whole_resolved.is_whole_shape ≡ (whole.element_name == "ROOT"))
    × ((named : ℕ) × (lookup "B" cached_block ≡ some named)
        × (nat_beq named 0 ≡ false)
        × ((whole.element_name == "ROOT") ≡ true
            → (whole_resolved.named_shape ≡ named)
              × ((whole.element_type == "Face") ≡ false)
              × ((whole.element_type == "Edge") ≡ false)
              × ((whole.element_type == "Vertex") ≡ false)))
resolve_reference-resolved_example =
    resolve_reference-resolved numbers (block ∷ joined ∷ []) cached_block whole whole_resolved
      whole_resolves refl

-- std::stoi throws at an index that is no int.
plain_name_throws : plain_name "Face99999999999" ≡ throw out_of_range
unfolding plain_name split_at_digit stoi leading_number is_digit
plain_name_throws = refl
