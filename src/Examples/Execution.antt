-- ===== src/Examples/Execution.antt =====
-- feature/feature.cpp and feature_schema.cpp on a fillet, where a shape is a number.
use oreo_kernel.Prelude.{
  true, false, ◌≡◌, refl, [], ◌∷◌, some, none, ltb, leb, string_eq, Result, ok, arith,
}
use oreo_kernel.Prelude.Int.{pos, pos_part}
use oreo_kernel.Prelude.Dict.{lookup}
use oreo_kernel.Tags.{fresh, next_shape_identity}
use oreo_kernel.Feature.{
  Feature, ElementRef, double, element_ref_list, not_executed, execution_failed,
}
use oreo_kernel.Tree.Resolve.{ResolvedRef}
use oreo_kernel.Tree.Deterministic.{IsDeterministic}
use oreo_kernel.Examples.Replay.{numbers}
use oreo_kernel.Execution.{Reals}
use oreo_kernel.Execution.Validate.{validate_feature}
use oreo_kernel.Execution.Dispatch.{Operations, run_edges, dispatch_type}
use oreo_kernel.Execution.Program.{refs_of, double_of}
use oreo_kernel.Execution.Tame.{Fine, next_shape_identity-agrees}
use oreo_kernel.Execution.Execute.{executor, execute_feature}
use oreo_kernel.Execution.Execute.Laws.{dispatch_type-Fine, executor-IsDeterministic}

abbrev reals : Reals
reals = record {
  doubles = record { is_finite = λ d. true; less = λ a b. ltb a b; of_int = λ z. pos_part z };
  at_most = λ a b. leb a b;
  magnitude = λ t. t.x;
  y_direction = λ d x. x;
  pln_is_finite = λ l a. true;
}

-- Every operation issues an identity and makes the shape 7.
abbrev sevens : Operations numbers
sevens = record {
  perform = λ op tags. (ok (some 7), (next_shape_identity tags).1);
  named = λ topo id. topo;
}

abbrev resolves : ElementRef → Result (ResolvedRef numbers)
resolves ref = ok (record {
  shape = 3;
  indexed_name = record { type = "Edge"; index = pos 1 };
  resolved = true;
  named_shape = 0;
  is_whole_shape = false;
})

abbrev fillet_feature : Feature
fillet_feature = record {
  id = "F2";
  type = "Fillet";
  params =
      (
        "edges",
        element_ref_list
            (record { feature_id = "F1"; element_name = "Edge1"; element_type = "Edge" } ∷ []),
      )
      ∷ (("radius", double 0x3ff0000000000000) ∷ []);
  suppressed = false;
  status = not_executed;
}

fillet_accepted : (validate_feature reals fillet_feature).accepted ≡ true
unfolding validate_feature lookup
fillet_accepted = refl

dispatch_type-Fine_example :
    Fine (dispatch_type numbers sevens resolves fillet_feature.params 5 "Fillet" fresh).0
dispatch_type-Fine_example =
    dispatch_type-Fine numbers reals sevens resolves fillet_feature 5 fresh fillet_accepted

executed : (execute_feature numbers reals sevens fresh fillet_feature 5 resolves).value ≡ some 7
unfolding execute_feature lookup run_edges refs_of double_of
executed = refl

-- Without a radius, nothing is executed.
no_radius :
    (execute_feature numbers reals sevens fresh
      (record fillet_feature { params = ("edges", element_ref_list []) ∷ [] })
      5
      resolves).status
    ≡ execution_failed
unfolding execute_feature lookup
no_radius = refl

executor-IsDeterministic_example : IsDeterministic numbers (executor numbers reals sevens none)
executor-IsDeterministic_example =
    executor-IsDeterministic numbers reals sevens none
      (λ op a b s. (refl, (next_shape_identity-agrees a b s).1))
      (λ t f g h e. absurd (ground arith))
