-- ===== src/Execution/Execute.antt =====
-- feature/feature.cpp: executeFeature, as the Executor of the replay engine.
pub mod Laws
use oreo_kernel.Prelude.{Bool, true, false, not, Option, none, some, if◌then◌else◌, Result}
use oreo_kernel.Feature.{
  Feature, ElementRef, FeatureStatus, status_ok, broken_reference, execution_failed,
  suppressed_status,
}
use oreo_kernel.Tags.{TagAllocator}
use oreo_kernel.Tree.Resolve.{Shapes, ResolvedRef}
use oreo_kernel.Tree.Replay.{Executed, Executor}
use oreo_kernel.Execution.{Reals}
use oreo_kernel.Execution.Validate.{validate_feature}
use oreo_kernel.Execution.Program.{Run, done, stopped, Stop, broken}
use oreo_kernel.Execution.Dispatch.{Operations, dispatch_type}

-- The status that a way of leaving sets.
unfoldable pub stop_status : Stop → FeatureStatus
stop_status broken = broken_reference
stop_status _ = execution_failed

module _ (K : Shapes) where
  -- The end of executeFeature: extractResult of the operation's result, or the failure.
  unfoldable pub outcome : Run (Option K.Named) → TagAllocator → Executed K
  unfolding stop_status
  outcome (done (some shape)) tags = record { value = some shape; status = status_ok; tags = tags }
  outcome (done none) tags = record { value = none; status = execution_failed; tags = tags }
  outcome (stopped s) tags = record { value = none; status = stop_status s; tags = tags }

  module _ (R : Reals) (O : Operations K) where
    -- A feature that is not suppressed, after its status was reset.
    unfoldable pub execute_checked :
        TagAllocator → Feature → K.Named → (ElementRef → Result (ResolvedRef K)) → Executed K
    unfolding validate_feature dispatch_type outcome
    execute_checked tags f current resolver =
        let checked = validate_feature R f in
        if not checked.accepted
        then record { value = none; status = checked.feature.status; tags = tags }
        else (let (run, tags') = dispatch_type K O resolver f.params current f.type tags in
            outcome run tags')

    unfoldable pub execute_feature :
        TagAllocator → Feature → K.Named → (ElementRef → Result (ResolvedRef K)) → Executed K
    unfolding execute_checked
    execute_feature tags f current resolver =
        if f.suppressed
        then record { value = some current; status = suppressed_status; tags = tags }
        else execute_checked tags (record f { status = status_ok }) current resolver

    abbrev pub executor : Option (Feature → Feature) → Executor K
    executor transform = record { execute = execute_feature; transform = transform }
