-- ===== src/Planner/Store/Assign.antt =====
-- pkg/planner/store.go: `assignAndCheckPlan`, the step of every multi-node operation.
use cluster_api_provider_ran.Prelude.{
  String, Bool, false, not, Option, none, some, ℤ, ◌<>◌, if◌then◌else◌,
}
use cluster_api_provider_ran.Errors.{waiting, other, Run, pure, raise, gets, ◌>>=◌, ◌>>◌}
use cluster_api_provider_ran.Plan.{NodePlan, Node}
use cluster_api_provider_ran.Plan.Equal.{node_plan_eq}
use cluster_api_provider_ran.Objects.{Api}
use cluster_api_provider_ran.Planner.Store.Update.{Target, update_plan}

-- Whether the plan that a node has is the plan given.
unfoldable pub has_plan : NodePlan → Option Node → Bool
has_plan new_plan none = false
has_plan new_plan (some node) = node_plan_eq node.node_plan new_plan

module _ {S : Type 0} (api : Api S) (msg : String) where
  unfoldable pub check_plan : Option Node → Run (Target S) (Unit {0})
  check_plan none = pure tt
  check_plan (some node) =
      if node.failed
      then raise (other ("operation " <> msg <> " failed"))
      else if not node.in_sync
      then raise (waiting ("waiting for " <> msg))
      else if not node.healthy
      then raise (waiting ("waiting for " <> msg <> " probes"))
      else pure tt

  -- The two numbers are passed on in the order of the arguments, to parameters that `UpdatePlan`
  -- calls maxFailures and failureThreshold.
  unfoldable pub assign_and_check_plan : NodePlan → String → ℤ → ℤ → Run (Target S) (Unit {0})
  unfolding has_plan check_plan
  assign_and_check_plan new_plan joined_to failure_threshold max_retries = do
    e ← gets (λ t. t.entry)
    if has_plan new_plan e.plan then check_plan e.plan else do
      update_plan api new_plan joined_to failure_threshold max_retries
      raise (waiting ("starting " <> msg))
