-- ===== src/Planner/Change.antt =====
-- pkg/planner/planner.go: how a node's plan differs from the plan wanted, and whether the node counts
-- as unavailable.
pub mod Laws
use cluster_api_provider_ran.Prelude.{
  String, Bool, true, false, not, ◌&&◌, ◌||◌, Option, none, some, List, [], ◌∷◌, Assoc, lookup,
  insert, delete, is_empty, str_eq, if◌then◌else◌,
}
use cluster_api_provider_ran.Plan.{File, NodePlan, Node}
use cluster_api_provider_ran.Plan.Equal.{
  list_eq, map_eq, one_time_instruction_eq, periodic_instruction_eq, probe_eq, node_plan_eq,
}
use cluster_api_provider_ran.Names
use cluster_api_provider_ran.Planner.Entry.{PlanEntry, annotation}

-- newFiles by path; a later file of the same path replaces an earlier one
unfoldable pub files_by_path : List File → Assoc File → Assoc File
files_by_path [] m = m
files_by_path (f ∷ fs) m = files_by_path fs (insert f.path f m)

-- The loop over the old files: `none` is the early return on an old major file that is gone.
unfoldable pub drop_unchanged : List File → Assoc File → Option (Assoc File)
drop_unchanged [] m = some m
drop_unchanged (old ∷ fs) m = elim (lookup old.path m) [
  | some new ↦ drop_unchanged fs (if str_eq old.content new.content then delete old.path m else m)
  | none ↦ if not old.minor then none else drop_unchanged fs m
]

unfoldable pub all_minor : Assoc File → Bool
all_minor [] = true
all_minor ((path, f) ∷ fs) = let rest = all_minor fs in if not f.minor then false else rest

-- The end of minorPlanChangeDetected, on the new files that are left.
unfoldable pub minor_rest : Option (Assoc File) → Bool
unfolding all_minor
minor_rest none = false
minor_rest (some m) = if not (is_empty m) then all_minor m else false

unfoldable pub minor_plan_change_detected : NodePlan → NodePlan → Bool
unfolding files_by_path drop_unchanged minor_rest
minor_plan_change_detected old new =
    if not (list_eq one_time_instruction_eq old.instructions new.instructions)
      || not (list_eq periodic_instruction_eq old.periodic_instructions new.periodic_instructions)
      || not (map_eq probe_eq old.probes new.probes)
      || not (str_eq old.error new.error)
    then false
    else if is_empty old.files && is_empty new.files
    then false
    else minor_rest (drop_unchanged old.files (files_by_path new.files []))

-- A node with the plan wanted for it. `change` and `minor_change` are false without a plan.
pub record Reconcilable : Type 0 where
  pub entry : PlanEntry
  pub desired_plan : NodePlan
  pub joined_url : String
  pub change : Bool
  pub minor_change : Bool

unfoldable pub is_in_drain : PlanEntry → Bool
is_in_drain e =
    not (str_eq (annotation Names.pre_drain_annotation e) "")
    || not (str_eq (annotation Names.post_drain_annotation e) "")
    || not (str_eq (annotation Names.drain_annotation e) "")
    || not (str_eq (annotation Names.uncordon_annotation e) "")

-- isUnavailable; the node is r.entry.Plan, which its callers have found not to be nil.
unfoldable pub is_unavailable : Reconcilable → Node → Bool
unfolding is_in_drain
is_unavailable r node =
    not node.in_sync
    || is_in_drain r.entry
    || (not r.change && not r.minor_change && not node.healthy)

abbrev applied_is : Option NodePlan → NodePlan → Bool
applied_is none plan = false
applied_is (some applied) plan = node_plan_eq plan applied

unfoldable pub plan_applied_but_waiting_for_probes : Node → Bool
plan_applied_but_waiting_for_probes node =
    applied_is node.applied_plan node.node_plan && not node.healthy

unfoldable pub plan_applied_but_probes_never_healthy : Node → Bool
plan_applied_but_probes_never_healthy node =
    applied_is node.applied_plan node.node_plan && not node.healthy && not node.probes_usable
