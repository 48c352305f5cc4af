-- ===== src/Planner/Conditions.antt =====
-- pkg/planner/planner.go: `setMachineConditionStatus`, the Reconciled condition of machines.
use cluster_api_provider_ran.Prelude.{
  String, Bool, true, false, not, Option, none, some, List, [], ◌∷◌, lookup, is_empty, join, str_eq,
  ◌<>◌, if◌then◌else◌,
}
use cluster_api_provider_ran.Errors.{waiting, other, Run, pure, raise, ◌>>=◌, ◌>>◌}
use cluster_api_provider_ran.Objects.{Machine, Api}
use cluster_api_provider_ran.Names
use cluster_api_provider_ran.Planner.Entry.{Plan}
use cluster_api_provider_ran.Planner.Messages.{
  Messages, messages_of, at_most_three, detailed_message,
}

module _ {S : Type 0} (api : Api S) where
  -- What one round of the loop decides for a machine: the machine to store, if any, and whether
  -- something is being waited for.
  unfoldable pub reconciled_change : Machine → List String → Option Machine × Bool
  reconciled_change machine message =
      let msg = join ", " message in
      if not (api.is_true Names.infrastructure_ready machine.conditions)
      then (none, true)
      else if not (is_empty message)
      then (if str_eq (api.get_message Names.reconciled machine.conditions) msg
          then (none, true)
          else (some (api.mark_unknown Names.reconciled "Waiting" msg machine), true))
      else if not (api.is_true Names.reconciled machine.conditions)
      then (some (api.mark_true Names.reconciled machine), true)
      else (none, false)

  unfoldable pub store_machine : Option Machine → Run S (Unit {0})
  store_machine none = pure tt
  store_machine (some machine) = do updated ← api.update_machine_status machine; pure tt

  -- The loop; the flag is `waiting`.
  unfoldable pub set_each : Plan → Messages → List String → Bool → Run S Bool
  unfolding reconciled_change store_machine
  set_each cluster_plan messages [] waits = pure waits
  set_each cluster_plan messages (name ∷ names) waits =
      let rest = set_each cluster_plan messages names in
      elim (lookup name cluster_plan.machines) [
        | none ↦
            raise (other ("found unexpected machine " <> name <> " that is not in cluster plan"))
        | some machine ↦
            let (stored, wait) = reconciled_change machine (messages_of name messages) in
            store_machine stored >> rest (if wait then true else waits)
      ]

  unfoldable pub set_machine_condition_status :
      Plan → List String → String → Messages → Run S (Unit {0})
  unfolding set_each
  set_machine_condition_status cluster_plan names prefix messages = do
    waits ← set_each cluster_plan messages names false
    if waits
        then raise (waiting (prefix <> at_most_three names <> detailed_message names messages))
        else pure tt
