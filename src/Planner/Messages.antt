-- ===== src/Planner/Messages.antt =====
-- pkg/planner/messages.go, and the status messages of pkg/planner/store.go.
use cluster_api_provider_ran.Prelude.{
  ◌-◌, String, not, Option, none, some, List, [], ◌∷◌, Assoc, lookup, length, take, is_empty, ltb,
  ◌==◌, str_eq, str_le, join, itoa, pos, ◌<>◌, or_zero, if◌then◌else◌,
}
use cluster_api_provider_ran.Plan.{Node, ProbeStatus}
use cluster_api_provider_ran.Objects.{Condition, Machine}
use cluster_api_provider_ran.Names
use cluster_api_provider_ran.Planner.Entry.{PlanEntry, is_etcd, is_control_plane}

-- sort.Strings
unfoldable pub insert_string : String → List String → List String
insert_string x [] = x ∷ []
insert_string x (y ∷ ys) = if str_le x y then x ∷ y ∷ ys else y ∷ insert_string x ys

unfoldable pub sort_strings : List String → List String
unfolding insert_string
sort_strings [] = []
sort_strings (x ∷ xs) = insert_string x (sort_strings xs)

-- atMostThree sorts the caller's slice too; no caller depends on that slice's order.
unfoldable pub at_most_three : List String → String
unfolding sort_strings
at_most_three names =
    let sorted = sort_strings names in
    if ltb 3 (length sorted)
    then join "," (take 3 sorted) <> " and " <> itoa (pos (length sorted - 3)) <> " more"
    else join "," sorted

abbrev pub Messages : Type 0
Messages = Assoc (List String)

-- messages[name]
unfoldable pub messages_of : String → Messages → List String
messages_of name messages = or_zero [] (lookup name messages)

-- Only a lone machine's messages are spelled out.
unfoldable pub detailed_message : List String → Messages → String
unfolding messages_of
detailed_message (machine ∷ []) messages =
    if is_empty (messages_of machine messages)
    then ""
    else ": " <> join ", " (messages_of machine messages)
detailed_message _ messages = ""

unfoldable pub without_reconciled : List Condition → List Condition
without_reconciled [] = []
without_reconciled (c ∷ cs) =
    let rest = without_reconciled cs in
    if not (str_eq c.condition_type Names.reconciled) then c ∷ rest else rest

-- The early return on an equal length gives the same conditions. SetConditions of the Cluster API
-- stores the slice.
unfoldable pub remove_reconciled_condition : Machine → Machine
unfolding without_reconciled
remove_reconciled_condition machine =
    if length (without_reconciled machine.conditions) == length machine.conditions
    then machine
    else record machine { conditions = without_reconciled machine.conditions }

unfoldable pub no_plan_message : PlanEntry → String
no_plan_message e =
    if is_etcd e
    then "waiting for bootstrap etcd to be available"
    else if is_control_plane e
    then "waiting for etcd to be available"
    else "waiting for control plane to be available"

unfoldable pub unhealthy_probes : Assoc ProbeStatus → List String
unhealthy_probes [] = []
unhealthy_probes ((name, probe) ∷ ps) =
    let rest = unhealthy_probes ps in if not probe.healthy then name ∷ rest else rest

unfoldable pub probes_message : Node → String
unfolding unhealthy_probes sort_strings
probes_message node =
    "waiting for probes: " <> join ", " (sort_strings (unhealthy_probes node.probe_status))

abbrev pub no_agent_plan_status_message : String
no_agent_plan_status_message = "waiting for agent to check in and apply initial plan"

abbrev pub waiting_plan_status_message : String
waiting_plan_status_message = "waiting for plan to be applied"

abbrev pub failed_plan_status_message : String
failed_plan_status_message = "failure while applying plan"

-- The cases after the first of getPlanStatusReasonMessage, for a node with a plan.
unfoldable pub node_status_message : PlanEntry → Node → Option String
unfolding no_plan_message probes_message
node_status_message e node =
    if is_empty node.node_plan.instructions
    then some (no_plan_message e)
    else elim node.applied_plan [
      | none ↦ some no_agent_plan_status_message
      | some _ ↦
          if not (str_eq node.node_plan.error "")
          then some node.node_plan.error
          else if not node.healthy
          then some (probes_message node)
          else if node.in_sync
          then none
          else if node.failed
          then some failed_plan_status_message
          else some waiting_plan_status_message
    ]

-- The empty text, which stands for no message, is `none` in the helper above.
unfoldable pub get_plan_status_reason_message : PlanEntry → String
unfolding node_status_message
get_plan_status_reason_message e = elim e.plan [
  | none ↦ no_plan_message e
  | some node ↦ or_zero "" (node_status_message e node)
]
