-- ===== src/Planner/EncryptionKeys/Restart.antt =====
-- pkg/planner/encryptionkeyrotation.go: the leader of a rotation, and restarting the servers.
use cluster_api_provider_ran.Prelude.{
  String, Bool, true, false, not, ◌&&◌, Option, none, some, List, [], ◌∷◌, lookup, ℤ, pos, is_some,
  ◌||◌, str_eq, ◌<>◌, if◌then◌else◌,
}
use cluster_api_provider_ran.Errors.{
  Error, waiting, other, panic, message, is_err_waiting, Result, ok, err, Run, pure, raise, lift,
  and_then, ◌>>=◌, ◌>>◌,
}
use cluster_api_provider_ran.Plan.{NodePlan, Node}
use cluster_api_provider_ran.Objects.{Machine, Value, Api}
use cluster_api_provider_ran.ControlPlane.{RotateEncryptionKeys, Status, ControlPlane}
use cluster_api_provider_ran.Planner.Entry.{
  Plan, PlanEntry, RoleFilter, is_etcd, is_control_plane, is_init_node, is_not_deleting,
  is_control_plane_and_not_init_node,
}
use cluster_api_provider_ran.Planner.Change.{plan_applied_but_waiting_for_probes}
use cluster_api_provider_ran.Planner.Collect.{entry_of, collect}
use cluster_api_provider_ran.Planner.Desired.{ConfigPlan}
use cluster_api_provider_ran.Planner.EtcdCreate.{on_status}
use cluster_api_provider_ran.Planner.EtcdRestore.Phases.{on_world}
use cluster_api_provider_ran.Planner.FullReconcile.{Round}
use cluster_api_provider_ran.Planner.InitNode.{on_target}
use cluster_api_provider_ran.Planner.Messages.{probes_message}
use cluster_api_provider_ran.Planner.Probes.{generate_probes}
use cluster_api_provider_ran.Planner.Store.Assign.{assign_and_check_plan}
use cluster_api_provider_ran.Planner.Store.Update.{Target}
use cluster_api_provider_ran.Planner.EncryptionKeys.State.{
  key_phase_text, encryption_key_rotation_failed,
}
use cluster_api_provider_ran.Planner.EncryptionKeys.Plans.{restart_plan}
use cluster_api_provider_ran.Planner.EncryptionKeys.Stage.{stage_from_one_time_status}

-- What an operation on an entry answers, with the entry as it is then. An error is a value here.
unfoldable pub observed :
    {S : Type 0} → Run (Target S) (Unit {0}) → Run (Target S) (Result (Unit {0}) × PlanEntry)
observed m t = let (r, u) = m t in (ok (r, u.entry), u)

-- The error of a node that waits says which probes it waits for.
unfoldable pub for_probes : Error → Option Node → Error
unfolding plan_applied_but_waiting_for_probes probes_message
for_probes x none = panic "nil pointer dereference"
for_probes x (some node) =
    if plan_applied_but_waiting_for_probes node
    then waiting (message x <> ": " <> probes_message node)
    else x

unfoldable pub stage_of : (String → Node → Result String) → PlanEntry → Result String
stage_of read e = elim e.plan [
  | none ↦ err (panic "nil pointer dereference")
  | some node ↦ read e.machine.name node
]

unfoldable pub encryption_key_rotation_is_control_plane_and_not_leader_and_init :
    ControlPlane → RoleFilter
encryption_key_rotation_is_control_plane_and_not_leader_and_init cp e =
    is_control_plane_and_not_init_node e
    && not (str_eq cp.status.rotate_encryption_keys_leader e.machine.name)

unfoldable pub encryption_key_rotation_is_etcd_and_not_control_plane_and_not_leader_and_init :
    ControlPlane → RoleFilter
encryption_key_rotation_is_etcd_and_not_control_plane_and_not_leader_and_init cp e =
    is_etcd e
    && not (is_control_plane e)
    && not (str_eq cp.status.rotate_encryption_keys_leader e.machine.name)
    && not (is_init_node e)

-- A leader and a follower whose stages differ, by the names of their nodes
unfoldable pub mismatch : Option String → String → Option String → String → Run Status (Unit {0})
unfolding encryption_key_rotation_failed
mismatch (some leader) leader_stage (some follower) stage = encryption_key_rotation_failed (
    other (
      "leader [" <> leader <> "] with " <> leader_stage <> " stage and follower [" <> follower
      <> "] with " <> stage <> " stage"))
mismatch _ leader_stage _ stage = raise (panic "nil pointer dereference")

module _ {S : Type 0} (api : Api S) where
  unfoldable pub encryption_key_rotation_is_suitable_control_plane : RoleFilter
  encryption_key_rotation_is_suitable_control_plane e =
      is_control_plane e
      && is_not_deleting e
      && is_some e.machine.node_ref
      && api.is_true "Ready" e.machine.conditions

  unfoldable pub first_suitable : List PlanEntry → Result PlanEntry
  first_suitable [] = err (other "no suitable control plane nodes for encryption key rotation")
  first_suitable (e ∷ es) = ok e

  -- The leader that the status names is not in the plan, or not suitable.
  unfoldable pub elect_leader : Status → Plan → PlanEntry → Result PlanEntry
  unfolding encryption_key_rotation_is_suitable_control_plane first_suitable
  elect_leader s p init =
      if not (str_eq (key_phase_text s.rotate_encryption_keys_phase) "Prepare")
      then err (
          other (
            "cannot elect control plane leader in phase "
            <> key_phase_text s.rotate_encryption_keys_phase))
      else if is_control_plane init
      then ok init
      else first_suitable (collect p encryption_key_rotation_is_suitable_control_plane)

  unfoldable pub leader_or_elect : Status → Plan → PlanEntry → Option Machine → Result PlanEntry
  unfolding entry_of encryption_key_rotation_is_suitable_control_plane elect_leader
  leader_or_elect s p init none = elect_leader s p init
  leader_or_elect s p init (some machine) =
      let e = entry_of p s.rotate_encryption_keys_leader machine in
      if encryption_key_rotation_is_suitable_control_plane e then ok e else elect_leader s p init

  unfoldable pub encryption_key_rotation_find_leader : Status → Plan → PlanEntry → Result PlanEntry
  unfolding leader_or_elect
  encryption_key_rotation_find_leader s p init =
      leader_or_elect s p init (lookup s.rotate_encryption_keys_leader p.machines)

module _ {S : Type 0} (api : Api S) (to_string : Value → String) (cp : ControlPlane)
    (config_plan : ConfigPlan) (rotate : RotateEncryptionKeys) where
  -- The plan that restarts the server of a node, with the server that it joins
  unfoldable pub restart_plan_of : PlanEntry → String → String → Result (NodePlan × String)
  unfolding restart_plan generate_probes
  restart_plan_of e leader_stage join_server = and_then (config_plan e join_server true) (λ c.
      and_then (generate_probes to_string cp e c.config) (λ probes. ok (
        record (restart_plan api cp rotate e leader_stage c.node_plan) { probes = probes },
        c.joined_server,
      )))

  abbrev pub assign_for :
      ℤ → PlanEntry → NodePlan × String → Run (Round S) (Result (Unit {0}) × PlanEntry)
  assign_for n e (p, joined) = on_world (
      on_target e (
        observed (
          assign_and_check_plan api
            ("encryption key rotation ["
              <> key_phase_text cp.status.rotate_encryption_keys_phase
              <> "] for machine ["
              <> e.machine.name
              <> "]")
            p joined n n)))

  unfoldable pub restarted : Result (Unit {0}) × PlanEntry → Run (Round S) PlanEntry
  unfolding for_probes encryption_key_rotation_failed
  restarted (ok _, e) = pure e
  restarted (err x, e) =
      if is_err_waiting x
      then raise (for_probes x e.plan)
      else on_status (encryption_key_rotation_failed x)

  unfoldable pub scraped : Bool → PlanEntry → Result String
  unfolding stage_of
  scraped scrape_stage e =
      if not scrape_stage || not (is_control_plane e)
      then ok ""
      else stage_of stage_from_one_time_status e

  -- The stage of the node, once its server is restarted
  unfoldable pub encryption_key_rotation_restart_service :
      String → PlanEntry → Bool → String → Run (Round S) String
  unfolding restart_plan_of restarted scraped
  encryption_key_rotation_restart_service join_server e scrape_stage leader_stage = do
    planned ← lift (restart_plan_of e leader_stage join_server)
    answer ← assign_for (pos 5) e planned
    e' ← restarted answer
    lift (scraped scrape_stage e')

  unfoldable pub restart_each : String → List PlanEntry → Run (Round S) (Unit {0})
  unfolding encryption_key_rotation_restart_service
  restart_each join_server [] = pure tt
  restart_each join_server (e ∷ es) =
      encryption_key_rotation_restart_service join_server e false "" >> restart_each join_server es

  -- A follower that is at another stage than the leader is a failure.
  unfoldable pub same_stage : PlanEntry → String → PlanEntry → String → Run (Round S) (Unit {0})
  unfolding mismatch
  same_stage leader leader_stage e stage =
      if str_eq stage leader_stage
      then pure tt
      else on_status (mismatch leader.machine.node_ref leader_stage e.machine.node_ref stage)

  unfoldable pub restart_followers :
      String → PlanEntry → String → List PlanEntry → Run (Round S) (Unit {0})
  unfolding encryption_key_rotation_restart_service same_stage
  restart_followers join_server leader leader_stage [] = pure tt
  restart_followers join_server leader leader_stage (e ∷ es) = do
    stage ← encryption_key_rotation_restart_service join_server e true leader_stage
    same_stage leader leader_stage e stage
    restart_followers join_server leader leader_stage es

  -- With a leader that is not the init node, the init node and the nodes with etcd alone come first.
  unfoldable pub restart_before_leader : String → PlanEntry → PlanEntry → Run (Round S) (Unit {0})
  unfolding encryption_key_rotation_restart_service restart_each
      encryption_key_rotation_is_etcd_and_not_control_plane_and_not_leader_and_init
  restart_before_leader join_server leader init =
      if is_init_node leader
      then pure tt
      else encryption_key_rotation_restart_service join_server init false "" >> (λ t.
        restart_each join_server
          (collect t.world.plan
            (encryption_key_rotation_is_etcd_and_not_control_plane_and_not_leader_and_init cp))
          t)

  unfoldable pub restart_after_leader : String → PlanEntry → String → Run (Round S) (Unit {0})
  unfolding restart_followers encryption_key_rotation_is_control_plane_and_not_leader_and_init
  restart_after_leader join_server leader leader_stage t =
      restart_followers join_server leader leader_stage
        (collect t.world.plan (encryption_key_rotation_is_control_plane_and_not_leader_and_init cp))
        t

  unfoldable pub encryption_key_rotation_restart_nodes :
      String → PlanEntry → PlanEntry → Run (Round S) (Unit {0})
  unfolding encryption_key_rotation_restart_service restart_before_leader restart_after_leader
  encryption_key_rotation_restart_nodes join_server leader init = do
    restart_before_leader join_server leader init
    leader_stage ← encryption_key_rotation_restart_service join_server leader true ""
    restart_after_leader join_server leader leader_stage
