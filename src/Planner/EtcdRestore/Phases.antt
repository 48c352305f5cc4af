-- ===== src/Planner/EtcdRestore/Phases.antt =====
-- pkg/planner/etcdrestore.go: the phases of a restore that is asked for.
use cluster_api_provider_ran.Prelude.{
  ℕ, String, Bool, true, false, not, ◌&&◌, Option, none, some, List, [], ◌∷◌, ◌++◌, Assoc, lookup,
  pos, str_eq, ◌<>◌, if◌then◌else◌,
}
use cluster_api_provider_ran.Errors.{
  Error, waiting, other, is_not_found, Result, ok, err, Run, pure, lift, and_then, ◌>>=◌, ◌>>◌,
}
use cluster_api_provider_ran.Plan.{NodePlan, File, OneTimeInstruction}
use cluster_api_provider_ran.Objects.{Machine, Value, Api}
use cluster_api_provider_ran.ControlPlane.{
  EtcdSnapshotPhase, EtcdSnapshotRestore, Status, ControlPlane,
}
use cluster_api_provider_ran.Planner.Entry.{
  PlanEntry, role_and, role_not, is_init_node, is_control_plane, is_deleting, is_not_deleting,
}
use cluster_api_provider_ran.Planner.Collect.{collect}
use cluster_api_provider_ran.Planner.CapiCluster.{ClusterApi, pause_capi_cluster}
use cluster_api_provider_ran.Planner.Desired.{ConfigPlan, desired_plan}
use cluster_api_provider_ran.Planner.Instructions.{InfoFunctions}
use cluster_api_provider_ran.Planner.S3Args.{S3Api}
use cluster_api_provider_ran.Planner.InitNode.{Found, find_init_node, on_target}
use cluster_api_provider_ran.Planner.EtcdCreate.{on_status}
use cluster_api_provider_ran.Planner.FullReconcile.{Round, full_reconcile}
use cluster_api_provider_ran.Planner.Reconcile.Pass.{World}
use cluster_api_provider_ran.Planner.Store.Assign.{assign_and_check_plan}
use cluster_api_provider_ran.Planner.EtcdRestore.State.{
  set_etcd_snapshot_restore_state, reset_etcd_snapshot_restore_state,
  start_or_restart_etcd_snapshot_restore, advance_config_generation, uninitialized,
}
use cluster_api_provider_ran.Planner.EtcdRestore.Plans.{
  EtcdSnapshot, add_instructions, add_files, generate_etcd_snapshot_restore_plan,
  generate_etcd_restore_pod_cleanup_files_and_instruction,
  generate_etcd_restore_node_cleanup_files_and_instruction,
}
use cluster_api_provider_ran.Planner.EtcdRestore.Stop.{
  RestoreApi, on_server, run_etcd_restore_init_node_election, run_etcd_restore_service_stop,
}

abbrev pub on_world : {S A : Type 0} → Run (World S) A → Run (Round S) A
on_world m t = let (r, w) = m t.world in (r, record t { world = w })

-- The one init node there is to be
unfoldable pub only_entry : Error → List PlanEntry → Result PlanEntry
only_entry e [] = err e
only_entry e (x ∷ []) = ok x
only_entry e (x ∷ y ∷ rest) = err e

unfoldable pub first_entry : Error → List PlanEntry → Result PlanEntry
first_entry e [] = err e
first_entry e (x ∷ rest) = ok x

abbrev with_cleanup : List File × List OneTimeInstruction → NodePlan × String → NodePlan × String
with_cleanup (files, instructions) (p, joined) =
    (add_instructions instructions (add_files files p), joined)

abbrev node_name_of : Machine → List String
node_name_of machine = elim machine.node_ref [
  | none ↦ []
  | some name ↦ if str_eq name "" then [] else name ∷ []
]

-- The machines and nodes that are kept
unfoldable pub machine_uids : List PlanEntry → List String
machine_uids [] = []
machine_uids (e ∷ es) =
    let rest = machine_uids es in if str_eq e.machine.uid "" then rest else e.machine.uid ∷ rest

unfoldable pub node_names : List PlanEntry → List String
node_names [] = []
node_names (e ∷ es) = node_name_of e.machine ++ node_names es

-- The error of the search counts after the test of the URL.
unfoldable pub join_server_of : Found → Result String
join_server_of f = elim (str_eq f.join_url "") [
  | true ↦ err (waiting "waiting for join server")
  | false ↦ elim f.error [ none ↦ ok f.join_url | some e ↦ err e ]
]

-- `if status, err := m; err != nil { return status, err }`: the status of a success is that of an inner
-- variable, and lost.
unfoldable pub keep_status :
    {S : Type 0} → Status → Result (Unit {0}) × Round S → Result (Unit {0}) × Round S
keep_status s (ok _, t) = (ok tt, record t { status = s })
keep_status s (err e, t) = (err e, t)

abbrev pub shadowed : {S : Type 0} → Run (Round S) (Unit {0}) → Run (Round S) (Unit {0})
shadowed m t = keep_status t.status (m t)

module _ {S : Type 0} (restores : RestoreApi S) where
  abbrev with_spec : Assoc String → Result String
  with_spec md = elim (lookup "provisioning-cluster-spec" md) [
    | none ↦ err (other "unable to find and decode snapshot ClusterSpec for snapshot")
    | some v ↦ restores.decompress_kubernetes_version v
  ]

  -- The Kubernetes version of capr.ParseSnapshotClusterSpecOrError's specification
  unfoldable pub parse_snapshot_cluster_spec_or_error : EtcdSnapshot → Result String
  parse_snapshot_cluster_spec_or_error snapshot =
      if str_eq snapshot.metadata ""
      then err (other "unable to find and decode snapshot ClusterSpec for snapshot")
      else and_then (restores.unmarshal_metadata snapshot.metadata) with_spec

  unfoldable pub compare_versions : Bool → Option Bool → Result (Unit {0})
  compare_versions current_before none = err (other "Invalid Semantic Version")
  compare_versions current_before (some before) =
      if not current_before && before
      then err (
          other
            "unable to restore etcd snapshot -- recorded Kubernetes version on snapshot was <= v1.25.0 and current cluster version was v1.25.0 or newer")
      else ok tt

  -- A specification that cannot be read does not stop the restore.
  unfoldable pub check_spec : Bool → Result String → Result (Unit {0})
  unfolding compare_versions
  check_spec current_before (err e) = ok tt
  check_spec current_before (ok version) =
      compare_versions current_before (restores.before_1_25 version)

  unfoldable pub check_snapshot_version : Bool → Option EtcdSnapshot → Result (Unit {0})
  unfolding parse_snapshot_cluster_spec_or_error check_spec
  check_snapshot_version current_before none = ok tt
  check_snapshot_version current_before (some snapshot) =
      check_spec current_before (parse_snapshot_cluster_spec_or_error snapshot)

  unfoldable pub found_snapshot : Result EtcdSnapshot × S → Result (Option EtcdSnapshot) × S
  found_snapshot (ok snapshot, s) = (ok (some snapshot), s)
  found_snapshot (err e, s) = if is_not_found e then (ok none, s) else (err e, s)

  unfoldable pub retrieve_etcd_snapshot :
      ControlPlane → EtcdSnapshotRestore → Run S (Option EtcdSnapshot)
  unfolding found_snapshot
  retrieve_etcd_snapshot cp restore s =
      if str_eq cp.cluster_name ""
      then (
        err (
            other (
              "cluster name on rkecontrolplane " <> cp.namespace <> "/" <> cp.name
              <> " was blank")),
        s,
      )
      else found_snapshot (restores.cached_snapshot cp.namespace restore.name s)

module _ {S : Type 0} (api : Api S) (clusters : ClusterApi S) (restores : RestoreApi S)
    (s3_api : S3Api) (functions : InfoFunctions) (to_string : Value → String) (cp : ControlPlane)
    (config_plan : ConfigPlan) where
  abbrev desired : PlanEntry → String → Result (NodePlan × String)
  desired = desired_plan api to_string functions cp config_plan

  abbrev assign : ℕ → PlanEntry → NodePlan × String → Run (World S) (Unit {0})
  assign n e (p, joined) =
      on_target e (assign_and_check_plan api "etcd restore" p joined (pos n) (pos n))

  abbrev pod_cleanup : List String → List File × List OneTimeInstruction
  pod_cleanup uids =
      generate_etcd_restore_pod_cleanup_files_and_instruction api s3_api functions cp uids

  abbrev multiple_init_nodes : Error
  multiple_init_nodes = other "multiple init nodes found"

  abbrev collected_only : Error → Run (World S) PlanEntry
  collected_only e w = (only_entry e (collect w.plan is_init_node), w)

  unfoldable pub run_etcd_snapshot_restore_plan :
      Option EtcdSnapshot → String → Run (World S) (Unit {0})
  unfolding run_etcd_restore_init_node_election only_entry pause_capi_cluster
      generate_etcd_snapshot_restore_plan
  run_etcd_snapshot_restore_plan snapshot snapshot_name = do
    join_server ← run_etcd_restore_init_node_election api clusters restores cp snapshot
    server ←
        collected_only (other "more than one init node existed, cannot run etcd snapshot restore")
    on_server (pause_capi_cluster clusters cp true)
    planned ← lift (
        generate_etcd_snapshot_restore_plan api s3_api functions cp config_plan
          restores.is_plain_ipv6 snapshot snapshot_name server join_server)
    assign 1 server planned

  -- The init node has no control plane, so the pods are deleted from another node.
  unfoldable pub clean_up_elsewhere : PlanEntry → String → Run (World S) (Unit {0})
  unfolding first_entry
  clean_up_elsewhere init_node join_server w =
      ((lift (
            first_entry
              (other
                "no suitable controlplane entries found for post restore cleanup during etcd restoration")
              (collect w.plan (role_and is_control_plane (role_not is_deleting))))
          >>= λ e. lift (desired e join_server) >>= λ planned.
              assign 5 e
                (with_cleanup (pod_cleanup (init_node.machine.uid ∷ e.machine.uid ∷ [])) planned))
        w)

  abbrev look_for_join_server : Run (World S) String
  look_for_join_server w = let (f, w') = find_init_node api cp w in (join_server_of f, w')

  unfoldable pub clean_up_pods : PlanEntry → NodePlan × String → Run (World S) (Unit {0})
  unfolding clean_up_elsewhere join_server_of
  clean_up_pods init_node (p, joined) = elim (is_control_plane init_node) [
    | true ↦ assign 5 init_node (with_cleanup (pod_cleanup (init_node.machine.uid ∷ [])) (p, ""))
    | false ↦ assign 5 init_node (p, "") >> (look_for_join_server >>= clean_up_elsewhere init_node)
  ]

  unfoldable pub run_etcd_snapshot_post_restore_pod_cleanup_plan : Run (World S) (Unit {0})
  unfolding only_entry clean_up_pods
  run_etcd_snapshot_post_restore_pod_cleanup_plan = do
    init_node ← collected_only multiple_init_nodes
    planned ← lift (desired init_node "")
    clean_up_pods init_node planned

  unfoldable pub clean_up_nodes :
      EtcdSnapshotRestore → PlanEntry → NodePlan × String → Run (World S) (Unit {0})
  unfolding machine_uids node_names generate_etcd_restore_node_cleanup_files_and_instruction
  clean_up_nodes restore init_node (p, joined) w =
      let kept = collect w.plan is_not_deleting in
      assign 5 init_node
        (with_cleanup
          (generate_etcd_restore_node_cleanup_files_and_instruction api s3_api functions cp restore
            (machine_uids kept) (node_names kept))
          (p, ""))
        w

  unfoldable pub run_etcd_snapshot_post_restore_node_cleanup_plan :
      EtcdSnapshotRestore → Run (World S) (Unit {0})
  unfolding only_entry clean_up_nodes
  run_etcd_snapshot_post_restore_node_cleanup_plan restore = do
    init_node ← collected_only multiple_init_nodes
    planned ← lift (desired init_node "")
    clean_up_nodes restore init_node planned

  abbrev restart : Run (Round S) (Unit {0})
  restart = shadowed (full_reconcile api cp desired true)

  -- Sets the phase, whose error is dropped for one of its own.
  unfoldable pub set_and_wait :
      EtcdSnapshotRestore → EtcdSnapshotPhase → String → Run Status (Unit {0})
  unfolding set_etcd_snapshot_restore_state
  set_and_wait restore phase msg s =
      (err (waiting msg), (set_etcd_snapshot_restore_state (some restore) phase s).1)

  abbrev next_phase : EtcdSnapshotRestore → EtcdSnapshotPhase → Run (Round S) (Unit {0})
  next_phase restore phase = on_status (set_etcd_snapshot_restore_state (some restore) phase)

  abbrev unbootstrapped : Status → Status
  unbootstrapped s = record s { conditions = api.set_condition "Bootstrapped" "False" s.conditions }

  -- The switch over the phase of the stored control plane
  unfoldable pub act_on_restore_phase :
      EtcdSnapshotRestore → Option EtcdSnapshot → EtcdSnapshotPhase → Run (Round S) (Unit {0})
  unfolding run_etcd_restore_service_stop run_etcd_snapshot_restore_plan keep_status
      run_etcd_snapshot_post_restore_pod_cleanup_plan
      run_etcd_snapshot_post_restore_node_cleanup_plan set_and_wait
  act_on_restore_phase restore snapshot EtcdSnapshotPhase.started = on_status (λ s.
      set_and_wait restore EtcdSnapshotPhase.shutdown "shutting down cluster" (uninitialized s))
  act_on_restore_phase restore snapshot EtcdSnapshotPhase.shutdown =
      on_world (
        run_etcd_restore_service_stop api clusters restores s3_api functions cp config_plan
          snapshot)
      >> on_status (λ s.
        set_and_wait restore EtcdSnapshotPhase.restore
          "cluster shutdown complete, running etcd restore" (unbootstrapped s))
  act_on_restore_phase restore snapshot EtcdSnapshotPhase.restore =
      on_world (run_etcd_snapshot_restore_plan snapshot restore.name)
      >> on_status (λ s.
        set_etcd_snapshot_restore_state (some restore) EtcdSnapshotPhase.post_restore_pod_cleanup
          (advance_config_generation s))
  act_on_restore_phase restore snapshot EtcdSnapshotPhase.post_restore_pod_cleanup =
      on_world run_etcd_snapshot_post_restore_pod_cleanup_plan
      >> next_phase restore EtcdSnapshotPhase.initial_restart_cluster
  act_on_restore_phase restore snapshot EtcdSnapshotPhase.initial_restart_cluster =
      on_world (on_server (pause_capi_cluster clusters cp false))
      >> restart
      >> next_phase restore EtcdSnapshotPhase.post_restore_node_cleanup
  act_on_restore_phase restore snapshot EtcdSnapshotPhase.post_restore_node_cleanup =
      on_world (run_etcd_snapshot_post_restore_node_cleanup_plan restore)
      >> next_phase restore EtcdSnapshotPhase.restart_cluster
  act_on_restore_phase restore snapshot EtcdSnapshotPhase.restart_cluster =
      on_world (on_server (pause_capi_cluster clusters cp false))
      >> restart
      >> next_phase restore EtcdSnapshotPhase.finished
  act_on_restore_phase restore snapshot EtcdSnapshotPhase.finished = pure tt
  act_on_restore_phase restore snapshot EtcdSnapshotPhase.unset =
      next_phase restore EtcdSnapshotPhase.started
  act_on_restore_phase restore snapshot EtcdSnapshotPhase.failed =
      next_phase restore EtcdSnapshotPhase.started

  -- A restore that is asked for; `current_before` says whether the cluster's version is before v1.25.0.
  unfoldable pub restore_wanted : Bool → EtcdSnapshotRestore → Run (Round S) (Unit {0})
  unfolding start_or_restart_etcd_snapshot_restore retrieve_etcd_snapshot check_snapshot_version
      act_on_restore_phase
  restore_wanted current_before restore = do
    on_status (start_or_restart_etcd_snapshot_restore restore)
    snapshot ← on_world (on_server (retrieve_etcd_snapshot restores cp restore))
    lift (check_snapshot_version restores current_before snapshot)
    act_on_restore_phase restore snapshot cp.status.etcd_snapshot_restore_phase

  unfoldable pub restore_for : Bool → Option EtcdSnapshotRestore → Run (Round S) (Unit {0})
  unfolding reset_etcd_snapshot_restore_state restore_wanted
  restore_for current_before none = on_status reset_etcd_snapshot_restore_state
  restore_for current_before (some restore) =
      if str_eq restore.name ""
      then on_status reset_etcd_snapshot_restore_state
      else restore_wanted current_before restore

  unfoldable pub restore_etcd_snapshot : Bool → Run (Round S) (Unit {0})
  unfolding restore_for
  restore_etcd_snapshot current_before = restore_for current_before cp.etcd_snapshot_restore
