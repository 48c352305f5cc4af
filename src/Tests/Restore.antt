-- ===== src/Tests/Restore.antt =====
-- pkg/planner/etcdrestore.go on the test cluster.
use cluster_api_provider_ran.Prelude.{
  String, ◌≡◌, refl, false, true, none, some, [], ◌∷◌, pos, lookup, get, contains,
}
use cluster_api_provider_ran.Errors.{not_found, Result, ok, err, is_not_found}
use cluster_api_provider_ran.Plan.{NodePlan}
use cluster_api_provider_ran.Objects.{Value}
use cluster_api_provider_ran.ControlPlane.{
  EtcdSnapshotPhase, EtcdSnapshotRestore, Status, ControlPlane, get_runtime,
}
use cluster_api_provider_ran.Planner.Entry.{
  Plan, can_be_init_node, is_etcd, is_deleting, is_failed, is_init_node, annotation, is_only_worker,
  label, role_and, role_not, role_or, any_role_without_windows,
}
use cluster_api_provider_ran.Planner.CapiCluster.{CapiCluster, ClusterApi, pause_capi_cluster}
use cluster_api_provider_ran.Planner.Desired.{ConfigPlan}
use cluster_api_provider_ran.Planner.Instructions.{
  InfoFunctions, generate_install_instruction_with_skip_start,
}
use cluster_api_provider_ran.Planner.S3Args.{S3Api}
use cluster_api_provider_ran.Planner.FullReconcile.{Round}
use cluster_api_provider_ran.Planner.EtcdRestore.Plans.{
  generate_etcd_snapshot_restore_plan, generate_stop_service_and_kill_all_plan,
}
use cluster_api_provider_ran.Planner.EtcdRestore.Stop.{
  RestoreApi, stop_plan, run_etcd_restore_init_node_election,
}
use cluster_api_provider_ran.Planner.EtcdRestore.Phases.{
  restore_etcd_snapshot, act_on_restore_phase,
}
use cluster_api_provider_ran.Planner.EtcdRestore.Steps.{
  RestoreStep, restore_phase, restore_etcd_snapshot_step,
}
use cluster_api_provider_ran.Planner.EtcdRestore.Stopped.{AllStopped}
use cluster_api_provider_ran.Planner.EtcdRestore.Restored.{
  IsRestored, restore_needs_stop, clean_up_needs_restore,
}
use cluster_api_provider_ran.Planner.EtcdRestore.Finished.{restore_etcd_snapshot_ok}
use cluster_api_provider_ran.Planner.Reconcile.Pass.{World}
use cluster_api_provider_ran.Plan.Equal.{node_plan_eq_self}
use cluster_api_provider_ran.Planner.InitNode.{elect_init_node, on_target}
use cluster_api_provider_ran.Planner.Store.Assign.{assign_and_check_plan}
use cluster_api_provider_ran.Planner.Collect.{collect}
use cluster_api_provider_ran.Tests.Base.{
  Secrets, server_url, api, plan_a, node_with, server_entry, server_metadata, machine,
  control_plane, secrets, status,
}
use cluster_api_provider_ran.Planner.EtcdRestore.State.{advance_config_generation}

abbrev pub owner : CapiCluster
owner = record {
  namespace = "fleet-default";
  name = "test";
  deletion_timestamp = none;
  paused = true;
  infrastructure_ready = true;
  conditions = [];
}

abbrev pub clusters : ClusterApi Secrets
clusters = record {
  cached_cluster = λ namespace name s. (ok (some owner), s);
  update_cluster = λ cluster s. (ok cluster, s);
  update_cluster_status = λ cluster s. (ok cluster, s);
  is_conflict = λ e. false;
  is_false = λ k conditions. false;
  mark_false = λ k reason severity message cluster. cluster;
  update_machine = λ m s. (ok m, s);
}

-- There is no object for the snapshot, which is a local one.
abbrev pub restores : RestoreApi Secrets
restores = record {
  cached_snapshot = λ namespace name s. (err (not_found "snapshot not found"), s);
  cached_bootstrap =
      λ namespace name s. (ok (record { namespace = namespace; name = name; annotations = [] }), s);
  update_bootstrap = λ b s. (ok b, s);
  is_plain_ipv6 = λ address. false;
  before_1_25 = λ version. some false;
  unmarshal_metadata = λ md. ok [];
  decompress_kubernetes_version = λ v. ok "v1.27.3";
}

abbrev pub s3_api : S3Api
s3_api = record {
  cached_secret = λ namespace name. err (not_found "secret not found");
  kv_rsplit = λ s separator. ("", s);
  name_hex = λ s n. "0000000000";
  is_base64 = λ s. true;
  global_namespace = "cattle-global-data";
}

abbrev pub functions : InfoFunctions
functions = record {
  image_resolver = λ image cp. image;
  system_agent_image = "rancher/system-agent-installer-";
  system_pod_label_selectors = none;
}

abbrev pub to_string : Value → String
to_string v = ""

abbrev pub config_plan : ConfigPlan
config_plan e join_server render_s3 =
    ok (record { node_plan = plan_a; config = []; joined_server = join_server })

abbrev restore : EtcdSnapshotRestore
restore = record { name = "snapshot-1"; generation = pos 1; restore_rke_config = "none" }

abbrev status_in : EtcdSnapshotPhase → Status
status_in phase = record status {
  etcd_snapshot_restore = some restore;
  etcd_snapshot_restore_phase = phase;
}

abbrev restored_control_plane : EtcdSnapshotPhase → ControlPlane
restored_control_plane phase = record control_plane {
  kubernetes_version = "k3s";
  data_directories = record { system_agent = ""; provisioning = "p"; k8s_distro = "d" };
  etcd_snapshot_restore = some restore;
  status = status_in phase;
}

abbrev plan_of_result : Result (NodePlan × String) → NodePlan
plan_of_result (ok (p, joined)) = p
plan_of_result (err e) = plan_a

-- A cluster of one server, which has applied the plan given
abbrev server_with : NodePlan → Plan
server_with p = record {
  nodes = ("server", node_with p) ∷ [];
  machines = ("server", machine "server") ∷ [];
  metadata = ("server", server_metadata) ∷ [];
}

abbrev round_in : EtcdSnapshotPhase → NodePlan → Round Secrets
round_in phase p = record {
  status = status_in phase;
  world = record { plan = server_with p; server = secrets };
}

restore_etcd_snapshot_step_example : RestoreStep EtcdSnapshotPhase.started (
    restore_phase
      (restore_etcd_snapshot api clusters restores s3_api functions to_string
        (restored_control_plane EtcdSnapshotPhase.started)
        config_plan
        false
        (round_in EtcdSnapshotPhase.started plan_a)).1.status)
restore_etcd_snapshot_step_example =
    restore_etcd_snapshot_step api clusters restores s3_api functions to_string
      (restored_control_plane EtcdSnapshotPhase.started) config_plan false
      (round_in EtcdSnapshotPhase.started plan_a) refl

restore_etcd_snapshot_ok_example :
    (restore_phase (round_in EtcdSnapshotPhase.finished plan_a).status ≡ EtcdSnapshotPhase.finished)
    × ((round_in EtcdSnapshotPhase.finished plan_a).status
        ≡ (round_in EtcdSnapshotPhase.finished plan_a).status)
unfolding restore_etcd_snapshot is_not_found
restore_etcd_snapshot_ok_example =
    restore_etcd_snapshot_ok api clusters restores s3_api functions to_string
      (restored_control_plane EtcdSnapshotPhase.finished) config_plan false restore
      (round_in EtcdSnapshotPhase.finished plan_a) (round_in EtcdSnapshotPhase.finished plan_a) refl
      refl refl refl

abbrev shut_down : ControlPlane
shut_down = restored_control_plane EtcdSnapshotPhase.shutdown

-- The plan that stops the services of the server
abbrev stopped_plan : NodePlan
stopped_plan = stop_plan api clusters restores s3_api functions shut_down config_plan server_entry (
    plan_of_result (
      generate_stop_service_and_kill_all_plan api s3_api functions shut_down config_plan
        server_entry server_url))

abbrev stopped : Round Secrets
stopped = round_in EtcdSnapshotPhase.shutdown stopped_plan

reaches_restore :
    restore_phase
      (act_on_restore_phase api clusters restores s3_api functions to_string shut_down config_plan
        restore none EtcdSnapshotPhase.shutdown stopped).1.status
    ≡ EtcdSnapshotPhase.restore
unfolding act_on_restore_phase collect can_be_init_node is_etcd lookup is_deleting is_failed
    elect_init_node get is_init_node annotation role_and role_not role_or any_role_without_windows
    get_runtime contains
reaches_restore = simp (node_plan_eq_self stopped_plan)

restore_needs_stop_example :
    (join_server : String) × (elected : World Secrets) × (run_etcd_restore_init_node_election api
        clusters restores shut_down none stopped.world
      ≡ (ok join_server, elected))
    × (collect elected.plan (role_and is_etcd is_deleting) ≡ [])
    × AllStopped api clusters restores s3_api functions shut_down config_plan join_server elected
        (act_on_restore_phase api clusters restores s3_api functions to_string shut_down config_plan
          restore none EtcdSnapshotPhase.shutdown stopped).1.world
restore_needs_stop_example =
    restore_needs_stop api clusters restores s3_api functions to_string shut_down config_plan
      restore none stopped refl reaches_restore

abbrev restoring : ControlPlane
restoring = restored_control_plane EtcdSnapshotPhase.restore

abbrev restoring_plan : NodePlan
restoring_plan = plan_of_result (
    generate_etcd_snapshot_restore_plan api s3_api functions restoring config_plan
      restores.is_plain_ipv6 none "snapshot-1" server_entry server_url)

abbrev restoring_round : Round Secrets
restoring_round = round_in EtcdSnapshotPhase.restore restoring_plan

reaches_clean_up :
    restore_phase
      (act_on_restore_phase api clusters restores s3_api functions to_string restoring config_plan
        restore none EtcdSnapshotPhase.restore restoring_round).1.status
    ≡ EtcdSnapshotPhase.post_restore_pod_cleanup
unfolding act_on_restore_phase collect can_be_init_node is_etcd lookup is_deleting is_failed
    elect_init_node get is_init_node annotation generate_install_instruction_with_skip_start
    is_only_worker label assign_and_check_plan on_target get_runtime contains pause_capi_cluster
    advance_config_generation
reaches_clean_up = simp (node_plan_eq_self restoring_plan)

clean_up_needs_restore_example :
    IsRestored api clusters restores s3_api functions to_string restoring config_plan none
      "snapshot-1" restoring_round.world
clean_up_needs_restore_example =
    clean_up_needs_restore api clusters restores s3_api functions to_string restoring config_plan
      restore none restoring_round refl reaches_clean_up
