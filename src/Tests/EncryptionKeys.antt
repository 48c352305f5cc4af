-- ===== src/Tests/EncryptionKeys.antt =====
-- pkg/planner/encryptionkeyrotation.go on a cluster of one server.
use cluster_api_provider_ran.Prelude.{
  String, ◌≡◌, refl, ap, true, none, some, [], ◌∷◌, All, pos, ◌<>◌, lookup, insert, join, contains,
}
use cluster_api_provider_ran.Errors.{Result, ok, err}
use cluster_api_provider_ran.Plan.{NodePlan, Node, Metadata, OneTimeInstruction}
use cluster_api_provider_ran.Plan.Equal.{node_plan_eq_self}
use cluster_api_provider_ran.ControlPlane.{
  RotateEncryptionKeysPhase, RotateEncryptionKeys, ControlPlane, get_runtime, get_loopback_address,
  get_distro_data_dir,
}
use cluster_api_provider_ran.Names
use cluster_api_provider_ran.Paths.{join_path, clean}
use cluster_api_provider_ran.Planner.Entry.{
  PlanEntry, label, is_control_plane_and_not_init_node, is_etcd, is_control_plane, is_init_node,
  is_only_etcd, role_not, windows,
}
use cluster_api_provider_ran.Planner.Collect.{collect}
use cluster_api_provider_ran.Planner.EncryptionKeys.Stage.{stage_from_one_time_status}
use cluster_api_provider_ran.Planner.FullReconcile.{Round}
use cluster_api_provider_ran.Planner.InitNode.{on_target}
use cluster_api_provider_ran.Planner.Store.Assign.{assign_and_check_plan}
use cluster_api_provider_ran.Planner.Probes.{
  sprintf, render_secure_probe, replace_ca_cert_and_port_for_probes,
}
use cluster_api_provider_ran.Planner.Args.{get_arg_value}
use cluster_api_provider_ran.Planner.EncryptionKeys.Phases.{
  encryption_key_rotation_leader_phase_reconcile, rotate_encryption_keys,
}
use cluster_api_provider_ran.Planner.EncryptionKeys.Restart.{
  observed, restart_plan_of, encryption_key_rotation_is_control_plane_and_not_leader_and_init,
  encryption_key_rotation_restart_nodes,
}
use cluster_api_provider_ran.Planner.EncryptionKeys.Kept.{key_phase}
use cluster_api_provider_ran.Planner.EncryptionKeys.Steps.{KeyStep}
use cluster_api_provider_ran.Planner.EncryptionKeys.Applied.{
  HasRun, IsAtStage, leader_phase_reconcile_ok,
}
use cluster_api_provider_ran.Planner.EncryptionKeys.Plans.{
  leader_plan, encryption_key_rotation_secrets_encrypt_instruction,
}
use cluster_api_provider_ran.Planner.Idempotent.{no_instruction}
use cluster_api_provider_ran.Planner.EncryptionKeys.Restarted.{
  BeforeLeader, IsRestarted, Reports, Follows, after_leader, restart_nodes_ok,
}
use cluster_api_provider_ran.Planner.EncryptionKeys.Refined.{rotate_encryption_keys_step}
use cluster_api_provider_ran.Tests.Base.{
  Secrets, server_url, api, plan_a, node_with, server_entry, server_metadata, machine,
  control_plane, secrets, status,
}
use cluster_api_provider_ran.Tests.Restore.{clusters, config_plan, to_string}

abbrev rotation : RotateEncryptionKeys
rotation = record { generation = pos 1 }

abbrev control_plane_in : RotateEncryptionKeysPhase → ControlPlane
control_plane_in phase = record control_plane {
  kubernetes_version = "k3s";
  data_directories = record { system_agent = ""; provisioning = "p"; k8s_distro = "d" };
  rotate_encryption_keys = some rotation;
  status = record status {
    rotate_encryption_keys = some rotation;
    rotate_encryption_keys_phase = phase;
    rotate_encryption_keys_leader = "server";
  };
}

abbrev restarting : ControlPlane
restarting = control_plane_in RotateEncryptionKeysPhase.post_prepare_restart

abbrev plan_or_empty : Result (NodePlan × String) → NodePlan
plan_or_empty (ok (p, joined)) = p
plan_or_empty (err e) = plan_a

abbrev restart_plan : NodePlan
restart_plan =
    plan_or_empty
      (restart_plan_of api to_string restarting config_plan rotation server_entry "" server_url)

-- The node has applied its plan and shows the stage.
abbrev at_stage : String → NodePlan → Node
at_stage stage p = record (node_with p) {
  output =
      ("secrets-encrypt-status", "Encryption Status: Enabled\nCurrent Rotation Stage: " <> stage)
      ∷ [];
}

abbrev server_at : Node → PlanEntry
server_at node = record server_entry { plan = some node }

abbrev restarted : Node
restarted = at_stage "prepare" restart_plan

-- The follower, which has a control plane, is told the stage of the leader.
abbrev follower_metadata : Metadata
follower_metadata = record {
  labels = (Names.control_plane_role_label, "true") ∷ [];
  annotations = [];
}

abbrev follower_entry : PlanEntry
follower_entry = record {
  machine = machine "follower";
  plan = none;
  metadata = some follower_metadata;
}

abbrev follower_plan : NodePlan
follower_plan = plan_or_empty (
    restart_plan_of api to_string restarting config_plan rotation follower_entry "prepare"
      server_url)

abbrev followed : Node
followed = at_stage "prepare" follower_plan

abbrev round_with : ControlPlane → Node → Round Secrets
round_with cp node = record {
  status = cp.status;
  world = record {
    plan = record {
      nodes = ("server", node) ∷ ("follower", followed) ∷ [];
      machines = ("server", machine "server") ∷ ("follower", machine "follower") ∷ [];
      metadata = ("server", server_metadata) ∷ ("follower", follower_metadata) ∷ [];
    };
    server = secrets;
  };
}

abbrev restart_run : Result (Unit {0}) × Round Secrets
restart_run =
    encryption_key_rotation_restart_nodes api to_string restarting config_plan rotation server_url
      (server_at restarted) (server_at restarted) (round_with restarting restarted)

restart_ends : restart_run.0 ≡ ok tt
unfolding encryption_key_rotation_restart_nodes on_target assign_and_check_plan is_control_plane
    is_init_node is_etcd label lookup get_runtime contains render_secure_probe
    replace_ca_cert_and_port_for_probes get_loopback_address get_arg_value is_only_etcd role_not
    windows insert sprintf join_path get_distro_data_dir clean join observed
    stage_from_one_time_status collect is_control_plane_and_not_init_node
restart_ends = simp (node_plan_eq_self restart_plan, node_plan_eq_self follower_plan)

restart_nodes_ok_example :
    BeforeLeader api to_string restarting config_plan rotation server_url
      (server_at restarted)
      (server_at restarted)
      (round_with restarting restarted)
    × IsRestarted api to_string restarting config_plan rotation server_url "" (server_at restarted)
    × (stage : String) × Reports api to_string restarting config_plan rotation true
        (server_at restarted)
        stage
    × All (Follows api to_string restarting config_plan rotation server_url stage) (
        collect
          (after_leader api to_string restarting config_plan rotation server_url
            (server_at restarted)
            (server_at restarted)
            (round_with restarting restarted)).world.plan
          (encryption_key_rotation_is_control_plane_and_not_leader_and_init restarting))
restart_nodes_ok_example =
    restart_nodes_ok api to_string restarting config_plan rotation server_url (server_at restarted)
      (server_at restarted) (round_with restarting restarted) restart_run.1
      (ap (λ r. (r, restart_run.1)) restart_ends)

-- A rotation that the release does not support
rotate_encryption_keys_step_example : KeyStep RotateEncryptionKeysPhase.rotate (
    key_phase
      (rotate_encryption_keys api clusters to_string
        (control_plane_in RotateEncryptionKeysPhase.rotate)
        config_plan
        (λ version. some 1)
        (some (("encryption-key-rotation", "1.0.0") ∷ []))
        (round_with (control_plane_in RotateEncryptionKeysPhase.rotate) restarted)).1.status)
rotate_encryption_keys_step_example =
    rotate_encryption_keys_step api clusters to_string
      (control_plane_in RotateEncryptionKeysPhase.rotate) config_plan (λ version. some 1)
      (some (("encryption-key-rotation", "1.0.0") ∷ []))
      (round_with (control_plane_in RotateEncryptionKeysPhase.rotate) restarted) refl

abbrev reencrypting : ControlPlane
reencrypting = control_plane_in RotateEncryptionKeysPhase.reencrypt

abbrev instruction_or_none : Result OneTimeInstruction → OneTimeInstruction
instruction_or_none (ok i) = i
instruction_or_none (err e) = no_instruction

abbrev reencrypt_plan : NodePlan
reencrypt_plan =
    leader_plan api reencrypting rotation
      (instruction_or_none
        (encryption_key_rotation_secrets_encrypt_instruction api reencrypting rotation))
      plan_a

-- The command has left the leader encrypting again, and the periodic output says that it has finished.
abbrev reencrypted_node : Node
reencrypted_node = record (at_stage "reencrypt_active" reencrypt_plan) {
  periodic_output =
      (
        "secrets-encrypt-status",
        record {
          name = "secrets-encrypt-status";
          stdout = "Encryption Status: Enabled\nCurrent Rotation Stage: reencrypt_finished";
          stderr = "";
          exit_code = pos 0;
          last_successful_run_time = "";
        },
      )
      ∷ [];
}

abbrev reconcile_run : Result (Unit {0}) × Round Secrets
reconcile_run =
    encryption_key_rotation_leader_phase_reconcile api clusters to_string reencrypting config_plan
      rotation server_url (server_at reencrypted_node) (round_with reencrypting reencrypted_node)

reconcile_ends : reconcile_run.0 ≡ ok tt
unfolding encryption_key_rotation_leader_phase_reconcile on_target assign_and_check_plan observed
    stage_from_one_time_status lookup
reconcile_ends = simp (node_plan_eq_self reencrypt_plan)

leader_phase_reconcile_ok_example :
    HasRun api clusters to_string reencrypting config_plan rotation server_url
      (server_at reencrypted_node)
    × IsAtStage api clusters to_string reencrypting config_plan rotation server_url
        (server_at reencrypted_node)
leader_phase_reconcile_ok_example =
    leader_phase_reconcile_ok api clusters to_string reencrypting config_plan rotation server_url
      (server_at reencrypted_node) (round_with reencrypting reencrypted_node) reconcile_run.1
      (ap (λ r. (r, reconcile_run.1)) reconcile_ends)
