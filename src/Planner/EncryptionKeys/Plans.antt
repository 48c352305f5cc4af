-- ===== src/Planner/EncryptionKeys/Plans.antt =====
-- pkg/planner/encryptionkeyrotation.go: the instructions and files of a rotation.
use cluster_api_provider_ran.Prelude.{
  String, true, false, Option, none, some, List, [], ◌∷◌, ◌++◌, itoa, to_lower, str_eq, ◌<>◌,
  if◌then◌else◌,
}
use cluster_api_provider_ran.Errors.{other, Result, ok, err}
use cluster_api_provider_ran.Plan.{OneTimeInstruction, PeriodicInstruction, File, NodePlan}
use cluster_api_provider_ran.Objects.{Api}
use cluster_api_provider_ran.ControlPlane.{
  RotateEncryptionKeysPhase, RotateEncryptionKeys, ControlPlane, get_runtime_command,
  get_runtime_server_unit, get_distro_data_dir,
}
use cluster_api_provider_ran.Paths.{join_path}
use cluster_api_provider_ran.Planner.Entry.{PlanEntry, is_control_plane}
use cluster_api_provider_ran.Planner.Idempotent.{
  no_instruction, idempotent_instruction, convert_to_idempotent_instruction,
  idempotent_restart_instructions,
}
use cluster_api_provider_ran.Planner.Instructions.{generate_manifest_removal_instruction}
use cluster_api_provider_ran.Planner.EtcdRestore.Plans.{on_rke2}
use cluster_api_provider_ran.Planner.EncryptionKeys.State.{key_phase_text}
use cluster_api_provider_ran.Planner.EncryptionKeys.Scripts.{
  wait_for_systemctl_status_script, wait_for_secrets_encrypt_status_script,
  secrets_encrypt_status_script,
}

abbrev pub secrets_encrypt_status : String
secrets_encrypt_status = "secrets-encrypt-status"

unfoldable pub encryption_key_rotation_script_path : ControlPlane → String → String
encryption_key_rotation_script_path cp file =
    join_path (get_distro_data_dir cp) (join_path "capr/encryption-key-rotation/bin" file)

abbrev wait_for_systemctl_status_path : String
wait_for_systemctl_status_path = "wait_for_systemctl_status.sh"

abbrev wait_for_secrets_encrypt_status_path : String
wait_for_secrets_encrypt_status_path = "wait_for_secrets_encrypt_status.sh"

abbrev secrets_encrypt_status_path : String
secrets_encrypt_status_path = "secrets_encrypt_status.sh"

-- The command of secrets-encrypt for a phase
unfoldable pub command_for : RotateEncryptionKeysPhase → Option String
command_for RotateEncryptionKeysPhase.prepare = some "prepare"
command_for RotateEncryptionKeysPhase.rotate = some "rotate"
command_for RotateEncryptionKeysPhase.reencrypt = some "reencrypt"
command_for _ = none

module _ {S : Type 0} (api : Api S) (cp : ControlPlane) (rotate : RotateEncryptionKeys) where
  abbrev pub phase_printed : String
  phase_printed = key_phase_text cp.status.rotate_encryption_keys_phase

  -- The variables that make a node run a plan again in the next phase or generation
  abbrev rotation_env : List String
  rotation_env =
      ("ENCRYPTION_KEY_ROTATION_STAGE=" <> phase_printed)
      ∷ ("ENCRYPTION_KEY_ROTATION_GENERATION=" <> itoa rotate.generation)
      ∷ []

  abbrev endpoint_env : List String
  endpoint_env =
      "CONTAINER_RUNTIME_ENDPOINT=unix:///var/run/k3s/containerd/containerd.sock" ∷ rotation_env

  abbrev script_file : String → String → File
  script_file content file = record {
    content = api.encode_base64 content;
    path = encryption_key_rotation_script_path cp file;
    permissions = "";
    dynamic = false;
    minor = false;
  }

  unfoldable pub apply_with : Option String → Result OneTimeInstruction
  apply_with none = err (
      other
        ("cannot determine desired secrets-encrypt command for phase: [" <> phase_printed <> "]"))
  apply_with (some command) = ok (
      idempotent_instruction api cp (to_lower ("encryption-key-rotation/" <> phase_printed))
        (itoa rotate.generation) (get_runtime_command cp.kubernetes_version)
        ("secrets-encrypt" ∷ command ∷ []) [])

  unfoldable pub encryption_key_rotation_secrets_encrypt_instruction : Result OneTimeInstruction
  unfolding command_for apply_with
  encryption_key_rotation_secrets_encrypt_instruction =
      apply_with (command_for cp.status.rotate_encryption_keys_phase)

  unfoldable pub status_script_instruction : String → OneTimeInstruction
  unfolding encryption_key_rotation_script_path
  status_script_instruction expected = record no_instruction {
    name = "secrets-encrypt-status-script";
    command = "sh";
    args =
        "-x"
        ∷ encryption_key_rotation_script_path cp secrets_encrypt_status_path
        ∷ get_runtime_command cp.kubernetes_version
        ∷ (if str_eq expected "" then [] else expected ∷ []);
    env = rotation_env;
  }

  unfoldable pub status_one_time_instruction : OneTimeInstruction
  status_one_time_instruction = record no_instruction {
    name = secrets_encrypt_status;
    command = get_runtime_command cp.kubernetes_version;
    args = "secrets-encrypt" ∷ "status" ∷ [];
    env = rotation_env;
    save_output = true;
  }

  unfoldable pub status_periodic_instruction : PeriodicInstruction
  status_periodic_instruction = record {
    name = secrets_encrypt_status;
    image = "";
    env = [];
    args = "secrets-encrypt" ∷ "status" ∷ [];
    command = get_runtime_command cp.kubernetes_version;
    period_seconds = 5;
  }

  unfoldable pub wait_for_systemctl_status_instruction : OneTimeInstruction
  unfolding encryption_key_rotation_script_path
  wait_for_systemctl_status_instruction = record no_instruction {
    name = "wait-for-systemctl-status";
    command = "sh";
    args =
        "-x"
        ∷ encryption_key_rotation_script_path cp wait_for_systemctl_status_path
        ∷ get_runtime_server_unit cp.kubernetes_version
        ∷ [];
    env = endpoint_env;
  }

  unfoldable pub wait_for_secrets_encrypt_status_instruction : OneTimeInstruction
  unfolding encryption_key_rotation_script_path
  wait_for_secrets_encrypt_status_instruction = record no_instruction {
    name = "wait-for-secrets-encrypt-status";
    command = "sh";
    args =
        "-x"
        ∷ encryption_key_rotation_script_path cp wait_for_secrets_encrypt_status_path
        ∷ get_runtime_command cp.kubernetes_version
        ∷ [];
    env = endpoint_env;
    save_output = true;
  }

  abbrev manifest_cleanup : Option OneTimeInstruction → List OneTimeInstruction
  manifest_cleanup none = []
  manifest_cleanup (some i) =
      convert_to_idempotent_instruction api cp
        (to_lower ("encryption-key-rotation/manifest-cleanup/" <> phase_printed))
        (itoa rotate.generation) i
      ∷ []

  -- The plan that restarts a server. It replaces the instructions; its probes are set by the caller.
  unfoldable pub restart_plan : PlanEntry → String → NodePlan → NodePlan
  unfolding wait_for_systemctl_status_instruction wait_for_secrets_encrypt_status_instruction
      status_script_instruction status_one_time_instruction wait_for_systemctl_status_script
      wait_for_secrets_encrypt_status_script secrets_encrypt_status_script
  restart_plan e leader_stage p = record p {
    files =
        p.files
        ++ script_file wait_for_systemctl_status_script wait_for_systemctl_status_path
          ∷ (if is_control_plane e
              then script_file secrets_encrypt_status_script secrets_encrypt_status_path
                ∷ script_file wait_for_secrets_encrypt_status_script
                    wait_for_secrets_encrypt_status_path
                ∷ []
              else []);
    instructions =
        on_rke2 cp (manifest_cleanup (generate_manifest_removal_instruction cp e))
        ++ idempotent_restart_instructions api cp
            (to_lower ("encryption-key-rotation/restart/" <> phase_printed))
            (itoa rotate.generation) (get_runtime_server_unit cp.kubernetes_version)
        ++ wait_for_systemctl_status_instruction
          ∷ (if is_control_plane e
              then wait_for_secrets_encrypt_status_instruction
                ∷ status_script_instruction leader_stage
                ∷ status_one_time_instruction
                ∷ []
              else []);
  }

  -- The plan that runs the command of the phase on the leader
  unfoldable pub leader_plan : OneTimeInstruction → NodePlan → NodePlan
  unfolding status_script_instruction status_one_time_instruction status_periodic_instruction
      wait_for_secrets_encrypt_status_script secrets_encrypt_status_script
  leader_plan apply p = record p {
    files =
        p.files
        ++ script_file wait_for_secrets_encrypt_status_script wait_for_secrets_encrypt_status_path
          ∷ script_file secrets_encrypt_status_script secrets_encrypt_status_path
          ∷ [];
    instructions = apply ∷ status_script_instruction "" ∷ status_one_time_instruction ∷ [];
    periodic_instructions = status_periodic_instruction ∷ [];
  }
