-- ===== src/Planner/Instructions.antt =====
-- pkg/planner/instructions.go: the instructions that install a node's distribution and report its state.
use cluster_api_provider_ran.Prelude.{
  String, Bool, true, false, Option, none, some, List, [], ◌∷◌, ◌++◌, ◌<>◌, str_eq, to_upper, itoa,
  pos, replace_all, if◌then◌else◌,
}
use cluster_api_provider_ran.Plan.{OneTimeInstruction, PeriodicInstruction, File, NodePlan}
use cluster_api_provider_ran.Objects.{Api}
use cluster_api_provider_ran.ControlPlane.{
  ControlPlane, EnvVar, get_runtime, get_runtime_env, get_distro_data_dir,
  get_runtime_supervisor_port,
}
use cluster_api_provider_ran.Names
use cluster_api_provider_ran.Paths.{join_path}
use cluster_api_provider_ran.Planner.Entry.{
  PlanEntry, label, is_only_worker, is_etcd, is_control_plane, role_not, role_or,
}
use cluster_api_provider_ran.Planner.Idempotent.{no_instruction}

-- InfoFunctions: what the process that runs the planner supplies; `none` is a nil function.
pub record InfoFunctions : Type 0 where
  pub image_resolver : String → ControlPlane → String
  pub system_agent_image : String
  pub system_pod_label_selectors : Option (ControlPlane → List String)

-- planner.go: getInstallerImage
unfoldable pub get_installer_image : InfoFunctions → ControlPlane → String
get_installer_image functions cp =
    functions.image_resolver
      (functions.system_agent_image
        <> get_runtime cp.kubernetes_version
        <> ":"
        <> replace_all cp.kubernetes_version "+" "-")
      cp

-- entry.Metadata.Labels[capr.CattleOSLabel] == capr.WindowsMachineOS
unfoldable pub runs_windows : PlanEntry → Bool
unfolding label
runs_windows e = str_eq (label Names.cattle_os_label e) Names.windows_machine_os

-- An environment variable in the form that the operating system's shell reads
unfoldable pub env_setting : Bool → String → String → String
env_setting true name value = "$env:" <> name <> "=\"" <> value <> "\""
env_setting false name value = name <> "=" <> value

unfoldable pub agent_env : Bool → List EnvVar → List String
unfolding env_setting
agent_env windows [] = []
agent_env windows (v ∷ vs) =
    let rest = agent_env windows vs in
    if str_eq v.value "" then rest else env_setting windows v.name v.value ∷ rest

-- The variable that names the data directory, on Windows with its drive
unfoldable pub data_dir_setting : Bool → ControlPlane → String
unfolding env_setting
data_dir_setting windows cp =
    let name = to_upper (get_runtime cp.kubernetes_version) <> "_DATA_DIR" in
    env_setting windows name
      (if windows then "c:" <> get_distro_data_dir cp else get_distro_data_dir cp)

unfoldable pub agent_exec : Bool → ControlPlane → PlanEntry → List String
unfolding env_setting
agent_exec windows cp e =
    if is_only_worker e
    then env_setting windows ("INSTALL_" <> get_runtime_env cp.kubernetes_version <> "_EXEC")
        "agent"
      ∷ []
    else []

unfoldable pub generate_install_instruction :
    InfoFunctions → ControlPlane → PlanEntry → List String → OneTimeInstruction
unfolding get_installer_image runs_windows agent_env data_dir_setting agent_exec
generate_install_instruction functions cp e env =
    let windows = runs_windows e in
    record no_instruction {
      name = "install";
      image = get_installer_image functions cp;
      command = if windows then "powershell.exe" else "sh";
      args = if windows then "-File" ∷ "run.ps1" ∷ [] else "-c" ∷ "run.sh" ∷ [];
      env =
          env
          ++ agent_env windows cp.agent_env_vars
          ++ data_dir_setting windows cp ∷ agent_exec windows cp e;
    }

unfoldable pub generate_install_instruction_with_skip_start :
    InfoFunctions → ControlPlane → PlanEntry → OneTimeInstruction
unfolding env_setting generate_install_instruction
generate_install_instruction_with_skip_start functions cp e =
    generate_install_instruction functions cp e (
      env_setting (runs_windows e)
        ("INSTALL_" <> to_upper (get_runtime cp.kubernetes_version) <> "_SKIP_START") "true"
      ∷ [])

-- config.go: the text that restartStamp hashes for the files, the dynamic ones left out
unfoldable pub stamped_files : List File → String
stamped_files [] = ""
stamped_files (f ∷ fs) =
    let rest = stamped_files fs in if f.dynamic then rest else f.path <> f.content <> rest

-- config.go: restartStamp
unfoldable pub restart_stamp : {S : Type 0} → Api S → NodePlan → ControlPlane → String → String
unfolding stamped_files
restart_stamp api node_plan cp image = api.sha256_hex (
    itoa cp.provision_generation
    <> image
    <> stamped_files node_plan.files
    <> itoa cp.status.config_generation)

unfoldable pub add_install_instruction_with_restart_stamp :
    {S : Type 0} → Api S → InfoFunctions → NodePlan → ControlPlane → PlanEntry → NodePlan
unfolding env_setting restart_stamp generate_install_instruction
add_install_instruction_with_restart_stamp api functions node_plan cp e = record node_plan {
  instructions =
      node_plan.instructions
      ++ generate_install_instruction functions cp e (
          env_setting (runs_windows e) "RESTART_STAMP"
            (restart_stamp api node_plan cp (get_installer_image functions cp))
          ∷ [])
        ∷ [];
}

abbrev pub add_periodic : List PeriodicInstruction → NodePlan → NodePlan
add_periodic instructions node_plan = record node_plan {
  periodic_instructions = node_plan.periodic_instructions ++ instructions;
}

-- A command for the shell, each 600 seconds
abbrev pub reported : String → String → PeriodicInstruction
reported name command = record {
  name = name;
  image = "";
  env = [];
  args = "-c" ∷ command ∷ [];
  command = "sh";
  period_seconds = 600;
}

unfoldable pub add_init_node_periodic_instruction : ControlPlane → NodePlan → NodePlan
add_init_node_periodic_instruction cp = add_periodic (
    reported "capture-address" (
      "curl -f --retry 100 --retry-delay 5 --cacert "
      <> join_path (get_distro_data_dir cp) "server/tls/server-ca.crt"
      <> " https://localhost:"
      <> itoa (pos (get_runtime_supervisor_port cp.kubernetes_version))
      <> "/db/info | grep 'clientURLs'")
    ∷ reported "etcd-name" ("cat " <> join_path (get_distro_data_dir cp) "server/db/etcd/name")
    ∷ [])

unfoldable pub add_etcd_snapshot_list_local_periodic_instruction :
    ControlPlane → NodePlan → NodePlan
add_etcd_snapshot_list_local_periodic_instruction cp = add_periodic (
    reported "etcd-snapshot-list-local"
      (get_runtime cp.kubernetes_version <> " etcd-snapshot list --etcd-s3=false 2>/dev/null")
    ∷ [])

unfoldable pub add_etcd_snapshot_list_s3_periodic_instruction : ControlPlane → NodePlan → NodePlan
add_etcd_snapshot_list_s3_periodic_instruction cp = add_periodic (
    reported "etcd-snapshot-list-s3"
      (get_runtime cp.kubernetes_version <> " etcd-snapshot list --etcd-s3 2>/dev/null")
    ∷ [])

unfoldable pub add_kubeconfig_dump_periodic_instruction : NodePlan → NodePlan
add_kubeconfig_dump_periodic_instruction =
    add_periodic (reported "dump-kubeconfig" "cat /etc/rancher/rke2/rke2.yaml 2>/dev/null" ∷ [])

-- The test on the runtime for the empty text and the test for a nil entry never hold.
unfoldable pub generate_manifest_removal_instruction :
    ControlPlane → PlanEntry → Option OneTimeInstruction
generate_manifest_removal_instruction cp e =
    if role_not (role_or is_etcd is_control_plane) e
    then none
    else some (record no_instruction {
      name = "remove server manifests";
      command = "/bin/sh";
      args =
          "-c"
          ∷ ("rm -rf "
              <> join_path (get_distro_data_dir cp) "server/manifests"
              <> "/"
              <> get_runtime cp.kubernetes_version
              <> "-*.yaml")
          ∷ [];
    })
