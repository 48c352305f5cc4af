-- ===== src/ControlPlane.antt =====
-- pkg/apis/rke.cattle.io/v1/controlplane.go and etcd.go: the control plane object and its status,
-- with the fields that the modelled part of the planner reads.
use cluster_api_provider_ran.Prelude.{
  ℕ, String, Bool, Option, none, some, List, Assoc, ℤ, str_eq, contains, ◌<>◌, to_lower, to_upper,
  if◌then◌else◌,
}
use cluster_api_provider_ran.Objects.{Condition, DrainOptions, Value}
use cluster_api_provider_ran.Names
use cluster_api_provider_ran.Paths.{join_path}

-- ETCDSnapshotPhase; `unset` is the empty text.
pub data EtcdSnapshotPhase : Type 0 where
  unset started shutdown restore post_restore_pod_cleanup initial_restart_cluster :
      EtcdSnapshotPhase
  post_restore_node_cleanup restart_cluster finished failed : EtcdSnapshotPhase

-- ETCDSnapshotCreate has the generation alone.
pub record EtcdSnapshotCreate : Type 0 where
  pub generation : ℕ

pub record EtcdSnapshotRestore : Type 0 where
  pub name : String
  pub generation : ℤ
  pub restore_rke_config : String

-- The object that stands for a snapshot that was taken; `s3` is none for a local one.
pub record EtcdSnapshotS3 : Type 0 where
  pub endpoint : String
  pub endpoint_ca : String
  pub skip_ssl_verify : Bool
  pub bucket : String
  pub region : String
  pub cloud_credential_name : String
  pub folder : String

-- RotateEncryptionKeysPhase; `unset` is the empty text.
pub data RotateEncryptionKeysPhase : Type 0 where
  unset prepare post_prepare_restart rotate post_rotate_restart : RotateEncryptionKeysPhase
  reencrypt post_reencrypt_restart done failed : RotateEncryptionKeysPhase

-- RotateEncryptionKeys has the generation alone.
pub record RotateEncryptionKeys : Type 0 where
  pub generation : ℤ

pub record EnvVar : Type 0 where
  pub name : String
  pub value : String

pub record OwnerReference : Type 0 where
  pub api_version : String
  pub kind : String
  pub name : String

pub record RotateCertificates : Type 0 where
  pub generation : ℤ
  pub services : List String

pub record UpgradeStrategy : Type 0 where
  pub control_plane_concurrency : String
  pub control_plane_drain_options : DrainOptions
  pub worker_concurrency : String
  pub worker_drain_options : DrainOptions

pub record DataDirectories : Type 0 where
  pub system_agent : String
  pub provisioning : String
  pub k8s_distro : String

pub record Status : Type 0 where
  pub conditions : List Condition
  pub ready : Bool
  pub initialized : Bool
  pub agent_connected : Bool
  pub certificate_rotation_generation : ℤ
  pub etcd_snapshot_create : Option EtcdSnapshotCreate
  pub etcd_snapshot_create_phase : EtcdSnapshotPhase
  pub etcd_snapshot_restore : Option EtcdSnapshotRestore
  pub etcd_snapshot_restore_phase : EtcdSnapshotPhase
  pub config_generation : ℤ
  pub rotate_encryption_keys : Option RotateEncryptionKeys
  pub rotate_encryption_keys_phase : RotateEncryptionKeysPhase
  pub rotate_encryption_keys_leader : String

-- `networking` is the stack preference of Spec.Networking, none where that is nil; `controller_ref` is
-- metav1.GetControllerOf(cp), and `etcd_s3` is Spec.ETCD.S3, none where either is nil.
pub record ControlPlane : Type 0 where
  pub namespace : String
  pub name : String
  pub uid : String
  pub labels : Assoc String
  pub annotations : Assoc String
  pub controller_ref : Option OwnerReference
  pub cluster_name : String
  pub kubernetes_version : String
  pub unmanaged_config : Bool
  pub machine_global_config : Assoc Value
  pub data_directories : DataDirectories
  pub networking : Option String
  pub upgrade_strategy : UpgradeStrategy
  pub agent_env_vars : List EnvVar
  pub additional_manifest : String
  pub provision_generation : ℤ
  pub etcd_s3 : Option EtcdSnapshotS3
  pub etcd_snapshot_create : Option EtcdSnapshotCreate
  pub etcd_snapshot_restore : Option EtcdSnapshotRestore
  pub rotate_encryption_keys : Option RotateEncryptionKeys
  pub rotate_certificates : Option RotateCertificates
  pub status : Status

-- capr.GetRuntime
unfoldable pub get_runtime : String → String
get_runtime kubernetes_version =
    if contains kubernetes_version Names.runtime_k3s then Names.runtime_k3s else Names.runtime_rke2

-- capr.GetDistroDataDir
unfoldable pub get_distro_data_dir : ControlPlane → String
unfolding get_runtime
get_distro_data_dir control_plane =
    if str_eq control_plane.data_directories.k8s_distro ""
    then "/var/lib/rancher/" <> get_runtime control_plane.kubernetes_version
    else control_plane.data_directories.k8s_distro

-- capr.GetProvisioningDataDir
unfoldable pub get_provisioning_data_dir : ControlPlane → String
get_provisioning_data_dir control_plane =
    if str_eq control_plane.data_directories.provisioning ""
    then "/var/lib/rancher/capr"
    else control_plane.data_directories.provisioning

-- capr.GetRuntimeCommand
unfoldable pub get_runtime_command : String → String
unfolding get_runtime
get_runtime_command kubernetes_version = to_lower (get_runtime kubernetes_version)

-- capr.GetRuntimeServerUnit
unfoldable pub get_runtime_server_unit : String → String
unfolding get_runtime
get_runtime_server_unit kubernetes_version =
    if str_eq (get_runtime kubernetes_version) Names.runtime_k3s
    then Names.runtime_k3s
    else Names.runtime_rke2 <> "-server"

-- capr.GetRuntimeAgentUnit
unfoldable pub get_runtime_agent_unit : String → String
unfolding get_runtime_command
get_runtime_agent_unit kubernetes_version = get_runtime_command kubernetes_version <> "-agent"

-- capr.GetRuntimeEnv
unfoldable pub get_runtime_env : String → String
unfolding get_runtime
get_runtime_env kubernetes_version = to_upper (get_runtime kubernetes_version)

-- capr.GetKubectlAndKubeconfigPaths
unfoldable pub get_kubectl_and_kubeconfig_paths : ControlPlane → String × String
unfolding get_runtime get_distro_data_dir
get_kubectl_and_kubeconfig_paths control_plane =
    if str_eq (get_runtime control_plane.kubernetes_version) Names.runtime_k3s
    then ("/usr/local/bin/kubectl", "/etc/rancher/k3s/k3s.yaml")
    else if str_eq (get_runtime control_plane.kubernetes_version) Names.runtime_rke2
    then (
      join_path (get_distro_data_dir control_plane) "bin/kubectl",
      "/etc/rancher/rke2/rke2.yaml",
    )
    else ("", "")

abbrev default_stack_preference : String
default_stack_preference = "ipv4"

-- The preference of the control plane, or the default
unfoldable pub stack_preference : Option String → String
stack_preference none = default_stack_preference
stack_preference (some preference) =
    if str_eq preference "" then default_stack_preference else preference

unfoldable pub loopback_of : String → String
loopback_of preference =
    if str_eq preference "ipv6"
    then "[::1]"
    else if str_eq preference "dual"
    then "localhost"
    else "127.0.0.1"

-- capr.GetLoopbackAddress
unfoldable pub get_loopback_address : ControlPlane → String
unfolding stack_preference loopback_of
get_loopback_address control_plane = loopback_of (stack_preference control_plane.networking)

-- capr.GetRuntimeSupervisorPort
unfoldable pub get_runtime_supervisor_port : String → ℕ
unfolding get_runtime
get_runtime_supervisor_port kubernetes_version =
    if str_eq (get_runtime kubernetes_version) Names.runtime_rke2 then 9345 else 6443
