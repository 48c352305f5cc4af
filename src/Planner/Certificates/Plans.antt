-- ===== src/Planner/Certificates/Plans.antt =====
-- pkg/planner/certificaterotation.go: the plan that rotates the certificates of a node.
use cluster_api_provider_ran.Prelude.{
  String, Bool, true, not, ◌&&◌, ◌||◌, Option, none, some, List, [], ◌∷◌, ◌++◌, Assoc, lookup,
  or_zero, is_empty, itoa, str_eq, member, replace_all, ◌<>◌, if◌then◌else◌,
}
use cluster_api_provider_ran.Errors.{Result, ok, and_then}
use cluster_api_provider_ran.Plan.{OneTimeInstruction, NodePlan}
use cluster_api_provider_ran.Objects.{Value, Api}
use cluster_api_provider_ran.ControlPlane.{
  RotateCertificates, ControlPlane, get_runtime, get_runtime_agent_unit, get_runtime_server_unit,
  get_distro_data_dir,
}
use cluster_api_provider_ran.Paths.{join_path}
use cluster_api_provider_ran.Planner.Entry.{PlanEntry, is_only_worker, is_control_plane}
use cluster_api_provider_ran.Planner.Args.{get_arg_value, cert_dir_argument, tls_cert_file_argument}
use cluster_api_provider_ran.Planner.Probes.{kube_controller_manager_arg, kube_scheduler_arg}
use cluster_api_provider_ran.Planner.Desired.{ConfigPlan}
use cluster_api_provider_ran.Planner.Idempotent.{
  idempotent_instruction, idempotent_restart_instructions, idempotent_stop_instruction,
  convert_to_idempotent_instruction,
}
use cluster_api_provider_ran.Planner.Instructions.{generate_manifest_removal_instruction}
use cluster_api_provider_ran.Planner.EtcdRestore.Plans.{add_instructions, on_rke2}

-- An empty list of services stands for all of them.
unfoldable pub rotation_contains_service : RotateCertificates → String → Bool
rotation_contains_service rotation service =
    is_empty rotation.services || member service rotation.services

unfoldable pub service_args : List String → List String
service_args [] = []
service_args (s ∷ ss) = "-s" ∷ s ∷ service_args ss

-- A component whose self-signed certificate is removed: the name of its service and its files, the
-- short name in the identifiers, its argument and certificate, and its pod's manifest
pub record Component : Type 0 where
  pub service : String
  pub short_name : String
  pub arg : String
  pub cert : String
  pub manifest : String

abbrev pub controller_manager : Component
controller_manager = record {
  service = "controller-manager";
  short_name = "kcm";
  arg = kube_controller_manager_arg;
  cert = "kube-controller-manager.crt";
  manifest = "/agent/pod-manifests/kube-controller-manager.yaml";
}

abbrev pub scheduler : Component
scheduler = record {
  service = "scheduler";
  short_name = "ks";
  arg = kube_scheduler_arg;
  cert = "kube-scheduler.crt";
  manifest = "agent/pod-manifests/kube-scheduler.yaml";
}

module _ {S : Type 0} (api : Api S) (cp : ControlPlane) (rotation : RotateCertificates) where
  abbrev once : String → String → List String → OneTimeInstruction
  once identifier command args =
      idempotent_instruction api cp ("certificate-rotation/" <> identifier)
        (itoa rotation.generation) command args []

  abbrev removes : String → String → OneTimeInstruction
  removes identifier path = once identifier "rm" ("-f" ∷ path ∷ [])

  unfoldable pub removal_of : Component → String → List OneTimeInstruction
  removal_of c dir =
      removes ("rm-" <> c.short_name <> "-cert") (dir <> "/" <> c.cert)
      ∷ removes ("rm-" <> c.short_name <> "-key") (dir <> "/" <> replace_all c.cert ".crt" ".key")
      ∷ on_rke2 cp (
          removes ("rm-" <> c.short_name <> "-spm") (join_path (get_distro_data_dir cp) c.manifest)
          ∷ [])

  -- The certificate is removed where the configuration names its directory, and no file.
  unfoldable pub remove_certificate : Assoc Value → Component → List OneTimeInstruction
  unfolding rotation_contains_service removal_of
  remove_certificate config c =
      let args = or_zero Value.nil (lookup c.arg config) in
      let dir = get_arg_value args cert_dir_argument "=" in
      if rotation_contains_service rotation c.service
        && not (str_eq dir "")
        && str_eq (get_arg_value args tls_cert_file_argument "=") ""
      then removal_of c dir
      else []

  unfoldable pub remove_certificates : PlanEntry → Assoc Value → List OneTimeInstruction
  unfolding remove_certificate
  remove_certificates e config =
      if is_control_plane e
      then remove_certificate config controller_manager ++ remove_certificate config scheduler
      else []

  abbrev restarts : String → List OneTimeInstruction
  restarts unit =
      idempotent_restart_instructions api cp "certificate-rotation/restart"
        (itoa rotation.generation) unit

  abbrev removes_manifests : Option OneTimeInstruction → List OneTimeInstruction
  removes_manifests none = []
  removes_manifests (some i) =
      convert_to_idempotent_instruction api cp "certificate-rotation/manifest-removal"
        (itoa rotation.generation) i
      ∷ []

  -- What a server runs: stop, rotate, remove what the components signed themselves, and restart
  unfoldable pub server_instructions : PlanEntry → Assoc Value → List OneTimeInstruction
  unfolding service_args remove_certificates
  server_instructions e config =
      idempotent_stop_instruction api cp "certificate-rotation/stop" (itoa rotation.generation)
        (get_runtime_server_unit cp.kubernetes_version)
      ∷ once "rotate" (get_runtime cp.kubernetes_version)
          ("certificate" ∷ "rotate" ∷ service_args rotation.services)
      ∷ (remove_certificates e config
          ++ on_rke2 cp (removes_manifests (generate_manifest_removal_instruction cp e))
          ++ restarts (get_runtime_server_unit cp.kubernetes_version))

  unfoldable pub rotation_instructions : PlanEntry → Assoc Value → List OneTimeInstruction
  unfolding server_instructions
  rotation_instructions e config =
      if is_only_worker e
      then restarts (get_runtime_agent_unit cp.kubernetes_version)
      else server_instructions e config

-- A worker keeps the server that it has joined.
unfoldable pub rotate_certificates_plan :
    {S : Type 0}
    → Api S
    → ControlPlane
    → ConfigPlan
    → RotateCertificates
    → PlanEntry
    → String
    → Result (NodePlan × String)
unfolding rotation_instructions
rotate_certificates_plan api cp config_plan rotation e join_server =
    and_then (config_plan e (if is_only_worker e then "" else join_server) true) (λ c. ok (
      add_instructions (rotation_instructions api cp rotation e c.config) c.node_plan,
      c.joined_server,
    ))
