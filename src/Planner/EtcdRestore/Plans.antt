-- ===== src/Planner/EtcdRestore/Plans.antt =====
-- pkg/planner/etcdrestore.go: the plans that a restore delivers to the nodes.
use cluster_api_provider_ran.Prelude.{
  ℕ, ◌+◌, String, Bool, true, false, Option, none, some, List, [], ◌∷◌, ◌++◌, ◌<>◌, str_eq,
  to_upper, itoa, pos, ◌||◌, if◌then◌else◌, Assoc,
}
use cluster_api_provider_ran.Errors.{other, Result, ok, err, and_then}
use cluster_api_provider_ran.Plan.{OneTimeInstruction, File, NodePlan}
use cluster_api_provider_ran.Objects.{Api}
use cluster_api_provider_ran.ControlPlane.{
  ControlPlane, EtcdSnapshotRestore, EtcdSnapshotS3, get_runtime, get_runtime_command,
  get_distro_data_dir, get_loopback_address, get_kubectl_and_kubeconfig_paths,
}
use cluster_api_provider_ran.Names
use cluster_api_provider_ran.Paths.{join_path}
use cluster_api_provider_ran.Planner.Entry.{PlanEntry}
use cluster_api_provider_ran.Planner.Args.{split_two}
use cluster_api_provider_ran.Planner.Desired.{ConfigPlan}
use cluster_api_provider_ran.Planner.Idempotent.{
  no_instruction, idempotent_instruction, convert_to_idempotent_instruction,
}
use cluster_api_provider_ran.Planner.Instructions.{
  InfoFunctions, generate_manifest_removal_instruction,
  generate_install_instruction_with_skip_start,
}
use cluster_api_provider_ran.Planner.S3Args.{S3Api, Rendered, to_args}
use cluster_api_provider_ran.Planner.EtcdRestore.State.{printed_restore}
use cluster_api_provider_ran.Planner.EtcdRestore.Scripts.{
  wait_for_pod_list_script, clean_up_nodes_script, wait_for_ready_script,
}

-- An ETCDSnapshot: `file_name`, `s3` and `metadata` are those of its snapshot file.
pub record EtcdSnapshot : Type 0 where
  pub namespace : String
  pub name : String
  pub labels : Assoc String
  pub file_name : String
  pub s3 : Option EtcdSnapshotS3
  pub metadata : String

abbrev pub add_instructions : List OneTimeInstruction → NodePlan → NodePlan
add_instructions is p = record p { instructions = p.instructions ++ is }

abbrev pub add_files : List File → NodePlan → NodePlan
add_files fs p = record p { files = p.files ++ fs }

abbrev pub on_rke2 : ControlPlane → List OneTimeInstruction → List OneTimeInstruction
on_rke2 cp is = if str_eq (get_runtime cp.kubernetes_version) Names.runtime_rke2 then is else []

-- The instruction, or none where it was not generated
abbrev pub generated : Option OneTimeInstruction → List OneTimeInstruction
generated none = []
generated (some i) = i ∷ []

abbrev kill_all_script : String → String
kill_all_script runtime = runtime <> "-killall.sh"

unfoldable pub generate_kill_all_instruction : ControlPlane → OneTimeInstruction
generate_kill_all_instruction cp =
    let runtime = get_runtime cp.kubernetes_version in
    record no_instruction {
      name = "shutdown";
      command = "/bin/sh";
      env = (to_upper runtime <> "_DATA_DIR=" <> get_distro_data_dir cp) ∷ [];
      args =
          "-c"
          ∷ ("if [ -z $(command -v "
              <> runtime
              <> ") ] && [ -z $(command -v "
              <> kill_all_script runtime
              <> ") ]; then echo "
              <> runtime
              <> " does not appear to be installed; exit 0; else "
              <> kill_all_script runtime
              <> "; fi")
          ∷ [];
    }

unfoldable pub generate_create_etcd_tombstone_instruction : ControlPlane → OneTimeInstruction
generate_create_etcd_tombstone_instruction cp = record no_instruction {
  name = "create-etcd-tombstone";
  command = "touch";
  args = join_path (get_distro_data_dir cp) "server/db/etcd/tombstone" ∷ [];
}

unfoldable pub generate_remove_tls_and_cred_dir_instructions :
    ControlPlane → List OneTimeInstruction
generate_remove_tls_and_cred_dir_instructions cp =
    record no_instruction {
      name = "remove-tls-directory";
      command = "rm";
      args = "-rf" ∷ join_path (get_distro_data_dir cp) "server/tls" ∷ [];
    }
    ∷ record no_instruction {
      name = "remove-cred-directory";
      command = "rm";
      args = "-rf" ∷ join_path (get_distro_data_dir cp) "server/cred" ∷ [];
    }
    ∷ []

unfoldable pub etcd_restore_script_path : ControlPlane → String → String
etcd_restore_script_path cp file =
    join_path (get_distro_data_dir cp) (join_path "capr/etcd-restore/bin" file)

abbrev pub wait_for_pod_list_path : String
wait_for_pod_list_path = "wait_for_pod_list.sh"

abbrev pub clean_up_nodes_path : String
clean_up_nodes_path = "clean_up_nodes.sh"

abbrev pub wait_for_ready_path : String
wait_for_ready_path = "wait_for_ready.sh"

-- The selectors of the pods of the distribution itself
unfoldable pub pod_selectors : String → List String
pod_selectors runtime =
    "kube-system:k8s-app=kube-dns"
    ∷ "kube-system:k8s-app=kube-dns-autoscaler"
    ∷ (if str_eq runtime Names.runtime_rke2
        then "kube-system:app=rke2-metrics-server" ∷ "tigera-operator:k8s-app=tigera-operator"
          ∷ "calico-system:k8s-app=calico-node" ∷ "calico-system:k8s-app=calico-kube-controllers"
          ∷ "calico-system:k8s-app=calico-typha" ∷ "kube-system:k8s-app=canal"
          ∷ "kube-system:k8s-app=cilium" ∷ "kube-system:app=rke2-multus"
          ∷ "kube-system:app.kubernetes.io/name=rke2-ingress-nginx" ∷ []
        else [])

abbrev supplied_selectors : Option (ControlPlane → List String) → ControlPlane → List String
supplied_selectors none cp = []
supplied_selectors (some f) cp = f cp

-- The arguments that name what is restored: a snapshot with no object is taken for a local one.
abbrev local_args : String → List String
local_args name = ("--cluster-reset-restore-path=db/snapshots/" <> name) ∷ "--etcd-s3=false" ∷ []

-- fmt.Appendf with "%s\n" for each
unfoldable pub lines_of : List String → String
lines_of [] = ""
lines_of (x ∷ xs) = x <> "\n" <> lines_of xs

module _ {S : Type 0} (api : Api S) (s3_api : S3Api) (functions : InfoFunctions)
    (cp : ControlPlane) where
  abbrev once : String → String → List String → List String → OneTimeInstruction
  once identifier =
      idempotent_instruction api cp identifier (printed_restore cp.status.etcd_snapshot_restore)

  abbrev made_once : String → OneTimeInstruction → OneTimeInstruction
  made_once identifier =
      convert_to_idempotent_instruction api cp identifier
        (printed_restore cp.status.etcd_snapshot_restore)

  abbrev script_file : String → String → File
  script_file content file = record {
    content = api.encode_base64 content;
    path = etcd_restore_script_path cp file;
    permissions = "";
    dynamic = true;
    minor = false;
  }

  unfoldable pub restore_source : Option EtcdSnapshot → String → Result Rendered
  unfolding to_args
  restore_source none snapshot_name =
      ok (record { args = local_args snapshot_name; env = []; files = [] })
  restore_source (some snapshot) snapshot_name = elim snapshot.s3 [
    | none ↦ ok (record { args = local_args snapshot.file_name; env = []; files = [] })
    | some s3 ↦ and_then (to_args api s3_api cp (some s3) "etcd-" true) (λ r.
        ok (record r { args = ("--cluster-reset-restore-path=" <> snapshot.file_name) ∷ r.args }))
  ]

  abbrev loopback : (String → Bool) → String
  loopback is_plain_ipv6 =
      let address = get_loopback_address cp in
      if is_plain_ipv6 address then "[" <> address <> "]" else address

  abbrev restore_args : String → List String
  restore_args address =
      "server"
      ∷ "--cluster-reset"
      ∷ ("--etcd-arg=advertise-client-urls=https://" <> address <> ":2379")
      ∷ "--etcd-disable-snapshots=false"
      ∷ []

  -- The instructions of a restore, in their order
  unfoldable pub restore_instructions : String → PlanEntry → Rendered → List OneTimeInstruction
  unfolding generate_kill_all_instruction generate_manifest_removal_instruction
      generate_install_instruction_with_skip_start
  restore_instructions address e source =
      made_once "etcd-restore/restore-kill-all" (generate_kill_all_instruction cp)
      ∷ (on_rke2 cp (
            generated (elim (generate_manifest_removal_instruction cp e) [
              | none ↦ none
              | some i ↦ some (made_once "etcd-restore/restore-manifest-removal" i)
            ]))
          ++ generate_install_instruction_with_skip_start functions cp e
            ∷ made_once "etcd-restore/clean-etcd-dir" (record no_instruction {
              name = "remove-etcd-db-dir";
              command = "rm";
              args = "-rf" ∷ join_path (get_distro_data_dir cp) "server/db/etcd" ∷ [];
            })
            ∷ once "etcd-restore/restore" (get_runtime_command cp.kubernetes_version)
                (restore_args address ++ source.args) source.env
            ∷ [])

  unfoldable pub generate_etcd_snapshot_restore_plan :
      ConfigPlan
      → (String → Bool)
      → Option EtcdSnapshot
      → String
      → PlanEntry
      → String
      → Result (NodePlan × String)
  unfolding restore_source restore_instructions
  generate_etcd_snapshot_restore_plan config_plan is_plain_ipv6 snapshot snapshot_name e
        join_server =
      elim cp.etcd_snapshot_restore [
        | none ↦ err (other "ETCD Snapshot restore was not defined")
        | some _ ↦ and_then (config_plan e join_server false) (λ c.
            and_then (restore_source snapshot snapshot_name) (λ source. ok (
              add_instructions (restore_instructions (loopback is_plain_ipv6) e source)
                  (add_files source.files c.node_plan),
              c.joined_server,
            )))
      ]

  unfoldable pub generate_stop_service_and_kill_all_plan :
      ConfigPlan → PlanEntry → String → Result (NodePlan × String)
  unfolding generate_kill_all_instruction generate_manifest_removal_instruction
  generate_stop_service_and_kill_all_plan config_plan server join_server =
      and_then (config_plan server join_server true) (λ c. ok (
        add_instructions
            (generate_kill_all_instruction cp
              ∷ on_rke2 cp (generated (generate_manifest_removal_instruction cp server)))
            c.node_plan,
        c.joined_server,
      ))

  abbrev delete_pods : String → String → ℕ → String × String → OneTimeInstruction
  delete_pods kubectl kubeconfig i (namespace, label_selector) =
      once ("etcd-restore/post-restore-cleanup-pods-" <> itoa (pos i)) kubectl
        ("--kubeconfig" ∷ kubeconfig ∷ "delete" ∷ "pods" ∷ "-n" ∷ namespace ∷ "-l" ∷ label_selector
          ∷ "--wait=false" ∷ [])
        []

  -- The loop over the selectors with their index; one without a colon is left out.
  unfoldable pub delete_all_pods : String → String → ℕ → List String → List OneTimeInstruction
  unfolding split_two
  delete_all_pods kubectl kubeconfig i [] = []
  delete_all_pods kubectl kubeconfig i (s ∷ ss) =
      let rest = delete_all_pods kubectl kubeconfig (i + 1) ss in
      elim (split_two ":" s) [
        | none ↦ rest
        | some parts ↦ delete_pods kubectl kubeconfig i parts ∷ rest
      ]

  abbrev kubectl_env : String → String → List String
  kubectl_env kubectl kubeconfig = ("KUBECTL=" <> kubectl) ∷ ("KUBECONFIG=" <> kubeconfig) ∷ []

  unfoldable pub pod_cleanup_instructions : String → String → List String → List OneTimeInstruction
  unfolding delete_all_pods pod_selectors
  pod_cleanup_instructions kubectl kubeconfig uids =
      once "etcd-restore/pods-wait-for-podlist" "/bin/sh"
        ("-x"
          ∷ etcd_restore_script_path cp wait_for_pod_list_path
          ∷ kubectl
          ∷ "--kubeconfig"
          ∷ kubeconfig
          ∷ "get"
          ∷ "pods"
          ∷ "--all-namespaces"
          ∷ [])
        []
      ∷ once "etcd-restore/wait-for-desired-ready-nodes" "/bin/sh"
          (etcd_restore_script_path cp wait_for_ready_path ∷ uids) (kubectl_env kubectl kubeconfig)
      ∷ delete_all_pods kubectl kubeconfig 0 (
          pod_selectors (get_runtime cp.kubernetes_version)
          ++ supplied_selectors functions.system_pod_label_selectors cp)

  unfoldable pub generate_etcd_restore_pod_cleanup_files_and_instruction :
      List String → List File × List OneTimeInstruction
  unfolding pod_cleanup_instructions wait_for_pod_list_script wait_for_ready_script
  generate_etcd_restore_pod_cleanup_files_and_instruction uids =
      let (kubectl, kubeconfig) = get_kubectl_and_kubeconfig_paths cp in
      if str_eq kubectl "" || str_eq kubeconfig "" then ([], []) else (
        script_file wait_for_pod_list_script wait_for_pod_list_path
            ∷ script_file wait_for_ready_script wait_for_ready_path
            ∷ [],
        pod_cleanup_instructions kubectl kubeconfig uids,
      )

  unfoldable pub restore_identifier : EtcdSnapshotRestore → String
  restore_identifier r = s3_api.name_hex (r.name <> r.restore_rke_config <> itoa r.generation) 10

  unfoldable pub node_cleanup :
      String → String → String → List String → List String → List File × List OneTimeInstruction
  unfolding lines_of clean_up_nodes_script
  node_cleanup kubectl kubeconfig identifier uids names = (
    script_file clean_up_nodes_script clean_up_nodes_path
        ∷ script_file (lines_of uids) ("machine-ids-" <> identifier)
        ∷ script_file (lines_of names) ("node-names-" <> identifier)
        ∷ [],
    once "etcd-restore/cleanup-nodes" "/bin/sh"
          (etcd_restore_script_path cp clean_up_nodes_path
            ∷ etcd_restore_script_path cp ("machine-ids-" <> identifier)
            ∷ etcd_restore_script_path cp ("node-names-" <> identifier)
            ∷ [])
          (kubectl_env kubectl kubeconfig)
        ∷ [],
  )

  -- For a restore that the control plane asks for
  unfoldable pub generate_etcd_restore_node_cleanup_files_and_instruction :
      EtcdSnapshotRestore → List String → List String → List File × List OneTimeInstruction
  unfolding restore_identifier node_cleanup
  generate_etcd_restore_node_cleanup_files_and_instruction restore uids names =
      let (kubectl, kubeconfig) = get_kubectl_and_kubeconfig_paths cp in
      if str_eq kubectl "" || str_eq kubeconfig ""
      then ([], [])
      else node_cleanup kubectl kubeconfig (restore_identifier restore) uids names
