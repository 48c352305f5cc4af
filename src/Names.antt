-- ===== src/Names.antt =====
-- pkg/common.go: the labels, annotations and secret types that the controllers agree on.
use cluster_api_provider_ran.Prelude.{String}

abbrev pub control_plane_role_label : String
control_plane_role_label = "rke.cattle.io/control-plane-role"

abbrev pub drain_annotation : String
drain_annotation = "rke.cattle.io/drain-options"

abbrev pub drain_done_annotation : String
drain_done_annotation = "rke.cattle.io/drain-done"

abbrev pub drain_error_annotation : String
drain_error_annotation = "rke.cattle.io/drain-error"

abbrev pub etcd_role_label : String
etcd_role_label = "rke.cattle.io/etcd-role"

abbrev pub init_node_label : String
init_node_label = "rke.cattle.io/init-node"

abbrev pub init_node_machine_id_label : String
init_node_machine_id_label = "rke.cattle.io/init-node-machine-id"

abbrev pub join_url_autoset_disabled : String
join_url_autoset_disabled = "rke.cattle.io/join-url-autoset-disabled"

abbrev pub join_url_annotation : String
join_url_annotation = "rke.cattle.io/join-url"

abbrev pub joined_to_annotation : String
joined_to_annotation = "rke.cattle.io/joined-to"

abbrev pub machine_id_label : String
machine_id_label = "rke.cattle.io/machine-id"

abbrev pub machine_name_label : String
machine_name_label = "rke.cattle.io/machine-name"

abbrev pub post_drain_annotation : String
post_drain_annotation = "rke.cattle.io/post-drain"

abbrev pub pre_drain_annotation : String
pre_drain_annotation = "rke.cattle.io/pre-drain"

abbrev pub taints_annotation : String
taints_annotation = "rke.cattle.io/taints"

abbrev pub uncordon_annotation : String
uncordon_annotation = "rke.cattle.io/uncordon"

abbrev pub worker_role_label : String
worker_role_label = "rke.cattle.io/worker-role"

abbrev pub plan_updated_time_annotation : String
plan_updated_time_annotation = "rke.cattle.io/plan-last-updated"

abbrev pub plan_probes_passed_annotation : String
plan_probes_passed_annotation = "rke.cattle.io/plan-probes-passed"

abbrev pub secret_type_machine_plan : String
secret_type_machine_plan = "rke.cattle.io/machine-plan"

abbrev pub secret_type_cluster_state : String
secret_type_cluster_state = "rke.cattle.io/cluster-state"

abbrev pub cattle_os_label : String
cattle_os_label = "cattle.io/os"

abbrev pub windows_machine_os : String
windows_machine_os = "windows"

abbrev pub runtime_k3s : String
runtime_k3s = "k3s"

abbrev pub runtime_rke2 : String
runtime_rke2 = "rke2"

-- The condition types that the planner reads and writes.
abbrev pub reconciled : String
reconciled = "Reconciled"

abbrev pub infrastructure_ready : String
infrastructure_ready = "InfrastructureReady"

abbrev pub force_remove_etcd_annotation : String
force_remove_etcd_annotation = "rke.cattle.io/etcd-force-remove"

abbrev pub cluster_spec_annotation : String
cluster_spec_annotation = "rke.cattle.io/cluster-spec"
