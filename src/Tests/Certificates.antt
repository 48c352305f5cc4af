-- ===== src/Tests/Certificates.antt =====
-- pkg/planner/certificaterotation.go on the test cluster.
use cluster_api_provider_ran.Prelude.{
  String, ◌≡◌, refl, true, none, some, [], ◌∷◌, pos, get, member, ap, int_eq, lookup, contains,
}
use cluster_api_provider_ran.Errors.{Result, ok, err}
use cluster_api_provider_ran.Plan.{NodePlan, Metadata}
use cluster_api_provider_ran.Plan.Equal.{node_plan_eq_self}
use cluster_api_provider_ran.ControlPlane.{RotateCertificates, ControlPlane, get_runtime}
use cluster_api_provider_ran.Names
use cluster_api_provider_ran.Planner.Entry.{
  PlanEntry, label, is_etcd, is_control_plane, is_worker, is_init_node, annotation, is_only_etcd,
  is_only_control_plane, is_only_worker, role_and, any_role, can_be_init_node, is_deleting,
  is_failed,
}
use cluster_api_provider_ran.Planner.Collect.{entry_of, collect}
use cluster_api_provider_ran.Planner.Collect.Laws.{count}
use cluster_api_provider_ran.Planner.CapiCluster.{pause_capi_cluster}
use cluster_api_provider_ran.Planner.InitNode.{find_init_node, on_target}
use cluster_api_provider_ran.Planner.FullReconcile.{Round}
use cluster_api_provider_ran.Planner.Store.Assign.{assign_and_check_plan}
use cluster_api_provider_ran.Planner.Certificates.{
  collect_ordered_certificate_rotation_entries, should_rotate, rotate_certificates,
}
use cluster_api_provider_ran.Planner.Certificates.Plans.{rotate_certificates_plan}
use cluster_api_provider_ran.Planner.Certificates.Laws.{
  IsCompleted, rotation_groups, rotate_certificates_done,
}
use cluster_api_provider_ran.Tests.Base.{
  Secrets, server_url, api, plan_a, node_with, server_entry, cluster, machine, control_plane,
  secrets, status,
}
use cluster_api_provider_ran.Tests.Restore.{clusters, config_plan}

abbrev rotation : RotateCertificates
rotation = record { generation = pos 1; services = "etcd" ∷ [] }

abbrev rotating : ControlPlane
rotating = record control_plane {
  kubernetes_version = "k3s";
  data_directories = record { system_agent = ""; provisioning = "p"; k8s_distro = "d" };
  rotate_certificates = some rotation;
}

abbrev plan_of : Result (NodePlan × String) → NodePlan
plan_of (ok (p, joined)) = p
plan_of (err e) = plan_a

-- The init node, with etcd alone
abbrev etcd_metadata : Metadata
etcd_metadata = record {
  labels = (Names.etcd_role_label, "true") ∷ (Names.init_node_label, "true") ∷ [];
  annotations = (Names.join_url_annotation, server_url) ∷ [];
}

abbrev etcd_entry : PlanEntry
etcd_entry = record server_entry { metadata = some etcd_metadata }

abbrev rotated_plan : NodePlan
rotated_plan =
    plan_of (rotate_certificates_plan api rotating config_plan rotation etcd_entry server_url)

abbrev rotated : Round Secrets
rotated = record {
  status = status;
  world = record {
    plan = record {
      nodes = ("server", node_with rotated_plan) ∷ [];
      machines = ("server", machine "server") ∷ [];
      metadata = ("server", etcd_metadata) ∷ [];
    };
    server = secrets;
  };
}

reaches_done :
    (rotate_certificates api clusters rotating config_plan
      rotated).1.status.certificate_rotation_generation
    ≡ pos 1
unfolding rotate_certificates can_be_init_node is_deleting is_failed is_only_etcd
    is_only_control_plane is_only_worker role_and member get collect is_etcd is_control_plane
    is_worker is_init_node annotation label lookup find_init_node on_target assign_and_check_plan
    pause_capi_cluster get_runtime contains
reaches_done = simp (node_plan_eq_self rotated_plan)

rotate_certificates_done_example :
    (should_rotate rotating ≡ true)
    × IsCompleted api clusters rotating config_plan rotation
        (find_init_node api rotating rotated.world).0.join_url
        (find_init_node api rotating rotated.world).1
rotate_certificates_done_example =
    rotate_certificates_done api clusters rotating config_plan rotation rotated refl refl
      (ap (λ g. int_eq g (pos 1)) reaches_done)

-- Of a server with a control plane and etcd, which is the init node, and a worker, one is a worker.
rotation_groups_example :
    count is_worker (collect_ordered_certificate_rotation_entries (cluster none)) ≡ 1
unfolding any_role is_worker is_etcd is_control_plane label lookup entry_of
rotation_groups_example = rotation_groups is_worker (cluster none)
