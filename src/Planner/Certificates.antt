-- ===== src/Planner/Certificates.antt =====
-- pkg/planner/certificaterotation.go: the rotation of a cluster's certificates.
pub mod Plans
pub mod Laws
use cluster_api_provider_ran.Prelude.{
  ℕ, String, Bool, true, false, not, ◌&&◌, ◌||◌, Option, none, some, List, [], ◌∷◌, ◌++◌, any,
  is_empty, ℤ, pos, int_eq, str_eq, member, ◌<>◌, if◌then◌else◌,
}
use cluster_api_provider_ran.Errors.{
  Error, waiting, Result, ok, err, Run, pure, raise, lift, ◌>>=◌, ◌>>◌,
}
use cluster_api_provider_ran.Plan.{NodePlan}
use cluster_api_provider_ran.Objects.{Api}
use cluster_api_provider_ran.ControlPlane.{RotateCertificates, Status, ControlPlane}
use cluster_api_provider_ran.Planner.Entry.{
  Plan, PlanEntry, role_and, is_etcd, is_control_plane, is_worker, is_only_etcd,
  is_only_control_plane, is_only_worker,
}
use cluster_api_provider_ran.Planner.Collect.{collect}
use cluster_api_provider_ran.Planner.CapiCluster.{ClusterApi, pause_capi_cluster}
use cluster_api_provider_ran.Planner.Desired.{ConfigPlan}
use cluster_api_provider_ran.Planner.InitNode.{Found, find_init_node, on_target}
use cluster_api_provider_ran.Planner.FullReconcile.{Round}
use cluster_api_provider_ran.Planner.Reconcile.Pass.{World}
use cluster_api_provider_ran.Planner.Store.Assign.{assign_and_check_plan}
use cluster_api_provider_ran.Planner.EtcdRestore.Stop.{on_server}
use cluster_api_provider_ran.Planner.EtcdRestore.Phases.{on_world}
use cluster_api_provider_ran.Planner.Certificates.Plans.{rotate_certificates_plan}

-- Nodes with etcd alone, with etcd and a control plane, with a control plane alone, and workers
unfoldable pub collect_ordered_certificate_rotation_entries : Plan → List PlanEntry
collect_ordered_certificate_rotation_entries p =
    collect p is_only_etcd
    ++ collect p (role_and is_control_plane is_etcd)
    ++ collect p is_only_control_plane
    ++ collect p is_only_worker

unfoldable pub is_stale : ℤ → Option RotateCertificates → Bool
is_stale generation none = false
is_stale generation (some rotation) = not (int_eq generation rotation.generation)

unfoldable pub should_rotate : ControlPlane → Bool
unfolding is_stale
should_rotate cp =
    cp.status.initialized
    && is_stale cp.status.certificate_rotation_generation cp.rotate_certificates

abbrev worker_services : List String
worker_services =
    "rke2-server" ∷ "k3s-server" ∷ "api-server" ∷ "kubelet" ∷ "kube-proxy" ∷ "auth-proxy" ∷ []

abbrev control_plane_services : List String
control_plane_services =
    "rke2-server" ∷ "k3s-server" ∷ "api-server" ∷ "kubelet" ∷ "kube-proxy" ∷ "auth-proxy"
    ∷ "controller-manager" ∷ "scheduler" ∷ "rke2-controller" ∷ "k3s-controller" ∷ "admin"
    ∷ "cloud-controller" ∷ []

abbrev etcd_services : List String
etcd_services = "etcd" ∷ "kubelet" ∷ "k3s-server" ∷ "rke2-server" ∷ []

-- The services that run on a node with the roles of the entry
unfoldable pub relevant_services : PlanEntry → List String
relevant_services e =
    (if is_worker e then worker_services else [])
    ++ (if is_control_plane e then control_plane_services else [])
    ++ (if is_etcd e then etcd_services else [])

unfoldable pub should_rotate_entry : RotateCertificates → PlanEntry → Bool
unfolding relevant_services
should_rotate_entry rotation e =
    is_empty rotation.services || any (λ s. member s (relevant_services e)) rotation.services

module _ {S : Type 0} (api : Api S) (clusters : ClusterApi S) (cp : ControlPlane)
    (config_plan : ConfigPlan) where
  -- An error of the plan pauses the cluster, and a failure to pause takes its place.
  unfoldable pub pause_on_error : Result (Unit {0}) × World S → Result (Unit {0}) × World S
  unfolding pause_capi_cluster
  pause_on_error (ok _, w) = (ok tt, w)
  pause_on_error (err e, w) = (on_server (pause_capi_cluster clusters cp true) >> raise e) w

  unfoldable pub rotate_entry : RotateCertificates → String → PlanEntry → Run (World S) (Unit {0})
  unfolding rotate_certificates_plan pause_on_error
  rotate_entry rotation join_server e =
      lift (rotate_certificates_plan api cp config_plan rotation e join_server) >>= λ planned. (λ w.
        pause_on_error (
          on_target e
            (assign_and_check_plan api ("[" <> e.machine.name <> "] certificate rotation") planned.0
              planned.1 (pos 0) (pos 0))
            w))

  unfoldable pub rotate_each :
      RotateCertificates → String → List PlanEntry → Run (World S) (Unit {0})
  unfolding should_rotate_entry rotate_entry
  rotate_each rotation join_server [] = pure tt
  rotate_each rotation join_server (e ∷ es) =
      if should_rotate_entry rotation e
      then rotate_entry rotation join_server e >> rotate_each rotation join_server es
      else rotate_each rotation join_server es

  unfoldable pub unpaused :
      RotateCertificates → Result (Unit {0}) × S → Round S → Result (Unit {0}) × Round S
  unpaused rotation (err e, s) t =
      (err (waiting "unpausing CAPI cluster"), record t { world = record t.world { server = s } })
  unpaused rotation (ok _, s) t = (
    err (waiting "certificate rotation done"),
    record t {
      world = record t.world { server = s };
      status = record t.status { certificate_rotation_generation = rotation.generation };
    },
  )

  -- The end of a rotation, which is an error as well, so that the status is stored
  unfoldable pub finish_rotation : RotateCertificates → Run (Round S) (Unit {0})
  unfolding pause_capi_cluster unpaused
  finish_rotation rotation t =
      unpaused rotation (pause_capi_cluster clusters cp false t.world.server) t

  unfoldable pub rotate_all : RotateCertificates → String → Run (Round S) (Unit {0})
  unfolding collect_ordered_certificate_rotation_entries rotate_each finish_rotation
  rotate_all rotation join_server t =
      (on_world (
            rotate_each rotation join_server
              (collect_ordered_certificate_rotation_entries t.world.plan))
          >> finish_rotation rotation)
        t

  unfoldable pub rotate_with :
      RotateCertificates → Option Error → Bool → String → Run (Round S) (Unit {0})
  unfolding rotate_all
  rotate_with rotation (some e) found join_server t = (err e, t)
  rotate_with rotation none found join_server t =
      if not found || str_eq join_server "" then (ok tt, t) else rotate_all rotation join_server t

  -- A rotation that is asked for, with the test that the rotation is due
  unfoldable pub rotate_for : Option RotateCertificates → Run (Round S) (Unit {0})
  unfolding should_rotate rotate_with
  rotate_for none t = (ok tt, t)
  rotate_for (some rotation) t =
      if should_rotate cp
      then (let (f, w) = find_init_node api cp t.world in
          rotate_with rotation f.error f.found f.join_url (record t { world = w }))
      else (ok tt, t)

  unfoldable pub rotate_certificates : Run (Round S) (Unit {0})
  unfolding rotate_for
  rotate_certificates t = rotate_for cp.rotate_certificates t
