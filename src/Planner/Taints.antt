-- ===== src/Planner/Taints.antt =====
-- pkg/planner/planner.go: the taints of a machine.
pub mod Laws
use cluster_api_provider_ran.Prelude.{
  String, not, ◌&&◌, ◌||◌, List, [], ◌∷◌, ◌++◌, str_eq, is_some, if◌then◌else◌,
}
use cluster_api_provider_ran.Errors.{Result, ok, err, panic, and_then}
use cluster_api_provider_ran.ControlPlane.{ControlPlane, get_runtime}
use cluster_api_provider_ran.Planner.Entry.{
  PlanEntry, annotation, is_etcd, is_control_plane, is_worker,
}
use cluster_api_provider_ran.Names

-- corev1.Taint, less the time at which it was added
pub record Taint : Type 0 where
  pub key : String
  pub value : String
  pub effect : String

abbrev pub etcd_taint : Taint
etcd_taint = record { key = "node-role.kubernetes.io/etcd"; value = ""; effect = "NoExecute" }

abbrev pub control_plane_taint : Taint
control_plane_taint = record {
  key = "node-role.kubernetes.io/control-plane";
  value = "";
  effect = "NoSchedule";
}

-- json.Unmarshal of the annotation; no annotation gives no taints, and nil metadata panics.
unfoldable pub decode_taints : (String → Result (List Taint)) → PlanEntry → Result (List Taint)
decode_taints unmarshal_taints entry =
    if not (is_some entry.metadata)
    then err (panic "invalid memory address or nil pointer dereference")
    else if str_eq (annotation Names.taints_annotation entry) ""
    then ok []
    else unmarshal_taints (annotation Names.taints_annotation entry)

unfoldable pub add_etcd_taint : PlanEntry → ControlPlane → List Taint → List Taint
add_etcd_taint entry cp taints =
    if is_etcd entry
      && (not (str_eq (get_runtime cp.kubernetes_version) Names.runtime_k3s)
          || not (is_control_plane entry))
    then taints ++ (etcd_taint ∷ [])
    else taints

unfoldable pub add_control_plane_taint : PlanEntry → List Taint → List Taint
add_control_plane_taint entry taints =
    if is_control_plane entry then taints ++ (control_plane_taint ∷ []) else taints

unfoldable pub add_role_taints : PlanEntry → ControlPlane → List Taint → List Taint
unfolding add_etcd_taint add_control_plane_taint
add_role_taints entry cp taints =
    if is_worker entry
    then taints
    else add_control_plane_taint entry (add_etcd_taint entry cp taints)

-- getTaints
unfoldable pub get_taints :
    (String → Result (List Taint)) → PlanEntry → ControlPlane → Result (List Taint)
unfolding decode_taints add_role_taints
get_taints unmarshal_taints entry cp =
    and_then (decode_taints unmarshal_taints entry) (λ taints. ok (add_role_taints entry cp taints))
