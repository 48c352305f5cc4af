-- ===== src/Planner/Taints/Laws.antt =====
-- getTaints in pkg/planner/planner.go against a table of roles.
use mathlib.Core.List.{append-nil, append_assoc}
use cluster_api_provider_ran.Prelude.{
  String, Bool, true, false, ◌≡◌, List, [], ◌∷◌, ◌++◌, str_eq, arith, inl, inr,
}
use cluster_api_provider_ran.Errors.{Result, ok, and_then}
use cluster_api_provider_ran.Errors.Laws.{Result-cases}
use cluster_api_provider_ran.ControlPlane.{ControlPlane, get_runtime}
use cluster_api_provider_ran.Planner.Entry.{PlanEntry, is_etcd, is_control_plane, is_worker}
use cluster_api_provider_ran.Planner.Taints.{
  Taint, etcd_taint, control_plane_taint, decode_taints, add_etcd_taint, add_control_plane_taint,
  add_role_taints, get_taints,
}
use cluster_api_provider_ran.Names

-- The taints of a machine that is no worker: on k3s (the first flag), with the etcd role, with the
-- control plane role.
abbrev pub server_taints : Bool → Bool → Bool → List Taint
server_taints k3s true false = etcd_taint ∷ []
server_taints k3s false true = control_plane_taint ∷ []
server_taints false true true = etcd_taint ∷ control_plane_taint ∷ []
server_taints true true true = control_plane_taint ∷ []
server_taints k3s false false = []

abbrev pub taints_by_role : Bool → Bool → Bool → Bool → List Taint
taints_by_role true k3s etcd control_plane = []
taints_by_role false k3s etcd control_plane = server_taints k3s etcd control_plane

pub add_role_taints_lem :
    (entry : PlanEntry) (cp : ControlPlane) (taints : List Taint)
    → add_role_taints entry cp taints
      ≡ taints
        ++ taints_by_role
            (is_worker entry)
            (str_eq (get_runtime cp.kubernetes_version) Names.runtime_k3s)
            (is_etcd entry)
            (is_control_plane entry)
unfolding add_role_taints add_etcd_taint add_control_plane_taint
add_role_taints_lem entry cp taints = grind (arith, append-nil, append_assoc)

-- Unless the annotation cannot be decoded, the taints of a machine are those of its annotation,
-- followed by those of its roles: none for a worker, the etcd taint for an etcd machine, the control
-- plane taint for a control plane machine, both for a machine with both roles, except that on k3s
-- such a machine has the control plane taint alone.
pub get_taints_lem :
    (unmarshal_taints : String → Result (List Taint)) (entry : PlanEntry) (cp : ControlPlane)
    → get_taints unmarshal_taints entry cp
      ≡ and_then (decode_taints unmarshal_taints entry) (λ taints. ok (
          taints
          ++ taints_by_role
              (is_worker entry)
              (str_eq (get_runtime cp.kubernetes_version) Names.runtime_k3s)
              (is_etcd entry)
              (is_control_plane entry)))
unfolding get_taints
get_taints_lem unmarshal_taints entry cp =
    elim (Result-cases (decode_taints unmarshal_taints entry)) [
      | inl (a, h) ↦ simp (h, add_role_taints_lem)
      | inr (e, h) ↦ simp (h)
    ]
