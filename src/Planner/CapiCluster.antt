-- ===== src/Planner/CapiCluster.antt =====
-- pkg/planner/planner.go and pkg/common.go: the Cluster API cluster that owns a control plane.
use cluster_api_provider_ran.Prelude.{
  ℕ, zero, suc, String, Bool, not, ◌&&◌, ◌||◌, Option, none, some, List, str_eq, ◌<>◌,
  if◌then◌else◌,
}
use cluster_api_provider_ran.Errors.{Error, other, Result, ok, err, Run, pure, raise, ◌>>=◌, ◌>>◌}
use cluster_api_provider_ran.Objects.{Condition, Machine}
use cluster_api_provider_ran.ControlPlane.{ControlPlane, OwnerReference}

-- A capi.Cluster
pub record CapiCluster : Type 0 where
  pub namespace : String
  pub name : String
  pub deletion_timestamp : Option String
  pub paused : Bool
  pub infrastructure_ready : Bool
  pub conditions : List Condition

-- The clients of the objects around the control plane, and the helpers on conditions. A cache that
-- answers without an error answers with an object; `none` is a nil pointer.
pub record ClusterApi (S : Type 0) : Type 0 where
  pub cached_cluster : String → String → Run S (Option CapiCluster)
  pub update_cluster : CapiCluster → Run S CapiCluster
  pub update_cluster_status : CapiCluster → Run S CapiCluster
  pub is_conflict : Error → Bool
  pub is_false : String → List Condition → Bool
  pub mark_false : String → String → String → String → CapiCluster → CapiCluster
  pub update_machine : Machine → Run S Machine

-- Answers to retry.RetryOnConflict, with the rounds that are left
unfoldable pub retry_if : {T A : Type 0} → (Error → Bool) → Run T A → Result A × T → Result A × T
retry_if conflict again (ok a, t) = (ok a, t)
retry_if conflict again (err e, t) = if conflict e then again t else (err e, t)

unfoldable pub retry : {T A : Type 0} → (Error → Bool) → ℕ → Run T A → Run T A
unfolding retry_if
retry conflict zero body t = body t
retry conflict (suc left) body t = retry_if conflict (retry conflict left body) (body t)

-- capr.GetOwnerFromGVK for an object that is not nil
unfoldable pub get_owner_from_gvk : String → String → Option OwnerReference → Result OwnerReference
get_owner_from_gvk group_version kind none = err (other "no matching controller owner ref")
get_owner_from_gvk group_version kind (some ref) =
    if not (str_eq ref.kind kind) || not (str_eq ref.api_version group_version)
    then err (other "no matching controller owner ref")
    else ok ref

abbrev pub capi_group_version : String
capi_group_version = "cluster.x-k8s.io/v1beta1"

abbrev pub control_plane_initialized : String
control_plane_initialized = "ControlPlaneInitialized"

abbrev not_there : ControlPlane → Error
not_there cp = other ("CAPI cluster does not exist for " <> cp.namespace <> "/" <> cp.name)

module _ {S : Type 0} (clusters : ClusterApi S) (cp : ControlPlane) where
  unfoldable pub owner_cluster : Result OwnerReference → Run S (Option CapiCluster)
  owner_cluster (err e) = raise e
  owner_cluster (ok ref) = clusters.cached_cluster cp.namespace ref.name

  unfoldable pub get_owner_capi_cluster : Run S (Option CapiCluster)
  unfolding get_owner_from_gvk owner_cluster
  get_owner_capi_cluster =
      owner_cluster (get_owner_from_gvk capi_group_version "Cluster" cp.controller_ref)

  unfoldable pub set_paused : Bool → Option CapiCluster → Run S (Unit {0})
  set_paused pause none = raise (not_there cp)
  set_paused pause (some cluster) =
      if (cluster.paused && pause) || (not cluster.paused && not pause)
      then pure tt
      else clusters.update_cluster (record cluster { paused = pause }) >> pure tt

  -- pauseCAPICluster; client-go's DefaultRetry tries five times.
  unfoldable pub pause_capi_cluster : Bool → Run S (Unit {0})
  unfolding retry get_owner_capi_cluster set_paused
  pause_capi_cluster pause =
      retry clusters.is_conflict 4 (get_owner_capi_cluster >>= set_paused pause)

  unfoldable pub mark_uninitialized : Option CapiCluster → Run S (Unit {0})
  mark_uninitialized none = raise (not_there cp)
  mark_uninitialized (some cluster) =
      if not (clusters.is_false control_plane_initialized cluster.conditions)
      then clusters.update_cluster_status (
          clusters.mark_false control_plane_initialized "WaitingForControlPlaneProviderInitialized"
            "Info"
            "Waiting for control plane provider to indicate the control plane has been initialized"
            cluster)
        >> pure tt
      else pure tt

  unfoldable pub ensure_capi_cluster_control_plane_initialized_false : Run S (Unit {0})
  unfolding get_owner_capi_cluster mark_uninitialized
  ensure_capi_cluster_control_plane_initialized_false =
      get_owner_capi_cluster >>= mark_uninitialized
