-- ===== src/Tests/Etcd.antt =====
-- pkg/planner/etcdcreate.go on the test cluster.
use cluster_api_provider_ran.Prelude.{
  String, ◌≡◌, refl, some, List, [], ◌∷◌, lookup, All, is_empty, false,
}
use cluster_api_provider_ran.Errors.{Error, ok}
use cluster_api_provider_ran.ControlPlane.{
  EtcdSnapshotPhase, EtcdSnapshotCreate, Status, ControlPlane,
}
use cluster_api_provider_ran.Planner.FullReconcile.{Round}
use cluster_api_provider_ran.Planner.Reconcile.Tier.{DesiredPlan}
use cluster_api_provider_ran.Planner.EtcdCreate.{take_snapshot, create_etcd_snapshot}
use cluster_api_provider_ran.Planner.EtcdCreate.Laws.{
  PhaseStep, phase_of, HasSnapshot, create_etcd_snapshot_step, restart_needs_snapshot,
}
use cluster_api_provider_ran.Tests.Base.{
  Secrets, server_url, true_condition, api, plan_a, plan_b, node_with, cluster, control_plane,
  secrets, status,
}
use cluster_api_provider_ran.Planner.Collect.{collect}
use cluster_api_provider_ran.Planner.Entry.{is_etcd}
use cluster_api_provider_ran.Planner.InitNode.{on_target}
use cluster_api_provider_ran.Planner.Store.Assign.{assign_and_check_plan}
use cluster_api_provider_ran.Plan.Equal.{node_plan_eq}

abbrev snapshot : EtcdSnapshotCreate
snapshot = record { generation = 1 }

-- The snapshot has been started.
abbrev started_status : Status
started_status = record status {
  conditions = true_condition "Bootstrapped" ∷ [];
  etcd_snapshot_create = some snapshot;
  etcd_snapshot_create_phase = EtcdSnapshotPhase.started;
}

abbrev snapshot_control_plane : ControlPlane
snapshot_control_plane = record control_plane {
  etcd_snapshot_create = some snapshot;
  status = started_status;
}

abbrev wanted_plan : DesiredPlan
wanted_plan e url = ok (plan_b, url)

abbrev first_error : List Error → String
first_error errs = "[]"

abbrev started : Round Secrets
started = record {
  status = started_status;
  world = record { plan = cluster (some (node_with plan_a)); server = secrets };
}

create_etcd_snapshot_step_example : PhaseStep EtcdSnapshotPhase.started (
    phase_of
      (create_etcd_snapshot api snapshot_control_plane wanted_plan wanted_plan first_error
        started).1.status)
create_etcd_snapshot_step_example =
    create_etcd_snapshot_step api snapshot_control_plane wanted_plan wanted_plan first_error
      snapshot started refl refl

-- The servers have applied the plan that takes the snapshot.
abbrev applied_plan : DesiredPlan
applied_plan e url = ok (plan_a, url)

restart_needs_snapshot_example :
    (is_empty (collect started.world.plan is_etcd) ≡ false)
    × All
        (HasSnapshot api snapshot_control_plane wanted_plan applied_plan first_error server_url)
        (collect started.world.plan is_etcd)
unfolding take_snapshot collect is_etcd lookup on_target assign_and_check_plan node_plan_eq
restart_needs_snapshot_example =
    restart_needs_snapshot api snapshot_control_plane wanted_plan applied_plan first_error snapshot
      server_url started refl refl
