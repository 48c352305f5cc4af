-- ===== src/Tests/Reconcile.antt =====
-- pkg/planner/planner.go on the test cluster: a tier's pass and a full pass.
use cluster_api_provider_ran.Planner.Messages.{get_plan_status_reason_message, messages_of}
use cluster_api_provider_ran.Planner.JoinUrl.{determine_join_url, scaled_index}
use cluster_api_provider_ran.Planner.InitNode.{elect_init_node}
use cluster_api_provider_ran.Planner.Drain.{undrain}
use cluster_api_provider_ran.Planner.Conditions.{set_machine_condition_status}
use cluster_api_provider_ran.Planner.Concurrency.{calculate_concurrency}
use cluster_api_provider_ran.Planner.Collect.{collect}
use cluster_api_provider_ran.Prelude.{
  none, String, ◌≡◌, ◌⊎◌, ◌||◌, ◌&&◌, refl, true, false, not, some, [], ◌∷◌, pos, arith, ◌<◌, ◌+◌,
  lookup, atoi, delete, get, insert,
}
use cluster_api_provider_ran.Errors.{ok, ignore_errors}
use cluster_api_provider_ran.Planner.Entry.{
  is_etcd, is_init_node, is_deleting, any_role, is_init_node_or_deleting,
  is_not_init_node_or_is_deleting, annotation, can_be_init_node, has_join_url, is_control_plane,
  is_failed, is_only_worker, is_worker, role_and, role_not,
}
use cluster_api_provider_ran.Planner.Change.{
  Reconcilable, is_unavailable, plan_applied_but_probes_never_healthy, minor_plan_change_detected,
}
use cluster_api_provider_ran.Planner.Reconcile.Pass.{Pass, no_progress, with_target}
use cluster_api_provider_ran.Planner.Reconcile.Step.{
  process, process_all, act, after_undrain, kubelet_version_up_to_date, settle,
}
use cluster_api_provider_ran.Planner.Reconcile.Tier.{DesiredPlan, reconcile}
use cluster_api_provider_ran.Planner.Reconcile.Budget.{
  unavailable_of, is_exception, process_ordinary, TakesDownAtMost, process_all_budget,
}
use cluster_api_provider_ran.Planner.FullReconcile.{
  Round, bootstrap_tier, etcd_tier, control_plane_tier, worker_tier, control_plane_strategy,
  worker_strategy, full_reconcile, no_drain,
}
use cluster_api_provider_ran.Planner.FullReconcile.Laws.{
  handles, tiers_cover, bootstrap_tier_apart, TiersDone, full_reconcile_ok,
}
use cluster_api_provider_ran.Tests.Base.{
  true_condition, Secrets, api, plan_a, plan_c, node_with, cluster, server_url, server_entry,
  worker_entry, control_plane, drain_options, secrets, status,
}
use cluster_api_provider_ran.Plan.Equal.{node_plan_eq, one_time_instruction_eq}

tiers_cover_example :
    (handles (bootstrap_tier no_drain) server_entry
      || handles (etcd_tier server_url no_drain) server_entry
      || handles (control_plane_tier server_url ("", no_drain)) server_entry
      || handles (worker_tier ("", no_drain)) server_entry)
    ≡ (not (is_deleting server_entry)
        && any_role server_entry
        && (not (is_init_node server_entry) || is_etcd server_entry))
tiers_cover_example = tiers_cover server_url ("", no_drain) ("", no_drain) server_entry

bootstrap_tier_apart_example :
    (handles (bootstrap_tier no_drain) server_entry ≡ (true && true && not false))
    × (true ≡ true
        → (handles (etcd_tier server_url no_drain) server_entry
            || handles (control_plane_tier server_url ("", no_drain)) server_entry
            || handles (worker_tier ("", no_drain)) server_entry)
          ≡ false)
unfolding is_etcd lookup is_init_node is_deleting
bootstrap_tier_apart_example =
    bootstrap_tier_apart server_url ("", no_drain) ("", no_drain) server_entry

-- A worker whose plan is to change so that it restarts.
abbrev restarting : Reconcilable
restarting = record {
  entry = worker_entry (some (node_with plan_a));
  desired_plan = plan_c;
  joined_url = server_url;
  change = true;
  minor_change = false;
}

abbrev start : Pass Secrets
start = record {
  progress = no_progress 0;
  plan = cluster (some (node_with plan_a));
  server = secrets;
}

process_ordinary_example :
    let p' =
      (process api control_plane is_init_node_or_deleting
        (pos 1)
        drain_options
        restarting
        start).1 in
    ((unavailable_of start < 1) × (unavailable_of p' ≡ unavailable_of start + 1))
    ⊎ ((unavailable_of p' ≡ unavailable_of start)
        × (p'.plan ≡ start.plan)
        × (p'.server ≡ start.server))
unfolding is_init_node_or_deleting is_init_node lookup is_deleting is_unavailable annotation
    plan_applied_but_probes_never_healthy node_plan_eq
process_ordinary_example =
    process_ordinary api control_plane is_init_node_or_deleting (pos 1) drain_options restarting
      (node_with plan_a) 0 start refl refl refl refl refl (refl, refl, refl)

-- Two such workers, one of which may be unavailable at a time.
process_all_budget_example :
    TakesDownAtMost api control_plane is_init_node_or_deleting
      (pos 1)
      drain_options
      (restarting ∷ restarting ∷ [])
      1
      start
      (process_all api control_plane is_init_node_or_deleting
        (pos 1)
        drain_options
        (restarting ∷ restarting ∷ [])
        start)
unfolding is_exception is_unavailable annotation lookup plan_applied_but_probes_never_healthy
    node_plan_eq
process_all_budget_example =
    process_all_budget api control_plane is_init_node_or_deleting (pos 1) drain_options
      (restarting ∷ restarting ∷ []) 0 1 1 start refl (refl, (refl, tt)) (omega arith) refl

-- Every node has the plan wanted.
abbrev same_plan : DesiredPlan
same_plan e url = ok (plan_a, url)

abbrev settled : Round Secrets
settled = record {
  status = status;
  world = record { plan = cluster (some (node_with plan_a)); server = secrets };
}

abbrev settled_after : Round Secrets
settled_after = record settled {
  status = record status { conditions = true_condition "Bootstrapped" ∷ [] };
}

full_reconcile_ok_example :
    (elected : String) × ((elect_init_node api control_plane true settled.world).0
      ≡ (elected, none))
    × TiersDone api control_plane same_plan
        (control_plane_strategy control_plane false)
        (worker_strategy control_plane false)
        elected
        (elect_init_node api control_plane true settled.world).1
        settled_after
unfolding full_reconcile elect_init_node get lookup collect is_init_node can_be_init_node is_etcd
    is_deleting is_failed annotation ignore_errors reconcile is_not_init_node_or_is_deleting
    determine_join_url is_only_worker calculate_concurrency atoi messages_of process_all process act
    minor_plan_change_detected one_time_instruction_eq insert delete node_plan_eq settle
    get_plan_status_reason_message after_undrain with_target undrain kubelet_version_up_to_date
    is_control_plane set_machine_condition_status is_init_node_or_deleting role_and has_join_url
    role_not is_worker scaled_index
full_reconcile_ok_example =
    full_reconcile_ok api control_plane same_plan false settled settled_after refl
