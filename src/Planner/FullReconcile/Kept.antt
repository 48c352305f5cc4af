-- ===== src/Planner/FullReconcile/Kept.antt =====
-- pkg/planner/planner.go: what a full pass leaves alone in the status.
use cluster_api_provider_ran.Prelude.{
  String, ◌≡◌, ◌∙◌, Bool, true, not, ◌||◌, Option, none, some, List, str_eq, is_empty, inl, inr,
  Bool-cases,
}
use cluster_api_provider_ran.Errors.{Error}
use cluster_api_provider_ran.Errors.Laws.{keeps-bind}
use cluster_api_provider_ran.Objects.{Condition, DrainOptions, Api}
use cluster_api_provider_ran.ControlPlane.{Status, ControlPlane}
use cluster_api_provider_ran.Planner.Entry.{
  role_and, role_not, is_control_plane, has_join_url, is_deleting,
}
use cluster_api_provider_ran.Planner.Collect.{collect}
use cluster_api_provider_ran.Planner.Reconcile.Tier.{TierSpec, DesiredPlan}
use cluster_api_provider_ran.Planner.FullReconcile.{
  Strategy, Round, run_tier, run_bootstrap_tier, mark_bootstrapped, mark_ready,
  wait_for_control_plane, end_with, join_server_for, elect_first, reconcile_workers,
  reconcile_servers, full_reconcile, control_plane_strategy, worker_strategy, etcd_tier,
  control_plane_tier, worker_tier, bootstrap_tier,
}

module _ {S B : Type 0} (f : Status → B)
    (conditions_free : (s : Status) (conditions : List Condition)
      → f (record s { conditions = conditions }) ≡ f s)
    (ready_free : (s : Status) → f (record s { initialized = true; ready = true }) ≡ f s)
    (b : B) where
  abbrev Keeps : Round S → Type 0
  Keeps t = f t.status ≡ b

  wait-Keeps : (t : Round S) → Keeps t → Keeps (wait_for_control_plane t).1
  unfolding wait_for_control_plane
  wait-Keeps t h =
      elim (Bool-cases (
        is_empty (
          collect t.world.plan
            (role_and is_control_plane (role_and has_join_url (role_not is_deleting)))))) [
              | inl none_there ↦ rw none_there h
              | inr some_there ↦ rw some_there h
            ]

  mark_ready-Keeps : (t : Round S) → Keeps t → Keeps (mark_ready t).1
  unfolding mark_ready
  mark_ready-Keeps t h = elim (Bool-cases (not t.status.initialized || not t.status.ready)) [
    | inl new ↦ rw new (ready_free t.status ∙ h)
    | inr old ↦ rw old h
  ]

  end_with-Keeps : (first : Option Error) (t : Round S) → Keeps t → Keeps (end_with first t).1
  end_with-Keeps none t h = h
  end_with-Keeps (some e) t h = h

  module _ (api : Api S) (cp : ControlPlane) where
    elect-Keeps : (t : Round S) → Keeps t → Keeps (elect_first api cp t).1
    unfolding elect_first
    elect-Keeps t h = h

    join_server-Keeps :
        (join_server : String) (first : Option Error) (t : Round S)
        → Keeps t
        → Keeps (join_server_for api cp join_server first t).1
    unfolding join_server_for
    join_server-Keeps join_server first t h = elim (Bool-cases (str_eq join_server "")) [
      | inl empty ↦ rw empty h
      | inr filled ↦ rw filled h
    ]

    module _ (desired_plan : DesiredPlan) where
      run_tier-Keeps :
          (tier : TierSpec) (first : Option Error) (t : Round S)
          → Keeps t
          → Keeps (run_tier api cp desired_plan tier first t).1
      unfolding run_tier
      run_tier-Keeps tier first t h = h

      bootstrap-Keeps :
          (drain_options : DrainOptions) (t : Round S)
          → Keeps t
          → Keeps (run_bootstrap_tier api cp desired_plan drain_options t).1
      unfolding run_bootstrap_tier mark_bootstrapped
      bootstrap-Keeps drain_options t h =
          conditions_free _ _ ∙ run_tier-Keeps (bootstrap_tier drain_options) none t h

      workers_keep :
          (workers : Strategy) (first : Option Error) (t : Round S)
          → Keeps t
          → Keeps (reconcile_workers api cp desired_plan workers first t).1
      unfolding reconcile_workers
      workers_keep workers first t h =
          keeps-bind Keeps (run_tier api cp desired_plan (worker_tier workers) first) end_with t
            (run_tier-Keeps (worker_tier workers) first t h) end_with-Keeps

      servers_keep :
          (servers workers : Strategy) (join_server : String) (first : Option Error) (t : Round S)
          → Keeps t
          → Keeps (reconcile_servers api cp desired_plan servers workers join_server first t).1
      unfolding reconcile_servers
      servers_keep servers workers join_server first t h =
          keeps-bind Keeps (run_tier api cp desired_plan (etcd_tier join_server servers.1) first) _
            t (run_tier-Keeps (etcd_tier join_server servers.1) first t h)
            (λ first2 u hu.
              keeps-bind Keeps
                (run_tier api cp desired_plan (control_plane_tier join_server servers) first2) _ u
                (run_tier-Keeps (control_plane_tier join_server servers) first2 u hu)
                (λ first3 v hv.
                  keeps-bind Keeps wait_for_control_plane _ v (wait-Keeps v hv) (λ _ x hx.
                    keeps-bind Keeps mark_ready _ x (mark_ready-Keeps x hx)
                      (λ _ y hy. workers_keep workers first3 y hy))))

      -- A full pass, errors included, changes the conditions of the status and its readiness alone:
      -- what depends on neither is the same afterwards.
      pub full_reconcile-Keeps :
          (ignore : Bool) (t : Round S)
          → Keeps t
          → Keeps (full_reconcile api cp desired_plan ignore t).1
      unfolding full_reconcile
      full_reconcile-Keeps ignore t h =
          keeps-bind Keeps (elect_first api cp) _ t (elect-Keeps t h) (λ elected u hu.
            keeps-bind Keeps
              (run_bootstrap_tier api cp desired_plan (control_plane_strategy cp ignore).1) _ u
              (bootstrap-Keeps (control_plane_strategy cp ignore).1 u hu)
              (λ first v hv.
                keeps-bind Keeps (join_server_for api cp elected first) _ v
                  (join_server-Keeps elected first v hv)
                  (λ join_server x hx.
                    servers_keep (control_plane_strategy cp ignore) (worker_strategy cp ignore)
                      join_server first x hx)))
