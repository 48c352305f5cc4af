-- ===== src/Planner/FullReconcile.antt =====
-- pkg/planner/planner.go: `fullReconcile`, the tiers of a cluster in their order.
pub mod Laws
pub mod Kept
use cluster_api_provider_ran.Prelude.{
  String, Bool, true, false, not, ◌&&◌, ◌||◌, Option, none, some, List, [], ◌∷◌, is_empty, str_eq,
  ◌<>◌, if◌then◌else◌, pos, any,
}
use cluster_api_provider_ran.Errors.{
  Error, waiting, message, ignore_errors, Result, ok, err, Run, pure, raise, gets, modify, error_of,
  ◌>>=◌, ◌>>◌,
}
use cluster_api_provider_ran.Objects.{DrainOptions, Api}
use cluster_api_provider_ran.ControlPlane.{Status, ControlPlane}
use cluster_api_provider_ran.Names
use cluster_api_provider_ran.Planner.Entry.{
  Plan, PlanEntry, RoleFilter, role_and, role_not, is_etcd, is_control_plane, is_worker,
  is_deleting, is_only_worker, is_init_node_or_deleting, is_not_init_node_or_is_deleting,
  has_join_url,
}
use cluster_api_provider_ran.Planner.Collect.{collect}
use cluster_api_provider_ran.Planner.InitNode.{UrlAnswer, Found, find_init_node, elect_init_node}
use cluster_api_provider_ran.Planner.Reconcile.Pass.{World}
use cluster_api_provider_ran.Planner.Reconcile.Tier.{TierSpec, DesiredPlan, reconcile}

-- Go's zero value of DrainOptions
abbrev pub no_drain : DrainOptions
no_drain = record {
  enabled = false;
  force = false;
  ignore_daemon_sets = none;
  ignore_errors = false;
  delete_empty_dir_data = false;
  disable_eviction = false;
  grace_period = pos 0;
  timeout = pos 0;
  skip_wait_for_delete_timeout_seconds = pos 0;
  pre_drain_hooks = [];
  post_drain_hooks = [];
}

-- The options that a pass uses, none where drains and concurrency are to be ignored.
abbrev pub Strategy : Type 0
Strategy = String × DrainOptions

unfoldable pub control_plane_strategy : ControlPlane → Bool → Strategy
control_plane_strategy cp true = ("", no_drain)
control_plane_strategy cp false =
    (cp.upgrade_strategy.control_plane_concurrency, cp.upgrade_strategy.control_plane_drain_options)

unfoldable pub worker_strategy : ControlPlane → Bool → Strategy
worker_strategy cp true = ("", no_drain)
worker_strategy cp false =
    (cp.upgrade_strategy.worker_concurrency, cp.upgrade_strategy.worker_drain_options)

unfoldable pub bootstrap_tier : DrainOptions → TierSpec
bootstrap_tier drain_options = record {
  required = true;
  tier_name = "bootstrap";
  include = is_etcd;
  exclude = is_not_init_node_or_is_deleting;
  max_unavailable = "1";
  forced_join_url = "";
  drain_options = drain_options;
}

unfoldable pub etcd_tier : String → DrainOptions → TierSpec
etcd_tier join_server drain_options = record {
  required = true;
  tier_name = "etcd";
  include = is_etcd;
  exclude = is_init_node_or_deleting;
  max_unavailable = "1";
  forced_join_url = join_server;
  drain_options = drain_options;
}

unfoldable pub control_plane_tier : String → Strategy → TierSpec
control_plane_tier join_server (concurrency, drain_options) = record {
  required = true;
  tier_name = "control plane";
  include = is_control_plane;
  exclude = is_init_node_or_deleting;
  max_unavailable = concurrency;
  forced_join_url = join_server;
  drain_options = drain_options;
}

unfoldable pub worker_tier : Strategy → TierSpec
worker_tier (concurrency, drain_options) = record {
  required = false;
  tier_name = "worker";
  include = is_only_worker;
  exclude = is_init_node_or_deleting;
  max_unavailable = concurrency;
  forced_join_url = "";
  drain_options = drain_options;
}

unfoldable pub cluster_is_sane : Plan → Bool
cluster_is_sane plan = not (
    is_empty (collect plan (role_and is_etcd (role_not is_deleting)))
    || is_empty (collect plan (role_and is_control_plane (role_not is_deleting)))
    || is_empty (collect plan (role_and is_worker (role_not is_deleting))))

-- The status at hand, with what outlives the pass.
pub record Round (S : Type 0) : Type 0 where
  pub status : Status
  pub world : World S

abbrev pub url_result : UrlAnswer → Result String
url_result (url, none) = ok url
url_result (url, some e) = err e

abbrev ready_and_initialized : Status → Status
ready_and_initialized s = record s { initialized = true; ready = true }

-- Errors that may be ignored go into the first of them, others end the pass.
abbrev pub keep_first : Option Error × Option Error → Result (Option Error)
keep_first (first, none) = ok first
keep_first (first, some e) = err e

abbrev no_join_url : Option Error → Error
no_join_url none = waiting "waiting for join url to be available on bootstrap node"
no_join_url (some e) = waiting (message e <> " and join url to be available on bootstrap node")

unfoldable pub join_url_or_wait : Option Error → Option Error → String → Result String
join_url_or_wait first (some e) url = err e
join_url_or_wait first none url = if str_eq url "" then err (no_join_url first) else ok url

abbrev pub require_join_url : Option Error → Found → Result String
require_join_url first f = join_url_or_wait first f.error f.join_url

module _ {S : Type 0} where
  unfoldable pub wait_for_control_plane : Run (Round S) (Unit {0})
  wait_for_control_plane t =
      if is_empty (
        collect t.world.plan
          (role_and is_control_plane (role_and has_join_url (role_not is_deleting))))
      then (err (waiting "waiting for control plane to be available"), t)
      else (ok tt, t)

  unfoldable pub mark_ready : Run (Round S) (Unit {0})
  mark_ready t =
      if not t.status.initialized || not t.status.ready
      then (
        err (waiting "marking control plane as initialized and ready"),
        record t { status = ready_and_initialized t.status },
      )
      else (ok tt, t)

  abbrev pub end_with : Option Error → Run (Round S) (Unit {0})
  end_with none = pure tt
  end_with (some e) = raise (waiting (message e))

module _ {S : Type 0} (api : Api S) where
  unfoldable pub mark_bootstrapped : Status → Status
  mark_bootstrapped s = record s {
    conditions = api.set_condition "Bootstrapped" "True" s.conditions;
  }

module _ {S : Type 0} (api : Api S) (cp : ControlPlane) where
  -- The server to join, looked for again where the election gave none.
  unfoldable pub join_server_for : String → Option Error → Run (Round S) String
  unfolding join_url_or_wait
  join_server_for join_server first t =
      if str_eq join_server ""
      then (let (f, w) = find_init_node api cp t.world in
          (require_join_url first f, record t { world = w }))
      else (ok join_server, t)

  unfoldable pub elect_first : Run (Round S) String
  elect_first t =
      let (answer, w) = elect_init_node api cp true t.world in
      (url_result answer, record t { world = w })

module _ {S : Type 0} (api : Api S) (cp : ControlPlane) (desired_plan : DesiredPlan) where
  unfoldable pub run_tier : TierSpec → Option Error → Run (Round S) (Option Error)
  run_tier tier first t =
      let (r, w) = reconcile api cp desired_plan tier t.world in
      (keep_first (ignore_errors first (error_of r)), record t { world = w })

  -- The bootstrap node's tier; its status is set before its error is looked at.
  unfoldable pub run_bootstrap_tier : DrainOptions → Run (Round S) (Option Error)
  unfolding run_tier mark_bootstrapped bootstrap_tier
  run_bootstrap_tier drain_options t =
      let (r, t') = run_tier (bootstrap_tier drain_options) none t in
      (r, record t' { status = mark_bootstrapped api t'.status })

  -- fullReconcile from the worker tier on, and from the etcd tier on.
  unfoldable pub reconcile_workers : Strategy → Option Error → Run (Round S) (Unit {0})
  unfolding run_tier worker_tier
  reconcile_workers workers first = run_tier (worker_tier workers) first >>= end_with

  unfoldable pub reconcile_servers :
      Strategy → Strategy → String → Option Error → Run (Round S) (Unit {0})
  unfolding run_tier etcd_tier control_plane_tier wait_for_control_plane mark_ready
      reconcile_workers
  reconcile_servers servers workers join_server first = do
    first2 ← run_tier (etcd_tier join_server servers.1) first
    first3 ← run_tier (control_plane_tier join_server servers) first2
    wait_for_control_plane
    mark_ready
    reconcile_workers workers first3

  unfoldable pub full_reconcile : Bool → Run (Round S) (Unit {0})
  unfolding control_plane_strategy worker_strategy elect_first run_bootstrap_tier join_server_for
      reconcile_servers
  full_reconcile ignore_drain_and_concurrency = do
    let servers = control_plane_strategy cp ignore_drain_and_concurrency
    let workers = worker_strategy cp ignore_drain_and_concurrency
    elected ← elect_first api cp
    first ← run_bootstrap_tier servers.1
    join_server ← join_server_for api cp elected first
    reconcile_servers servers workers join_server first
