-- ===== src/Planner/EtcdRestore/Stop.antt =====
-- pkg/planner/etcdrestore.go: the init node of a restore, and the services that stop before it.
use cluster_api_provider_ran.Prelude.{
  ℕ, String, Bool, true, false, ◌||◌, Option, none, some, List, [], ◌∷◌, Assoc, insert, lookup,
  length, pos, is_empty, itoa, ◌==◌, ◌<>◌, contains, if◌then◌else◌,
}
use cluster_api_provider_ran.Errors.{
  Error, waiting, other, panic, Result, ok, err, Run, pure, raise, ◌>>=◌, ◌>>◌,
}
use cluster_api_provider_ran.Plan.{NodePlan, Node}
use cluster_api_provider_ran.Plan.Equal.{node_plan_eq}
use cluster_api_provider_ran.Objects.{Machine, ConfigRef, Api}
use cluster_api_provider_ran.ControlPlane.{ControlPlane, get_runtime}
use cluster_api_provider_ran.Names
use cluster_api_provider_ran.Planner.Entry.{
  Plan, PlanEntry, role_and, role_or, role_not, is_etcd, is_control_plane, is_deleting,
  can_be_init_node, any_role_without_windows,
}
use cluster_api_provider_ran.Planner.Collect.{collect}
use cluster_api_provider_ran.Planner.CapiCluster.{ClusterApi}
use cluster_api_provider_ran.Planner.Desired.{ConfigPlan}
use cluster_api_provider_ran.Planner.Idempotent.{generate_idempotency_cleanup_instruction}
use cluster_api_provider_ran.Planner.Instructions.{InfoFunctions}
use cluster_api_provider_ran.Planner.S3Args.{S3Api}
use cluster_api_provider_ran.Planner.InitNode.{
  UrlAnswer, on_target, elect_init_node, designate_init_node_by_machine_id,
}
use cluster_api_provider_ran.Planner.FullReconcile.{url_result}
use cluster_api_provider_ran.Planner.Reconcile.Pass.{World}
use cluster_api_provider_ran.Planner.Store.Update.{update_plan}
use cluster_api_provider_ran.Planner.EtcdRestore.Plans.{
  EtcdSnapshot, add_instructions, generate_stop_service_and_kill_all_plan,
  generate_create_etcd_tombstone_instruction, generate_remove_tls_and_cred_dir_instructions,
}

-- An RKEBootstrap, of which the annotations are written.
pub record RkeBootstrap : Type 0 where
  pub namespace : String
  pub name : String
  pub annotations : Assoc String

-- The clients of the snapshots and bootstrap objects, and what else a restore calls that the
-- repository does not implement. `before_1_25` reads a version and compares it with v1.25.0.
pub record RestoreApi (S : Type 0) : Type 0 where
  pub cached_snapshot : String → String → Run S EtcdSnapshot
  pub cached_bootstrap : String → String → Run S RkeBootstrap
  pub update_bootstrap : RkeBootstrap → Run S RkeBootstrap
  pub is_plain_ipv6 : String → Bool
  pub before_1_25 : String → Option Bool
  pub unmarshal_metadata : String → Result (Assoc String)
  pub decompress_kubernetes_version : String → Result String

abbrev pub on_answer : {S : Type 0} → (World S → UrlAnswer × World S) → Run (World S) String
on_answer m w = let (answer, w') = m w in (url_result answer, w')

-- A call that reaches the server alone
abbrev pub on_server : {S A : Type 0} → Run S A → Run (World S) A
on_server m w = let (r, s) = m w.server in (r, record w { server = s })

-- The object that the entry and the plan share is written.
unfoldable pub share_machine : Machine → Plan → Plan
share_machine machine p = record p { machines = insert machine.name machine p.machines }

abbrev pub excluded_from_draining : Machine → Machine
excluded_from_draining machine = record machine {
  annotations = insert "machine.cluster.x-k8s.io/exclude-node-draining" "true" machine.annotations;
}

abbrev pub force_removed : RkeBootstrap → RkeBootstrap
force_removed b = record b {
  annotations = insert Names.force_remove_etcd_annotation "true" b.annotations;
}

-- Whether the machine's bootstrap object is one that the loop removes.
unfoldable pub has_rke_ref : Option ConfigRef → Bool
has_rke_ref none = false
has_rke_ref (some ref) = contains ref.api_version "rke.cattle.io"

unfoldable pub is_plain_plan : NodePlan → Option Node → Bool
is_plain_plan p none = true
is_plain_plan p (some node) = node_plan_eq node.node_plan p

module _ {S : Type 0} (api : Api S) (clusters : ClusterApi S) (restores : RestoreApi S) where
  unfoldable pub remove_bootstrap : Option ConfigRef → Run S (Unit {0})
  remove_bootstrap none = raise (panic "nil pointer dereference")
  remove_bootstrap (some ref) = do
    b ← restores.cached_bootstrap ref.namespace ref.name
    restores.update_bootstrap (force_removed b)
    pure tt

  unfoldable pub force_delete : Machine → Run (World S) (Unit {0})
  unfolding remove_bootstrap share_machine
  force_delete machine w =
      let marked = excluded_from_draining machine in
      on_server (clusters.update_machine marked >>= λ updated. remove_bootstrap updated.config_ref)
        (record w { plan = share_machine marked w.plan })

  unfoldable pub force_delete_each : List PlanEntry → Run (World S) (Unit {0})
  unfolding force_delete has_rke_ref
  force_delete_each [] = pure tt
  force_delete_each (e ∷ es) = elim (has_rke_ref e.machine.config_ref) [
    | false ↦ force_delete_each es
    | true ↦ force_delete e.machine >> force_delete_each es
  ]

  unfoldable pub force_delete_all_deleting_etcd_machines : Run (World S) ℕ
  unfolding force_delete_each
  force_delete_all_deleting_etcd_machines w =
      let deleting = collect w.plan (role_and is_etcd is_deleting) in
      (force_delete_each deleting >> pure (length deleting)) w

  -- A snapshot with no object is on the one node that can be the init node.
  unfoldable pub elect_only_candidate : ControlPlane → Run (World S) String
  elect_only_candidate cp w = elim (collect w.plan (can_be_init_node api)) [
    | [] ↦ (
      err (
          other
            "no init node existed and no corresponding etcd snapshot CR found, no assumption can be made for the machine that contains the snapshot"),
      w,
    )
    | e ∷ [] ↦ on_answer (elect_init_node api cp true) w
    | e ∷ _ ∷ _ ↦ (
      err (
          other
            "more than one init node existed and no corresponding etcd snapshot CR found, no assumption can be made for the machine that contains the snapshot"),
      w,
    )
  ]

  unfoldable pub designate_for : ControlPlane → EtcdSnapshot → Option String → Run (World S) String
  designate_for cp snapshot (some id) = on_answer (designate_init_node_by_machine_id api id cp)
  designate_for cp snapshot none = raise (
      other (
        "unable to designate machine as label " <> Names.machine_id_label <> " on snapshot "
        <> snapshot.namespace <> "/" <> snapshot.name <> " did not exist"))

  unfoldable pub run_etcd_restore_init_node_election :
      ControlPlane → Option EtcdSnapshot → Run (World S) String
  unfolding elect_only_candidate designate_for
  run_etcd_restore_init_node_election cp none = elect_only_candidate cp
  run_etcd_restore_init_node_election cp (some snapshot) = elim snapshot.s3 [
    | none ↦ designate_for cp snapshot (lookup Names.machine_id_label snapshot.labels)
    | some _ ↦ on_answer (elect_init_node api cp true)
  ]

abbrev runtime_of : ControlPlane → String
runtime_of cp = get_runtime cp.kubernetes_version

-- The second loop: the first server with a plan that is not in sync is waited for.
unfoldable pub not_stopped : ControlPlane → PlanEntry → Error
not_stopped cp e = elim e.machine.node_ref [
  | none ↦
      waiting
        ("waiting to stop " <> runtime_of cp <> " services on machine [" <> e.machine.name <> "]")
  | some node ↦
      waiting ("waiting to stop " <> runtime_of cp <> " services on node [" <> node <> "]")
]

unfoldable pub is_in_sync : Option Node → Bool
is_in_sync none = true
is_in_sync (some node) = node.in_sync

unfoldable pub all_stopped : ControlPlane → List PlanEntry → Result (Unit {0})
unfolding not_stopped is_in_sync
all_stopped cp [] = ok tt
all_stopped cp (e ∷ es) = if is_in_sync e.plan then all_stopped cp es else err (not_stopped cp e)

module _ {S : Type 0} (api : Api S) (clusters : ClusterApi S) (restores : RestoreApi S)
    (s3_api : S3Api) (functions : InfoFunctions) (cp : ControlPlane)
    (config_plan : ConfigPlan) where
  -- The plan that stops the services of a server
  unfoldable pub stop_plan : PlanEntry → NodePlan → NodePlan
  unfolding generate_create_etcd_tombstone_instruction generate_remove_tls_and_cred_dir_instructions
  stop_plan e p =
      let cleaned =
        add_instructions (generate_idempotency_cleanup_instruction cp "etcd-restore" ∷ []) p in
      let tombstone =
        if is_etcd e
        then add_instructions (generate_create_etcd_tombstone_instruction cp ∷ []) cleaned
        else cleaned in
      if role_or is_etcd is_control_plane e
      then add_instructions (generate_remove_tls_and_cred_dir_instructions cp) tombstone
      else tombstone

  -- Whether the plan of a server was written
  unfoldable pub stop_server : PlanEntry → String → NodePlan × String → Run (World S) Bool
  unfolding stop_plan is_plain_plan
  stop_server e join_server (p, joined) =
      if is_plain_plan (stop_plan e p) e.plan
      then pure false
      else on_target e (update_plan api (stop_plan e p) joined (pos 0) (pos 0)) >> pure true

  unfoldable pub render_and_stop :
      PlanEntry → String → Result (NodePlan × String) → Run (World S) Bool
  unfolding stop_server
  render_and_stop e join_server (err x) = raise x
  render_and_stop e join_server (ok planned) = stop_server e join_server planned

  -- A server without a plan is left out.
  unfoldable pub stop_with_plan : PlanEntry → String → Option Node → Run (World S) Bool
  unfolding render_and_stop generate_stop_service_and_kill_all_plan
  stop_with_plan e join_server none = pure false
  stop_with_plan e join_server (some _) =
      render_and_stop e join_server
        (generate_stop_service_and_kill_all_plan api s3_api functions cp config_plan e join_server)

  -- The first loop, with `updated` as its answer.
  unfoldable pub stop_each : String → List PlanEntry → Run (World S) Bool
  unfolding stop_with_plan
  stop_each join_server [] = pure false
  stop_each join_server (e ∷ es) = do
    wrote ← stop_with_plan e join_server e.plan
    rest ← stop_each join_server es
    pure (wrote || rest)

  unfoldable pub require_etcd : Result (Unit {0}) → Run (World S) (Unit {0})
  require_etcd (err e) w = (err e, w)
  require_etcd (ok _) w =
      if is_empty (collect w.plan (role_and is_etcd (role_not is_deleting)))
      then (err (waiting "waiting for suitable etcd nodes for etcd restore continuation"), w)
      else (ok tt, w)

  -- What the two loops have found, for the servers as they were collected.
  unfoldable pub after_stopping : List PlanEntry → Bool → Run (World S) (Unit {0})
  unfolding all_stopped require_etcd
  after_stopping servers true w = (
    err (
        waiting
          ("stopping " <> runtime_of cp <> " services on control plane and etcd machines/nodes")),
    w,
  )
  after_stopping servers false w = require_etcd (all_stopped cp servers) w

  unfoldable pub stop_servers : String → Run (World S) (Unit {0})
  unfolding stop_each after_stopping
  stop_servers join_server w =
      let servers = collect w.plan any_role_without_windows in
      (stop_each join_server servers >>= after_stopping servers) w

  unfoldable pub wait_for_deletion : ℕ → Run (World S) (Unit {0})
  wait_for_deletion n =
      if n == 0
      then pure tt
      else raise (waiting ("waiting for " <> itoa (pos n) <> " etcd machines to delete"))

  unfoldable pub run_etcd_restore_service_stop : Option EtcdSnapshot → Run (World S) (Unit {0})
  unfolding run_etcd_restore_init_node_election force_delete_all_deleting_etcd_machines
      wait_for_deletion stop_servers
  run_etcd_restore_service_stop snapshot = do
    join_server ← run_etcd_restore_init_node_election api clusters restores cp snapshot
    deleting ← force_delete_all_deleting_etcd_machines api clusters restores
    wait_for_deletion deleting
    stop_servers join_server
