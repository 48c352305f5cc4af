-- ===== src/Planner/EtcdRestore/Restored.antt =====
-- pkg/planner/etcdrestore.go: what a phase of a restore has done when the next phase follows it.
use mathlib.Core.Path.{subst}
use cluster_api_provider_ran.Prelude.{
  String, ◌≡◌, refl, sym, ap, ◌∙◌, Bool, true, false, Option, some, List, [], ◌∷◌, absurd, pos,
  str_eq,
}
use cluster_api_provider_ran.Errors.{
  Error, other, Result, ok, err, Run, lift, continue, ◌>>=◌, ◌>>◌,
}
use cluster_api_provider_ran.Errors.Laws.{ok-bind, is_ok}
use cluster_api_provider_ran.Plan.{NodePlan}
use cluster_api_provider_ran.Objects.{Value, Api}
use cluster_api_provider_ran.ControlPlane.{
  EtcdSnapshotPhase, EtcdSnapshotRestore, Status, ControlPlane,
}
use cluster_api_provider_ran.Planner.Entry.{PlanEntry, role_and, is_etcd, is_deleting, is_init_node}
use cluster_api_provider_ran.Planner.Collect.{collect}
use cluster_api_provider_ran.Planner.CapiCluster.{ClusterApi, pause_capi_cluster}
use cluster_api_provider_ran.Planner.Desired.{ConfigPlan}
use cluster_api_provider_ran.Planner.Instructions.{InfoFunctions}
use cluster_api_provider_ran.Planner.S3Args.{S3Api}
use cluster_api_provider_ran.Planner.InitNode.{on_target}
use cluster_api_provider_ran.Planner.EtcdCreate.{phase_text, on_status}
use cluster_api_provider_ran.Planner.FullReconcile.{Round}
use cluster_api_provider_ran.Planner.Reconcile.Pass.{World}
use cluster_api_provider_ran.Planner.Store.Assign.{assign_and_check_plan}
use cluster_api_provider_ran.Planner.Store.Assigned.{IsApplied, assign_and_check_plan_ok}
use cluster_api_provider_ran.Planner.EtcdRestore.State.{
  set_etcd_snapshot_restore_state, advance_config_generation,
}
use cluster_api_provider_ran.Planner.EtcdRestore.Plans.{
  EtcdSnapshot, generate_etcd_snapshot_restore_plan,
}
use cluster_api_provider_ran.Planner.EtcdRestore.Stop.{
  RestoreApi, on_server, run_etcd_restore_init_node_election, run_etcd_restore_service_stop,
}
use cluster_api_provider_ran.Planner.EtcdRestore.Phases.{
  on_world, only_entry, set_and_wait, act_on_restore_phase, run_etcd_snapshot_restore_plan,
}
use cluster_api_provider_ran.Planner.EtcdRestore.Steps.{restore_phase}
use cluster_api_provider_ran.Planner.EtcdRestore.Stopped.{
  AllStopped, run_etcd_restore_service_stop_ok,
}

abbrev pub is_phase : EtcdSnapshotPhase → Status → Bool
is_phase p s = str_eq (phase_text (restore_phase s)) (phase_text p)

module _ {S : Type 0} where
  reached_after :
      (q : EtcdSnapshotPhase) (r : Result (Unit {0}) × World S) (t : Round S)
      (n : Run (Round S) (Unit {0}))
      → is_phase q t.status ≡ false
      → is_phase q (continue r.0 (λ _. n) (record t { world = r.1 })).1.status ≡ true
      → r ≡ (ok tt, r.1)
  reached_after q (ok _, w) t n h k = refl
  reached_after q (err e, w) t n h k = absurd (sym h ∙ k)

  -- A phase is reached through a step on the world only if that step answered without an error.
  reached_needs :
      (q : EtcdSnapshotPhase) (m : Run (World S) (Unit {0})) (n : Run (Round S) (Unit {0}))
      (t : Round S)
      → is_phase q t.status ≡ false
      → is_phase q ((on_world m >> n) t).1.status ≡ true
      → m t.world ≡ (ok tt, (m t.world).1)
  reached_needs q m n t h k = reached_after q (m t.world) t n h k

continued :
    {S : Type 0} (r : Result (Unit {0}) × World S) (f : Run Status (Unit {0})) (t : Round S)
    → (continue r.0 (λ _. on_status f) (record t { world = r.1 })).1.world ≡ r.1
continued (ok _, w) f t = refl
continued (err e, w) f t = refl

-- A step on the status leaves the world as the step before it has.
world_after :
    {S : Type 0} (m : Run (World S) (Unit {0})) (f : Run Status (Unit {0})) (t : Round S)
    → ((on_world m >> on_status f) t).1.world ≡ (m t.world).1
world_after m f t = continued (m t.world) f t

only_entry_ok :
    (e : Error) (xs : List PlanEntry) (x : PlanEntry) → only_entry e xs ≡ ok x → xs ≡ x ∷ []
unfolding only_entry
only_entry_ok e [] x h = absurd (ap is_ok h)
only_entry_ok e (y ∷ []) x h = ap (λ r. elim r [ ok z ↦ z ∷ [] | err _ ↦ y ∷ [] ]) h
only_entry_ok e (y ∷ z ∷ rest) x h = absurd (ap is_ok h)

module _ {S : Type 0} (api : Api S) (clusters : ClusterApi S) (restores : RestoreApi S)
    (s3_api : S3Api) (functions : InfoFunctions) (to_string : Value → String) (cp : ControlPlane)
    (config_plan : ConfigPlan) where
  abbrev phase_acts :
      EtcdSnapshotRestore → Option EtcdSnapshot → EtcdSnapshotPhase → Run (Round S) (Unit {0})
  phase_acts = act_on_restore_phase api clusters restores s3_api functions to_string cp config_plan

  -- Etcd is restored only after the cluster was shut down: the phase goes from Shutdown to Restore only
  -- if an init node was elected, then no etcd machine of the plan was being deleted, every server that
  -- is not on Windows and has a plan had applied the plan that stops its services, and an etcd node is
  -- left at the end.
  pub restore_needs_stop :
      (restore : EtcdSnapshotRestore) (snapshot : Option EtcdSnapshot) (t : Round S)
      → restore_phase t.status ≡ EtcdSnapshotPhase.shutdown
      → restore_phase (phase_acts restore snapshot EtcdSnapshotPhase.shutdown t).1.status
        ≡ EtcdSnapshotPhase.restore
      → (join_server : String) × (elected : World S) × (run_etcd_restore_init_node_election api
            clusters restores cp snapshot t.world
          ≡ (ok join_server, elected))
        × (collect elected.plan (role_and is_etcd is_deleting) ≡ [])
        × AllStopped api clusters restores s3_api functions cp config_plan join_server elected
            (phase_acts restore snapshot EtcdSnapshotPhase.shutdown t).1.world
  unfolding act_on_restore_phase phase_text
  restore_needs_stop restore snapshot t h k =
      let stop =
        run_etcd_restore_service_stop api clusters restores s3_api functions cp config_plan
          snapshot in
      let done =
        reached_needs EtcdSnapshotPhase.restore stop
          (on_status (λ s.
            set_and_wait api clusters restores s3_api functions to_string cp config_plan restore
              EtcdSnapshotPhase.restore "cluster shutdown complete, running etcd restore"
              (record s { conditions = api.set_condition "Bootstrapped" "False" s.conditions })))
          t (ap (λ p. str_eq (phase_text p) "Restore") h)
          (ap (λ p. str_eq (phase_text p) "Restore") k) in
      let (join_server, elected, election, nothing, rest) =
        run_etcd_restore_service_stop_ok api clusters restores s3_api functions cp config_plan
          snapshot t.world (stop t.world).1 done in
      let end_world =
        world_after stop
          (λ s.
            set_and_wait api clusters restores s3_api functions to_string cp config_plan restore
              EtcdSnapshotPhase.restore "cluster shutdown complete, running etcd restore"
              (record s { conditions = api.set_condition "Bootstrapped" "False" s.conditions }))
          t in
      (
        join_server,
        elected,
        election,
        nothing,
        subst (AllStopped api clusters restores s3_api functions cp config_plan join_server elected)
            (sym end_world) rest,
      )

  abbrev planned_for :
      Option EtcdSnapshot → String → String → PlanEntry → Result (NodePlan × String)
  planned_for snapshot name join_server server =
      generate_etcd_snapshot_restore_plan api s3_api functions cp config_plan restores.is_plain_ipv6
        snapshot name server join_server

  abbrev assigns : PlanEntry → NodePlan × String → Run (World S) (Unit {0})
  assigns e (p, joined) =
      on_target e (assign_and_check_plan api "etcd restore" p joined (pos 1) (pos 1))

  abbrev after_pause : Option EtcdSnapshot → String → String → PlanEntry → Run (World S) (Unit {0})
  after_pause snapshot name join_server server =
      lift (planned_for snapshot name join_server server) >>= assigns server

  abbrev after_server : Option EtcdSnapshot → String → String → PlanEntry → Run (World S) (Unit {0})
  after_server snapshot name join_server server =
      on_server (pause_capi_cluster clusters cp true) >>= λ _.
      after_pause snapshot name join_server server

  abbrev only_init_node : Run (World S) PlanEntry
  only_init_node w = (
    only_entry (other "more than one init node existed, cannot run etcd snapshot restore")
        (collect w.plan is_init_node),
    w,
  )

  -- The restore has been carried out: on the one init node that was elected, the plan that restores
  -- the snapshot has been applied without failing, with the owning cluster paused before.
  abbrev pub IsRestored : Option EtcdSnapshot → String → World S → Type 0
  IsRestored snapshot name w =
      (join_server joined : String) × (elected paused : World S) × (server : PlanEntry)
      × (p : NodePlan) × (run_etcd_restore_init_node_election api clusters restores cp snapshot w
          ≡ (ok join_server, elected))
      × (collect elected.plan is_init_node ≡ server ∷ [])
      × (on_server (pause_capi_cluster clusters cp true) elected ≡ (ok tt, paused))
      × (planned_for snapshot name join_server server ≡ ok (p, joined))
      × IsApplied p server.plan

  run_etcd_snapshot_restore_plan_ok :
      (snapshot : Option EtcdSnapshot) (name : String) (w u : World S)
      → run_etcd_snapshot_restore_plan api clusters restores s3_api functions to_string cp
          config_plan snapshot name w
        ≡ (ok tt, u)
      → IsRestored snapshot name w
  unfolding run_etcd_snapshot_restore_plan on_target
  run_etcd_snapshot_restore_plan_ok snapshot name w u h =
      let (join_server, elected, election, after) =
        ok-bind (λ js. only_init_node >>= after_server snapshot name js) tt u
          (run_etcd_restore_init_node_election api clusters restores cp snapshot) w h in
      let (server, x, only, rest) =
        ok-bind (after_server snapshot name join_server) tt u only_init_node elected after in
      let same : elected ≡ x = ap (λ r. r.1) only in
      let (_, paused, pause, rendering) =
        ok-bind (λ _. after_pause snapshot name join_server server) tt u
          (on_server (pause_capi_cluster clusters cp true)) elected
          (ap (after_server snapshot name join_server server) same ∙ rest) in
      let ((p, joined), y, rendered, assigned) =
        ok-bind (assigns server) tt u (lift (planned_for snapshot name join_server server)) paused
          rendering in
      let (applied, _) =
        assign_and_check_plan_ok api "etcd restore" p joined (pos 1) (pos 1)
          (record { entry = server; server = y.server }) (ap (λ r. r.0) assigned) in
      (
        join_server,
        joined,
        elected,
        paused,
        server,
        p,
        election,
        only_entry_ok (other "more than one init node existed, cannot run etcd snapshot restore")
            (collect elected.plan is_init_node) server (ap (λ r. r.0) only),
        pause,
        ap (λ r. r.0) rendered,
        applied,
      )

  -- The pods are cleaned up only after etcd was restored: the phase goes from Restore to
  -- PostRestorePodCleanup only if one init node was there, the owning cluster was paused, and that
  -- node has applied the plan that restores the snapshot.
  pub clean_up_needs_restore :
      (restore : EtcdSnapshotRestore) (snapshot : Option EtcdSnapshot) (t : Round S)
      → restore_phase t.status ≡ EtcdSnapshotPhase.restore
      → restore_phase (phase_acts restore snapshot EtcdSnapshotPhase.restore t).1.status
        ≡ EtcdSnapshotPhase.post_restore_pod_cleanup
      → IsRestored snapshot restore.name t.world
  unfolding act_on_restore_phase phase_text
  clean_up_needs_restore restore snapshot t h k =
      let run =
        run_etcd_snapshot_restore_plan api clusters restores s3_api functions to_string cp
          config_plan snapshot restore.name in
      run_etcd_snapshot_restore_plan_ok snapshot restore.name t.world (run t.world).1 (
        reached_needs EtcdSnapshotPhase.post_restore_pod_cleanup run
          (on_status (λ s.
            set_etcd_snapshot_restore_state (some restore)
              EtcdSnapshotPhase.post_restore_pod_cleanup (advance_config_generation s)))
          t (ap (λ p. str_eq (phase_text p) "PostRestorePodCleanup") h)
          (ap (λ p. str_eq (phase_text p) "PostRestorePodCleanup") k))
