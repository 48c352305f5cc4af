-- ===== src/Planner/EtcdRestore/Steps.antt =====
-- pkg/planner/etcdrestore.go: the steps that the phase of a restore can take.
use mathlib.Core.Path.{subst}
use cluster_api_provider_ran.Prelude.{
  String, ◌≡◌, refl, sym, ◌∙◌, ◌⊎◌, inl, inr, Bool, true, false, not, ◌&&◌, ◌||◌, Option, none,
  some, str_eq, Bool-cases,
}
use cluster_api_provider_ran.Errors.{Result, ok, err, Run, lift, ◌>>=◌, ◌>>◌}
use cluster_api_provider_ran.Errors.Laws.{keeps-bind, keeps-then, leads-bind}
use cluster_api_provider_ran.Objects.{Value, Api}
use cluster_api_provider_ran.ControlPlane.{
  EtcdSnapshotPhase, EtcdSnapshotRestore, Status, ControlPlane,
}
use cluster_api_provider_ran.Planner.CapiCluster.{ClusterApi, pause_capi_cluster}
use cluster_api_provider_ran.Planner.Desired.{ConfigPlan, desired_plan}
use cluster_api_provider_ran.Planner.Instructions.{InfoFunctions}
use cluster_api_provider_ran.Planner.S3Args.{S3Api}
use cluster_api_provider_ran.Planner.EtcdCreate.{phase_text, on_status}
use cluster_api_provider_ran.Planner.FullReconcile.{Round, full_reconcile}
use cluster_api_provider_ran.Planner.FullReconcile.Kept.{full_reconcile-Keeps}
use cluster_api_provider_ran.Planner.Reconcile.Pass.{World}
use cluster_api_provider_ran.Planner.EtcdRestore.State.{
  same_restore, set_etcd_snapshot_restore_state, reset_etcd_snapshot_restore_state,
  start_or_restart_etcd_snapshot_restore, advance_config_generation, uninitialized,
}
use cluster_api_provider_ran.Planner.EtcdRestore.Plans.{EtcdSnapshot}
use cluster_api_provider_ran.Planner.EtcdRestore.Stop.{
  RestoreApi, on_server, run_etcd_restore_service_stop,
}
use cluster_api_provider_ran.Planner.EtcdRestore.Phases.{
  on_world, shadowed, keep_status, set_and_wait, act_on_restore_phase, restore_wanted, restore_for,
  restore_etcd_snapshot, run_etcd_snapshot_restore_plan,
  run_etcd_snapshot_post_restore_pod_cleanup_plan, run_etcd_snapshot_post_restore_node_cleanup_plan,
  retrieve_etcd_snapshot, check_snapshot_version,
}

abbrev pub restore_phase : Status → EtcdSnapshotPhase
restore_phase s = s.etcd_snapshot_restore_phase

-- The abstract machine: a pass leaves the phase, starts a restore (again), resets it, or takes the one
-- step that the phase has.
pub data RestoreStep : EtcdSnapshotPhase → EtcdSnapshotPhase → Type 0 where
  stays : (p : EtcdSnapshotPhase) → RestoreStep p p
  starts : (p : EtcdSnapshotPhase) → RestoreStep p EtcdSnapshotPhase.started
  resets : (p : EtcdSnapshotPhase) → RestoreStep p EtcdSnapshotPhase.unset
  shuts_down : RestoreStep EtcdSnapshotPhase.started EtcdSnapshotPhase.shutdown
  stops : RestoreStep EtcdSnapshotPhase.shutdown EtcdSnapshotPhase.restore
  restores : RestoreStep EtcdSnapshotPhase.restore EtcdSnapshotPhase.post_restore_pod_cleanup
  cleans_pods :
      RestoreStep EtcdSnapshotPhase.post_restore_pod_cleanup
        EtcdSnapshotPhase.initial_restart_cluster
  restarts :
      RestoreStep EtcdSnapshotPhase.initial_restart_cluster
        EtcdSnapshotPhase.post_restore_node_cleanup
  cleans_nodes :
      RestoreStep EtcdSnapshotPhase.post_restore_node_cleanup EtcdSnapshotPhase.restart_cluster
  finishes : RestoreStep EtcdSnapshotPhase.restart_cluster EtcdSnapshotPhase.finished

-- The phase is the one wanted, or the one before.
abbrev Sets : EtcdSnapshotPhase → Status → Status → Type 0
Sets p s s' = (restore_phase s' ≡ p) ⊎ (restore_phase s' ≡ restore_phase s)

abbrev StepsFrom : EtcdSnapshotPhase → Status → Status → Type 0
StepsFrom p s s' = (q : EtcdSnapshotPhase) × RestoreStep p q × Sets q s s'

set_state-Sets :
    (restore : Option EtcdSnapshotRestore) (p : EtcdSnapshotPhase) (s : Status)
    → Sets p s (set_etcd_snapshot_restore_state restore p s).1
unfolding set_etcd_snapshot_restore_state
set_state-Sets restore p s =
    elim (Bool-cases (
      not (same_restore s.etcd_snapshot_restore restore)
      || not (str_eq (phase_text s.etcd_snapshot_restore_phase) (phase_text p)))) [
        | inl new ↦ inl (simp new)
        | inr old ↦ inr (simp old)
      ]

reset-Sets : (s : Status) → Sets EtcdSnapshotPhase.unset s (reset_etcd_snapshot_restore_state s).1
unfolding reset_etcd_snapshot_restore_state
reset-Sets s =
    elim (Bool-cases (
      same_restore s.etcd_snapshot_restore none
      && str_eq (phase_text s.etcd_snapshot_restore_phase) "")) [
        | inl old ↦ inr (simp old)
        | inr new ↦ rw new (set_state-Sets none EtcdSnapshotPhase.unset s)
      ]

start_or_restart-Sets :
    (restore : EtcdSnapshotRestore) (s : Status)
    → Sets EtcdSnapshotPhase.started s (start_or_restart_etcd_snapshot_restore restore s).1
unfolding start_or_restart_etcd_snapshot_restore
start_or_restart-Sets restore s =
    elim (Bool-cases (
      same_restore s.etcd_snapshot_restore none
      || not (same_restore (some restore) s.etcd_snapshot_restore))) [
        | inl new ↦ rw new (set_state-Sets (some restore) EtcdSnapshotPhase.started s)
        | inr old ↦ inr (simp old)
      ]

uninitialized-phase : (s : Status) → restore_phase (uninitialized s) ≡ restore_phase s
unfolding uninitialized
uninitialized-phase s = elim (Bool-cases (s.initialized || s.ready)) [
  | inl up ↦ simp up
  | inr down ↦ simp down
]

-- A state set from another status with the same phase
Sets-from :
    (p : EtcdSnapshotPhase) (s s' s'' : Status)
    → restore_phase s' ≡ restore_phase s
    → Sets p s' s''
    → Sets p s s''
Sets-from p s s' s'' h (inl k) = inl k
Sets-from p s s' s'' h (inr k) = inr (k ∙ h)

-- An operation that keeps the phase, then one that sets it
then-Sets :
    {S : Type 0} (p q : EtcdSnapshotPhase) (s : Status) (m n : Run (Round S) (Unit {0}))
    (t : Round S)
    → RestoreStep p q
    → restore_phase (m t).1.status ≡ restore_phase s
    → ((u : Round S) → restore_phase u.status ≡ restore_phase s → Sets q s (n u).1.status)
    → StepsFrom p s ((m >> n) t).1.status
then-Sets p q s m n t step h k = (
  q,
  step,
  leads-bind (λ u. restore_phase u.status ≡ restore_phase s) (λ u. Sets q s u.status)
      (λ u hu. inr hu) m (λ _. n) t h (λ _ u hu. k u hu),
)

next_phase-Sets :
    {S : Type 0} (restore : EtcdSnapshotRestore) (q : EtcdSnapshotPhase) (s : Status) (u : Round S)
    → restore_phase u.status ≡ restore_phase s
    → Sets q s (set_etcd_snapshot_restore_state (some restore) q u.status).1
next_phase-Sets restore q s u h =
    Sets-from q s u.status (set_etcd_snapshot_restore_state (some restore) q u.status).1 h
      (set_state-Sets (some restore) q u.status)

keep_status-phase :
    {S : Type 0} (s : Status) (r : Result (Unit {0}) × Round S)
    → restore_phase r.1.status ≡ restore_phase s
    → restore_phase (keep_status s r).1.status ≡ restore_phase s
unfolding keep_status
keep_status-phase s (ok _, t) h = refl
keep_status-phase s (err e, t) h = h

module _ {S : Type 0} (api : Api S) (clusters : ClusterApi S) (restores : RestoreApi S)
    (s3_api : S3Api) (functions : InfoFunctions) (to_string : Value → String) (cp : ControlPlane)
    (config_plan : ConfigPlan) where
  abbrev acts :
      EtcdSnapshotRestore → Option EtcdSnapshot → EtcdSnapshotPhase → Run (Round S) (Unit {0})
  acts = act_on_restore_phase api clusters restores s3_api functions to_string cp config_plan

  restart_keeps :
      (t : Round S)
      → restore_phase
          (shadowed
            (full_reconcile api cp (desired_plan api to_string functions cp config_plan) true)
            t).1.status
        ≡ restore_phase t.status
  restart_keeps t = keep_status-phase t.status _ (
      full_reconcile-Keeps restore_phase (λ s conditions. refl) (λ s. refl) (restore_phase t.status)
        api cp (desired_plan api to_string functions cp config_plan) true t refl)

  abbrev restarting : Run (Round S) (Unit {0})
  restarting =
      shadowed (full_reconcile api cp (desired_plan api to_string functions cp config_plan) true)

  -- A restart, after the cluster was unpaused, and the phase after it
  restarts_then :
      (restore : EtcdSnapshotRestore) (p q : EtcdSnapshotPhase) (m : Run (World S) (Unit {0}))
      (t : Round S)
      → RestoreStep p q
      → StepsFrom p t.status
          ((on_world m
              >> restarting
              >> on_status (set_etcd_snapshot_restore_state (some restore) q))
            t).1.status
  restarts_then restore p q m t step =
      then-Sets p q t.status (on_world m >> restarting)
        (on_status (set_etcd_snapshot_restore_state (some restore) q)) t step
        (keeps-then (λ u. restore_phase u.status ≡ restore_phase t.status) (on_world m) restarting t
          refl (λ u hu. restart_keeps u ∙ hu))
        (next_phase-Sets restore q t.status)

  -- A step on the world, then a change of the status that keeps the phase, and the phase after it
  world_then :
      (restore : EtcdSnapshotRestore) (p q : EtcdSnapshotPhase) (m : Run (World S) (Unit {0}))
      (f : Status → Status) (t : Round S)
      → RestoreStep p q
      → ((s : Status) → restore_phase (f s) ≡ restore_phase s)
      → StepsFrom p t.status
          ((on_world m >> on_status (λ s. set_etcd_snapshot_restore_state (some restore) q (f s)))
            t).1.status
  world_then restore p q m f t step same =
      then-Sets p q t.status (on_world m)
        (on_status (λ s. set_etcd_snapshot_restore_state (some restore) q (f s))) t step refl
        (λ u hu.
          Sets-from q t.status (f u.status)
            (set_etcd_snapshot_restore_state (some restore) q (f u.status)).1 (same u.status ∙ hu)
            (set_state-Sets (some restore) q (f u.status)))

  waits_then :
      (restore : EtcdSnapshotRestore) (p q : EtcdSnapshotPhase) (m : Run (World S) (Unit {0}))
      (msg : String) (f : Status → Status) (t : Round S)
      → RestoreStep p q
      → ((s : Status) → restore_phase (f s) ≡ restore_phase s)
      → StepsFrom p t.status
          ((on_world m
              >> on_status (λ s.
                set_and_wait api clusters restores s3_api functions to_string cp config_plan restore
                  q msg
                  (f s)))
            t).1.status
  unfolding set_and_wait
  waits_then restore p q m msg f t step same =
      then-Sets p q t.status (on_world m)
        (on_status (λ s.
          set_and_wait api clusters restores s3_api functions to_string cp config_plan restore q msg
            (f s)))
        t step refl
        (λ u hu.
          Sets-from q t.status (f u.status)
            (set_etcd_snapshot_restore_state (some restore) q (f u.status)).1 (same u.status ∙ hu)
            (set_state-Sets (some restore) q (f u.status)))

  abbrev unpauses : Run (World S) (Unit {0})
  unpauses = on_server (pause_capi_cluster clusters cp false)

  act_on_restore_phase-StepsFrom :
      (restore : EtcdSnapshotRestore) (snapshot : Option EtcdSnapshot) (p : EtcdSnapshotPhase)
      (t : Round S)
      → StepsFrom p t.status (acts restore snapshot p t).1.status
  unfolding act_on_restore_phase advance_config_generation
  act_on_restore_phase-StepsFrom restore snapshot EtcdSnapshotPhase.started t = (
    EtcdSnapshotPhase.shutdown,
    RestoreStep.shuts_down,
    unfold set_and_wait in
        Sets-from EtcdSnapshotPhase.shutdown t.status (uninitialized t.status)
          (set_etcd_snapshot_restore_state (some restore) EtcdSnapshotPhase.shutdown
            (uninitialized t.status)).1
          (uninitialized-phase t.status)
          (set_state-Sets (some restore) EtcdSnapshotPhase.shutdown (uninitialized t.status)),
  )
  act_on_restore_phase-StepsFrom restore snapshot EtcdSnapshotPhase.shutdown t =
      waits_then restore EtcdSnapshotPhase.shutdown EtcdSnapshotPhase.restore
        (run_etcd_restore_service_stop api clusters restores s3_api functions cp config_plan
          snapshot)
        "cluster shutdown complete, running etcd restore"
        (λ s. record s { conditions = api.set_condition "Bootstrapped" "False" s.conditions }) t
        RestoreStep.stops (λ s. refl)
  act_on_restore_phase-StepsFrom restore snapshot EtcdSnapshotPhase.restore t =
      world_then restore EtcdSnapshotPhase.restore EtcdSnapshotPhase.post_restore_pod_cleanup
        (run_etcd_snapshot_restore_plan api clusters restores s3_api functions to_string cp
          config_plan snapshot restore.name)
        advance_config_generation t RestoreStep.restores (λ s. refl)
  act_on_restore_phase-StepsFrom restore snapshot EtcdSnapshotPhase.post_restore_pod_cleanup t =
      world_then restore EtcdSnapshotPhase.post_restore_pod_cleanup
        EtcdSnapshotPhase.initial_restart_cluster
        (run_etcd_snapshot_post_restore_pod_cleanup_plan api clusters restores s3_api functions
          to_string cp config_plan)
        (λ s. s) t RestoreStep.cleans_pods (λ s. refl)
  act_on_restore_phase-StepsFrom restore snapshot EtcdSnapshotPhase.initial_restart_cluster t =
      restarts_then restore EtcdSnapshotPhase.initial_restart_cluster
        EtcdSnapshotPhase.post_restore_node_cleanup unpauses t RestoreStep.restarts
  act_on_restore_phase-StepsFrom restore snapshot EtcdSnapshotPhase.post_restore_node_cleanup t =
      world_then restore EtcdSnapshotPhase.post_restore_node_cleanup
        EtcdSnapshotPhase.restart_cluster
        (run_etcd_snapshot_post_restore_node_cleanup_plan api clusters restores s3_api functions
          to_string cp config_plan restore)
        (λ s. s) t RestoreStep.cleans_nodes (λ s. refl)
  act_on_restore_phase-StepsFrom restore snapshot EtcdSnapshotPhase.restart_cluster t =
      restarts_then restore EtcdSnapshotPhase.restart_cluster EtcdSnapshotPhase.finished unpauses t
        RestoreStep.finishes
  act_on_restore_phase-StepsFrom restore snapshot EtcdSnapshotPhase.finished t =
      (EtcdSnapshotPhase.finished, RestoreStep.stays EtcdSnapshotPhase.finished, inr refl)
  act_on_restore_phase-StepsFrom restore snapshot EtcdSnapshotPhase.unset t = (
    EtcdSnapshotPhase.started,
    RestoreStep.starts EtcdSnapshotPhase.unset,
    set_state-Sets (some restore) EtcdSnapshotPhase.started t.status,
  )
  act_on_restore_phase-StepsFrom restore snapshot EtcdSnapshotPhase.failed t = (
    EtcdSnapshotPhase.started,
    RestoreStep.starts EtcdSnapshotPhase.failed,
    set_state-Sets (some restore) EtcdSnapshotPhase.started t.status,
  )

  then_step :
      (p : EtcdSnapshotPhase) (s s' : Status)
      → RestoreStep p (restore_phase s)
      → StepsFrom p s s'
      → RestoreStep p (restore_phase s')
  then_step p s s' h (q, step, inl k) = subst (RestoreStep p) (sym k) step
  then_step p s s' h (q, step, inr k) = subst (RestoreStep p) (sym k) h

  -- What is left once the snapshot was looked for, and before that
  abbrev rest_of : Bool → EtcdSnapshotRestore → Option EtcdSnapshot → Run (Round S) (Unit {0})
  rest_of current_before restore snapshot = do
    lift (check_snapshot_version restores current_before snapshot)
    acts restore snapshot cp.status.etcd_snapshot_restore_phase

  abbrev retrieves : Bool → EtcdSnapshotRestore → Run (Round S) (Unit {0})
  retrieves current_before restore =
      on_world (on_server (retrieve_etcd_snapshot restores cp restore))
      >>= rest_of current_before restore

  restore_wanted-step :
      (current_before : Bool) (restore : EtcdSnapshotRestore) (t : Round S)
      → cp.status.etcd_snapshot_restore_phase ≡ restore_phase t.status
      → RestoreStep (restore_phase t.status) (
          restore_phase
            (restore_wanted api clusters restores s3_api functions to_string cp config_plan
              current_before restore t).1.status)
  unfolding restore_wanted
  restore_wanted-step current_before restore t h =
      let p = restore_phase t.status in
      let Steps : Round S → Type 0 = λ u. RestoreStep p (restore_phase u.status) in
      keeps-bind Steps (on_status (start_or_restart_etcd_snapshot_restore restore))
        (λ _. retrieves current_before restore) t
        (then_step p t.status (start_or_restart_etcd_snapshot_restore restore t.status).1
          (RestoreStep.stays p)
          (EtcdSnapshotPhase.started, RestoreStep.starts p, start_or_restart-Sets restore t.status))
        (λ _ u hu.
          keeps-bind Steps (on_world (on_server (retrieve_etcd_snapshot restores cp restore)))
            (rest_of current_before restore) u hu
            (λ snapshot v hv.
              keeps-bind Steps (lift (check_snapshot_version restores current_before snapshot))
                (λ _. acts restore snapshot cp.status.etcd_snapshot_restore_phase) v hv
                (λ _ x hx.
                  then_step p x.status
                    (acts restore snapshot cp.status.etcd_snapshot_restore_phase x).1.status hx
                    (subst
                      (λ q.
                        StepsFrom q x.status
                          (acts restore snapshot cp.status.etcd_snapshot_restore_phase x).1.status)
                      h
                      (act_on_restore_phase-StepsFrom restore snapshot
                        cp.status.etcd_snapshot_restore_phase x)))))

  restore_for-step :
      (current_before : Bool) (restore : Option EtcdSnapshotRestore) (t : Round S)
      → cp.status.etcd_snapshot_restore_phase ≡ restore_phase t.status
      → RestoreStep (restore_phase t.status) (
          restore_phase
            (restore_for api clusters restores s3_api functions to_string cp config_plan
              current_before restore t).1.status)
  unfolding restore_for
  restore_for-step current_before none t h =
      let p = restore_phase t.status in
      then_step p t.status (reset_etcd_snapshot_restore_state t.status).1 (RestoreStep.stays p)
        (EtcdSnapshotPhase.unset, RestoreStep.resets p, reset-Sets t.status)
  restore_for-step current_before (some restore) t h = elim (Bool-cases (str_eq restore.name "")) [
    | inl empty ↦ rw empty (
        let p = restore_phase t.status in
        then_step p t.status (reset_etcd_snapshot_restore_state t.status).1 (RestoreStep.stays p)
          (EtcdSnapshotPhase.unset, RestoreStep.resets p, reset-Sets t.status))
    | inr named ↦ rw named (restore_wanted-step current_before restore t h)
  ]

  -- One pass of restoreEtcdSnapshot refines the abstract machine of the phases: on every path, errors
  -- included, the phase stays, starts (again), is reset, or goes on by the one step that it has. It
  -- holds for a status that has the phase of the stored control plane.
  pub restore_etcd_snapshot_step :
      (current_before : Bool) (t : Round S)
      → cp.status.etcd_snapshot_restore_phase ≡ restore_phase t.status
      → RestoreStep (restore_phase t.status) (
          restore_phase
            (restore_etcd_snapshot api clusters restores s3_api functions to_string cp config_plan
              current_before t).1.status)
  unfolding restore_etcd_snapshot
  restore_etcd_snapshot_step current_before t h =
      restore_for-step current_before cp.etcd_snapshot_restore t h
