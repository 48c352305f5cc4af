-- ===== src/Planner/EtcdRestore/Finished.antt =====
-- pkg/planner/etcdrestore.go: when a pass goes on behind a restore that is asked for.
use cluster_api_provider_ran.Prelude.{
  String, ◌≡◌, refl, sym, ap, ◌∙◌, inl, inr, Bool, true, false, not, ◌||◌, Option, none, some,
  absurd, arith, str_eq, Bool-cases,
}
use cluster_api_provider_ran.Errors.{Result, ok, err, Run, lift, ◌>>=◌, ◌>>◌}
use cluster_api_provider_ran.Errors.Laws.{ok-bind, ok-then, is_ok}
use cluster_api_provider_ran.Objects.{Value, Api}
use cluster_api_provider_ran.ControlPlane.{
  EtcdSnapshotPhase, EtcdSnapshotRestore, Status, ControlPlane,
}
use cluster_api_provider_ran.Planner.CapiCluster.{ClusterApi, pause_capi_cluster}
use cluster_api_provider_ran.Planner.Desired.{ConfigPlan, desired_plan}
use cluster_api_provider_ran.Planner.Instructions.{InfoFunctions}
use cluster_api_provider_ran.Planner.S3Args.{S3Api}
use cluster_api_provider_ran.Planner.EtcdCreate.{phase_text, on_status}
use cluster_api_provider_ran.Planner.FullReconcile.{Round, full_reconcile}
use cluster_api_provider_ran.Planner.Reconcile.Pass.{World}
use cluster_api_provider_ran.Planner.EtcdRestore.State.{
  same_restore, set_etcd_snapshot_restore_state, start_or_restart_etcd_snapshot_restore,
  advance_config_generation,
}
use cluster_api_provider_ran.Planner.EtcdRestore.Plans.{EtcdSnapshot}
use cluster_api_provider_ran.Planner.EtcdRestore.Stop.{
  RestoreApi, on_server, run_etcd_restore_service_stop,
}
use cluster_api_provider_ran.Planner.EtcdRestore.Phases.{
  on_world, shadowed, keep_status, set_and_wait, act_on_restore_phase, retrieve_etcd_snapshot,
  check_snapshot_version, restore_wanted, restore_for, restore_etcd_snapshot,
  run_etcd_snapshot_restore_plan, run_etcd_snapshot_post_restore_pod_cleanup_plan,
  run_etcd_snapshot_post_restore_node_cleanup_plan,
}
use cluster_api_provider_ran.Planner.EtcdRestore.Steps.{restore_phase}
use cluster_api_provider_ran.Planner.EtcdRestore.Restored.{is_phase}

set_state_ok :
    (restore : Option EtcdSnapshotRestore) (q : EtcdSnapshotPhase) (s u : Status)
    → set_etcd_snapshot_restore_state restore q s ≡ (ok tt, u)
    → (is_phase q s ≡ true) × (u ≡ s)
unfolding set_etcd_snapshot_restore_state
set_state_ok restore q s u h =
    elim (Bool-cases (
      not (same_restore s.etcd_snapshot_restore restore)
      || not (str_eq (phase_text s.etcd_snapshot_restore_phase) (phase_text q)))) [
        | inl new ↦ absurd (ap (λ r. is_ok r.0) (simp new at h))
        | inr old ↦ (ground arith, ap (λ r. r.1) (sym (simp old at h)))
      ]

start_or_restart_ok :
    (restore : EtcdSnapshotRestore) (s u : Status)
    → start_or_restart_etcd_snapshot_restore restore s ≡ (ok tt, u)
    → u ≡ s
unfolding start_or_restart_etcd_snapshot_restore
start_or_restart_ok restore s u h =
    elim (Bool-cases (
      same_restore s.etcd_snapshot_restore none
      || not (same_restore (some restore) s.etcd_snapshot_restore))) [
        | inl new ↦ (set_state_ok (some restore) EtcdSnapshotPhase.started s u (simp new at h)).1
        | inr old ↦ ap (λ r. r.1) (sym (simp old at h))
      ]

keep_status_ok :
    {S : Type 0} (s : Status) (r : Result (Unit {0}) × Round S) (u : Round S)
    → keep_status s r ≡ (ok tt, u)
    → u.status ≡ s
unfolding keep_status
keep_status_ok s (ok _, t) u h = ap (λ r. r.1.status) (sym h)
keep_status_ok s (err e, t) u h = absurd (ap (λ r. is_ok r.0) h)

abbrev is_asked : Option EtcdSnapshotRestore → Bool
is_asked none = false
is_asked (some _) = true

abbrev is_unnamed : Option EtcdSnapshotRestore → Bool
is_unnamed none = true
is_unnamed (some r) = str_eq r.name ""

-- A phase that is not set yet is set with an error.
set_never_ok :
    {S : Type 0} (restore : EtcdSnapshotRestore) (p q : EtcdSnapshotPhase) (f : Status → Status)
    (t u : Round S)
    → restore_phase (f t.status) ≡ p
    → str_eq (phase_text p) (phase_text q) ≡ false
    → on_status (λ s. set_etcd_snapshot_restore_state (some restore) q (f s)) t ≡ (ok tt, u)
    → false ≡ true
set_never_ok restore p q f t u h k e =
    let (reached, _) =
      set_state_ok (some restore) q (f t.status) u.status (λ i. ((e i).0, (e i).1.status)) in
    sym k ∙ ap (λ x. str_eq (phase_text x) (phase_text q)) (sym h) ∙ reached

module _ {S : Type 0} (api : Api S) (clusters : ClusterApi S) (restores : RestoreApi S)
    (s3_api : S3Api) (functions : InfoFunctions) (to_string : Value → String) (cp : ControlPlane)
    (config_plan : ConfigPlan) where
  abbrev phase_acts :
      EtcdSnapshotRestore → Option EtcdSnapshot → EtcdSnapshotPhase → Run (Round S) (Unit {0})
  phase_acts = act_on_restore_phase api clusters restores s3_api functions to_string cp config_plan

  world_never_ok :
      (restore : EtcdSnapshotRestore) (p q : EtcdSnapshotPhase) (m : Run (World S) (Unit {0}))
      (f : Status → Status) (t u : Round S)
      → restore_phase (f t.status) ≡ p
      → str_eq (phase_text p) (phase_text q) ≡ false
      → (on_world m >> on_status (λ s. set_etcd_snapshot_restore_state (some restore) q (f s))) t
        ≡ (ok tt, u)
      → false ≡ true
  world_never_ok restore p q m f t u h k e =
      let (_, v, first, last) =
        ok-then (on_world m)
          (on_status (λ s. set_etcd_snapshot_restore_state (some restore) q (f s))) tt t u e in
      let same : t.status ≡ v.status = ap (λ r. r.1.status) first in
      set_never_ok restore p q f v u (ap (λ s. restore_phase (f s)) (sym same) ∙ h) k last

  waits_never_ok :
      (restore : EtcdSnapshotRestore) (q : EtcdSnapshotPhase) (m : Run (World S) (Unit {0}))
      (msg : String) (f : Status → Status) (t u : Round S)
      → (on_world m
            >> on_status (λ s.
              set_and_wait api clusters restores s3_api functions to_string cp config_plan restore q
                msg
                (f s)))
          t
        ≡ (ok tt, u)
      → false ≡ true
  unfolding set_and_wait
  waits_never_ok restore q m msg f t u e =
      let (_, v, first, last) =
        ok-then (on_world m)
          (on_status (λ s.
            set_and_wait api clusters restores s3_api functions to_string cp config_plan restore q
              msg (f s)))
          tt t u e in
      ap (λ r. is_ok r.0) last

  abbrev restarting : Run (Round S) (Unit {0})
  restarting =
      shadowed (full_reconcile api cp (desired_plan api to_string functions cp config_plan) true)

  abbrev unpauses : Run (World S) (Unit {0})
  unpauses = on_server (pause_capi_cluster clusters cp false)

  restart_never_ok :
      (restore : EtcdSnapshotRestore) (p q : EtcdSnapshotPhase) (t u : Round S)
      → restore_phase t.status ≡ p
      → str_eq (phase_text p) (phase_text q) ≡ false
      → (on_world unpauses
            >> restarting
            >> on_status (set_etcd_snapshot_restore_state (some restore) q))
          t
        ≡ (ok tt, u)
      → false ≡ true
  restart_never_ok restore p q t u h k e =
      let (_, v, both, last) =
        ok-then (on_world unpauses >> restarting)
          (on_status (set_etcd_snapshot_restore_state (some restore) q)) tt t u e in
      let (_, x, first, second) = ok-then (on_world unpauses) restarting tt t v both in
      let kept =
        keep_status_ok x.status
          (full_reconcile api cp (desired_plan api to_string functions cp config_plan) true x) v
          second in
      let same : v.status ≡ t.status = kept ∙ sym (ap (λ r. r.1.status) first) in
      set_never_ok restore p q (λ s. s) v u (ap restore_phase same ∙ h) k last

  -- The switch answers without an error in the phase Finished alone.
  act_ok :
      (restore : EtcdSnapshotRestore) (snapshot : Option EtcdSnapshot) (p : EtcdSnapshotPhase)
      (t u : Round S)
      → restore_phase t.status ≡ p
      → phase_acts restore snapshot p t ≡ (ok tt, u)
      → (restore_phase t.status ≡ EtcdSnapshotPhase.finished) × (u.status ≡ t.status)
  unfolding act_on_restore_phase phase_text advance_config_generation
  act_ok restore snapshot EtcdSnapshotPhase.started t u h e =
      absurd (unfold set_and_wait in ap (λ r. is_ok r.0) e)
  act_ok restore snapshot EtcdSnapshotPhase.shutdown t u h e = absurd (
      waits_never_ok restore EtcdSnapshotPhase.restore
        (run_etcd_restore_service_stop api clusters restores s3_api functions cp config_plan
          snapshot)
        "cluster shutdown complete, running etcd restore"
        (λ s. record s { conditions = api.set_condition "Bootstrapped" "False" s.conditions }) t u
        e)
  act_ok restore snapshot EtcdSnapshotPhase.restore t u h e = absurd (
      world_never_ok restore EtcdSnapshotPhase.restore EtcdSnapshotPhase.post_restore_pod_cleanup
        (run_etcd_snapshot_restore_plan api clusters restores s3_api functions to_string cp
          config_plan snapshot restore.name)
        advance_config_generation t u h refl e)
  act_ok restore snapshot EtcdSnapshotPhase.post_restore_pod_cleanup t u h e = absurd (
      world_never_ok restore EtcdSnapshotPhase.post_restore_pod_cleanup
        EtcdSnapshotPhase.initial_restart_cluster
        (run_etcd_snapshot_post_restore_pod_cleanup_plan api clusters restores s3_api functions
          to_string cp config_plan)
        (λ s. s) t u h refl e)
  act_ok restore snapshot EtcdSnapshotPhase.initial_restart_cluster t u h e = absurd (
      restart_never_ok restore EtcdSnapshotPhase.initial_restart_cluster
        EtcdSnapshotPhase.post_restore_node_cleanup t u h refl e)
  act_ok restore snapshot EtcdSnapshotPhase.post_restore_node_cleanup t u h e = absurd (
      world_never_ok restore EtcdSnapshotPhase.post_restore_node_cleanup
        EtcdSnapshotPhase.restart_cluster
        (run_etcd_snapshot_post_restore_node_cleanup_plan api clusters restores s3_api functions
          to_string cp config_plan restore)
        (λ s. s) t u h refl e)
  act_ok restore snapshot EtcdSnapshotPhase.restart_cluster t u h e = absurd (
      restart_never_ok restore EtcdSnapshotPhase.restart_cluster EtcdSnapshotPhase.finished t u h
        refl e)
  act_ok restore snapshot EtcdSnapshotPhase.finished t u h e = (h, ap (λ r. r.1.status) (sym e))
  act_ok restore snapshot EtcdSnapshotPhase.unset t u h e =
      absurd (
        set_never_ok restore EtcdSnapshotPhase.unset EtcdSnapshotPhase.started (λ s. s) t u h refl
          e)
  act_ok restore snapshot EtcdSnapshotPhase.failed t u h e = absurd (
      set_never_ok restore EtcdSnapshotPhase.failed EtcdSnapshotPhase.started (λ s. s) t u h refl e)

  abbrev after_retrieval :
      Bool → EtcdSnapshotRestore → Option EtcdSnapshot → Run (Round S) (Unit {0})
  after_retrieval current_before restore snapshot =
      lift (check_snapshot_version restores current_before snapshot) >>= λ _.
      phase_acts restore snapshot cp.status.etcd_snapshot_restore_phase

  restore_wanted_ok :
      (current_before : Bool) (restore : EtcdSnapshotRestore) (t u : Round S)
      → cp.status.etcd_snapshot_restore_phase ≡ restore_phase t.status
      → restore_wanted api clusters restores s3_api functions to_string cp config_plan
          current_before restore t
        ≡ (ok tt, u)
      → (restore_phase t.status ≡ EtcdSnapshotPhase.finished) × (u.status ≡ t.status)
  unfolding restore_wanted
  restore_wanted_ok current_before restore t u h e =
      let retrieval = on_world (on_server (retrieve_etcd_snapshot restores cp restore)) in
      let (_, v, first, rest) =
        ok-bind (λ _. retrieval >>= after_retrieval current_before restore) tt u
          (on_status (start_or_restart_etcd_snapshot_restore restore)) t e in
      let (snapshot, w, second, rest2) =
        ok-bind (after_retrieval current_before restore) tt u retrieval v rest in
      let (_, x, third, last) =
        ok-bind (λ _. phase_acts restore snapshot cp.status.etcd_snapshot_restore_phase) tt u
          (lift (check_snapshot_version restores current_before snapshot)) w rest2 in
      let unchanged =
        start_or_restart_ok restore t.status v.status (λ i. ((first i).0, (first i).1.status)) in
      let same : x.status ≡ t.status =
        sym (ap (λ r. r.1.status) third) ∙ sym (ap (λ r. r.1.status) second) ∙ unchanged in
      let (finished, kept) =
        act_ok restore snapshot cp.status.etcd_snapshot_restore_phase x u
          (ap restore_phase same ∙ sym h) last in
      (ap restore_phase (sym same) ∙ finished, kept ∙ same)

  restore_for_ok :
      (current_before : Bool) (asked : Option EtcdSnapshotRestore) (restore : EtcdSnapshotRestore)
      (t u : Round S)
      → asked ≡ some restore
      → str_eq restore.name "" ≡ false
      → cp.status.etcd_snapshot_restore_phase ≡ restore_phase t.status
      → restore_for api clusters restores s3_api functions to_string cp config_plan current_before
          asked t
        ≡ (ok tt, u)
      → (restore_phase t.status ≡ EtcdSnapshotPhase.finished) × (u.status ≡ t.status)
  unfolding restore_for
  restore_for_ok current_before none restore t u a n h e = absurd (ap is_asked a)
  restore_for_ok current_before (some r) restore t u a n h e =
      restore_wanted_ok current_before r t u h (simp (ap (λ o. is_unnamed o) a ∙ n) at e)

  -- A pass goes on behind a restore that is asked for by name only if the restore was finished when the
  -- pass began, and then leaves the status as it was: in every other phase restoreEtcdSnapshot ends
  -- the pass with an error, the one that finishes the restore included. It holds for a status that
  -- has the phase of the stored control plane.
  pub restore_etcd_snapshot_ok :
      (current_before : Bool) (restore : EtcdSnapshotRestore) (t u : Round S)
      → cp.etcd_snapshot_restore ≡ some restore
      → str_eq restore.name "" ≡ false
      → cp.status.etcd_snapshot_restore_phase ≡ restore_phase t.status
      → restore_etcd_snapshot api clusters restores s3_api functions to_string cp config_plan
          current_before t
        ≡ (ok tt, u)
      → (restore_phase t.status ≡ EtcdSnapshotPhase.finished) × (u.status ≡ t.status)
  unfolding restore_etcd_snapshot
  restore_etcd_snapshot_ok current_before restore t u a n h e =
      restore_for_ok current_before cp.etcd_snapshot_restore restore t u a n h e
