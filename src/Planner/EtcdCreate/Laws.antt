-- ===== src/Planner/EtcdCreate/Laws.antt =====
-- pkg/planner/etcdcreate.go: the steps that the phase of an etcd snapshot can take.
use mathlib.Core.Path.{subst}
use cluster_api_provider_ran.Prelude.{
  String, ◌≡◌, refl, sym, ap, ◌∙◌, ◌⊎◌, inl, inr, Bool, true, false, not, ◌&&◌, ◌||◌, Option, none,
  some, List, [], ◌∷◌, absurd, str_eq, Bool-cases, All, is_empty, pos,
}
use cluster_api_provider_ran.Errors.{Error, is_err_waiting, Result, ok, err}
use cluster_api_provider_ran.Errors.Laws.{keeps-then}
use cluster_api_provider_ran.Plan.{NodePlan}
use cluster_api_provider_ran.Planner.Entry.{PlanEntry, is_etcd}
use cluster_api_provider_ran.Planner.Collect.{collect}
use cluster_api_provider_ran.Planner.Reconcile.Pass.{World}
use cluster_api_provider_ran.Planner.Store.Update.{Target}
use cluster_api_provider_ran.Planner.Store.Assign.{assign_and_check_plan}
use cluster_api_provider_ran.Planner.Store.Assigned.{IsApplied, assign_and_check_plan_ok}
use cluster_api_provider_ran.Objects.{Api}
use cluster_api_provider_ran.ControlPlane.{
  EtcdSnapshotPhase, EtcdSnapshotCreate, Status, ControlPlane,
}
use cluster_api_provider_ran.Planner.InitNode.{find_init_node, on_target}
use cluster_api_provider_ran.Planner.Reconcile.Tier.{DesiredPlan}
use cluster_api_provider_ran.Planner.FullReconcile.{Round}
use cluster_api_provider_ran.Planner.EtcdCreate.{
  phase_text, same_create, set_etcd_snapshot_create_state, start_or_restart_etcd_snapshot_create,
  note_errors, note_error, note_failure, Noted, after_snapshot, take_snapshot, finish_with,
  on_status, snapshot_with, act_on_phase, snapshot_wanted, create_for, create_etcd_snapshot,
  run_etcd_snapshot_create, snapshot_each, snapshot_message, with_error,
}

abbrev pub phase_of : Status → EtcdSnapshotPhase
phase_of s = s.etcd_snapshot_create_phase

abbrev is_failed_phase : EtcdSnapshotPhase → Bool
is_failed_phase EtcdSnapshotPhase.failed = true
is_failed_phase _ = false

abbrev is_restart_phase : EtcdSnapshotPhase → Bool
is_restart_phase EtcdSnapshotPhase.restart_cluster = true
is_restart_phase _ = false

-- The steps of the phase in one pass: it stays, a snapshot is started (again), taking it fails or is
-- done, and the cluster has been restarted.
pub data PhaseStep : EtcdSnapshotPhase → EtcdSnapshotPhase → Type 0 where
  stays : (p : EtcdSnapshotPhase) → PhaseStep p p
  starts : (p : EtcdSnapshotPhase) → PhaseStep p EtcdSnapshotPhase.started
  fails : PhaseStep EtcdSnapshotPhase.started EtcdSnapshotPhase.failed
  restarts : PhaseStep EtcdSnapshotPhase.started EtcdSnapshotPhase.restart_cluster
  finishes : PhaseStep EtcdSnapshotPhase.restart_cluster EtcdSnapshotPhase.finished

-- The phase is the one wanted, or the one before.
abbrev Sets : EtcdSnapshotPhase → Status → Status → Type 0
Sets p s s' = (phase_of s' ≡ p) ⊎ (phase_of s' ≡ phase_of s)

set_state-Sets :
    (create : Option EtcdSnapshotCreate) (p : EtcdSnapshotPhase) (s : Status)
    → Sets p s (set_etcd_snapshot_create_state create p s).1
unfolding set_etcd_snapshot_create_state
set_state-Sets create p s =
    elim (Bool-cases (
      not (str_eq (phase_text s.etcd_snapshot_create_phase) (phase_text p))
      || not (same_create s.etcd_snapshot_create create))) [
        | inl new ↦ inl (simp new)
        | inr old ↦ inr (simp old)
      ]

phase_after_both :
    (p : EtcdSnapshotPhase) (s s' s'' : Status) → Sets p s s' → Sets p s' s'' → Sets p s s''
phase_after_both p s s' s'' h (inl k) = inl k
phase_after_both p s s' s'' (inl h) (inr k) = inl (k ∙ h)
phase_after_both p s s' s'' (inr h) (inr k) = inr (k ∙ h)

note_failure-status :
    (x : Error) (fin_errs : List Error) (r : Result (Unit {0}) × Status)
    → (note_failure x fin_errs r).2 ≡ r.1
unfolding note_failure
note_failure-status x fin_errs (err y, s) = refl
note_failure-status x fin_errs (ok _, s) = refl

note_error-Sets :
    (snapshot : EtcdSnapshotCreate) (x : Error) (n : Noted)
    → Sets EtcdSnapshotPhase.failed n.2 (note_error snapshot x n).2
unfolding note_error
note_error-Sets snapshot x (state_set, fin_errs, s) =
    elim (Bool-cases (is_err_waiting x || state_set)) [
      | inl skips ↦ inr (simp skips)
      | inr failure ↦
          let set = set_state-Sets (some snapshot) EtcdSnapshotPhase.failed s in
          rw failure (
            subst (Sets EtcdSnapshotPhase.failed s)
              (sym (
                note_failure-status x fin_errs
                  (set_etcd_snapshot_create_state (some snapshot) EtcdSnapshotPhase.failed s)))
              set)
    ]

note_errors-Sets :
    (snapshot : EtcdSnapshotCreate) (xs : List Error) (n : Noted)
    → Sets EtcdSnapshotPhase.failed n.2 (note_errors snapshot xs n).2
unfolding note_errors
note_errors-Sets snapshot [] n = inr refl
note_errors-Sets snapshot (x ∷ xs) n =
    phase_after_both EtcdSnapshotPhase.failed n.2 (note_error snapshot x n).2
      (note_errors snapshot xs (note_error snapshot x n)).2 (note_error-Sets snapshot x n)
      (note_errors-Sets snapshot xs (note_error snapshot x n))

start_or_restart-Sets :
    (snapshot : EtcdSnapshotCreate) (s : Status)
    → Sets EtcdSnapshotPhase.started s (start_or_restart_etcd_snapshot_create snapshot s).1
unfolding start_or_restart_etcd_snapshot_create
start_or_restart-Sets snapshot s =
    elim (Bool-cases (
      same_create s.etcd_snapshot_create none
      || not (same_create (some snapshot) s.etcd_snapshot_create))) [
        | inl new ↦ rw new (set_state-Sets (some snapshot) EtcdSnapshotPhase.started s)
        | inr old ↦ inr (simp old)
      ]

-- A step from one phase, for a status that may be in another.
abbrev StepsFrom : EtcdSnapshotPhase → Status → Status → Type 0
StepsFrom p s s' = (q : EtcdSnapshotPhase) × PhaseStep p q × Sets q s s'

module _ {S : Type 0} (api : Api S) (cp : ControlPlane) (desired_plan snapshot_plan : DesiredPlan)
    (merge_errors : List Error → String) where
  after_snapshot-StepsFrom :
      (snapshot : EtcdSnapshotCreate) (errs : List Error) (s : Status)
      → StepsFrom EtcdSnapshotPhase.started s
          (after_snapshot api cp desired_plan snapshot_plan merge_errors snapshot errs s).1
  unfolding after_snapshot
  after_snapshot-StepsFrom snapshot [] s = (
    EtcdSnapshotPhase.restart_cluster,
    PhaseStep.restarts,
    set_state-Sets (some snapshot) EtcdSnapshotPhase.restart_cluster s,
  )
  after_snapshot-StepsFrom snapshot (x ∷ xs) s =
      (EtcdSnapshotPhase.failed, PhaseStep.fails, note_errors-Sets snapshot (x ∷ xs) (false, [], s))

  stays_from : (p : EtcdSnapshotPhase) (s : Status) → StepsFrom p s s
  stays_from p s = (p, PhaseStep.stays p, inr refl)

  snapshot_with-StepsFrom :
      (snapshot : EtcdSnapshotCreate) (error : Option Error) (found : Bool) (url : String)
      (t : Round S)
      → StepsFrom EtcdSnapshotPhase.started t.status
          (snapshot_with api cp desired_plan snapshot_plan merge_errors snapshot error found url
            t).1.status
  unfolding snapshot_with take_snapshot
  snapshot_with-StepsFrom snapshot (some e) found url t =
      stays_from EtcdSnapshotPhase.started t.status
  snapshot_with-StepsFrom snapshot none found url t =
      elim (Bool-cases (not found || str_eq url "")) [
        | inl skips ↦ rw skips (stays_from EtcdSnapshotPhase.started t.status)
        | inr goes ↦ rw goes (
            after_snapshot-StepsFrom snapshot
              (run_etcd_snapshot_create api cp desired_plan snapshot_plan merge_errors url
                t.world).0
              t.status)
      ]

  finish_with-StepsFrom :
      (snapshot : EtcdSnapshotCreate) (r : Result (Unit {0})) (t : Round S)
      → StepsFrom EtcdSnapshotPhase.restart_cluster t.status
          (finish_with api cp desired_plan snapshot_plan merge_errors snapshot r t).1.status
  unfolding finish_with
  finish_with-StepsFrom snapshot (err e) t = stays_from EtcdSnapshotPhase.restart_cluster t.status
  finish_with-StepsFrom snapshot (ok _) t = (
    EtcdSnapshotPhase.finished,
    PhaseStep.finishes,
    set_state-Sets (some snapshot) EtcdSnapshotPhase.finished t.status,
  )

  starts_from :
      (snapshot : EtcdSnapshotCreate) (p : EtcdSnapshotPhase) (s : Status)
      → StepsFrom p s (set_etcd_snapshot_create_state (some snapshot) EtcdSnapshotPhase.started s).1
  starts_from snapshot p s = (
    EtcdSnapshotPhase.started,
    PhaseStep.starts p,
    set_state-Sets (some snapshot) EtcdSnapshotPhase.started s,
  )

  act_on_phase-StepsFrom :
      (snapshot : EtcdSnapshotCreate) (p : EtcdSnapshotPhase) (t : Round S)
      → StepsFrom p t.status
          (act_on_phase api cp desired_plan snapshot_plan merge_errors snapshot p t).1.status
  unfolding act_on_phase
  act_on_phase-StepsFrom snapshot EtcdSnapshotPhase.started t =
      let (f, w) = find_init_node api cp t.world in
      snapshot_with-StepsFrom snapshot f.error f.found f.join_url (record t { world = w })
  act_on_phase-StepsFrom snapshot EtcdSnapshotPhase.restart_cluster t =
      finish_with-StepsFrom snapshot _ _
  act_on_phase-StepsFrom snapshot EtcdSnapshotPhase.failed t =
      stays_from EtcdSnapshotPhase.failed t.status
  act_on_phase-StepsFrom snapshot EtcdSnapshotPhase.finished t =
      stays_from EtcdSnapshotPhase.finished t.status
  act_on_phase-StepsFrom snapshot EtcdSnapshotPhase.unset t = starts_from snapshot _ t.status
  act_on_phase-StepsFrom snapshot EtcdSnapshotPhase.shutdown t = starts_from snapshot _ t.status
  act_on_phase-StepsFrom snapshot EtcdSnapshotPhase.restore t = starts_from snapshot _ t.status
  act_on_phase-StepsFrom snapshot EtcdSnapshotPhase.post_restore_pod_cleanup t =
      starts_from snapshot _ t.status
  act_on_phase-StepsFrom snapshot EtcdSnapshotPhase.initial_restart_cluster t =
      starts_from snapshot _ t.status
  act_on_phase-StepsFrom snapshot EtcdSnapshotPhase.post_restore_node_cleanup t =
      starts_from snapshot _ t.status

  then_step :
      (p : EtcdSnapshotPhase) (s s' : Status)
      → PhaseStep p (phase_of s)
      → StepsFrom p s s'
      → PhaseStep p (phase_of s')
  then_step p s s' h (q, step, inl k) = subst (PhaseStep p) (sym k) step
  then_step p s s' h (q, step, inr k) = subst (PhaseStep p) (sym k) h

  snapshot_wanted-step :
      (snapshot : EtcdSnapshotCreate) (t : Round S)
      → cp.status.etcd_snapshot_create_phase ≡ phase_of t.status
      → PhaseStep (phase_of t.status) (
          phase_of
            (snapshot_wanted api cp desired_plan snapshot_plan merge_errors snapshot t).1.status)
  unfolding snapshot_wanted
  snapshot_wanted-step snapshot t h =
      elim (Bool-cases
        (not (t.status.initialized && api.is_true "Bootstrapped" t.status.conditions))) [
          | inl idle ↦ rw idle (PhaseStep.stays (phase_of t.status))
          | inr wanted ↦
              let p = phase_of t.status in
              let restart = start_or_restart_etcd_snapshot_create snapshot in
              let acts =
                act_on_phase api cp desired_plan snapshot_plan merge_errors snapshot
                  cp.status.etcd_snapshot_create_phase in
              let started : StepsFrom p t.status (restart t.status).1 = (
                EtcdSnapshotPhase.started,
                PhaseStep.starts p,
                start_or_restart-Sets snapshot t.status,
              ) in
              rw wanted (
                keeps-then (λ u. PhaseStep p (phase_of u.status)) (on_status restart) acts t
                  (then_step p t.status (restart t.status).1 (PhaseStep.stays p) started)
                  (λ u before. then_step p u.status (acts u).1.status before (
                    subst (λ x. StepsFrom x u.status (acts u).1.status) h
                      (act_on_phase-StepsFrom snapshot cp.status.etcd_snapshot_create_phase u))))
        ]

  -- One pass takes the phase of a snapshot that is asked for at most one step: it stays, starts (again),
  -- goes from started to failed or to the restart of the cluster, or from there to finished. It holds
  -- on every path, errors included, for a status that has the phase of the control plane.
  pub create_etcd_snapshot_step :
      (snapshot : EtcdSnapshotCreate) (t : Round S)
      → cp.etcd_snapshot_create ≡ some snapshot
      → cp.status.etcd_snapshot_create_phase ≡ phase_of t.status
      → PhaseStep (phase_of t.status) (
          phase_of (create_etcd_snapshot api cp desired_plan snapshot_plan merge_errors t).1.status)
  unfolding create_etcd_snapshot
  create_etcd_snapshot_step snapshot t hs hp =
      subst
        (λ o.
          PhaseStep (phase_of t.status)
            (phase_of (create_for api cp desired_plan snapshot_plan merge_errors o t).1.status))
        (sym hs) (unfold create_for in snapshot_wanted-step snapshot t hp)

  after_snapshot-restart :
      (snapshot : EtcdSnapshotCreate) (errs : List Error) (s : Status)
      → phase_of s ≡ EtcdSnapshotPhase.started
      → phase_of (after_snapshot api cp desired_plan snapshot_plan merge_errors snapshot errs s).1
        ≡ EtcdSnapshotPhase.restart_cluster
      → errs ≡ []
  unfolding after_snapshot
  after_snapshot-restart snapshot [] s h k = refl
  after_snapshot-restart snapshot (x ∷ xs) s h k =
      elim (note_errors-Sets snapshot (x ∷ xs) (false, [], s)) [
        | inl failure ↦ absurd (sym (ap is_failed_phase (sym failure ∙ k)))
        | inr same ↦ absurd (sym (ap is_restart_phase (sym k ∙ same ∙ h)))
      ]

  -- The server has applied the plan that takes the snapshot.
  abbrev pub HasSnapshot : String → PlanEntry → Type 0
  HasSnapshot join_server e =
      (p : NodePlan) × (joined : String) × (snapshot_plan e join_server ≡ ok (p, joined))
      × IsApplied p e.plan

  abbrev snapshots : String → List PlanEntry → List Error → World S → List Error × World S
  snapshots = snapshot_each api cp desired_plan snapshot_plan merge_errors

  -- The body of the loop, for what rendering the plan has answered
  abbrev step_of :
      String
      → PlanEntry
      → List PlanEntry
      → List Error
      → World S
      → Result (NodePlan × String)
      → List Error × World S
  step_of join_server e es errs w r = elim r [
    | err x ↦ (x ∷ [], w)
    | ok (plan, joined) ↦
        let (answer, w') =
          on_target e
            (assign_and_check_plan api (snapshot_message e.machine) plan joined (pos 3) (pos 3))
            w in
        snapshots join_server es (with_error errs answer) w'
  ]

  with_error-none :
      (errs : List Error) (r : Result (Unit {0}))
      → with_error errs r ≡ []
      → (errs ≡ []) × (r ≡ ok tt)
  with_error-none errs (ok _) h = (h, refl)
  with_error-none [] (err x) h = absurd (ap is_empty h)
  with_error-none (y ∷ ys) (err x) h = absurd (ap is_empty h)

  -- One server, with what the rest of the loop says
  planned-none :
      (join_server : String) (e : PlanEntry) (es : List PlanEntry) (errs : List Error) (w : World S)
      (r : Result (NodePlan × String))
      → snapshot_plan e join_server ≡ r
      → ((errs' : List Error) (w' : World S)
          → (snapshots join_server es errs' w').0 ≡ []
          → (errs' ≡ []) × All (HasSnapshot join_server) es)
      → (step_of join_server e es errs w r).0 ≡ []
      → (errs ≡ []) × All (HasSnapshot join_server) (e ∷ es)
  unfolding on_target
  planned-none join_server e es errs w (err x) rendered rest h = absurd (ap is_empty h)
  planned-none join_server e es errs w (ok (p, joined)) rendered rest h =
      let msg = snapshot_message e.machine in
      let target : Target S = record { entry = e; server = w.server } in
      let run = assign_and_check_plan api msg p joined (pos 3) (pos 3) target in
      let (before, others) = rest (with_error errs run.0) _ h in
      let (nothing, well) = with_error-none errs run.0 before in
      let (applied, _) = assign_and_check_plan_ok api msg p joined (pos 3) (pos 3) target well in
      (nothing, ((p, joined, rendered, applied), others))

  -- A loop over the servers that has left no error has found the plan applied on each of them.
  snapshot_each-none :
      (join_server : String) (es : List PlanEntry) (errs : List Error) (w : World S)
      → (snapshots join_server es errs w).0 ≡ []
      → (errs ≡ []) × All (HasSnapshot join_server) es
  unfolding snapshot_each
  snapshot_each-none join_server [] errs w h = (h, tt)
  snapshot_each-none join_server (e ∷ es) errs w h =
      planned-none join_server e es errs w (snapshot_plan e join_server) refl
        (λ errs' w'. snapshot_each-none join_server es errs' w') h

  servers-HasSnapshot :
      (join_server : String) (w : World S)
      → (run_etcd_snapshot_create api cp desired_plan snapshot_plan merge_errors join_server w).0
        ≡ []
      → (is_empty (collect w.plan is_etcd) ≡ false)
        × All (HasSnapshot join_server) (collect w.plan is_etcd)
  unfolding run_etcd_snapshot_create
  servers-HasSnapshot join_server w h = elim (Bool-cases (is_empty (collect w.plan is_etcd))) [
    | inl nobody ↦ absurd (ap is_empty (simp nobody at h))
    | inr servers ↦ (
      servers,
      (snapshot_each-none join_server (collect w.plan is_etcd) [] w (simp servers at h)).1,
    )
  ]

  -- The cluster is restarted only after its snapshot: from the phase Started, the phase becomes
  -- RestartCluster only if there is an etcd server and every one has applied the plan that takes the
  -- snapshot, without failing and with its probes passing.
  pub restart_needs_snapshot :
      (snapshot : EtcdSnapshotCreate) (join_server : String) (t : Round S)
      → phase_of t.status ≡ EtcdSnapshotPhase.started
      → phase_of
          (take_snapshot api cp desired_plan snapshot_plan merge_errors snapshot join_server
            t).1.status
        ≡ EtcdSnapshotPhase.restart_cluster
      → (is_empty (collect t.world.plan is_etcd) ≡ false)
        × All (HasSnapshot join_server) (collect t.world.plan is_etcd)
  unfolding take_snapshot
  restart_needs_snapshot snapshot join_server t h k = servers-HasSnapshot join_server t.world (
      after_snapshot-restart snapshot
        (run_etcd_snapshot_create api cp desired_plan snapshot_plan merge_errors join_server
          t.world).0
        t.status h k)
