-- ===== src/Planner/EtcdCreate.antt =====
-- pkg/planner/etcdcreate.go: the phases of an etcd snapshot that is asked for.
pub mod Laws
use cluster_api_provider_ran.Prelude.{
  ℕ, String, Bool, true, false, not, ◌&&◌, ◌||◌, Option, none, some, List, [], ◌∷◌, ◌++◌, is_empty,
  pos, minus_one, ◌==◌, str_eq, ◌<>◌, if◌then◌else◌,
}
use cluster_api_provider_ran.Errors.{
  Error, waiting, other, is_err_waiting, Result, ok, err, Run, pure, raise, error_of, ◌>>=◌, ◌>>◌,
  run_if,
}
use cluster_api_provider_ran.Plan.{NodePlan}
use cluster_api_provider_ran.Objects.{Machine, Api}
use cluster_api_provider_ran.ControlPlane.{
  EtcdSnapshotPhase, EtcdSnapshotCreate, Status, ControlPlane,
}
use cluster_api_provider_ran.Planner.Entry.{
  Plan, PlanEntry, RoleFilter, is_etcd, is_init_node_or_deleting,
}
use cluster_api_provider_ran.Planner.Collect.{collect}
use cluster_api_provider_ran.Planner.Store.Assign.{assign_and_check_plan}
use cluster_api_provider_ran.Planner.InitNode.{Found, find_init_node, on_target}
use cluster_api_provider_ran.Planner.Reconcile.Pass.{World}
use cluster_api_provider_ran.Planner.Reconcile.Tier.{DesiredPlan, reconcile}
use cluster_api_provider_ran.Planner.FullReconcile.{Round, bootstrap_tier}

-- The texts of the phases, by which the code compares them.
unfoldable pub phase_text : EtcdSnapshotPhase → String
phase_text EtcdSnapshotPhase.unset = ""
phase_text EtcdSnapshotPhase.started = "Started"
phase_text EtcdSnapshotPhase.shutdown = "Shutdown"
phase_text EtcdSnapshotPhase.restore = "Restore"
phase_text EtcdSnapshotPhase.post_restore_pod_cleanup = "PostRestorePodCleanup"
phase_text EtcdSnapshotPhase.initial_restart_cluster = "InitialRestartCluster"
phase_text EtcdSnapshotPhase.post_restore_node_cleanup = "PostRestoreNodeCleanup"
phase_text EtcdSnapshotPhase.restart_cluster = "RestartCluster"
phase_text EtcdSnapshotPhase.finished = "Finished"
phase_text EtcdSnapshotPhase.failed = "Failed"

abbrev pub same_create : Option EtcdSnapshotCreate → Option EtcdSnapshotCreate → Bool
same_create none none = true
same_create none (some d) = false
same_create (some c) none = false
same_create (some c) (some d) = c.generation == d.generation

abbrev pub set_create : Option EtcdSnapshotCreate → EtcdSnapshotPhase → Status → Status
set_create create phase s = record s {
  etcd_snapshot_create = create;
  etcd_snapshot_create_phase = phase;
}

-- A state that is new is stored by the caller of an error; the next pass goes on from it.
unfoldable pub set_etcd_snapshot_create_state :
    Option EtcdSnapshotCreate → EtcdSnapshotPhase → Run Status (Unit {0})
unfolding phase_text
set_etcd_snapshot_create_state create phase s =
    if not (str_eq (phase_text s.etcd_snapshot_create_phase) (phase_text phase))
      || not (same_create s.etcd_snapshot_create create)
    then (err (waiting "refreshing etcd create state"), set_create create phase s)
    else (ok tt, s)

abbrev is_unset : Status → Bool
is_unset s =
    same_create s.etcd_snapshot_create none && str_eq (phase_text s.etcd_snapshot_create_phase) ""

unfoldable pub reset_etcd_snapshot_create_state : Run Status (Unit {0})
unfolding set_etcd_snapshot_create_state
reset_etcd_snapshot_create_state s =
    if is_unset s then (ok tt, s) else set_etcd_snapshot_create_state none EtcdSnapshotPhase.unset s

unfoldable pub start_or_restart_etcd_snapshot_create : EtcdSnapshotCreate → Run Status (Unit {0})
unfolding set_etcd_snapshot_create_state
start_or_restart_etcd_snapshot_create snapshot s =
    if same_create s.etcd_snapshot_create none
      || not (same_create (some snapshot) s.etcd_snapshot_create)
    then set_etcd_snapshot_create_state (some snapshot) EtcdSnapshotPhase.started s
    else (ok tt, s)

abbrev pub on_status : {S A : Type 0} → Run Status A → Run (Round S) A
on_status m t = let (r, s) = m t.status in (r, record t { status = s })

-- The variables of the loop over the errors of the nodes: stateSet, finErrs and the status.
abbrev pub Noted : Type 0
Noted = Bool × List Error × Status

unfoldable pub note_failure : Error → List Error → Result (Unit {0}) × Status → Noted
note_failure x fin_errs (err y, s) = (false, fin_errs ++ x ∷ y ∷ [], s)
note_failure x fin_errs (ok _, s) = (true, fin_errs ++ x ∷ [], s)

-- The first error that is no wait sets the phase, which is an error as well, and so does the next,
-- until that is none.
unfoldable pub note_error : EtcdSnapshotCreate → Error → Noted → Noted
unfolding note_failure set_etcd_snapshot_create_state
note_error snapshot x (state_set, fin_errs, s) =
    if is_err_waiting x || state_set
    then (state_set, fin_errs ++ x ∷ [], s)
    else note_failure x fin_errs
        (set_etcd_snapshot_create_state (some snapshot) EtcdSnapshotPhase.failed s)

unfoldable pub note_errors : EtcdSnapshotCreate → List Error → Noted → Noted
unfolding note_error
note_errors snapshot [] noted = noted
note_errors snapshot (x ∷ xs) noted = note_errors snapshot xs (note_error snapshot x noted)

abbrev pub snapshot_message : Machine → String
snapshot_message machine = elim machine.node_ref [
  | none ↦ "etcd snapshot on machine " <> machine.namespace <> "/" <> machine.name
  | some node ↦
      if str_eq node ""
      then "etcd snapshot on machine " <> machine.namespace <> "/" <> machine.name
      else "etcd snapshot on node " <> node
]

abbrev pub with_error : {A : Type 0} → List Error → Result A → List Error
with_error errs (ok a) = errs
with_error errs (err e) = errs ++ e ∷ []

module _ {S : Type 0} (api : Api S) (cp : ControlPlane) (desired_plan snapshot_plan : DesiredPlan)
    (merge_errors : List Error → String) where
  -- The loop over the servers, with the errors so far; an error in rendering a plan replaces them.
  unfoldable pub snapshot_each :
      String → List PlanEntry → List Error → World S → List Error × World S
  snapshot_each join_server [] errs w = (errs, w)
  snapshot_each join_server (e ∷ es) errs w = elim (snapshot_plan e join_server) [
    | err x ↦ (x ∷ [], w)
    | ok (plan, joined) ↦
        let (r, w') =
          on_target e
            (assign_and_check_plan api (snapshot_message e.machine) plan joined (pos 3) (pos 3))
            w in
        snapshot_each join_server es (with_error errs r) w'
  ]

  unfoldable pub run_etcd_snapshot_create : String → World S → List Error × World S
  unfolding snapshot_each
  run_etcd_snapshot_create join_server w =
      let servers = collect w.plan is_etcd in
      if is_empty servers
      then (other "failed to find node to perform etcd snapshot" ∷ [], w)
      else snapshot_each join_server servers [] w

  unfoldable pub restart_each : String → String → List PlanEntry → Run (World S) (Unit {0})
  restart_each operation join_server [] = pure tt
  restart_each operation join_server (e ∷ es) = elim (is_init_node_or_deleting e) [
    | true ↦ restart_each operation join_server es
    | false ↦ elim (desired_plan e join_server) [
      | err x ↦ raise x
      | ok (plan, joined) ↦
          on_target e (
            assign_and_check_plan api (operation <> " management plane restart") plan joined (pos 1)
              minus_one)
          >> restart_each operation join_server es
    ]
  ]

  -- The server to join once the bootstrap node is reconciled.
  unfoldable pub restart_join_server : String → Found → Result String
  restart_join_server operation f = elim f.error [
    | some e ↦ err e
    | none ↦
        if str_eq f.join_url ""
        then err (
            other (
              "error encountered restarting cluster during " <> operation
              <> ", joinServer was empty"))
        else ok f.join_url
  ]

  abbrev find_join_server : String → Run (World S) String
  find_join_server operation w =
      let (f, w') = find_init_node api cp w in (restart_join_server operation f, w')

  unfoldable pub run_etcd_snapshot_management_service_start :
      RoleFilter → String → Run (World S) (Unit {0})
  unfolding restart_each restart_join_server
  run_etcd_snapshot_management_service_start include operation =
      reconcile api cp desired_plan (bootstrap_tier cp.upgrade_strategy.control_plane_drain_options)
      >> (find_join_server operation >>= λ join_server.
          (λ w. restart_each operation join_server (collect w.plan include) w))

  -- What the errors of the nodes make of the status: none lets the cluster restart.
  unfoldable pub after_snapshot : EtcdSnapshotCreate → List Error → Run Status (Unit {0})
  unfolding note_errors set_etcd_snapshot_create_state
  after_snapshot snapshot [] s =
      set_etcd_snapshot_create_state (some snapshot) EtcdSnapshotPhase.restart_cluster s
  after_snapshot snapshot (x ∷ xs) s =
      let (_, fin_errs, s') = note_errors snapshot (x ∷ xs) (false, [], s) in
      (err (waiting (merge_errors fin_errs)), s')

  -- The phase Started, once the init node has been looked for.
  unfoldable pub take_snapshot : EtcdSnapshotCreate → String → Run (Round S) (Unit {0})
  unfolding run_etcd_snapshot_create after_snapshot
  take_snapshot snapshot join_server t =
      let (errs, w) = run_etcd_snapshot_create join_server t.world in
      on_status (after_snapshot snapshot errs) (record t { world = w })

  unfoldable pub snapshot_with :
      EtcdSnapshotCreate → Option Error → Bool → String → Run (Round S) (Unit {0})
  unfolding take_snapshot
  snapshot_with snapshot (some e) found join_server t = (err e, t)
  snapshot_with snapshot none found join_server t =
      if not found || str_eq join_server ""
      then (ok tt, t)
      else take_snapshot snapshot join_server t

  -- The phase RestartCluster, once the cluster was restarted.
  unfoldable pub finish_with : EtcdSnapshotCreate → Result (Unit {0}) → Run (Round S) (Unit {0})
  unfolding set_etcd_snapshot_create_state
  finish_with snapshot (err e) t = (err e, t)
  finish_with snapshot (ok _) t =
      on_status (set_etcd_snapshot_create_state (some snapshot) EtcdSnapshotPhase.finished) t

  -- The switch over the phase of the stored control plane.
  unfoldable pub act_on_phase : EtcdSnapshotCreate → EtcdSnapshotPhase → Run (Round S) (Unit {0})
  unfolding snapshot_with run_etcd_snapshot_management_service_start finish_with
  act_on_phase snapshot EtcdSnapshotPhase.started t =
      let (f, w) = find_init_node api cp t.world in
      snapshot_with snapshot f.error f.found f.join_url (record t { world = w })
  act_on_phase snapshot EtcdSnapshotPhase.restart_cluster t =
      let (r, w) =
        run_etcd_snapshot_management_service_start is_etcd "etcd snapshot creation" t.world in
      finish_with snapshot r (record t { world = w })
  act_on_phase snapshot EtcdSnapshotPhase.failed t = (ok tt, t)
  act_on_phase snapshot EtcdSnapshotPhase.finished t = (ok tt, t)
  act_on_phase snapshot _ t =
      on_status (set_etcd_snapshot_create_state (some snapshot) EtcdSnapshotPhase.started) t

  abbrev is_bootstrapped : Status → Bool
  is_bootstrapped s = s.initialized && api.is_true "Bootstrapped" s.conditions

  unfoldable pub snapshot_wanted : EtcdSnapshotCreate → Run (Round S) (Unit {0})
  unfolding start_or_restart_etcd_snapshot_create act_on_phase
  snapshot_wanted snapshot t =
      if not (is_bootstrapped t.status)
      then (ok tt, t)
      else (on_status (start_or_restart_etcd_snapshot_create snapshot)
            >> act_on_phase snapshot cp.status.etcd_snapshot_create_phase)
          t

  unfoldable pub create_for : Option EtcdSnapshotCreate → Run (Round S) (Unit {0})
  unfolding snapshot_wanted reset_etcd_snapshot_create_state
  create_for none t = on_status reset_etcd_snapshot_create_state t
  create_for (some snapshot) t = snapshot_wanted snapshot t

  unfoldable pub create_etcd_snapshot : Run (Round S) (Unit {0})
  unfolding create_for
  create_etcd_snapshot t = create_for cp.etcd_snapshot_create t
