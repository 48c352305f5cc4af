-- ===== src/Planner/EncryptionKeys/Kept.antt =====
-- pkg/planner/encryptionkeyrotation.go: what the operations of a phase keep, which is the phase unless they fail.
use cluster_api_provider_ran.Prelude.{
  String, ◌≡◌, refl, ◌⊎◌, inl, inr, Bool, true, false, Option, none, some, List, [], ◌∷◌, pos,
  str_eq, Bool-cases,
}
use cluster_api_provider_ran.Errors.{Error, is_err_waiting, Result, ok, err, Run, lift, ◌>>=◌, ◌>>◌}
use cluster_api_provider_ran.Errors.Laws.{keeps-bind, keeps-then}
use cluster_api_provider_ran.Plan.{OneTimeInstruction}
use cluster_api_provider_ran.Objects.{Value, Api}
use cluster_api_provider_ran.ControlPlane.{
  RotateEncryptionKeysPhase, RotateEncryptionKeys, Status, ControlPlane,
}
use cluster_api_provider_ran.Planner.Entry.{PlanEntry, is_init_node}
use cluster_api_provider_ran.Planner.CapiCluster.{ClusterApi}
use cluster_api_provider_ran.Planner.Collect.{collect}
use cluster_api_provider_ran.Planner.Desired.{Configured, ConfigPlan}
use cluster_api_provider_ran.Planner.EtcdCreate.{on_status}
use cluster_api_provider_ran.Planner.FullReconcile.{Round}
use cluster_api_provider_ran.Planner.EncryptionKeys.State.{encryption_key_rotation_failed}
use cluster_api_provider_ran.Planner.EncryptionKeys.Plans.{
  encryption_key_rotation_secrets_encrypt_instruction, leader_plan,
}
use cluster_api_provider_ran.Planner.EncryptionKeys.Stage.{
  stage_from_one_time_status, stage_from_periodic, encryption_key_rotation_is_current_stage_allowed,
}
use cluster_api_provider_ran.Planner.EncryptionKeys.Restart.{
  stage_of, encryption_key_rotation_is_etcd_and_not_control_plane_and_not_leader_and_init, mismatch,
  restart_plan_of, assign_for, restarted, scraped, encryption_key_rotation_restart_service,
  restart_each, same_stage, restart_followers, restart_before_leader, restart_after_leader,
  encryption_key_rotation_restart_nodes,
}
use cluster_api_provider_ran.Planner.EncryptionKeys.Phases.{
  or_failed, applied_by_leader, reencrypted, encryption_key_rotation_leader_phase_reconcile,
}

abbrev pub key_phase : Status → RotateEncryptionKeysPhase
key_phase s = s.rotate_encryption_keys_phase

-- The phase is the one given, or the rotation has failed.
abbrev pub IsKept : RotateEncryptionKeysPhase → Status → Type 0
IsKept p s = (key_phase s ≡ p) ⊎ (key_phase s ≡ RotateEncryptionKeysPhase.failed)

failed-IsKept :
    (A : Type 0) (p : RotateEncryptionKeysPhase) (x : Error) (s : Status)
    → IsKept p (encryption_key_rotation_failed {A = A} x s).1
unfolding encryption_key_rotation_failed
failed-IsKept A p x s = inr refl

-- What a step on the status alone keeps
on_status-IsKept :
    {S A : Type 0} (p : RotateEncryptionKeysPhase) (m : Run Status A) (t : Round S)
    → IsKept p (m t.status).1
    → IsKept p (on_status m t).1.status
on_status-IsKept p m t h = h

or_failed-IsKept :
    {S A : Type 0} (p : RotateEncryptionKeysPhase) (r : Result A) (t : Round S)
    → IsKept p t.status
    → IsKept p (or_failed r t).1.status
unfolding or_failed
or_failed-IsKept p (ok a) t h = h
or_failed-IsKept {A = A} p (err x) t h = failed-IsKept A p x t.status

module _ {S : Type 0} (api : Api S) (to_string : Value → String) (cp : ControlPlane)
    (config_plan : ConfigPlan) (rotate : RotateEncryptionKeys) (p : RotateEncryptionKeysPhase)
    (join_server : String) where
  abbrev Kept : Round S → Type 0
  Kept t = IsKept p t.status

  restarted-IsKept :
      (answer : Result (Unit {0}) × PlanEntry) (t : Round S)
      → Kept t
      → Kept (restarted api to_string cp config_plan rotate answer t).1
  unfolding restarted
  restarted-IsKept (ok _, e) t h = h
  restarted-IsKept (err x, e) t h = elim (Bool-cases (is_err_waiting x)) [
    | inl waits ↦ rw waits h
    | inr broken ↦ rw broken (failed-IsKept PlanEntry p x t.status)
  ]

  abbrev restarts : PlanEntry → Bool → String → Run (Round S) String
  restarts e scrape_stage leader_stage =
      encryption_key_rotation_restart_service api to_string cp config_plan rotate join_server e
        scrape_stage leader_stage

  restarts-IsKept :
      (e : PlanEntry) (scrape_stage : Bool) (leader_stage : String) (t : Round S)
      → Kept t
      → Kept (restarts e scrape_stage leader_stage t).1
  unfolding encryption_key_rotation_restart_service
  restarts-IsKept e scrape_stage leader_stage t h =
      let finish : PlanEntry → Run (Round S) String =
        λ e'. lift (scraped api to_string cp config_plan rotate scrape_stage e') in
      let settle : Result (Unit {0}) × PlanEntry → Run (Round S) PlanEntry =
        restarted api to_string cp config_plan rotate in
      keeps-bind Kept
        (lift (restart_plan_of api to_string cp config_plan rotate e leader_stage join_server))
        (λ planned. assign_for api to_string cp config_plan rotate (pos 5) e planned >>= λ answer.
          settle answer >>= finish)
        t h
        (λ planned u hu.
          keeps-bind Kept (assign_for api to_string cp config_plan rotate (pos 5) e planned)
            (λ answer. settle answer >>= finish) u hu
            (λ answer v hv.
              keeps-bind Kept (settle answer) finish v (restarted-IsKept answer v hv)
                (λ e' x hx. hx)))

  restart_each-IsKept :
      (es : List PlanEntry) (t : Round S)
      → Kept t
      → Kept (restart_each api to_string cp config_plan rotate join_server es t).1
  unfolding restart_each
  restart_each-IsKept [] t h = h
  restart_each-IsKept (e ∷ es) t h =
      keeps-then Kept (restarts e false "")
        (restart_each api to_string cp config_plan rotate join_server es) t
        (restarts-IsKept e false "" t h) (restart_each-IsKept es)

  mismatch-IsKept :
      (leader follower : Option String) (leader_stage stage : String) (s : Status)
      → IsKept p s
      → IsKept p (mismatch leader leader_stage follower stage s).1
  unfolding mismatch encryption_key_rotation_failed
  mismatch-IsKept (some leader) (some follower) leader_stage stage s h = inr refl
  mismatch-IsKept (some leader) none leader_stage stage s h = h
  mismatch-IsKept none follower leader_stage stage s h = h

  same_stage-IsKept :
      (leader e : PlanEntry) (leader_stage stage : String) (t : Round S)
      → Kept t
      → Kept (same_stage api to_string cp config_plan rotate leader leader_stage e stage t).1
  unfolding same_stage
  same_stage-IsKept leader e leader_stage stage t h =
      elim (Bool-cases (str_eq stage leader_stage)) [
        | inl same ↦ rw same h
        | inr differs ↦ rw differs (
            mismatch-IsKept leader.machine.node_ref e.machine.node_ref leader_stage stage t.status
              h)
      ]

  restart_followers-IsKept :
      (leader : PlanEntry) (leader_stage : String) (es : List PlanEntry) (t : Round S)
      → Kept t
      → Kept
          (restart_followers api to_string cp config_plan rotate join_server leader leader_stage es
            t).1
  unfolding restart_followers
  restart_followers-IsKept leader leader_stage [] t h = h
  restart_followers-IsKept leader leader_stage (e ∷ es) t h =
      let rest =
        restart_followers api to_string cp config_plan rotate join_server leader leader_stage es in
      let check : String → Run (Round S) (Unit {0}) =
        same_stage api to_string cp config_plan rotate leader leader_stage e in
      keeps-bind Kept (restarts e true leader_stage) (λ stage. check stage >> rest) t
        (restarts-IsKept e true leader_stage t h)
        (λ stage u hu.
          keeps-then Kept (check stage) rest u (same_stage-IsKept leader e leader_stage stage u hu)
            (restart_followers-IsKept leader leader_stage es))

  restart_before_leader-IsKept :
      (leader init : PlanEntry) (t : Round S)
      → Kept t
      → Kept (restart_before_leader api to_string cp config_plan rotate join_server leader init t).1
  unfolding restart_before_leader
  restart_before_leader-IsKept leader init t h = elim (Bool-cases (is_init_node leader)) [
    | inl same ↦ rw same h
    | inr different ↦ rw different (
        keeps-then Kept (restarts init false "")
          (λ u.
            restart_each api to_string cp config_plan rotate join_server
              (collect u.world.plan
                (encryption_key_rotation_is_etcd_and_not_control_plane_and_not_leader_and_init cp))
              u)
          t (restarts-IsKept init false "" t h) (λ u hu. restart_each-IsKept _ u hu))
  ]

  pub restart_nodes-IsKept :
      (leader init : PlanEntry) (t : Round S)
      → Kept t
      → Kept
          (encryption_key_rotation_restart_nodes api to_string cp config_plan rotate join_server
            leader init t).1
  unfolding encryption_key_rotation_restart_nodes restart_after_leader
  restart_nodes-IsKept leader init t h =
      let after : String → Run (Round S) (Unit {0}) =
        restart_after_leader api to_string cp config_plan rotate join_server leader in
      keeps-then Kept
        (restart_before_leader api to_string cp config_plan rotate join_server leader init)
        (restarts leader true "" >>= after) t (restart_before_leader-IsKept leader init t h)
        (λ u hu.
          keeps-bind Kept (restarts leader true "") after u (restarts-IsKept leader true "" u hu)
            (λ leader_stage v hv. restart_followers-IsKept leader leader_stage _ v hv))

  applied_by_leader-IsKept :
      (answer : Result (Unit {0}) × PlanEntry) (t : Round S)
      → Kept t
      → Kept (applied_by_leader answer t).1
  unfolding applied_by_leader
  applied_by_leader-IsKept (ok _, e) t h = h
  applied_by_leader-IsKept (err x, e) t h = elim (Bool-cases (is_err_waiting x)) [
    | inl waits ↦ rw waits h
    | inr broken ↦ rw broken (or_failed-IsKept {A = PlanEntry} p (err x) t h)
  ]

  abbrev phase_allowed : String → Result (Unit {0})
  phase_allowed stage =
      encryption_key_rotation_is_current_stage_allowed stage cp.status.rotate_encryption_keys_phase

  -- What the leader's reconciliation does once its plan is applied
  abbrev pub checks : PlanEntry → Run (Round S) (Unit {0})
  checks leader = do
    stage ← lift (stage_of stage_from_one_time_status leader)
    periodic ← lift (stage_of stage_from_periodic leader)
    or_failed (phase_allowed stage)
    lift (reencrypted stage periodic)

  checks-IsKept : (leader : PlanEntry) (t : Round S) → Kept t → Kept (checks leader t).1
  checks-IsKept leader t h =
      keeps-bind Kept (lift (stage_of stage_from_one_time_status leader))
        (λ stage. lift (stage_of stage_from_periodic leader) >>= λ periodic.
          or_failed (phase_allowed stage) >> lift (reencrypted stage periodic))
        t h
        (λ stage u hu.
          keeps-bind Kept (lift (stage_of stage_from_periodic leader))
            (λ periodic. or_failed (phase_allowed stage) >> lift (reencrypted stage periodic)) u hu
            (λ periodic v hv.
              keeps-then Kept (or_failed (phase_allowed stage)) (lift (reencrypted stage periodic))
                v (or_failed-IsKept p (phase_allowed stage) v hv) (λ x hx. hx)))

  -- From the instruction of the phase on
  abbrev pub applies : PlanEntry → Configured → OneTimeInstruction → Run (Round S) (Unit {0})
  applies leader c apply = do
    answer ←
        assign_for api to_string cp config_plan rotate (pos 1) leader
          (leader_plan api cp rotate apply c.node_plan, c.joined_server)
    leader' ← applied_by_leader answer
    checks leader'

  applies-IsKept :
      (leader : PlanEntry) (c : Configured) (apply : OneTimeInstruction) (t : Round S)
      → Kept t
      → Kept (applies leader c apply t).1
  applies-IsKept leader c apply t h =
      keeps-bind Kept
        (assign_for api to_string cp config_plan rotate (pos 1) leader
          (leader_plan api cp rotate apply c.node_plan, c.joined_server))
        (λ answer. applied_by_leader answer >>= checks) t h
        (λ answer u hu.
          keeps-bind Kept (applied_by_leader answer) checks u (applied_by_leader-IsKept answer u hu)
            checks-IsKept)

  pub reconcile-IsKept :
      (clusters : ClusterApi S) (leader : PlanEntry) (t : Round S)
      → Kept t
      → Kept
          (encryption_key_rotation_leader_phase_reconcile api clusters to_string cp config_plan
            rotate join_server leader t).1
  unfolding encryption_key_rotation_leader_phase_reconcile
  reconcile-IsKept clusters leader t h =
      let instruction = encryption_key_rotation_secrets_encrypt_instruction api cp rotate in
      keeps-bind Kept (lift (config_plan leader join_server true))
        (λ c. or_failed instruction >>= applies leader c) t h
        (λ c u hu.
          keeps-bind Kept (or_failed instruction) (applies leader c) u
            (or_failed-IsKept p instruction u hu) (applies-IsKept leader c))
