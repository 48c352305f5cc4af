-- ===== src/Planner/EncryptionKeys/Restarted.antt =====
-- pkg/planner/encryptionkeyrotation.go: what restarting the servers has established when it ends well.
use mathlib.Core.Path.{subst}
use cluster_api_provider_ran.Prelude.{
  String, ◌≡◌, refl, sym, ap, ◌∙◌, inl, inr, Bool, true, false, Option, none, some, List, [], ◌∷◌,
  All, absurd, ℤ, pos, str_eq, ◌<>◌, Bool-cases,
}
use cluster_api_provider_ran.Errors.{is_err_waiting, Result, ok, err, Run, lift, ◌>>=◌, ◌>>◌}
use cluster_api_provider_ran.Errors.Laws.{is_ok, ok-bind, ok-then}
use cluster_api_provider_ran.Plan.{NodePlan}
use cluster_api_provider_ran.Plan.Equal.{str_eq_sound}
use cluster_api_provider_ran.Objects.{Value, Api}
use cluster_api_provider_ran.ControlPlane.{RotateEncryptionKeys, Status, ControlPlane}
use cluster_api_provider_ran.Planner.Entry.{PlanEntry, is_init_node}
use cluster_api_provider_ran.Planner.Collect.{collect}
use cluster_api_provider_ran.Planner.Desired.{ConfigPlan}
use cluster_api_provider_ran.Planner.FullReconcile.{Round}
use cluster_api_provider_ran.Planner.InitNode.{on_target}
use cluster_api_provider_ran.Planner.Store.Update.{Target}
use cluster_api_provider_ran.Planner.Store.Assigned.{IsApplied, assign_and_check_plan_ok}
use cluster_api_provider_ran.Planner.EncryptionKeys.State.{
  key_phase_text, encryption_key_rotation_failed,
}
use cluster_api_provider_ran.Planner.EncryptionKeys.Restart.{
  observed, encryption_key_rotation_is_control_plane_and_not_leader_and_init,
  encryption_key_rotation_is_etcd_and_not_control_plane_and_not_leader_and_init, restart_plan_of,
  assign_for, restarted, scraped, encryption_key_rotation_restart_service, restart_each, mismatch,
  same_stage, restart_followers, restart_before_leader, restart_after_leader,
  encryption_key_rotation_restart_nodes,
}

abbrev pub answer_or : {A : Type 0} → A → Result A → A
answer_or a (ok b) = b
answer_or a (err e) = a

module _ {S : Type 0} (api : Api S) (to_string : Value → String) (cp : ControlPlane)
    (config_plan : ConfigPlan) (rotate : RotateEncryptionKeys) where
  -- An assignment that answers without an error has found the plan applied, and keeps the entry.
  pub assign_for_ok :
      (n : ℤ) (e e' : PlanEntry) (p : NodePlan) (joined : String) (r : Result (Unit {0}))
      (t u : Round S)
      → assign_for api to_string cp config_plan rotate n e (p, joined) t ≡ (ok (r, e'), u)
      → r ≡ ok tt
      → IsApplied p e.plan × (e' ≡ e)
  unfolding observed on_target
  assign_for_ok n e e' p joined r t u h well =
      let target : Target S = record { entry = e; server = t.world.server } in
      let msg =
        "encryption key rotation ["
        <> key_phase_text cp.status.rotate_encryption_keys_phase
        <> "] for machine ["
        <> e.machine.name
        <> "]" in
      let answered = ap (λ x. answer_or (r, e') x.0) h in
      let (applied, same) =
        assign_and_check_plan_ok api msg p joined n n target (ap (λ x. x.0) answered ∙ well) in
      (applied, sym (ap (λ x. x.1) answered) ∙ ap (λ x. x.entry) same)

  restarted_ok :
      (r : Result (Unit {0})) (e' e : PlanEntry) (t u : Round S)
      → restarted api to_string cp config_plan rotate (r, e') t ≡ (ok e, u)
      → (r ≡ ok tt) × (e ≡ e')
  unfolding restarted encryption_key_rotation_failed
  restarted_ok (ok _) e' e t u h = (refl, sym (ap (λ x. answer_or e' x.0) h))
  restarted_ok (err x) e' e t u h = elim (Bool-cases (is_err_waiting x)) [
    | inl waits ↦ absurd (ap (λ y. is_ok y.0) (simp waits at h))
    | inr broken ↦ absurd (ap (λ y. is_ok y.0) (simp broken at h))
  ]

  -- The node has applied the plan that restarts its server.
  abbrev pub IsRestarted : String → String → PlanEntry → Type 0
  IsRestarted join_server leader_stage e =
      (p : NodePlan) × (joined : String) × (restart_plan_of api to_string cp config_plan rotate e
          leader_stage join_server
        ≡ ok (p, joined))
      × IsApplied p e.plan

  -- The stage that the node reports
  abbrev pub Reports : Bool → PlanEntry → String → Type 0
  Reports scrape_stage e stage =
      scraped api to_string cp config_plan rotate scrape_stage e ≡ ok stage

  abbrev restarts : String → PlanEntry → Bool → String → Run (Round S) String
  restarts join_server e scrape_stage leader_stage =
      encryption_key_rotation_restart_service api to_string cp config_plan rotate join_server e
        scrape_stage leader_stage

  pub restart_service_ok :
      (join_server : String) (e : PlanEntry) (scrape_stage : Bool) (leader_stage stage : String)
      (t u : Round S)
      → restarts join_server e scrape_stage leader_stage t ≡ (ok stage, u)
      → IsRestarted join_server leader_stage e × Reports scrape_stage e stage
  unfolding encryption_key_rotation_restart_service
  restart_service_ok join_server e scrape_stage leader_stage stage t u h =
      let finish : PlanEntry → Run (Round S) String =
        λ e'. lift (scraped api to_string cp config_plan rotate scrape_stage e') in
      let settle : Result (Unit {0}) × PlanEntry → Run (Round S) PlanEntry =
        restarted api to_string cp config_plan rotate in
      let ((p, joined), v, rendered, h1) =
        ok-bind
          (λ planned. assign_for api to_string cp config_plan rotate (pos 5) e planned >>= λ answer.
            settle answer >>= finish)
          stage u
          (lift (restart_plan_of api to_string cp config_plan rotate e leader_stage join_server)) t
          h in
      let ((r, e'), w, assigned, h2) =
        ok-bind (λ answer. settle answer >>= finish) stage u
          (assign_for api to_string cp config_plan rotate (pos 5) e (p, joined)) v h1 in
      let (e'', x, settled, h3) = ok-bind finish stage u (settle (r, e')) w h2 in
      let (well, same) = restarted_ok r e' e'' w x settled in
      let (applied, kept) = assign_for_ok (pos 5) e e' p joined r v w assigned well in
      (
        (p, joined, ap (λ y. y.0) rendered, applied),
        ap (scraped api to_string cp config_plan rotate scrape_stage) (sym (same ∙ kept))
            ∙ ap (λ y. y.0) h3,
      )

  restart_each_ok :
      (join_server : String) (es : List PlanEntry) (t u : Round S)
      → restart_each api to_string cp config_plan rotate join_server es t ≡ (ok tt, u)
      → All (IsRestarted join_server "") es
  unfolding restart_each
  restart_each_ok join_server [] t u h = tt
  restart_each_ok join_server (e ∷ es) t u h =
      let (stage, v, first, rest) =
        ok-then (restarts join_server e false "")
          (restart_each api to_string cp config_plan rotate join_server es) tt t u h in
      let (restarted, _) = restart_service_ok join_server e false "" stage t v first in
      (restarted, restart_each_ok join_server es v u rest)

  mismatch_not_ok :
      (leader_stage stage : String) (leader follower : Option String) (s s' : Status)
      → mismatch leader leader_stage follower stage s ≡ (ok tt, s')
      → false ≡ true
  unfolding mismatch encryption_key_rotation_failed
  mismatch_not_ok leader_stage stage (some leader) (some follower) s s' h = ap (λ y. is_ok y.0) h
  mismatch_not_ok leader_stage stage (some leader) none s s' h = ap (λ y. is_ok y.0) h
  mismatch_not_ok leader_stage stage none follower s s' h = ap (λ y. is_ok y.0) h

  same_stage_ok :
      (leader e : PlanEntry) (leader_stage stage : String) (t u : Round S)
      → same_stage api to_string cp config_plan rotate leader leader_stage e stage t ≡ (ok tt, u)
      → stage ≡ leader_stage
  unfolding same_stage
  same_stage_ok leader e leader_stage stage t u h = elim (Bool-cases (str_eq stage leader_stage)) [
    | inl same ↦ str_eq_sound stage leader_stage same
    | inr differs ↦ absurd (
        mismatch_not_ok leader_stage stage leader.machine.node_ref e.machine.node_ref t.status
          u.status (ap (λ y. (y.0, y.1.status)) (simp differs at h)))
  ]

  -- The node is restarted, and at the stage of the leader.
  abbrev pub Follows : String → String → PlanEntry → Type 0
  Follows join_server leader_stage e =
      IsRestarted join_server leader_stage e × Reports true e leader_stage

  restart_followers_ok :
      (join_server : String) (leader : PlanEntry) (leader_stage : String) (es : List PlanEntry)
      (t u : Round S)
      → restart_followers api to_string cp config_plan rotate join_server leader leader_stage es t
        ≡ (ok tt, u)
      → All (Follows join_server leader_stage) es
  unfolding restart_followers
  restart_followers_ok join_server leader leader_stage [] t u h = tt
  restart_followers_ok join_server leader leader_stage (e ∷ es) t u h =
      let rest =
        restart_followers api to_string cp config_plan rotate join_server leader leader_stage es in
      let check : String → Run (Round S) (Unit {0}) =
        same_stage api to_string cp config_plan rotate leader leader_stage e in
      let (stage, v, first, then_) =
        ok-bind (λ stage. check stage >> rest) tt u (restarts join_server e true leader_stage) t
          h in
      let (_, w, checked, others) = ok-then (check stage) rest tt v u then_ in
      let (restarted, reports) =
        restart_service_ok join_server e true leader_stage stage t v first in
      (
        (restarted, reports ∙ ap ok (same_stage_ok leader e leader_stage stage v w checked)),
        restart_followers_ok join_server leader leader_stage es w u others,
      )

  abbrev is_follower : PlanEntry → Bool
  is_follower = encryption_key_rotation_is_control_plane_and_not_leader_and_init cp

  abbrev is_only_etcd_follower : PlanEntry → Bool
  is_only_etcd_follower =
      encryption_key_rotation_is_etcd_and_not_control_plane_and_not_leader_and_init cp

  -- What comes before the leader, if the leader is not the init node: the round in between is the one
  -- that restarting the init node has left.
  abbrev pub BeforeLeader : String → PlanEntry → PlanEntry → Round S → Type 0
  BeforeLeader join_server leader init t =
      is_init_node leader ≡ false
      → IsRestarted join_server "" init
        × All (IsRestarted join_server "")
            (collect (restarts join_server init false "" t).1.world.plan is_only_etcd_follower)

  restart_before_leader_ok :
      (join_server : String) (leader init : PlanEntry) (t u : Round S)
      → restart_before_leader api to_string cp config_plan rotate join_server leader init t
        ≡ (ok tt, u)
      → BeforeLeader join_server leader init t
  unfolding restart_before_leader
  restart_before_leader_ok join_server leader init t u h different =
      let etcd_nodes : Round S → List PlanEntry = λ x. collect x.world.plan is_only_etcd_follower in
      let others : Run (Round S) (Unit {0}) =
        λ x. restart_each api to_string cp config_plan rotate join_server (etcd_nodes x) x in
      let (stage, v, first, rest) =
        ok-then (restarts join_server init false "") others tt t u (simp different at h) in
      let (restarted, _) = restart_service_ok join_server init false "" stage t v first in
      (
        restarted,
        subst (λ x. All (IsRestarted join_server "") (etcd_nodes x)) (sym (ap (λ y. y.1) first))
            (restart_each_ok join_server (etcd_nodes v) v u rest),
      )

  -- The rounds that restarting has left before the leader is restarted, and after
  abbrev pub before_leader : String → PlanEntry → PlanEntry → Round S → Round S
  before_leader join_server leader init t =
      (restart_before_leader api to_string cp config_plan rotate join_server leader init t).1

  abbrev pub after_leader : String → PlanEntry → PlanEntry → Round S → Round S
  after_leader join_server leader init t =
      (restarts join_server leader true "" (before_leader join_server leader init t)).1

  -- Restarting the nodes ends without an error only if the leader has applied the plan that restarts
  -- its server and reports a stage, every follower with a control plane has applied its plan and
  -- reports that very stage, and, with a leader that is not the init node, the init node and the nodes
  -- with etcd alone were restarted before it.
  pub restart_nodes_ok :
      (join_server : String) (leader init : PlanEntry) (t u : Round S)
      → encryption_key_rotation_restart_nodes api to_string cp config_plan rotate join_server leader
          init t
        ≡ (ok tt, u)
      → BeforeLeader join_server leader init t
        × IsRestarted join_server "" leader
        × (stage : String) × Reports true leader stage
        × All
            (Follows join_server stage)
            (collect (after_leader join_server leader init t).world.plan is_follower)
  unfolding encryption_key_rotation_restart_nodes restart_after_leader
  restart_nodes_ok join_server leader init t u h =
      let followers : Round S → List PlanEntry = λ x. collect x.world.plan is_follower in
      let before : Run (Round S) (Unit {0}) =
        restart_before_leader api to_string cp config_plan rotate join_server leader init in
      let after : String → Run (Round S) (Unit {0}) =
        restart_after_leader api to_string cp config_plan rotate join_server leader in
      let (_, v, first, h1) =
        ok-then before (restarts join_server leader true "" >>= after) tt t u h in
      let (stage, w, second, h2) = ok-bind after tt u (restarts join_server leader true "") v h1 in
      let (restarted, reports) = restart_service_ok join_server leader true "" stage v w second in
      let reached : (after_leader join_server leader init t) ≡ w =
        ap (λ x. (restarts join_server leader true "" x.1).1) first ∙ ap (λ y. y.1) second in
      (
        restart_before_leader_ok join_server leader init t v first,
        restarted,
        stage,
        reports,
        subst (λ x. All (Follows join_server stage) (followers x)) (sym reached)
            (restart_followers_ok join_server leader stage (followers w) w u h2),
      )
