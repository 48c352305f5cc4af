-- ===== src/Planner/EncryptionKeys/Applied.antt =====
-- pkg/planner/encryptionkeyrotation.go: what the leader's reconciliation has established when it ends well.
use mathlib.Core.Path.{subst}
use cluster_api_provider_ran.Prelude.{
  String, ◌≡◌, refl, sym, ap, ◌∙◌, inl, inr, Bool, true, ◌||◌, absurd, pos, str_eq, Bool-cases,
}
use cluster_api_provider_ran.Errors.{is_err_waiting, Result, ok, err, Run, lift, ◌>>=◌, ◌>>◌}
use cluster_api_provider_ran.Errors.Laws.{is_ok, ok-bind, ok-then}
use cluster_api_provider_ran.Plan.{OneTimeInstruction}
use cluster_api_provider_ran.Plan.Equal.{str_eq_sound}
use cluster_api_provider_ran.Objects.{Value, Api}
use cluster_api_provider_ran.ControlPlane.{
  RotateEncryptionKeysPhase, RotateEncryptionKeys, ControlPlane,
}
use cluster_api_provider_ran.Planner.Entry.{PlanEntry}
use cluster_api_provider_ran.Planner.CapiCluster.{ClusterApi}
use cluster_api_provider_ran.Planner.Desired.{Configured, ConfigPlan}
use cluster_api_provider_ran.Planner.FullReconcile.{Round}
use cluster_api_provider_ran.Planner.Store.Assigned.{IsApplied}
use cluster_api_provider_ran.Planner.EncryptionKeys.State.{encryption_key_rotation_failed}
use cluster_api_provider_ran.Planner.EncryptionKeys.Plans.{
  encryption_key_rotation_secrets_encrypt_instruction, leader_plan,
}
use cluster_api_provider_ran.Planner.EncryptionKeys.Stage.{
  stage_from_one_time_status, stage_from_periodic, is_allowed, reencrypt_request, reencrypt_active,
  reencrypt_finished, encryption_key_rotation_is_current_stage_allowed,
}
use cluster_api_provider_ran.Planner.EncryptionKeys.Restart.{stage_of, assign_for}
use cluster_api_provider_ran.Planner.EncryptionKeys.Phases.{
  or_failed, applied_by_leader, reencrypted, encryption_key_rotation_leader_phase_reconcile,
}
use cluster_api_provider_ran.Planner.EncryptionKeys.Kept.{checks, applies}
use cluster_api_provider_ran.Planner.EncryptionKeys.Restarted.{answer_or, assign_for_ok}

or_failed_ok :
    {S A : Type 0} (r : Result A) (a : A) (t u : Round S) → or_failed r t ≡ (ok a, u) → r ≡ ok a
unfolding or_failed encryption_key_rotation_failed
or_failed_ok (ok b) a t u h = ap (λ y. y.0) h
or_failed_ok (err x) a t u h = absurd (ap (λ y. is_ok y.0) h)

applied_by_leader_ok :
    {S : Type 0} (r : Result (Unit {0})) (e' e : PlanEntry) (t u : Round S)
    → applied_by_leader (r, e') t ≡ (ok e, u)
    → (r ≡ ok tt) × (e ≡ e')
unfolding applied_by_leader or_failed encryption_key_rotation_failed
applied_by_leader_ok (ok _) e' e t u h = (refl, sym (ap (λ x. answer_or e' x.0) h))
applied_by_leader_ok (err x) e' e t u h = elim (Bool-cases (is_err_waiting x)) [
  | inl waits ↦ absurd (ap (λ y. is_ok y.0) (simp waits at h))
  | inr broken ↦ absurd (ap (λ y. is_ok y.0) (simp broken at h))
]

allowed_ok :
    (stage : String) (phase : RotateEncryptionKeysPhase)
    → encryption_key_rotation_is_current_stage_allowed stage phase ≡ ok tt
    → is_allowed stage phase ≡ true
unfolding encryption_key_rotation_is_current_stage_allowed
allowed_ok stage phase h = elim (Bool-cases (is_allowed stage phase)) [
  | inl allowed ↦ allowed
  | inr refused ↦ absurd (ap is_ok (simp refused at h))
]

abbrev is_reencrypting : String → Bool
is_reencrypting stage = str_eq stage reencrypt_request || str_eq stage reencrypt_active

reencrypted_ok :
    (stage periodic : String)
    → reencrypted stage periodic ≡ ok tt
    → is_reencrypting stage ≡ true
    → periodic ≡ reencrypt_finished
unfolding reencrypted
reencrypted_ok stage periodic h busy = elim (Bool-cases (str_eq periodic reencrypt_finished)) [
  | inl finished ↦ str_eq_sound periodic reencrypt_finished finished
  | inr unfinished ↦ absurd (ap is_ok (simp (busy, unfinished) at h))
]

module _ {S : Type 0} (api : Api S) (clusters : ClusterApi S) (to_string : Value → String)
    (cp : ControlPlane) (config_plan : ConfigPlan) (rotate : RotateEncryptionKeys)
    (join_server : String) where
  abbrev phase : RotateEncryptionKeysPhase
  phase = cp.status.rotate_encryption_keys_phase

  -- The leader reports a stage that the phase allows, and one that has finished encrypting again.
  abbrev pub IsAtStage : PlanEntry → Type 0
  IsAtStage leader =
      (stage : String) × (periodic : String) × (stage_of stage_from_one_time_status leader
        ≡ ok stage)
      × (stage_of stage_from_periodic leader ≡ ok periodic)
      × (is_allowed stage phase ≡ true)
      × (is_reencrypting stage ≡ true → periodic ≡ reencrypt_finished)

  -- The leader has applied the plan that runs the command of the phase.
  abbrev pub HasRun : PlanEntry → Type 0
  HasRun leader =
      (c : Configured) × (apply : OneTimeInstruction) × (config_plan leader join_server true ≡ ok c)
      × (encryption_key_rotation_secrets_encrypt_instruction api cp rotate ≡ ok apply)
      × IsApplied (leader_plan api cp rotate apply c.node_plan) leader.plan

  checks_ok :
      (leader : PlanEntry) (t u : Round S)
      → checks api to_string cp config_plan rotate phase join_server leader t ≡ (ok tt, u)
      → IsAtStage leader
  checks_ok leader t u h =
      let allow : String → Run (Round S) (Unit {0}) =
        λ stage. or_failed (encryption_key_rotation_is_current_stage_allowed stage phase) in
      let (stage, v, one_time, h1) =
        ok-bind
          (λ stage. lift (stage_of stage_from_periodic leader) >>= λ periodic.
            allow stage >> lift (reencrypted stage periodic))
          tt u (lift (stage_of stage_from_one_time_status leader)) t h in
      let (periodic, w, listed, h2) =
        ok-bind (λ periodic. allow stage >> lift (reencrypted stage periodic)) tt u
          (lift (stage_of stage_from_periodic leader)) v h1 in
      let (_, x, allowed, h3) =
        ok-then (allow stage) (lift (reencrypted stage periodic)) tt w u h2 in
      (
        stage,
        periodic,
        ap (λ y. y.0) one_time,
        ap (λ y. y.0) listed,
        allowed_ok stage phase (
            or_failed_ok (encryption_key_rotation_is_current_stage_allowed stage phase) tt w x
              allowed),
        reencrypted_ok stage periodic (ap (λ y. y.0) h3),
      )

  applies_ok :
      (leader : PlanEntry) (c : Configured) (apply : OneTimeInstruction) (t u : Round S)
      → applies api to_string cp config_plan rotate phase join_server leader c apply t ≡ (ok tt, u)
      → IsApplied (leader_plan api cp rotate apply c.node_plan) leader.plan × IsAtStage leader
  applies_ok leader c apply t u h =
      let check : PlanEntry → Run (Round S) (Unit {0}) =
        checks api to_string cp config_plan rotate phase join_server in
      let plan = leader_plan api cp rotate apply c.node_plan in
      let ((r, e), v, assigned, h1) =
        ok-bind (λ answer. applied_by_leader answer >>= check) tt u
          (assign_for api to_string cp config_plan rotate (pos 1) leader (plan, c.joined_server)) t
          h in
      let (e', w, settled, h2) = ok-bind check tt u (applied_by_leader (r, e)) v h1 in
      let (well, same) = applied_by_leader_ok r e e' v w settled in
      let (applied, kept) =
        assign_for_ok api to_string cp config_plan rotate (pos 1) leader e plan c.joined_server r t
          v assigned well in
      (applied, subst IsAtStage (same ∙ kept) (checks_ok e' w u h2))

  -- The leader's reconciliation ends without an error only if the leader has applied the plan that runs
  -- the command of the phase, reports a stage that the phase allows, and, where encrypting again was
  -- still going on, has reported since that it has finished.
  pub leader_phase_reconcile_ok :
      (leader : PlanEntry) (t u : Round S)
      → encryption_key_rotation_leader_phase_reconcile api clusters to_string cp config_plan rotate
          join_server leader t
        ≡ (ok tt, u)
      → HasRun leader × IsAtStage leader
  unfolding encryption_key_rotation_leader_phase_reconcile
  leader_phase_reconcile_ok leader t u h =
      let instruction = encryption_key_rotation_secrets_encrypt_instruction api cp rotate in
      let apply_it : Configured → OneTimeInstruction → Run (Round S) (Unit {0}) =
        applies api to_string cp config_plan rotate phase join_server leader in
      let (c, v, rendered, h1) =
        ok-bind (λ c. or_failed instruction >>= apply_it c) tt u
          (lift (config_plan leader join_server true)) t h in
      let (apply, w, found, h2) = ok-bind (apply_it c) tt u (or_failed instruction) v h1 in
      let (applied, at) = applies_ok leader c apply w u h2 in
      ((c, apply, ap (λ y. y.0) rendered, or_failed_ok instruction apply v w found, applied), at)
