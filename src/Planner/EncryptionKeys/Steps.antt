-- ===== src/Planner/EncryptionKeys/Steps.antt =====
-- pkg/planner/encryptionkeyrotation.go: the steps that the phase of a rotation can take.
use mathlib.Core.Path.{subst}
use cluster_api_provider_ran.Prelude.{
  String, ◌≡◌, refl, sym, ◌∙◌, inl, inr, true, false, ◌&&◌, Option, none, some, str_eq, Bool-cases,
}
use cluster_api_provider_ran.Errors.{Run, ◌>>◌}
use cluster_api_provider_ran.Errors.Laws.{keeps-then, leads-bind}
use cluster_api_provider_ran.Objects.{Value, Api}
use cluster_api_provider_ran.ControlPlane.{
  RotateEncryptionKeysPhase, RotateEncryptionKeys, Status, ControlPlane,
}
use cluster_api_provider_ran.Planner.Entry.{PlanEntry}
use cluster_api_provider_ran.Planner.CapiCluster.{ClusterApi}
use cluster_api_provider_ran.Planner.Desired.{ConfigPlan}
use cluster_api_provider_ran.Planner.EtcdCreate.{on_status}
use cluster_api_provider_ran.Planner.FullReconcile.{Round}
use cluster_api_provider_ran.Planner.EncryptionKeys.State.{
  key_phase_text, same_rotate, set_encryption_key_rotate_state, reset_encryption_key_rotate_state,
}
use cluster_api_provider_ran.Planner.EncryptionKeys.Phases.{
  without_leader, pauses, reconciles, restarts_nodes, act_on_key_phase,
}
use cluster_api_provider_ran.Planner.EncryptionKeys.Kept.{
  key_phase, IsKept, restart_nodes-IsKept, reconcile-IsKept,
}

-- The abstract machine: a pass leaves the phase, fails, starts a rotation (again), resets it, or takes
-- the one step that the phase has.
pub data KeyStep : RotateEncryptionKeysPhase → RotateEncryptionKeysPhase → Type 0 where
  stays : (p : RotateEncryptionKeysPhase) → KeyStep p p
  fails : (p : RotateEncryptionKeysPhase) → KeyStep p RotateEncryptionKeysPhase.failed
  starts : (p : RotateEncryptionKeysPhase) → KeyStep p RotateEncryptionKeysPhase.prepare
  resets : (p : RotateEncryptionKeysPhase) → KeyStep p RotateEncryptionKeysPhase.unset
  prepares :
      KeyStep RotateEncryptionKeysPhase.prepare RotateEncryptionKeysPhase.post_prepare_restart
  goes_on_to_rotate :
      KeyStep RotateEncryptionKeysPhase.post_prepare_restart RotateEncryptionKeysPhase.rotate
  rotates : KeyStep RotateEncryptionKeysPhase.rotate RotateEncryptionKeysPhase.post_rotate_restart
  goes_on_to_reencrypt :
      KeyStep RotateEncryptionKeysPhase.post_rotate_restart RotateEncryptionKeysPhase.reencrypt
  reencrypts :
      KeyStep RotateEncryptionKeysPhase.reencrypt RotateEncryptionKeysPhase.post_reencrypt_restart
  finishes : KeyStep RotateEncryptionKeysPhase.post_reencrypt_restart RotateEncryptionKeysPhase.done

abbrev pub StepsFrom : RotateEncryptionKeysPhase → Status → Type 0
StepsFrom p s = KeyStep p (key_phase s)

pub kept-StepsFrom : (p : RotateEncryptionKeysPhase) (s : Status) → IsKept p s → StepsFrom p s
kept-StepsFrom p s (inl h) = subst (KeyStep p) (sym h) (KeyStep.stays p)
kept-StepsFrom p s (inr h) = subst (KeyStep p) (sym h) (KeyStep.fails p)

-- Setting a phase that is a step away makes that step, or none.
pub set_state-StepsFrom :
    (rotate : Option RotateEncryptionKeys) (p q : RotateEncryptionKeysPhase) (s : Status)
    → KeyStep p q
    → IsKept p s
    → StepsFrom p (set_encryption_key_rotate_state rotate q s).1
unfolding set_encryption_key_rotate_state
set_state-StepsFrom rotate p q s step h =
    elim (Bool-cases (
      same_rotate s.rotate_encryption_keys rotate
      && str_eq (key_phase_text s.rotate_encryption_keys_phase) (key_phase_text q))) [
        | inl old ↦ rw old (kept-StepsFrom p s h)
        | inr new ↦ rw new step
      ]

pub reset-StepsFrom :
    (p : RotateEncryptionKeysPhase) (s : Status)
    → IsKept p s
    → StepsFrom p (reset_encryption_key_rotate_state s).1
unfolding reset_encryption_key_rotate_state
reset-StepsFrom p s h =
    elim (Bool-cases (
      same_rotate s.rotate_encryption_keys none
      && str_eq (key_phase_text s.rotate_encryption_keys_phase) "")) [
        | inl old ↦ rw old (kept-StepsFrom p s h)
        | inr new ↦ rw new (KeyStep.resets p)
      ]

IsKept-same :
    (p : RotateEncryptionKeysPhase) (s s' : Status)
    → key_phase s' ≡ key_phase s
    → IsKept p s
    → IsKept p s'
IsKept-same p s s' h (inl k) = inl (h ∙ k)
IsKept-same p s s' h (inr k) = inr (h ∙ k)

module _ {S : Type 0} (api : Api S) (clusters : ClusterApi S) (to_string : Value → String)
    (cp : ControlPlane) (config_plan : ConfigPlan) (rotate : RotateEncryptionKeys) where
  abbrev sets : RotateEncryptionKeysPhase → Run (Round S) (Unit {0})
  sets q = on_status (set_encryption_key_rotate_state (some rotate) q)

  -- What keeps the phase or fails, then the phase after it
  keeps_then_sets :
      (p q : RotateEncryptionKeysPhase) (f : Status → Status) (m : Run (Round S) (Unit {0}))
      (t : Round S)
      → KeyStep p q
      → ((s : Status) → key_phase (f s) ≡ key_phase s)
      → IsKept p (m t).1.status
      → StepsFrom p
          ((m >> on_status (λ s. set_encryption_key_rotate_state (some rotate) q (f s))) t).1.status
  keeps_then_sets p q f m t step same h =
      leads-bind (λ u. IsKept p u.status) (λ u. StepsFrom p u.status)
        (λ u hu. kept-StepsFrom p u.status hu) m
        (λ _. on_status (λ s. set_encryption_key_rotate_state (some rotate) q (f s))) t h
        (λ _ u hu.
          set_state-StepsFrom (some rotate) p q (f u.status) step
            (IsKept-same p u.status (f u.status) (same u.status) hu))

  module _ (join_server : String) (leader init : PlanEntry) where
    abbrev reconcile : Run (Round S) (Unit {0})
    reconcile = reconciles api clusters to_string cp config_plan rotate join_server leader

    abbrev restart : Run (Round S) (Unit {0})
    restart = restarts_nodes api clusters to_string cp config_plan rotate join_server leader init

    abbrev acts : RotateEncryptionKeysPhase → Run (Round S) (Unit {0})
    acts = act_on_key_phase api clusters to_string cp config_plan rotate join_server leader init

    reconcile_keeps :
        (p : RotateEncryptionKeysPhase) (t : Round S)
        → IsKept p t.status
        → IsKept p (reconcile t).1.status
    reconcile_keeps p =
        reconcile-IsKept api to_string cp config_plan rotate p join_server clusters leader

    restart_keeps :
        (p : RotateEncryptionKeysPhase) (t : Round S)
        → IsKept p t.status
        → IsKept p (restart t).1.status
    restart_keeps p =
        restart_nodes-IsKept api to_string cp config_plan rotate p join_server leader init

    abbrev pub StepsBy : RotateEncryptionKeysPhase → Type 0
    StepsBy p = (t : Round S) → IsKept p t.status → StepsFrom p (acts p t).1.status

    pub act-StepsFrom : (p : RotateEncryptionKeysPhase) → StepsBy p
    unfolding act_on_key_phase
    act-StepsFrom RotateEncryptionKeysPhase.prepare t h =
        let p = RotateEncryptionKeysPhase.prepare in
        let pause = pauses api clusters to_string cp config_plan true "pausing CAPI cluster" in
        keeps_then_sets p RotateEncryptionKeysPhase.post_prepare_restart (λ s. s)
          (pause >> reconcile) t KeyStep.prepares (λ s. refl)
          (keeps-then (λ u. IsKept p u.status) pause reconcile t h (reconcile_keeps p))
    act-StepsFrom RotateEncryptionKeysPhase.post_prepare_restart t h =
        let p = RotateEncryptionKeysPhase.post_prepare_restart in
        keeps_then_sets p RotateEncryptionKeysPhase.rotate (λ s. s) restart t
          KeyStep.goes_on_to_rotate (λ s. refl) (restart_keeps p t h)
    act-StepsFrom RotateEncryptionKeysPhase.rotate t h =
        let p = RotateEncryptionKeysPhase.rotate in
        keeps_then_sets p RotateEncryptionKeysPhase.post_rotate_restart (λ s. s) reconcile t
          KeyStep.rotates (λ s. refl) (reconcile_keeps p t h)
    act-StepsFrom RotateEncryptionKeysPhase.post_rotate_restart t h =
        let p = RotateEncryptionKeysPhase.post_rotate_restart in
        keeps_then_sets p RotateEncryptionKeysPhase.reencrypt (λ s. s) restart t
          KeyStep.goes_on_to_reencrypt (λ s. refl) (restart_keeps p t h)
    act-StepsFrom RotateEncryptionKeysPhase.reencrypt t h =
        let p = RotateEncryptionKeysPhase.reencrypt in
        keeps_then_sets p RotateEncryptionKeysPhase.post_reencrypt_restart (λ s. s) reconcile t
          KeyStep.reencrypts (λ s. refl) (reconcile_keeps p t h)
    act-StepsFrom RotateEncryptionKeysPhase.post_reencrypt_restart t h =
        let p = RotateEncryptionKeysPhase.post_reencrypt_restart in
        let unpause = pauses api clusters to_string cp config_plan false "unpausing CAPI cluster" in
        keeps_then_sets p RotateEncryptionKeysPhase.done without_leader (restart >> unpause) t
          KeyStep.finishes (λ s. refl)
          (keeps-then (λ u. IsKept p u.status) restart unpause t (restart_keeps p t h) (λ u hu. hu))
    act-StepsFrom RotateEncryptionKeysPhase.unset t h =
        kept-StepsFrom RotateEncryptionKeysPhase.unset t.status h
    act-StepsFrom RotateEncryptionKeysPhase.done t h =
        kept-StepsFrom RotateEncryptionKeysPhase.done t.status h
    act-StepsFrom RotateEncryptionKeysPhase.failed t h =
        kept-StepsFrom RotateEncryptionKeysPhase.failed t.status h
