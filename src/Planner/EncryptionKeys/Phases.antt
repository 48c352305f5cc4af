-- ===== src/Planner/EncryptionKeys/Phases.antt =====
-- pkg/planner/encryptionkeyrotation.go: the phases of a rotation that is asked for.
use cluster_api_provider_ran.Prelude.{
  ℕ, String, Bool, true, false, not, ◌&&◌, ◌||◌, Option, none, some, Assoc, pos, str_eq, ◌<>◌,
  if◌then◌else◌,
}
use cluster_api_provider_ran.Errors.{
  Error, waiting, other, panic, is_err_waiting, Result, ok, err, Run, pure, raise, lift, ◌>>=◌,
  ◌>>◌,
}
use cluster_api_provider_ran.Objects.{Value, Api}
use cluster_api_provider_ran.ControlPlane.{
  RotateEncryptionKeysPhase, RotateEncryptionKeys, Status, ControlPlane,
}
use cluster_api_provider_ran.Planner.Entry.{PlanEntry}
use cluster_api_provider_ran.Planner.CapiCluster.{ClusterApi, pause_capi_cluster}
use cluster_api_provider_ran.Planner.Desired.{ConfigPlan}
use cluster_api_provider_ran.Planner.EtcdCreate.{on_status}
use cluster_api_provider_ran.Planner.EtcdRestore.Phases.{on_world}
use cluster_api_provider_ran.Planner.EtcdRestore.Stop.{on_server}
use cluster_api_provider_ran.Planner.FullReconcile.{Round}
use cluster_api_provider_ran.Planner.InitNode.{find_init_node}
use cluster_api_provider_ran.Planner.EncryptionKeys.State.{
  key_phase_text, set_encryption_key_rotate_state, reset_encryption_key_rotate_state,
  encryption_key_rotation_failed, encryption_key_rotation_supported, can_rotate_encryption_keys,
  should_restart_encryption_key_rotation,
}
use cluster_api_provider_ran.Planner.EncryptionKeys.Plans.{
  encryption_key_rotation_secrets_encrypt_instruction, leader_plan,
}
use cluster_api_provider_ran.Planner.EncryptionKeys.Stage.{
  stage_from_one_time_status, stage_from_periodic, encryption_key_rotation_is_current_stage_allowed,
  reencrypt_request, reencrypt_active, reencrypt_finished,
}
use cluster_api_provider_ran.Planner.EncryptionKeys.Restart.{
  stage_of, encryption_key_rotation_find_leader, assign_for, encryption_key_rotation_restart_nodes,
}

-- A failure to pause or unpause is waited for, whatever it is.
unfoldable pub waits_instead : {T : Type 0} → String → Result (Unit {0}) × T → Result (Unit {0}) × T
waits_instead msg (ok _, t) = (ok tt, t)
waits_instead msg (err e, t) = (err (waiting msg), t)

-- An error of a step that is no use to repeat
unfoldable pub or_failed : {S A : Type 0} → Result A → Run (Round S) A
unfolding encryption_key_rotation_failed
or_failed (ok a) = pure a
or_failed (err x) = on_status (encryption_key_rotation_failed x)

unfoldable pub applied_by_leader :
    {S : Type 0} → Result (Unit {0}) × PlanEntry → Run (Round S) PlanEntry
unfolding or_failed
applied_by_leader (ok _, e) = pure e
applied_by_leader (err x, e) = if is_err_waiting x then raise x else or_failed (err x)

-- Encrypting again goes on after the command: the periodic output says when it has finished.
unfoldable pub reencrypted : String → String → Result (Unit {0})
reencrypted stage periodic =
    if (str_eq stage reencrypt_request || str_eq stage reencrypt_active)
      && not (str_eq periodic reencrypt_finished)
    then err (waiting "waiting for encryption key rotation stage to be finished")
    else ok tt

abbrev pub without_leader : Status → Status
without_leader s = record s { rotate_encryption_keys_leader = "" }

module _ {S : Type 0} (api : Api S) (clusters : ClusterApi S) (to_string : Value → String)
    (cp : ControlPlane) (config_plan : ConfigPlan) where
  unfoldable pub encryption_key_rotation_leader_phase_reconcile :
      RotateEncryptionKeys → String → PlanEntry → Run (Round S) (Unit {0})
  unfolding encryption_key_rotation_secrets_encrypt_instruction leader_plan or_failed
      applied_by_leader stage_of stage_from_one_time_status stage_from_periodic
      encryption_key_rotation_is_current_stage_allowed reencrypted
  encryption_key_rotation_leader_phase_reconcile rotate join_server leader = do
    c ← lift (config_plan leader join_server true)
    apply ← or_failed (encryption_key_rotation_secrets_encrypt_instruction api cp rotate)
    answer ←
        assign_for api to_string cp config_plan rotate (pos 1) leader
          (leader_plan api cp rotate apply c.node_plan, c.joined_server)
    leader' ← applied_by_leader answer
    stage ← lift (stage_of stage_from_one_time_status leader')
    periodic ← lift (stage_of stage_from_periodic leader')
    or_failed (
        encryption_key_rotation_is_current_stage_allowed stage
          cp.status.rotate_encryption_keys_phase)
    lift (reencrypted stage periodic)

  abbrev pub pauses : Bool → String → Run (Round S) (Unit {0})
  pauses pause msg =
      on_world (on_server (λ s. waits_instead msg (pause_capi_cluster clusters cp pause s)))

  abbrev pub next_key_phase :
      RotateEncryptionKeys → RotateEncryptionKeysPhase → Run (Round S) (Unit {0})
  next_key_phase rotate phase = on_status (set_encryption_key_rotate_state (some rotate) phase)

  abbrev pub reconciles : RotateEncryptionKeys → String → PlanEntry → Run (Round S) (Unit {0})
  reconciles rotate join_server leader =
      encryption_key_rotation_leader_phase_reconcile rotate join_server leader

  abbrev pub restarts_nodes :
      RotateEncryptionKeys → String → PlanEntry → PlanEntry → Run (Round S) (Unit {0})
  restarts_nodes rotate join_server leader init =
      encryption_key_rotation_restart_nodes api to_string cp config_plan rotate join_server leader
        init

  abbrev unknown : RotateEncryptionKeysPhase → Error
  unknown phase =
      other ("encountered unknown encryption key rotation phase: " <> key_phase_text phase)

  -- The switch over the phase of the stored control plane
  unfoldable pub act_on_key_phase :
      RotateEncryptionKeys
      → String
      → PlanEntry
      → PlanEntry
      → RotateEncryptionKeysPhase
      → Run (Round S) (Unit {0})
  unfolding waits_instead
  act_on_key_phase rotate join_server leader init RotateEncryptionKeysPhase.prepare =
      pauses true "pausing CAPI cluster"
      >> reconciles rotate join_server leader
      >> next_key_phase rotate RotateEncryptionKeysPhase.post_prepare_restart
  act_on_key_phase rotate join_server leader init RotateEncryptionKeysPhase.post_prepare_restart =
      restarts_nodes rotate join_server leader init
      >> next_key_phase rotate RotateEncryptionKeysPhase.rotate
  act_on_key_phase rotate join_server leader init RotateEncryptionKeysPhase.rotate =
      reconciles rotate join_server leader
      >> next_key_phase rotate RotateEncryptionKeysPhase.post_rotate_restart
  act_on_key_phase rotate join_server leader init RotateEncryptionKeysPhase.post_rotate_restart =
      restarts_nodes rotate join_server leader init
      >> next_key_phase rotate RotateEncryptionKeysPhase.reencrypt
  act_on_key_phase rotate join_server leader init RotateEncryptionKeysPhase.reencrypt =
      reconciles rotate join_server leader
      >> next_key_phase rotate RotateEncryptionKeysPhase.post_reencrypt_restart
  act_on_key_phase rotate join_server leader init RotateEncryptionKeysPhase.post_reencrypt_restart =
      restarts_nodes rotate join_server leader init
      >> pauses false "unpausing CAPI cluster"
      >> on_status (λ s.
        set_encryption_key_rotate_state (some rotate) RotateEncryptionKeysPhase.done
          (without_leader s))
  act_on_key_phase rotate join_server leader init phase = raise (unknown phase)

  abbrev elected : String → Error
  elected name =
      waiting ("elected " <> name <> " as control plane leader for encryption key rotation")

  -- A leader that is new is stored before anything else is done.
  unfoldable pub elect_or_act :
      RotateEncryptionKeys → String → PlanEntry → PlanEntry → Run (Round S) (Unit {0})
  unfolding act_on_key_phase
  elect_or_act rotate join_server init leader t =
      if str_eq t.status.rotate_encryption_keys_leader leader.machine.name
      then act_on_key_phase rotate join_server leader init cp.status.rotate_encryption_keys_phase t
      else (
        err (elected leader.machine.name),
        record t {
          status = record t.status { rotate_encryption_keys_leader = leader.machine.name };
        },
      )

  unfoldable pub start_or_go_on :
      RotateEncryptionKeys → String → PlanEntry → Result Bool → Run (Round S) (Unit {0})
  unfolding encryption_key_rotation_find_leader elect_or_act
  start_or_go_on rotate join_server init (err e) t = (err e, t)
  start_or_go_on rotate join_server init (ok true) t =
      next_key_phase rotate RotateEncryptionKeysPhase.prepare t
  start_or_go_on rotate join_server init (ok false) t =
      (lift (encryption_key_rotation_find_leader api t.status t.world.plan init)
          >>= elect_or_act rotate join_server init)
        t

  unfoldable pub with_init_node :
      RotateEncryptionKeys
      → Option Error
      → Bool
      → String
      → Option PlanEntry
      → Run (Round S) (Unit {0})
  unfolding should_restart_encryption_key_rotation start_or_go_on
  with_init_node rotate (some e) found join_server init t = (err e, t)
  with_init_node rotate none found join_server none t = (
    if not found || str_eq join_server "" then ok tt else err (panic "nil pointer dereference"),
    t,
  )
  with_init_node rotate none found join_server (some init) t =
      if not found || str_eq join_server ""
      then (ok tt, t)
      else start_or_go_on rotate join_server init
          (should_restart_encryption_key_rotation api cp rotate) t

  unfoldable pub rotate_when_supported :
      RotateEncryptionKeys → Result Bool → Run (Round S) (Unit {0})
  unfolding can_rotate_encryption_keys with_init_node
  rotate_when_supported rotate (err e) t = (err e, t)
  rotate_when_supported rotate (ok false) t =
      next_key_phase rotate RotateEncryptionKeysPhase.failed t
  rotate_when_supported rotate (ok true) t =
      if not (can_rotate_encryption_keys api cp rotate) || not t.status.initialized
      then (ok tt, t)
      else (let (f, w) = find_init_node api cp t.world in
          with_init_node rotate f.error f.found f.join_url f.entry (record t { world = w }))

  unfoldable pub rotate_for_spec :
      (String → Option ℕ) → Assoc String → Option RotateEncryptionKeys → Run (Round S) (Unit {0})
  unfolding reset_encryption_key_rotate_state encryption_key_rotation_supported
      rotate_when_supported
  rotate_for_spec major_version feature_versions none = on_status reset_encryption_key_rotate_state
  rotate_for_spec major_version feature_versions (some rotate) =
      rotate_when_supported rotate
        (encryption_key_rotation_supported major_version feature_versions)

  -- `feature_versions` are those of the release data, and none where there is no release data.
  unfoldable pub rotate_encryption_keys :
      (String → Option ℕ) → Option (Assoc String) → Run (Round S) (Unit {0})
  unfolding rotate_for_spec
  rotate_encryption_keys major_version none =
      raise (other "cannot pass nil parameters to rotateEncryptionKeys")
  rotate_encryption_keys major_version (some feature_versions) =
      rotate_for_spec major_version feature_versions cp.rotate_encryption_keys
