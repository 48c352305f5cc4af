-- ===== src/Planner/EncryptionKeys/State.antt =====
-- pkg/planner/encryptionkeyrotation.go: the phase of a rotation in the status, and when one is due.
use cluster_api_provider_ran.Prelude.{
  ℕ, ◌==◌, String, Bool, true, false, not, ◌&&◌, ◌||◌, Option, none, some, [], ◌∷◌, Assoc, lookup,
  pos, int_eq, ◌<ℤ◌, is_some, str_eq, member, ◌<>◌, if◌then◌else◌,
}
use cluster_api_provider_ran.Errors.{Error, waiting, other, panic, wrap, Result, ok, err, Run}
use cluster_api_provider_ran.Objects.{Api}
use cluster_api_provider_ran.ControlPlane.{
  RotateEncryptionKeysPhase, RotateEncryptionKeys, Status, ControlPlane,
}

-- The texts of the phases, by which the code compares and prints them.
unfoldable pub key_phase_text : RotateEncryptionKeysPhase → String
key_phase_text RotateEncryptionKeysPhase.unset = ""
key_phase_text RotateEncryptionKeysPhase.prepare = "Prepare"
key_phase_text RotateEncryptionKeysPhase.post_prepare_restart = "PostPrepareRestart"
key_phase_text RotateEncryptionKeysPhase.rotate = "Rotate"
key_phase_text RotateEncryptionKeysPhase.post_rotate_restart = "PostRotateRestart"
key_phase_text RotateEncryptionKeysPhase.reencrypt = "Reencrypt"
key_phase_text RotateEncryptionKeysPhase.post_reencrypt_restart = "PostReencryptRestart"
key_phase_text RotateEncryptionKeysPhase.done = "Done"
key_phase_text RotateEncryptionKeysPhase.failed = "Failed"

unfoldable pub same_rotate : Option RotateEncryptionKeys → Option RotateEncryptionKeys → Bool
same_rotate none none = true
same_rotate none (some d) = false
same_rotate (some c) none = false
same_rotate (some c) (some d) = int_eq c.generation d.generation

abbrev pub set_rotate : Option RotateEncryptionKeys → RotateEncryptionKeysPhase → Status → Status
set_rotate rotate phase s = record s {
  rotate_encryption_keys = rotate;
  rotate_encryption_keys_phase = phase;
}

unfoldable pub set_encryption_key_rotate_state :
    Option RotateEncryptionKeys → RotateEncryptionKeysPhase → Run Status (Unit {0})
unfolding key_phase_text same_rotate
set_encryption_key_rotate_state rotate phase s =
    if same_rotate s.rotate_encryption_keys rotate
      && str_eq (key_phase_text s.rotate_encryption_keys_phase) (key_phase_text phase)
    then (ok tt, s)
    else (err (waiting "refreshing encryption key rotation state"), set_rotate rotate phase s)

unfoldable pub reset_encryption_key_rotate_state : Run Status (Unit {0})
unfolding set_encryption_key_rotate_state
reset_encryption_key_rotate_state s =
    if same_rotate s.rotate_encryption_keys none
      && str_eq (key_phase_text s.rotate_encryption_keys_phase) ""
    then (ok tt, s)
    else set_encryption_key_rotate_state none RotateEncryptionKeysPhase.unset s

-- The rotation fails for good: only another generation starts it again.
unfoldable pub encryption_key_rotation_failed : {A : Type 0} → Error → Run Status A
encryption_key_rotation_failed e s = (
  err (wrap "encryption key rotation failed, please perform an etcd restore: " e),
  record s { rotate_encryption_keys_phase = RotateEncryptionKeysPhase.failed },
)

unfoldable pub rotate_encryption_key_in_progress : RotateEncryptionKeysPhase → Bool
unfolding key_phase_text
rotate_encryption_key_in_progress phase = member (key_phase_text phase) (
    "Prepare" ∷ "PostPrepareRestart" ∷ "Rotate" ∷ "PostRotateRestart" ∷ "Reencrypt"
    ∷ "PostReencryptRestart" ∷ [])

unfoldable pub is_in_phase : RotateEncryptionKeysPhase → RotateEncryptionKeysPhase → Bool
unfolding key_phase_text
is_in_phase phase p = str_eq (key_phase_text phase) (key_phase_text p)

abbrev is_over : RotateEncryptionKeysPhase → Bool
is_over phase =
    is_in_phase phase RotateEncryptionKeysPhase.done
    || is_in_phase phase RotateEncryptionKeysPhase.failed

-- The generations are the same, where both are there.
unfoldable pub has_generation : Option RotateEncryptionKeys → RotateEncryptionKeys → Bool
has_generation none rotate = false
has_generation (some stored) rotate = int_eq stored.generation rotate.generation

-- The major version of the feature in the release data, by which rotation is supported
unfoldable pub supported_by : Option (Option ℕ) → String → Result Bool
supported_by none text = ok false
supported_by (some none) text =
    err (other ("unable to parse semver version for encryption key rotation: " <> text))
supported_by (some (some major)) text = ok (major == 2)

-- `major_version` is blang's semver.Make with the major part of its result.
unfoldable pub encryption_key_rotation_supported : (String → Option ℕ) → Assoc String → Result Bool
unfolding supported_by
encryption_key_rotation_supported major_version feature_versions =
    elim (lookup "encryption-key-rotation" feature_versions) [
      | none ↦ supported_by none ""
      | some version ↦ supported_by (some (major_version version)) version
    ]

module _ {S : Type 0} (api : Api S) (cp : ControlPlane) (rotate : RotateEncryptionKeys) where
  abbrev is_ready : Bool
  is_ready = api.is_true "Ready" cp.status.conditions

  unfoldable pub can_rotate_encryption_keys : Bool
  unfolding rotate_encryption_key_in_progress has_generation is_in_phase
  can_rotate_encryption_keys =
      let phase = cp.status.rotate_encryption_keys_phase in
      (is_ready || rotate_encryption_key_in_progress phase)
      && not (has_generation cp.status.rotate_encryption_keys rotate && is_over phase)

  unfoldable pub has_valid_non_failed_rotate_encryption_key_status : Bool
  unfolding rotate_encryption_key_in_progress is_in_phase
  has_valid_non_failed_rotate_encryption_key_status =
      let phase = cp.status.rotate_encryption_keys_phase in
      rotate_encryption_key_in_progress phase || is_in_phase phase RotateEncryptionKeysPhase.done

  -- The second condition: it reads the stored generation where no rotation is in progress.
  unfoldable pub other_generation : Option RotateEncryptionKeys → Result Bool
  other_generation none = err (panic "nil pointer dereference")
  other_generation (some stored) = ok (not (int_eq rotate.generation stored.generation))

  unfoldable pub restart_unless : Result Bool → Result Bool
  unfolding has_valid_non_failed_rotate_encryption_key_status
  restart_unless (err e) = err e
  restart_unless (ok true) = ok true
  restart_unless (ok false) = ok (not has_valid_non_failed_rotate_encryption_key_status)

  unfoldable pub should_restart_encryption_key_rotation : Result Bool
  unfolding other_generation restart_unless
  should_restart_encryption_key_rotation =
      let phase = cp.status.rotate_encryption_keys_phase in
      if not is_ready
      then ok false
      else if (pos 0 <ℤ rotate.generation) && not (is_some cp.status.rotate_encryption_keys)
      then ok true
      else if is_over phase || is_in_phase phase RotateEncryptionKeysPhase.unset
      then restart_unless (other_generation cp.status.rotate_encryption_keys)
      else restart_unless (ok false)
