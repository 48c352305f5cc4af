-- ===== src/Planner/EncryptionKeys/Refined.antt =====
-- pkg/planner/encryptionkeyrotation.go: a pass refines the abstract machine of the phases.
use mathlib.Core.Path.{subst}
use cluster_api_provider_ran.Prelude.{
  ℕ, String, ◌≡◌, refl, sym, inl, inr, Bool, true, false, not, ◌||◌, Option, none, some, Assoc,
  str_eq, Bool-cases,
}
use cluster_api_provider_ran.Errors.{Error, Result, ok, err, Run, lift, ◌>>=◌}
use cluster_api_provider_ran.Objects.{Value, Api}
use cluster_api_provider_ran.ControlPlane.{
  RotateEncryptionKeysPhase, RotateEncryptionKeys, ControlPlane,
}
use cluster_api_provider_ran.Planner.Entry.{PlanEntry}
use cluster_api_provider_ran.Planner.CapiCluster.{ClusterApi}
use cluster_api_provider_ran.Planner.Desired.{ConfigPlan}
use cluster_api_provider_ran.Planner.FullReconcile.{Round}
use cluster_api_provider_ran.Planner.InitNode.{find_init_node}
use cluster_api_provider_ran.Planner.EncryptionKeys.State.{
  encryption_key_rotation_supported, can_rotate_encryption_keys,
  should_restart_encryption_key_rotation,
}
use cluster_api_provider_ran.Planner.EncryptionKeys.Restart.{encryption_key_rotation_find_leader}
use cluster_api_provider_ran.Planner.EncryptionKeys.Phases.{
  act_on_key_phase, elect_or_act, start_or_go_on, with_init_node, rotate_when_supported,
  rotate_for_spec, rotate_encryption_keys,
}
use cluster_api_provider_ran.Planner.EncryptionKeys.Kept.{key_phase}
use cluster_api_provider_ran.Planner.EncryptionKeys.Steps.{
  KeyStep, StepsFrom, set_state-StepsFrom, reset-StepsFrom, act-StepsFrom,
}

module _ {S : Type 0} (api : Api S) (clusters : ClusterApi S) (to_string : Value → String)
    (cp : ControlPlane) (config_plan : ConfigPlan) where
  -- The pass starts in the phase of the stored control plane.
  abbrev InStep : Round S → Type 0
  InStep t = cp.status.rotate_encryption_keys_phase ≡ key_phase t.status

  abbrev Steps : Run (Round S) (Unit {0}) → Type 0
  Steps m = (t : Round S) → InStep t → StepsFrom (key_phase t.status) (m t).1.status

  elect_or_act-StepsFrom :
      (rotate : RotateEncryptionKeys) (join_server : String) (init leader : PlanEntry)
      → Steps (elect_or_act api clusters to_string cp config_plan rotate join_server init leader)
  unfolding elect_or_act
  elect_or_act-StepsFrom rotate join_server init leader t h =
      elim (Bool-cases (str_eq t.status.rotate_encryption_keys_leader leader.machine.name)) [
        | inl same ↦ rw same (
            subst
              (λ p.
                StepsFrom p
                  (act_on_key_phase api clusters to_string cp config_plan rotate join_server leader
                    init cp.status.rotate_encryption_keys_phase t).1.status)
              h
              (act-StepsFrom api clusters to_string cp config_plan rotate join_server leader init
                cp.status.rotate_encryption_keys_phase t (inl (sym h))))
        | inr new ↦ rw new (KeyStep.stays (key_phase t.status))
      ]

  led :
      (rotate : RotateEncryptionKeys) (join_server : String) (init : PlanEntry)
      (r : Result PlanEntry)
      → Steps
          (lift r >>= elect_or_act api clusters to_string cp config_plan rotate join_server init)
  led rotate join_server init (err e) t h = KeyStep.stays (key_phase t.status)
  led rotate join_server init (ok leader) t h =
      elect_or_act-StepsFrom rotate join_server init leader t h

  start_or_go_on-StepsFrom :
      (rotate : RotateEncryptionKeys) (join_server : String) (init : PlanEntry) (r : Result Bool)
      → Steps (start_or_go_on api clusters to_string cp config_plan rotate join_server init r)
  unfolding start_or_go_on
  start_or_go_on-StepsFrom rotate join_server init (err e) t h = KeyStep.stays (key_phase t.status)
  start_or_go_on-StepsFrom rotate join_server init (ok true) t h =
      set_state-StepsFrom (some rotate) (key_phase t.status) RotateEncryptionKeysPhase.prepare
        t.status (KeyStep.starts (key_phase t.status)) (inl refl)
  start_or_go_on-StepsFrom rotate join_server init (ok false) t h =
      led rotate join_server init
        (encryption_key_rotation_find_leader api t.status t.world.plan init) t h

  with_init_node-StepsFrom :
      (rotate : RotateEncryptionKeys) (error : Option Error) (found : Bool) (join_server : String)
      (init : Option PlanEntry)
      → Steps
          (with_init_node api clusters to_string cp config_plan rotate error found join_server init)
  unfolding with_init_node
  with_init_node-StepsFrom rotate (some e) found join_server init t h =
      KeyStep.stays (key_phase t.status)
  with_init_node-StepsFrom rotate none found join_server none t h =
      KeyStep.stays (key_phase t.status)
  with_init_node-StepsFrom rotate none found join_server (some init) t h =
      elim (Bool-cases (not found || str_eq join_server "")) [
        | inl skipped ↦ rw skipped (KeyStep.stays (key_phase t.status))
        | inr goes ↦ rw goes (
            start_or_go_on-StepsFrom rotate join_server init
              (should_restart_encryption_key_rotation api cp rotate) t h)
      ]

  rotate_when_supported-StepsFrom :
      (rotate : RotateEncryptionKeys) (supported : Result Bool)
      → Steps (rotate_when_supported api clusters to_string cp config_plan rotate supported)
  unfolding rotate_when_supported
  rotate_when_supported-StepsFrom rotate (err e) t h = KeyStep.stays (key_phase t.status)
  rotate_when_supported-StepsFrom rotate (ok false) t h =
      set_state-StepsFrom (some rotate) (key_phase t.status) RotateEncryptionKeysPhase.failed
        t.status (KeyStep.fails (key_phase t.status)) (inl refl)
  rotate_when_supported-StepsFrom rotate (ok true) t h =
      elim (Bool-cases
        (not (can_rotate_encryption_keys api cp rotate) || not t.status.initialized)) [
          | inl idle ↦ rw idle (KeyStep.stays (key_phase t.status))
          | inr goes ↦ rw goes (
              let (f, w) = find_init_node api cp t.world in
              with_init_node-StepsFrom rotate f.error f.found f.join_url f.entry
                (record t { world = w }) h)
        ]

  rotate_for_spec-StepsFrom :
      (major_version : String → Option ℕ) (feature_versions : Assoc String)
      (spec : Option RotateEncryptionKeys)
      → Steps (
          rotate_for_spec api clusters to_string cp config_plan major_version feature_versions spec)
  unfolding rotate_for_spec
  rotate_for_spec-StepsFrom major_version feature_versions none t h =
      reset-StepsFrom (key_phase t.status) t.status (inl refl)
  rotate_for_spec-StepsFrom major_version feature_versions (some rotate) t h =
      rotate_when_supported-StepsFrom rotate
        (encryption_key_rotation_supported major_version feature_versions) t h

  -- One pass of rotateEncryptionKeys refines the abstract machine of the phases: on every path, errors
  -- included, the phase stays, fails, starts (again), is reset, or goes on by the one step that it has.
  -- It holds for a status that has the phase of the stored control plane.
  pub rotate_encryption_keys_step :
      (major_version : String → Option ℕ) (feature_versions : Option (Assoc String)) (t : Round S)
      → cp.status.rotate_encryption_keys_phase ≡ key_phase t.status
      → KeyStep (key_phase t.status) (
          key_phase
            (rotate_encryption_keys api clusters to_string cp config_plan major_version
              feature_versions t).1.status)
  unfolding rotate_encryption_keys
  rotate_encryption_keys_step major_version none t h = KeyStep.stays (key_phase t.status)
  rotate_encryption_keys_step major_version (some feature_versions) t h =
      rotate_for_spec-StepsFrom major_version feature_versions cp.rotate_encryption_keys t h
