-- ===== src/Planner/EtcdRestore/State.antt =====
-- pkg/planner/etcdrestore.go: the restore and its phase in the status of the control plane.
use cluster_api_provider_ran.Prelude.{
  zero, suc, ◌+◌, ◌-◌, String, Bool, true, false, not, ◌&&◌, ◌||◌, Option, none, some, ℤ, pos,
  negsuc, int_eq, int64_limit, ltb, itoa, str_eq, ◌<>◌, if◌then◌else◌,
}
use cluster_api_provider_ran.Errors.{waiting, ok, err, Run}
use cluster_api_provider_ran.ControlPlane.{EtcdSnapshotPhase, EtcdSnapshotRestore, Status}
use cluster_api_provider_ran.Planner.EtcdCreate.{phase_text}

-- equality.Semantic.DeepEqual on the pointers
unfoldable pub same_restore : Option EtcdSnapshotRestore → Option EtcdSnapshotRestore → Bool
same_restore none none = true
same_restore none (some d) = false
same_restore (some c) none = false
same_restore (some c) (some d) =
    str_eq c.name d.name
    && int_eq c.generation d.generation
    && str_eq c.restore_rke_config d.restore_rke_config

-- fmt.Sprintf("%v", restore)
unfoldable pub printed_restore : Option EtcdSnapshotRestore → String
printed_restore none = "<nil>"
printed_restore (some r) =
    "&{" <> r.name <> " " <> itoa r.generation <> " " <> r.restore_rke_config <> "}"

abbrev pub set_restore : Option EtcdSnapshotRestore → EtcdSnapshotPhase → Status → Status
set_restore restore phase s = record s {
  etcd_snapshot_restore = restore;
  etcd_snapshot_restore_phase = phase;
}

unfoldable pub set_etcd_snapshot_restore_state :
    Option EtcdSnapshotRestore → EtcdSnapshotPhase → Run Status (Unit {0})
unfolding phase_text same_restore
set_etcd_snapshot_restore_state restore phase s =
    if not (same_restore s.etcd_snapshot_restore restore)
      || not (str_eq (phase_text s.etcd_snapshot_restore_phase) (phase_text phase))
    then (err (waiting "refreshing etcd restore state"), set_restore restore phase s)
    else (ok tt, s)

unfoldable pub reset_etcd_snapshot_restore_state : Run Status (Unit {0})
unfolding set_etcd_snapshot_restore_state
reset_etcd_snapshot_restore_state s =
    if same_restore s.etcd_snapshot_restore none
      && str_eq (phase_text s.etcd_snapshot_restore_phase) ""
    then (ok tt, s)
    else set_etcd_snapshot_restore_state none EtcdSnapshotPhase.unset s

unfoldable pub start_or_restart_etcd_snapshot_restore : EtcdSnapshotRestore → Run Status (Unit {0})
unfolding set_etcd_snapshot_restore_state
start_or_restart_etcd_snapshot_restore restore s =
    if same_restore s.etcd_snapshot_restore none
      || not (same_restore (some restore) s.etcd_snapshot_restore)
    then set_etcd_snapshot_restore_state (some restore) EtcdSnapshotPhase.started s
    else (ok tt, s)

-- `++` on an int64
unfoldable pub next_int64 : ℤ → ℤ
next_int64 (pos n) = if ltb (n + 1) int64_limit then pos (n + 1) else negsuc (int64_limit - 1)
next_int64 (negsuc zero) = pos 0
next_int64 (negsuc (suc n)) = negsuc n

unfoldable pub advance_config_generation : Status → Status
unfolding next_int64
advance_config_generation s = record s { config_generation = next_int64 s.config_generation }

-- The switch that shuts the cluster down in the status
unfoldable pub uninitialized : Status → Status
uninitialized s =
    if s.initialized || s.ready then record s { initialized = false; ready = false } else s
