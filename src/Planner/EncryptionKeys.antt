-- ===== src/Planner/EncryptionKeys.antt =====
-- pkg/planner/encryptionkeyrotation.go: the rotation of a cluster's encryption keys.
pub mod State
pub mod Scripts
pub mod Plans
pub mod Stage
pub mod Restart
pub mod Phases
pub mod Kept
pub mod Steps
pub mod Refined
pub mod Restarted
pub mod Applied
