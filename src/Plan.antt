-- ===== src/Plan.antt =====
-- pkg/apis/rke.cattle.io/v1/plan: the plans that the planner delivers to nodes and what comes back.
pub mod Equal
use cluster_api_provider_ran.Prelude.{ℕ, String, Bool, Option, List, Assoc, ℤ}

-- probe.go
pub record HttpGetAction : Type 0 where
  pub url : String
  pub insecure : Bool
  pub client_cert : String
  pub client_key : String
  pub ca_cert : String

pub record Probe : Type 0 where
  pub name : String
  pub initial_delay_seconds : ℕ
  pub timeout_seconds : ℕ
  pub success_threshold : ℕ
  pub failure_threshold : ℕ
  pub http_get_action : HttpGetAction

-- plan.go
pub record ProbeStatus : Type 0 where
  pub healthy : Bool
  pub success_count : ℕ
  pub failure_count : ℕ

pub record PeriodicInstructionOutput : Type 0 where
  pub name : String
  pub stdout : String
  pub stderr : String
  pub exit_code : ℤ
  pub last_successful_run_time : String

pub record OneTimeInstruction : Type 0 where
  pub name : String
  pub image : String
  pub env : List String
  pub args : List String
  pub command : String
  pub save_output : Bool

pub record PeriodicInstruction : Type 0 where
  pub name : String
  pub image : String
  pub env : List String
  pub args : List String
  pub command : String
  pub period_seconds : ℕ

pub record File : Type 0 where
  pub content : String
  pub path : String
  pub permissions : String
  pub dynamic : Bool
  pub minor : Bool

pub record NodePlan : Type 0 where
  pub files : List File
  pub instructions : List OneTimeInstruction
  pub periodic_instructions : List PeriodicInstruction
  pub error : String
  pub probes : Assoc Probe

pub record Metadata : Type 0 where
  pub labels : Assoc String
  pub annotations : Assoc String

-- `node_plan` is Node.Plan, the plan that was delivered; `applied_plan` is nil before the first report.
pub record Node : Type 0 where
  pub node_plan : NodePlan
  pub applied_plan : Option NodePlan
  pub joined_to : String
  pub output : Assoc String
  pub periodic_output : Assoc PeriodicInstructionOutput
  pub failed : Bool
  pub in_sync : Bool
  pub healthy : Bool
  pub plan_data_exists : Bool
  pub probe_status : Assoc ProbeStatus
  pub probes_usable : Bool

-- The tokens of the cluster's state secret.
pub record Secret : Type 0 where
  pub server_token : String
  pub agent_token : String
