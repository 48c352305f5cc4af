-- ===== src/Objects.antt =====
-- The Kubernetes and Cluster API objects that the planner reads, with the fields that it uses, and
-- the code outside the repository that it calls on them, as an interface.
use cluster_api_provider_ran.Prelude.{ℕ, String, Bool, Option, List, Assoc, ℤ}
use cluster_api_provider_ran.Errors.{Result, Run}
use cluster_api_provider_ran.Plan.{NodePlan, PeriodicInstructionOutput, ProbeStatus}

-- An element of a []interface{}, of which only the text that `%v` prints is read.
pub record Element : Type 0 where
  pub printed : String

-- Go's interface{} as a value of the configuration; `other` is of any type that has no case of its own.
pub data Value : Type 0 where
  nil : Value
  string : String → Value
  strings : List String → Value
  interfaces : List Element → Value
  other : Element → Value

pub record Condition : Type 0 where
  pub condition_type : String
  pub status : String
  pub reason : String
  pub message : String

pub record ConfigRef : Type 0 where
  pub api_version : String
  pub kind : String
  pub namespace : String
  pub name : String

-- A capi.Machine. `node_info` is the kubelet version of Status.NodeInfo.
pub record Machine : Type 0 where
  pub namespace : String
  pub name : String
  pub uid : String
  pub labels : Assoc String
  pub annotations : Assoc String
  pub deletion_timestamp : Option String
  pub config_ref : Option ConfigRef
  pub phase : String
  pub conditions : List Condition
  pub node_ref : Option String
  pub node_info : Option String

-- A corev1.Secret: a node's plan as the API server stores it. Bytes are texts.
pub record KubeSecret : Type 0 where
  pub namespace : String
  pub name : String
  pub secret_type : String
  pub deletion_timestamp : Option String
  pub labels : Assoc String
  pub annotations : Assoc String
  pub contents : Assoc String

-- wrangler's summary of an object's conditions
pub record Summary : Type 0 where
  pub has_error : Bool
  pub transitioning : Bool
  pub messages : List String

-- pkg/apis/rke.cattle.io/v1/cluster.go: how a node is drained before a change.
pub record DrainHook : Type 0 where
  pub hook_annotation : String

pub record DrainOptions : Type 0 where
  pub enabled : Bool
  pub force : Bool
  pub ignore_daemon_sets : Option Bool
  pub ignore_errors : Bool
  pub delete_empty_dir_data : Bool
  pub disable_eviction : Bool
  pub grace_period : ℤ
  pub timeout : ℤ
  pub skip_wait_for_delete_timeout_seconds : ℤ
  pub pre_drain_hooks : List DrainHook
  pub post_drain_hooks : List DrainHook

-- What the planner calls and the repository does not implement, over the state `S` of the API
-- server: the clients, the JSON, gzip, SHA-256 and CRC-32 codecs, the clock, semver, and the helpers on
-- conditions. `percent_of count s` is Go's float64 reading of `s` as a percentage of `count`, rounded
-- up, and `none` where `s` is no number.
pub record Api (S : Type 0) : Type 0 where
  pub get_secret : String → String → Run S KubeSecret
  pub update_secret : KubeSecret → Run S KubeSecret
  pub update_machine_status : Machine → Run S Machine
  pub now : S → String
  pub marshal_plan : NodePlan → Result String
  pub unmarshal_plan : String → Result NodePlan
  pub unmarshal_probe_statuses : String → Result (Assoc ProbeStatus)
  pub unzip_output : String → Result (Assoc String)
  pub unzip_periodic_output : String → Result (Assoc PeriodicInstructionOutput)
  pub safe_concat_name : List String → String
  pub sha256_hex : String → String
  pub encode_base64 : String → String
  pub encode_drain_options : DrainOptions → Result String
  pub kv_split : String → String → String × String
  pub crc32 : String → ℕ
  pub percent_of : ℕ → String → Option ℤ
  pub semver : String → Option (ℕ × ℕ × ℕ)
  pub is_true : String → List Condition → Bool
  pub get_message : String → List Condition → String
  pub set_condition : String → String → List Condition → List Condition
  pub mark_true : String → Machine → Machine
  pub mark_unknown : String → String → String → Machine → Machine
  pub summarize : Machine → Summary
