-- ===== src/Tests/Base.antt =====
-- An API server that keeps the plan secrets in a map, and the plans, machines and clusters of the tests.
use cluster_api_provider_ran.Prelude.{
  String, true, false, ◌&&◌, Option, none, some, [], ◌∷◌, Assoc, lookup, insert, any, pos, str_eq,
  ◌<>◌, if◌then◌else◌, join,
}
use cluster_api_provider_ran.Errors.{not_found, other, Result, ok, err}
use cluster_api_provider_ran.Plan.{File, OneTimeInstruction, NodePlan, Metadata, Node}
use cluster_api_provider_ran.Objects.{Condition, Machine, KubeSecret, DrainOptions, Api}
use cluster_api_provider_ran.ControlPlane.{
  EtcdSnapshotPhase, RotateEncryptionKeysPhase, Status, ControlPlane,
}
use cluster_api_provider_ran.Names
use cluster_api_provider_ran.Planner.Entry.{Plan, PlanEntry}

abbrev pub Secrets : Type 0
Secrets = Assoc KubeSecret

abbrev pub config : String → File
config content = record {
  content = content;
  path = "/etc/rancher/rke2/config.yaml";
  permissions = "";
  dynamic = false;
  minor = true;
}

abbrev pub install : OneTimeInstruction
install = record {
  name = "install";
  image = "rancher/system-agent-installer-rke2:v1.27.3-rke2r1";
  env = "RESTART_STAMP=abc" ∷ [];
  args = [];
  command = "sh";
  save_output = false;
}

abbrev pub plan_with : String → NodePlan
plan_with content = record {
  files = config content ∷ [];
  instructions = install ∷ [];
  periodic_instructions = [];
  error = "";
  probes = [];
}

abbrev pub plan_a : NodePlan
plan_a = plan_with "debug: false"

abbrev pub plan_b : NodePlan
plan_b = plan_with "debug: true"

-- A plan that restarts the node.
abbrev pub plan_c : NodePlan
plan_c = record plan_a { instructions = record install { env = "RESTART_STAMP=def" ∷ [] } ∷ [] }

abbrev pub no_plan : NodePlan
no_plan = record {
  files = [];
  instructions = [];
  periodic_instructions = [];
  error = "";
  probes = [];
}

abbrev pub true_condition : String → Condition
true_condition k = record { condition_type = k; status = "True"; reason = ""; message = "" }

abbrev find_secret : Option KubeSecret → Result KubeSecret
find_secret none = err (not_found "secret not found")
find_secret (some s) = ok s

-- The texts of the two plans stand for their JSON.
abbrev pub api : Api Secrets
api = record {
  get_secret = λ namespace name s. (find_secret (lookup name s), s);
  update_secret = λ secret s. (ok secret, insert secret.name secret s);
  update_machine_status = λ machine s. (ok machine, s);
  now = λ s. "2024-05-01T00:00:00Z";
  marshal_plan = λ p. ok "{debug: false}";
  unmarshal_plan = λ s.
      if str_eq s "{debug: false}"
      then ok plan_a
      else if str_eq s "{debug: true}"
      then ok plan_b
      else err (other "invalid character");
  unmarshal_probe_statuses = λ s. ok [];
  unzip_output = λ s. ok [];
  unzip_periodic_output = λ s. ok [];
  safe_concat_name = λ names. join "-" names;
  sha256_hex = λ s. "hash of " <> s;
  encode_base64 = λ s. s;
  encode_drain_options = λ o. ok (if o.enabled then "{enabled: true}" else "{enabled: false}");
  kv_split = λ s separator.
      if str_eq s "RESTART_STAMP=abc"
      then ("RESTART_STAMP", "abc")
      else if str_eq s "RESTART_STAMP=def"
      then ("RESTART_STAMP", "def")
      else (s, "");
  crc32 = λ s. 0;
  percent_of = λ count s. none;
  semver = λ s. none;
  is_true = λ k cs. any (λ c. str_eq c.condition_type k && str_eq c.status "True") cs;
  get_message = λ k cs. "";
  set_condition =
      λ k status cs. record { condition_type = k; status = status; reason = ""; message = "" } ∷ cs;
  mark_true = λ k machine. record machine { conditions = true_condition k ∷ machine.conditions };
  mark_unknown = λ k reason message machine. machine;
  summarize = λ machine. record { has_error = false; transitioning = false; messages = [] };
}

abbrev pub machine : String → Machine
machine name = record {
  namespace = "fleet-default";
  name = name;
  uid = "uid-" <> name;
  labels = (Names.machine_id_label, "id-" <> name) ∷ [];
  annotations = [];
  deletion_timestamp = none;
  config_ref = some (record {
    api_version = "rke.cattle.io/v1";
    kind = "RKEBootstrap";
    namespace = "fleet-default";
    name = name;
  });
  phase = "Running";
  conditions = true_condition Names.infrastructure_ready ∷ true_condition Names.reconciled ∷ [];
  node_ref = some name;
  node_info = none;
}

-- A node that has applied its plan and is healthy.
abbrev pub node_with : NodePlan → Node
node_with p = record {
  node_plan = p;
  applied_plan = some p;
  joined_to = "";
  output = [];
  periodic_output = [];
  failed = false;
  in_sync = true;
  healthy = true;
  plan_data_exists = true;
  probe_status = [];
  probes_usable = true;
}

abbrev pub server_url : String
server_url = "https://10.0.0.1:9345"

abbrev pub server_metadata : Metadata
server_metadata = record {
  labels =
      (Names.etcd_role_label, "true")
      ∷ (Names.control_plane_role_label, "true")
      ∷ (Names.init_node_label, "true")
      ∷ [];
  annotations = (Names.join_url_annotation, server_url) ∷ [];
}

abbrev pub worker_metadata : Metadata
worker_metadata = record { labels = (Names.worker_role_label, "true") ∷ []; annotations = [] }

-- A server, which is the init node, and a worker; the plan of the worker is given.
abbrev pub cluster : Option Node → Plan
cluster worker_node = record {
  nodes =
      ("server", node_with plan_a) ∷ (elim worker_node [ none ↦ [] | some n ↦ ("worker", n) ∷ [] ]);
  machines = ("worker", machine "worker") ∷ ("server", machine "server") ∷ [];
  metadata = ("server", server_metadata) ∷ ("worker", worker_metadata) ∷ [];
}

abbrev pub worker_entry : Option Node → PlanEntry
worker_entry n = record { machine = machine "worker"; plan = n; metadata = some worker_metadata }

abbrev pub server_entry : PlanEntry
server_entry = record {
  machine = machine "server";
  plan = some (node_with plan_a);
  metadata = some server_metadata;
}

abbrev pub drain_options : DrainOptions
drain_options = record {
  enabled = true;
  force = false;
  ignore_daemon_sets = none;
  ignore_errors = false;
  delete_empty_dir_data = false;
  disable_eviction = false;
  grace_period = pos 0;
  timeout = pos 0;
  skip_wait_for_delete_timeout_seconds = pos 0;
  pre_drain_hooks = [];
  post_drain_hooks = [];
}

abbrev pub status : Status
status = record {
  conditions = [];
  ready = true;
  initialized = true;
  agent_connected = true;
  certificate_rotation_generation = pos 0;
  etcd_snapshot_create = none;
  etcd_snapshot_create_phase = EtcdSnapshotPhase.unset;
  etcd_snapshot_restore = none;
  etcd_snapshot_restore_phase = EtcdSnapshotPhase.unset;
  config_generation = pos 0;
  rotate_encryption_keys = none;
  rotate_encryption_keys_phase = RotateEncryptionKeysPhase.unset;
  rotate_encryption_keys_leader = "";
}

abbrev pub control_plane : ControlPlane
control_plane = record {
  namespace = "fleet-default";
  name = "test";
  uid = "uid";
  labels = [];
  annotations = [];
  controller_ref =
      some (record { api_version = "cluster.x-k8s.io/v1beta1"; kind = "Cluster"; name = "test" });
  cluster_name = "test";
  kubernetes_version = "v1.27.3+rke2r1";
  unmanaged_config = false;
  data_directories = record { system_agent = ""; provisioning = ""; k8s_distro = "" };
  machine_global_config = [];
  networking = none;
  upgrade_strategy = record {
    control_plane_concurrency = "1";
    control_plane_drain_options = drain_options;
    worker_concurrency = "1";
    worker_drain_options = drain_options;
  };
  agent_env_vars = [];
  additional_manifest = "";
  provision_generation = pos 0;
  etcd_s3 = none;
  etcd_snapshot_create = none;
  etcd_snapshot_restore = none;
  rotate_encryption_keys = none;
  rotate_certificates = none;
  status = status;
}

abbrev pub worker_secret : KubeSecret
worker_secret = record {
  namespace = "fleet-default";
  name = "worker-machine-plan";
  secret_type = Names.secret_type_machine_plan;
  deletion_timestamp = none;
  labels = worker_metadata.labels;
  annotations = [];
  contents =
      ("plan", "{debug: true}") ∷ ("appliedPlan", "{debug: true}") ∷ ("failure-count", "2") ∷ [];
}

abbrev pub secrets : Secrets
secrets = ("worker-machine-plan", worker_secret) ∷ []
