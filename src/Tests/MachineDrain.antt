-- ===== src/Tests/MachineDrain.antt =====
-- machinedrain.go on a server that stores one plan secret, whose node can be cordoned and drained.
use cluster_api_provider_ran.Prelude.{
  String, ◌≡◌, refl, inl, Bool, true, false, none, some, [], ◌∷◌, insert, get, lookup, delete,
}
use cluster_api_provider_ran.Errors.{ok}
use cluster_api_provider_ran.Objects.{Machine, KubeSecret, Api}
use cluster_api_provider_ran.Names
use cluster_api_provider_ran.Planner.Entry.{PlanEntry, annotation}
use cluster_api_provider_ran.Planner.Store.Update.{Target}
use cluster_api_provider_ran.Planner.Drain.{drain_with, undrain}
use cluster_api_provider_ran.Controllers.MachineDrain.{
  NodeApi, on_change, on_machine, cordon_with, cordon, perform_drain, check_hook_annotations,
  has_node,
}
use cluster_api_provider_ran.Controllers.MachineDrain.Stored.{SecretStore}
use cluster_api_provider_ran.Controllers.MachineDrain.Safety.{DoneFor, cached, done_needs_drain}
use cluster_api_provider_ran.Controllers.MachineDrain.Made.{Reliable}
use cluster_api_provider_ran.Controllers.MachineDrain.Progress.{drain_completes, release_completes}
use cluster_api_provider_ran.Tests.Base

abbrev one_secret : Api KubeSecret
one_secret = record {
  get_secret = λ namespace name s. (ok s, s);
  update_secret = λ secret s. (ok secret, secret);
  update_machine_status = λ machine s. (ok machine, s);
  now = λ s. "2024-05-01T00:00:00Z";
  marshal_plan = Base.api.marshal_plan;
  unmarshal_plan = Base.api.unmarshal_plan;
  unmarshal_probe_statuses = Base.api.unmarshal_probe_statuses;
  unzip_output = Base.api.unzip_output;
  unzip_periodic_output = Base.api.unzip_periodic_output;
  safe_concat_name = Base.api.safe_concat_name;
  sha256_hex = Base.api.sha256_hex;
  encode_base64 = Base.api.encode_base64;
  encode_drain_options = Base.api.encode_drain_options;
  kv_split = Base.api.kv_split;
  crc32 = Base.api.crc32;
  percent_of = Base.api.percent_of;
  semver = Base.api.semver;
  is_true = Base.api.is_true;
  get_message = Base.api.get_message;
  set_condition = Base.api.set_condition;
  mark_true = Base.api.mark_true;
  mark_unknown = Base.api.mark_unknown;
  summarize = Base.api.summarize;
}

-- The client is a text; the options of the test cluster stand for their JSON.
abbrev nodes : NodeApi KubeSecret String
nodes = record {
  cached_machine = λ namespace name s. (ok (Base.machine name), s);
  cached_secret = λ namespace name s. (ok s, s);
  machine_cluster_name = λ machine. "test";
  rest_client = λ value. ok "client";
  get_node = λ client name s. (ok name, s);
  run_cordon_or_uncordon = λ helper node desired s. (ok tt, s);
  run_node_drain = λ helper node s. (ok tt, s);
  unmarshal_drain_options = λ d. ok Base.drain_options;
  is_conflict = λ e. false;
}

ok_same : (s x : KubeSecret) → ok s ≡ ok x → x ≡ s
ok_same s x h = cc

abbrev store : SecretStore one_secret nodes
store = record {
  stored = λ s. s;
  get_stored = λ namespace name s x h. ok_same s x h;
  get_keeps = λ namespace name s. refl;
  update_sets = λ x s. inl refl;
  machine_keeps = λ namespace name s. refl;
  secret_keeps = λ namespace name s. refl;
  node_keeps = λ k name s. refl;
  cordon_keeps = λ helper node desired s. refl;
  drain_keeps = λ helper node s. refl;
}

-- A secret that asks for its node to be drained, and one whose node is to be released.
abbrev asking : KubeSecret
asking = record Base.worker_secret {
  labels = (Names.machine_name_label, "worker") ∷ [];
  annotations = (Names.drain_annotation, "{enabled: true}") ∷ [];
}

abbrev releasing : KubeSecret
releasing = record asking {
  annotations =
      (Names.drain_annotation, "{enabled: true}")
      ∷ (Names.drain_done_annotation, "{enabled: true}")
      ∷ (Names.uncordon_annotation, "{enabled: true}")
      ∷ [];
}

abbrev wanted : String
wanted = "{enabled: true}"

done_needs_drain_example :
    (machine : Machine) × ((cached one_secret nodes store asking asking).0 ≡ ok machine)
    × DoneFor one_secret nodes store wanted refl asking machine
        (cached one_secret nodes store asking asking).1
unfolding get lookup on_change check_hook_annotations insert
done_needs_drain_example = done_needs_drain one_secret nodes store asking asking refl refl refl refl

cordoned :
    (desired : Bool) (s : KubeSecret)
    → cordon_with one_secret nodes desired (Base.machine "worker") Base.drain_options s ≡ (ok tt, s)
unfolding cordon_with
cordoned desired s = refl

cordoned_if :
    (s : KubeSecret)
    → cordon one_secret nodes (Base.machine "worker") Base.drain_options s ≡ (ok tt, s)
unfolding cordon
cordoned_if s = refl

drained :
    (s : KubeSecret)
    → perform_drain one_secret nodes (Base.machine "worker") Base.drain_options s ≡ (ok tt, s)
unfolding perform_drain
drained s = refl

abbrev reliable : Reliable one_secret nodes (Base.machine "worker") Base.drain_options
reliable = record {
  stored = λ s. s;
  get_ok = λ namespace name s. (refl, refl);
  update_ok = λ x s. (refl, refl);
  cordon_ok = λ s. (s, cordoned_if s, refl);
  uncordon_ok = λ s. (s, cordoned false s, refl);
  drain_ok = λ s. (s, drained s, refl);
}

-- The planner's entry after the run of the controller
abbrev drained_entry : PlanEntry
drained_entry = record Base.server_entry {
  metadata = some (record {
    labels = [];
    annotations = (Names.drain_annotation, wanted) ∷ (Names.drain_done_annotation, wanted) ∷ [];
  });
}

abbrev released_entry : PlanEntry
released_entry = record Base.server_entry {
  metadata = some (record { labels = []; annotations = [] });
}

abbrev target : PlanEntry → Target Base.Secrets
target e = record { entry = e; server = Base.secrets }

drain_completes_example :
    drain_with Base.api wanted (target drained_entry) ≡ ((true, none), target drained_entry)
unfolding get lookup on_machine annotation check_hook_annotations insert
drain_completes_example =
    drain_completes one_secret nodes (Base.machine "worker") Base.drain_options reliable Base.api
      asking asking (target drained_entry) refl refl refl (inl refl) refl (λ k. refl)

release_completes_example :
    undrain Base.api (target released_entry) ≡ ((true, none), target released_entry)
unfolding get lookup has_node on_machine annotation check_hook_annotations delete
release_completes_example =
    release_completes one_secret nodes (Base.machine "worker") Base.drain_options reliable Base.api
      releasing releasing (target released_entry) refl refl refl refl refl (inl refl) (λ k. refl)
