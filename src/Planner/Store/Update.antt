-- ===== src/Planner/Store/Update.antt =====
-- pkg/planner/store.go: writing a node's plan and metadata, over a target, the entry at hand and the
-- state of the API server.
use text.Mathlib.Text.{starts_with}
use cluster_api_provider_ran.Prelude.{
  String, Bool, false, not, ◌&&◌, ◌||◌, Option, none, some, [], ◌∷◌, Assoc, lookup, insert, delete,
  ℤ, pos, minus_one, ◌<ℤ◌, int_eq, itoa, str_eq, is_some, ◌<>◌, if◌then◌else◌,
}
use cluster_api_provider_ran.Errors.{other, Run, pure, lift, gets, modify, ◌>>=◌, ◌>>◌, refuse_if}
use cluster_api_provider_ran.Plan.{NodePlan, Metadata}
use cluster_api_provider_ran.Objects.{Machine, ConfigRef, KubeSecret, Api}
use cluster_api_provider_ran.Names
use cluster_api_provider_ran.Planner.Entry.{PlanEntry, annotation, annotate}
use cluster_api_provider_ran.Planner.Store.Decode.{node_of_secret}

-- The keys that CopyMap lets through, those of `labelAnnotationMatch`.
unfoldable pub label_annotation_match : String → Bool
label_annotation_match k =
    starts_with k "rke.cattle.io/"
    || starts_with k "cluster.x-k8s.io/"
    || starts_with k "machine.cluster.x-k8s.io/"

-- CopyMap: each matching pair of the source goes into the destination. The keys of a Go map are
-- distinct, so its iteration order does not show.
unfoldable pub copy_map : Assoc String → Assoc String → Assoc String
unfolding label_annotation_match
copy_map destination [] = destination
copy_map destination ((k, v) ∷ source) =
    let rest = copy_map destination source in
    if label_annotation_match k then insert k v rest else rest

unfoldable pub copy_plan_metadata_to_secret : Option Metadata → KubeSecret → KubeSecret
unfolding copy_map
copy_plan_metadata_to_secret none secret = secret
copy_plan_metadata_to_secret (some m) secret = record secret {
  labels = copy_map secret.labels m.labels;
  annotations = copy_map secret.annotations m.annotations;
}

unfoldable pub is_rke_bootstrap : Machine → Bool
is_rke_bootstrap machine = elim machine.config_ref [
  | none ↦ false
  | some ref ↦ str_eq ref.kind "RKEBootstrap"
]

abbrev ref_name : Option ConfigRef → String
ref_name none = ""
ref_name (some ref) = ref.name

-- The guards of UpdatePlan's stored numbers: positive, or -1 for no limit.
abbrev pub is_limit : ℤ → Bool
is_limit n = pos 0 <ℤ n || int_eq n minus_one

-- secret.Data[k] = n, or no entry where n is no limit
unfoldable pub put_limit : String → ℤ → Assoc String → Assoc String
put_limit k n contents = if is_limit n then insert k (itoa n) contents else delete k contents

-- What UpdatePlan leaves in the secret's data.
unfoldable pub plan_contents : String → ℤ → ℤ → Assoc String → Assoc String
unfolding put_limit
plan_contents data_ max_failures failure_threshold contents =
    put_limit "failure-threshold" failure_threshold (
      put_limit "max-failures" max_failures
        (insert "plan" data_ (delete "probe-statuses" contents)))

abbrev marked_init : PlanEntry → Bool
marked_init e = str_eq (annotation Names.init_node_label e) "true"

-- UpdatePlan's changes of the joined-to annotation. The init node's mark is a label; the code looks
-- for it among the annotations.
unfoldable pub set_joined_to : String → PlanEntry → PlanEntry
set_joined_to joined_to e =
    if str_eq joined_to ""
    then e
    else if str_eq joined_to "-" || marked_init e
    then annotate Names.joined_to_annotation "" e
    else annotate Names.joined_to_annotation joined_to e

unfoldable pub clear_joined_to_of_init : PlanEntry → PlanEntry
clear_joined_to_of_init e = if marked_init e then annotate Names.joined_to_annotation "" e else e

unfoldable pub plan_annotations : String → String → PlanEntry → PlanEntry
unfolding set_joined_to clear_joined_to_of_init
plan_annotations joined_to now e = annotate Names.plan_probes_passed_annotation "" (
    annotate Names.plan_updated_time_annotation now
      (clear_joined_to_of_init (set_joined_to joined_to e)))

-- The entry that an operation works on, with the API server's state.
pub record Target (S : Type 0) : Type 0 where
  pub entry : PlanEntry
  pub server : S

-- entry.Metadata.Labels = labels
abbrev pub with_labels : Assoc String → PlanEntry → PlanEntry
with_labels labels e = record e {
  metadata = elim e.metadata [ none ↦ none | some m ↦ some (record m { labels = labels }) ];
}

-- A call of a client, on the server's part of the target.
abbrev pub call : {S A : Type 0} → Run S A → Run (Target S) A
call m t = let (r, s) = m t.server in (r, record t { server = s })

abbrev pub on_entry : {S : Type 0} → (PlanEntry → PlanEntry) → Run (Target S) (Unit {0})
on_entry f = modify (λ t. record t { entry = f t.entry })

module _ {S : Type 0} (api : Api S) where
  unfoldable pub get_plan_secret_from_machine : Machine → Run S KubeSecret
  unfolding is_rke_bootstrap
  get_plan_secret_from_machine machine = do
    refuse_if (not (is_rke_bootstrap machine)) (
        other
          ("machine " <> machine.namespace <> "/" <> machine.name <> " is not using RKEBootstrap"))
    refuse_if (not (is_some machine.config_ref)) (
        other (
          "machine " <> machine.namespace <> "/" <> machine.name <> " bootstrap configref was nil"))
    refuse_if (str_eq (ref_name machine.config_ref) "") (
        other (
          "machine " <> machine.namespace <> "/" <> machine.name
          <> " bootstrap configref name was empty"))
    secret ←
        api.get_secret machine.namespace
          (api.safe_concat_name (ref_name machine.config_ref ∷ "machine" ∷ "plan" ∷ []))
    refuse_if (not (str_eq secret.secret_type Names.secret_type_machine_plan)) (
        other (
          "retrieved secret " <> secret.namespace <> "/" <> secret.name <> " type "
          <> secret.secret_type <> " did not match expected type "
          <> Names.secret_type_machine_plan))
    pure secret

  -- The end of each write: the secret is sent, and what the server answers becomes the entry's plan.
  unfoldable pub send : KubeSecret → Run (Target S) (Unit {0})
  unfolding node_of_secret
  send secret = do
    updated ← call (api.update_secret secret)
    node ← lift (node_of_secret api updated)
    on_entry (λ e. record e { plan = node })

  -- The entry's metadata is not nil, as the callers' filters have seen to: the code would panic there.
  unfoldable pub update_plan : NodePlan → String → ℤ → ℤ → Run (Target S) (Unit {0})
  unfolding get_plan_secret_from_machine plan_contents plan_annotations copy_plan_metadata_to_secret
      send
  update_plan new_plan joined_to max_failures failure_threshold = do
    refuse_if
        (max_failures <ℤ failure_threshold
          && not (int_eq failure_threshold minus_one)
          && not (int_eq max_failures minus_one))
        (other (
          "failureThreshold ("
          <> itoa failure_threshold
          <> ") cannot be greater than maxFailures ("
          <> itoa max_failures
          <> ")"))
    e ← gets (λ t. t.entry)
    secret ← call (get_plan_secret_from_machine e.machine)
    data_ ← lift (api.marshal_plan new_plan)
    now ← gets (λ t. api.now t.server)
    on_entry (plan_annotations joined_to now)
    e' ← gets (λ t. t.entry)
    let labelled = copy_plan_metadata_to_secret e'.metadata secret
    send (record labelled {
      contents = plan_contents data_ max_failures failure_threshold labelled.contents;
    })

  unfoldable pub update_plan_secret_labels_and_annotations : Run (Target S) (Unit {0})
  unfolding get_plan_secret_from_machine copy_plan_metadata_to_secret send
  update_plan_secret_labels_and_annotations = do
    e ← gets (λ t. t.entry)
    secret ← call (get_plan_secret_from_machine e.machine)
    send (copy_plan_metadata_to_secret e.metadata secret)

  unfoldable pub remove_plan_secret_label : String → Run (Target S) (Unit {0})
  unfolding get_plan_secret_from_machine send
  remove_plan_secret_label key = do
    e ← gets (λ t. t.entry)
    secret ← call (get_plan_secret_from_machine e.machine)
    if not (is_some (lookup key secret.labels)) then pure tt else do
      send (record secret { labels = delete key secret.labels })
      on_entry (with_labels (delete key secret.labels))
