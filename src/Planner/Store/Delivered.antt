-- ===== src/Planner/Store/Delivered.antt =====
-- pkg/planner/store.go: what an entry's plan is after `UpdatePlan`.
use cluster_api_provider_ran.Prelude.{
  String, ◌≡◌, refl, ap, ◌∙◌, Bool, true, false, not, ◌&&◌, Option, none, some, [], Assoc, insert,
  get, map_laws, ℤ, minus_one, ◌<ℤ◌, int_eq, str_eq, eq_refl, if◌then◌else◌,
}
use cluster_api_provider_ran.Errors.{ok}
use cluster_api_provider_ran.Plan.{NodePlan, Node, Metadata, PeriodicInstructionOutput}
use cluster_api_provider_ran.Objects.{KubeSecret, Api}
use cluster_api_provider_ran.Names
use cluster_api_provider_ran.Planner.Entry.{PlanEntry, annotate, with_annotation}
use cluster_api_provider_ran.Planner.Store.Decode.{
  plan_failed, decode_applied_plan, decode_output, decode_periodic_output, node_of_secret,
}
use cluster_api_provider_ran.Planner.Store.Update.{
  plan_contents, plan_annotations, set_joined_to, clear_joined_to_of_init,
  copy_plan_metadata_to_secret, label_annotation_match, Target, send, update_plan,
  get_plan_secret_from_machine,
}
use cluster_api_provider_ran.Planner.Store.Threshold.{get-put_limit}
use cluster_api_provider_ran.Planner.Store.Copying.{copy_map_lem}

plan_contents-keys :
    (data_ : String) (max_failures failure_threshold : ℤ) (contents : Assoc String)
    → let written = plan_contents data_ max_failures failure_threshold contents in
      (get "plan" written ≡ data_)
      × (get "probe-statuses" written ≡ "")
      × (get "appliedPlan" written ≡ get "appliedPlan" contents)
      × (get "applied-output" written ≡ get "applied-output" contents)
      × (get "applied-periodic-output" written ≡ get "applied-periodic-output" contents)
unfolding plan_contents
plan_contents-keys data_ max_failures failure_threshold contents = (
  simp (map_laws, get-put_limit),
  simp (map_laws, get-put_limit),
  simp (map_laws, get-put_limit),
  simp (map_laws, get-put_limit),
  simp (map_laws, get-put_limit),
)

abbrev HasMetadata : PlanEntry → Type 0
HasMetadata e = (m : Metadata) × (e.metadata ≡ some m)

annotate-HasMetadata : (k v : String) (e : PlanEntry) → HasMetadata e → HasMetadata (annotate k v e)
unfolding annotate
annotate-HasMetadata k v e (m, h) = (with_annotation k v m, simp h)

if-HasMetadata :
    (b : Bool) (d e : PlanEntry) → HasMetadata d → HasMetadata e → HasMetadata (if b then d else e)
if-HasMetadata true d e hd he = hd
if-HasMetadata false d e hd he = he

set_joined_to-HasMetadata :
    (joined_to : String) (e : PlanEntry) → HasMetadata e → HasMetadata (set_joined_to joined_to e)
unfolding set_joined_to
set_joined_to-HasMetadata joined_to e h = search (if-HasMetadata, annotate-HasMetadata)

clear_joined_to_of_init-HasMetadata :
    (e : PlanEntry) → HasMetadata e → HasMetadata (clear_joined_to_of_init e)
unfolding clear_joined_to_of_init
clear_joined_to_of_init-HasMetadata e h = search (if-HasMetadata, annotate-HasMetadata)

annotated-cleared :
    (secret : KubeSecret) (k : String) (e : PlanEntry)
    → label_annotation_match k ≡ true
    → HasMetadata e
    → get k (copy_plan_metadata_to_secret (annotate k "" e).metadata secret).annotations ≡ ""
unfolding annotate copy_plan_metadata_to_secret get
annotated-cleared secret k e hk (m, h) =
    simp (h, copy_map_lem k secret.annotations (insert k "" m.annotations), hk, map_laws, eq_refl)

copy-keeps :
    (m : Option Metadata) (secret : KubeSecret)
    → ((copy_plan_metadata_to_secret m secret).contents ≡ secret.contents)
      × ((copy_plan_metadata_to_secret m secret).secret_type ≡ secret.secret_type)
unfolding copy_plan_metadata_to_secret
copy-keeps none secret = (refl, refl)
copy-keeps (some m) secret = (refl, refl)

-- The annotation that says that the probes passed is cleared in the secret.
copy-clears :
    (secret : KubeSecret) (joined_to now : String) (e : PlanEntry)
    → HasMetadata e
    → get Names.plan_probes_passed_annotation
        (copy_plan_metadata_to_secret
          (plan_annotations joined_to now e).metadata
          secret).annotations
      ≡ ""
unfolding plan_annotations label_annotation_match
copy-clears secret joined_to now e h =
    let kept = set_joined_to-HasMetadata joined_to e h in
    let cleared = clear_joined_to_of_init-HasMetadata (set_joined_to joined_to e) kept in
    annotated-cleared secret Names.plan_probes_passed_annotation _ refl
      (annotate-HasMetadata Names.plan_updated_time_annotation now _ cleared)

module _ {S : Type 0} (api : Api S) where
  decode_lem :
      (s : KubeSecret) (plan : NodePlan) (data_ applied_data output_data periodic_data : String)
      (applied : Option NodePlan) (output : Assoc String)
      (periodic : Assoc PeriodicInstructionOutput) (failed : Bool)
      → str_eq s.secret_type Names.secret_type_machine_plan ≡ true
      → plan_failed api s ≡ ok failed
      → get "probe-statuses" s.contents ≡ ""
      → get "plan" s.contents ≡ data_
      → get "appliedPlan" s.contents ≡ applied_data
      → get "applied-output" s.contents ≡ output_data
      → get "applied-periodic-output" s.contents ≡ periodic_data
      → get Names.plan_probes_passed_annotation s.annotations ≡ ""
      → str_eq data_ "" ≡ false
      → api.unmarshal_plan data_ ≡ ok plan
      → decode_applied_plan api applied_data ≡ ok applied
      → decode_output api output_data ≡ ok output
      → decode_periodic_output api periodic_data ≡ ok periodic
      → node_of_secret api s
        ≡ ok (
            some (record {
              node_plan = plan;
              applied_plan = applied;
              joined_to = get Names.joined_to_annotation s.annotations;
              output = output;
              periodic_output = periodic;
              failed = failed;
              in_sync = str_eq data_ applied_data;
              healthy = true;
              plan_data_exists = true;
              probe_status = [];
              probes_usable = false;
            }))
  unfolding node_of_secret
  decode_lem s plan data_ applied_data output_data periodic_data applied output periodic failed ht
        hf hb h1 h2 h3 h4 h5 hd hu ha ho hr =
      simp (ht, hf) (simp (hb, h1, h2, h3, h4, h5, hd, hu, ha, ho, hr))

  -- The secret that UpdatePlan sends for an entry whose secret it has read.
  abbrev pub sent_secret : String → String → String → ℤ → ℤ → PlanEntry → KubeSecret → KubeSecret
  sent_secret data_ joined_to now max_failures failure_threshold e secret =
      let labelled =
        copy_plan_metadata_to_secret (plan_annotations joined_to now e).metadata secret in
      record labelled {
        contents = plan_contents data_ max_failures failure_threshold labelled.contents;
      }

  -- UpdatePlan where every call of the API server succeeds.
  update_plan_lem :
      (t : Target S) (new_plan : NodePlan) (joined_to data_ : String)
      (max_failures failure_threshold : ℤ) (secret updated : KubeSecret) (decoded : Option Node)
      (s s' : S)
      → max_failures <ℤ failure_threshold
          && not (int_eq failure_threshold minus_one)
          && not (int_eq max_failures minus_one)
        ≡ false
      → get_plan_secret_from_machine api t.entry.machine t.server ≡ (ok secret, s)
      → api.marshal_plan new_plan ≡ ok data_
      → api.update_secret
          (sent_secret data_ joined_to (api.now s) max_failures failure_threshold t.entry secret)
          s
        ≡ (ok updated, s')
      → node_of_secret api updated ≡ ok decoded
      → update_plan api new_plan joined_to max_failures failure_threshold t ≡ (
        ok tt,
        record {
          entry = record (plan_annotations joined_to (api.now s) t.entry) { plan = decoded };
          server = s';
        },
      )
  unfolding update_plan send
  update_plan_lem t new_plan joined_to data_ mf ft secret updated decoded s s' hg hs hm hu hn =
      simp (hg, hs, hm, hu, hn)

  -- A delivered plan reads back: where the calls of the API server succeed, the codec reads the plan
  -- that it wrote, and the secret's other data can be read, `UpdatePlan` answers without an error and
  -- the entry's plan is the plan given, healthy and not yet known to have passed its probes. It is in
  -- sync only if the node's agent has applied these very bytes before.
  pub update_plan_delivers :
      (t : Target S) (new_plan : NodePlan) (joined_to data_ : String)
      (max_failures failure_threshold : ℤ) (secret : KubeSecret) (applied : Option NodePlan)
      (output : Assoc String) (periodic : Assoc PeriodicInstructionOutput) (failed : Bool)
      (s s' : S)
      → max_failures <ℤ failure_threshold
          && not (int_eq failure_threshold minus_one)
          && not (int_eq max_failures minus_one)
        ≡ false
      → HasMetadata t.entry
      → get_plan_secret_from_machine api t.entry.machine t.server ≡ (ok secret, s)
      → str_eq secret.secret_type Names.secret_type_machine_plan ≡ true
      → api.marshal_plan new_plan ≡ ok data_
      → str_eq data_ "" ≡ false
      → api.unmarshal_plan data_ ≡ ok new_plan
      → let sent =
          sent_secret data_ joined_to (api.now s) max_failures failure_threshold t.entry secret in
        api.update_secret sent s ≡ (ok sent, s')
        → plan_failed api sent ≡ ok failed
        → decode_applied_plan api (get "appliedPlan" secret.contents) ≡ ok applied
        → decode_output api (get "applied-output" secret.contents) ≡ ok output
        → decode_periodic_output api (get "applied-periodic-output" secret.contents) ≡ ok periodic
        → update_plan api new_plan joined_to max_failures failure_threshold t ≡ (
          ok tt,
          record {
            entry = record (plan_annotations joined_to (api.now s) t.entry) {
              plan = some (record {
                node_plan = new_plan;
                applied_plan = applied;
                joined_to = get Names.joined_to_annotation sent.annotations;
                output = output;
                periodic_output = periodic;
                failed = failed;
                in_sync = str_eq data_ (get "appliedPlan" secret.contents);
                healthy = true;
                plan_data_exists = true;
                probe_status = [];
                probes_usable = false;
              });
            };
            server = s';
          },
        )
  update_plan_delivers t new_plan joined_to data_ mf ft secret applied output periodic failed s s'
        hg hm hs ht hd he hu hw hf ha ho hp =
      let now = api.now s in
      let (same_contents, same_type) =
        copy-keeps (plan_annotations joined_to now t.entry).metadata secret in
      let (k1, k2, k3, k4, k5) = plan_contents-keys data_ mf ft secret.contents in
      let sent = sent_secret data_ joined_to now mf ft t.entry secret in
      let of_sent =
        λ (key v : String) (h : get key (plan_contents data_ mf ft secret.contents) ≡ v).
          ap (λ c. get key (plan_contents data_ mf ft c)) same_contents ∙ h in
      update_plan_lem t new_plan joined_to data_ mf ft secret sent _ s s' hg hs hd hw (
        decode_lem sent new_plan data_ _ _ _ applied output periodic failed
          (ap (λ ty. str_eq ty Names.secret_type_machine_plan) same_type ∙ ht) hf (of_sent _ _ k2)
          (of_sent _ _ k1) (of_sent _ _ k3) (of_sent _ _ k4) (of_sent _ _ k5)
          (copy-clears secret joined_to now t.entry hm) he hu ha ho hp)
