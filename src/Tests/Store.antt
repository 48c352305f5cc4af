-- ===== src/Tests/Store.antt =====
-- pkg/planner/store.go on the test cluster.
use cluster_api_provider_ran.Prelude.{
  ◌≡◌, refl, true, false, some, [], ◌∷◌, lookup, get, pos, minus_one, itoa, atoi, insert, delete,
  join, arith,
}
use cluster_api_provider_ran.Errors.{ok}
use cluster_api_provider_ran.Plan.{Node}
use cluster_api_provider_ran.Planner.Entry.{annotate, annotation}
use cluster_api_provider_ran.Planner.Store.Decode.{
  plan_failed, plan_hash, decode_applied_plan, decode_output, decode_periodic_output,
}
use cluster_api_provider_ran.Planner.Store.Update.{
  Target, label_annotation_match, copy_map, update_plan, get_plan_secret_from_machine,
  plan_annotations, copy_plan_metadata_to_secret, plan_contents,
}
use cluster_api_provider_ran.Plan.Equal.{node_plan_eq}
use cluster_api_provider_ran.Objects.{KubeSecret}
use cluster_api_provider_ran.Names
use cluster_api_provider_ran.Planner.Store.Assign.{assign_and_check_plan}
use cluster_api_provider_ran.Planner.Store.Threshold.{after_failures, plan_failed-after_failures}
use cluster_api_provider_ran.Planner.Store.Copying.{copy_map_lem}
use cluster_api_provider_ran.Planner.Store.Delivered.{sent_secret, update_plan_delivers}
use cluster_api_provider_ran.Planner.Store.Assigned.{IsApplied, assign_and_check_plan_ok}
use cluster_api_provider_ran.Tests.Base.{
  Secrets, api, plan_a, plan_b, node_with, worker_entry, worker_metadata, worker_secret, secrets,
}

-- Three failures of a plan with the threshold 3.
plan_failed-after_failures_example :
    plan_failed api (record worker_secret {
      contents =
          after_failures
            (plan_hash api "{debug: false}")
            "{debug: false}"
            (pos 5)
            (pos 3)
            (pos 3)
            [];
    })
    ≡ ok true
plan_failed-after_failures_example =
    plan_failed-after_failures api worker_secret "{debug: false}" (pos 5) (pos 3) (pos 3) []
      (omega arith) (omega arith)

copy_map_lem_example :
    lookup "rke.cattle.io/join-url"
      (copy_map (("rke.cattle.io/join-url", "old") ∷ []) (("rke.cattle.io/join-url", "new") ∷ []))
    ≡ some "new"
unfolding label_annotation_match lookup
copy_map_lem_example =
    copy_map_lem "rke.cattle.io/join-url" (("rke.cattle.io/join-url", "old") ∷ [])
      (("rke.cattle.io/join-url", "new") ∷ [])

-- The worker has the second plan; the first is delivered.
abbrev target : Target Secrets
target = record { entry = worker_entry (some (node_with plan_b)); server = secrets }

assign_and_check_plan_ok_example :
    IsApplied plan_b (some (node_with plan_b))
    × ((assign_and_check_plan api "certificate rotation" plan_b "" (pos 0) (pos 0) target).1
        ≡ target)
unfolding assign_and_check_plan node_plan_eq
assign_and_check_plan_ok_example =
    assign_and_check_plan_ok api "certificate rotation" plan_b "" (pos 0) (pos 0) target refl

abbrev sent : KubeSecret
sent =
    sent_secret api "{debug: false}" "" "2024-05-01T00:00:00Z" minus_one (pos 1) target.entry
      worker_secret

-- What the worker's entry says of the first plan once it is delivered.
abbrev delivered_node : Node
delivered_node = record {
  node_plan = plan_a;
  applied_plan = some plan_b;
  joined_to = get Names.joined_to_annotation sent.annotations;
  output = [];
  periodic_output = [];
  failed = false;
  in_sync = false;
  healthy = true;
  plan_data_exists = true;
  probe_status = [];
  probes_usable = false;
}

update_plan_delivers_example : update_plan api plan_a "" minus_one (pos 1) target ≡ (
  ok tt,
  record {
    entry = record (plan_annotations "" "2024-05-01T00:00:00Z" target.entry) {
      plan = some delivered_node;
    };
    server = insert "worker-machine-plan" sent secrets;
  },
)
unfolding get_plan_secret_from_machine plan_failed decode_applied_plan decode_output
    decode_periodic_output lookup get atoi plan_annotations copy_plan_metadata_to_secret
    plan_contents itoa join annotate annotation insert delete
update_plan_delivers_example =
    update_plan_delivers api target plan_a "" "{debug: false}" minus_one (pos 1) worker_secret
      (some plan_b) [] [] false secrets (insert "worker-machine-plan" sent secrets) refl
      (worker_metadata, refl) refl refl refl refl refl refl refl refl refl refl
