-- ===== src/Tests/Planner.antt =====
-- pkg/planner on the test cluster: planner.go, drain.go, initnode.go and planentry.go.
use cluster_api_provider_ran.Prelude.{
  String, ◌≡◌, ◌≢◌, ◌⊎◌, refl, true, false, none, some, [], ◌∷◌, any, lookup, arith, str_eq, insert,
  get,
}
use mathlib.Core.List.{Perm}
use cluster_api_provider_ran.Errors.{Result, ok}
use cluster_api_provider_ran.Plan.Equal.{one_time_instruction_eq}
use cluster_api_provider_ran.Names
use cluster_api_provider_ran.Planner.Entry.{
  annotation, is_etcd, is_worker, is_init_node, can_be_init_node, is_deleting, is_failed, role_and,
  is_control_plane, has_join_url, role_not, is_only_worker,
}
use cluster_api_provider_ran.Planner.Collect.{
  collect, collect_and_validate_annotation_value, valid_join_url,
}
use cluster_api_provider_ran.Planner.Collect.Laws.{
  IsSorted, select, entries_of, collect_complete, collect_and_validate_annotation_value_lem,
}
use cluster_api_provider_ran.Planner.Store.Update.{Target}
use cluster_api_provider_ran.Planner.Drain.{
  should_drain, drain, undrain, options_to_string, check_for_drain_error, get_restart_stamp,
}
use cluster_api_provider_ran.Planner.Drain.Laws.{IsDrained, drain_ok, undrain_ok}
use cluster_api_provider_ran.Planner.Change.{minor_plan_change_detected, files_by_path}
use cluster_api_provider_ran.Planner.Change.Laws.{
  majors_stay, has_same, minor_change_never_drains, minor_change_spares_major_files,
}
use cluster_api_provider_ran.Planner.JoinUrl.{determine_join_url, scaled_index}
use cluster_api_provider_ran.Planner.JoinUrl.Laws.{
  determine_join_url_total, determine_join_url_valid,
}
use cluster_api_provider_ran.Planner.InitNode.{elect_init_node}
use cluster_api_provider_ran.Planner.InitNode.Laws.{IsElected, elect_init_node_silent}
use cluster_api_provider_ran.Tests.Base.{
  Secrets, worker_metadata, api, plan_a, plan_b, plan_c, node_with, cluster, server_url,
  worker_entry, config, control_plane, drain_options, secrets,
}

minor_change_never_drains_example : should_drain api (some plan_a) plan_b ≡ false
unfolding minor_plan_change_detected one_time_instruction_eq lookup insert
minor_change_never_drains_example = minor_change_never_drains plan_a plan_b api refl

minor_change_spares_major_files_example :
    (majors_stay (files_by_path plan_b.files []) plan_a.files ≡ true)
    × ((true ≡ true) ⊎ (has_same "/etc/rancher/rke2/config.yaml" "debug: true" plan_a.files ≡ true))
unfolding minor_plan_change_detected files_by_path lookup one_time_instruction_eq insert
minor_change_spares_major_files_example =
    minor_change_spares_major_files plan_a plan_b "/etc/rancher/rke2/config.yaml"
      (config "debug: true") refl refl

elect_init_node_silent_example :
    IsElected api
      (record { plan = cluster none; server = secrets })
      server_url
      (record { plan = cluster none; server = secrets })
unfolding elect_init_node get lookup collect is_init_node can_be_init_node is_etcd is_deleting
    is_failed annotation
elect_init_node_silent_example =
    elect_init_node_silent api control_plane true server_url
      (record { plan = cluster none; server = secrets })
      (record { plan = cluster none; server = secrets }) refl refl

-- The worker has been drained for the plan that restarts it.
abbrev drained : Target Secrets
drained = record {
  entry = record (worker_entry (some (node_with plan_a))) {
    metadata = some (record worker_metadata {
      annotations =
          (Names.drain_annotation, "{enabled: true}")
          ∷ (Names.drain_done_annotation, "{enabled: true}")
          ∷ [];
    });
  };
  server = secrets;
}

drain_ok_example :
    (option_string : String) × (options_to_string api drain_options false ≡ ok option_string)
    × IsDrained option_string drained.entry
    × ((drain api (some plan_a) plan_c (cluster none) drain_options drained).1 ≡ drained)
unfolding drain get_restart_stamp annotation lookup
drain_ok_example =
    drain_ok api (some plan_a) plan_c (cluster none) drain_options drained refl refl refl refl

abbrev released : Target Secrets
released = record { entry = worker_entry (some (node_with plan_a)); server = secrets }

undrain_ok_example :
    (annotation Names.uncordon_annotation released.entry ≡ "")
    × (annotation Names.drain_annotation released.entry ≡ "")
    × (check_for_drain_error released.entry "undraining" ≡ none)
    × ((undrain api released).1 ≡ released)
unfolding undrain annotation lookup
undrain_ok_example = undrain_ok api released refl

determine_join_url_total_example :
    (r : Result String) × (determine_join_url api control_plane
        (worker_entry none)
        (cluster none)
        ""
      ≡ some r)
unfolding collect role_and is_control_plane lookup has_join_url annotation role_not is_deleting
determine_join_url_total_example =
    determine_join_url_total api (cluster none) control_plane (worker_entry none) "" (omega arith)
      (omega arith)

determine_join_url_valid_example :
    (server_url ≢ "") × ((server_url ≡ "-") ⊎ (valid_join_url (cluster none) server_url ≡ true))
unfolding determine_join_url is_only_worker is_etcd lookup is_control_plane is_worker is_init_node
    collect role_and has_join_url annotation role_not is_deleting scaled_index
determine_join_url_valid_example =
    determine_join_url_valid api (cluster none) control_plane (worker_entry none) server_url refl
      refl

collect_complete_example :
    IsSorted (collect (cluster none) is_worker)
    × Perm
        (collect (cluster none) is_worker)
        (select is_worker (entries_of (cluster none) (cluster none).machines))
collect_complete_example = collect_complete (cluster none) is_worker

collect_and_validate_annotation_value_lem_example :
    collect_and_validate_annotation_value
      (cluster none)
      is_etcd
      Names.join_url_annotation
      server_url
    ≡ any
        (λ e. str_eq (annotation Names.join_url_annotation e) server_url)
        (collect (cluster none) is_etcd)
collect_and_validate_annotation_value_lem_example =
    collect_and_validate_annotation_value_lem (cluster none) is_etcd Names.join_url_annotation
      server_url
