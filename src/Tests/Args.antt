-- ===== src/Tests/Args.antt =====
-- renderArgAndMount, PruneEmpty and getTaints of pkg/planner/planner.go on concrete configurations, some
-- of them those of planner_test.go.
use cluster_api_provider_ran.Prelude.{
  String, ◌≡◌, refl, ap, absurd, some, none, [], ◌∷◌, lookup, str_eq, Assoc, or_zero, join,
  contains, insert,
}
use cluster_api_provider_ran.Errors.{ok}
use cluster_api_provider_ran.ControlPlane.{get_runtime, get_distro_data_dir}
use cluster_api_provider_ran.Paths.{join_path, dir, clean}
use cluster_api_provider_ran.Names
use cluster_api_provider_ran.Planner.Entry.{
  PlanEntry, is_etcd, is_control_plane, is_worker, with_annotation, annotation,
}
use cluster_api_provider_ran.Objects.{Value}
use cluster_api_provider_ran.Planner.Args.{
  find_arg, convert_interface_to_string_slice, render_arg_and_mount, mount_of, has_empty_value,
  prune_empty, append_to_interface, get_arg_value,
}
use cluster_api_provider_ran.Planner.Args.Laws.{prune_empty_lem}
use cluster_api_provider_ran.Planner.Args.Mounts.{
  render_arg_and_mount-args, render_arg_and_mount-mounts,
}
use cluster_api_provider_ran.Planner.Taints.{
  Taint, etcd_taint, control_plane_taint, decode_taints, get_taints,
}
use cluster_api_provider_ran.Planner.Taints.Laws.{get_taints_lem}
use cluster_api_provider_ran.Tests.Base.{control_plane, server_metadata, server_entry}

abbrev scheduler_cert_dir : String
scheduler_cert_dir = "server/tls/kube-scheduler"

dir_of_file : dir "/somedir/mycustomfile.crt" ≡ "/somedir"
unfolding dir join
dir_of_file = refl

join_cleans : join_path "/var/lib//rancher/./k3s/.." "rke2/" ≡ "/var/lib/rancher/rke2"
unfolding join_path clean join
join_cleans = refl

default_rendering_rke2 :
    render_arg_and_mount Value.nil Value.nil control_plane "10259" scheduler_cert_dir ≡ (
      "cert-dir=/var/lib/rancher/rke2/server/tls/kube-scheduler" ∷ "secure-port=10259" ∷ [],
      "/var/lib/rancher/rke2/server/tls/kube-scheduler:/var/lib/rancher/rke2/server/tls/kube-scheduler"
          ∷ [],
    )
unfolding render_arg_and_mount convert_interface_to_string_slice get_runtime append_to_interface
    contains join_path get_distro_data_dir clean join
default_rendering_rke2 = refl

custom_tls_cert_file :
    render_arg_and_mount
      (Value.strings ("bogus=" ∷ "tls-cert-file=/mycustomfile.crt" ∷ "data" ∷ []))
      Value.nil
      control_plane
      "10259"
      scheduler_cert_dir
    ≡ ("bogus=" ∷ "tls-cert-file=/mycustomfile.crt" ∷ "data" ∷ "secure-port=10259" ∷ [], "/:/" ∷ [])
unfolding render_arg_and_mount convert_interface_to_string_slice get_runtime get_arg_value contains
    append_to_interface dir join
custom_tls_cert_file = refl

abbrev user_args : Value
user_args =
    Value.interfaces (record { printed = "cert-dir=/tmp" } ∷ record { printed = "v=2" } ∷ [])

render_arg_and_mount-args_example :
    find_arg
      (render_arg_and_mount user_args Value.nil control_plane "10259" scheduler_cert_dir).0
      "secure-port"
      "="
    ≡ some "10259"
unfolding find_arg convert_interface_to_string_slice
render_arg_and_mount-args_example =
    render_arg_and_mount-args user_args Value.nil control_plane "10259" scheduler_cert_dir
      "secure-port"

render_arg_and_mount-mounts_example :
    (render_arg_and_mount user_args
      (Value.string "/a:/a")
      control_plane
      "10259"
      scheduler_cert_dir).1
    ≡ "/a:/a" ∷ "/tmp:/tmp" ∷ []
unfolding find_arg convert_interface_to_string_slice get_runtime contains mount_of get_arg_value
    render_arg_and_mount append_to_interface
render_arg_and_mount-mounts_example =
    render_arg_and_mount-mounts user_args (Value.string "/a:/a") control_plane "10259"
      scheduler_cert_dir (λ h. absurd (ap (λ o. str_eq (or_zero "" o) "") h))

abbrev raw_config : Assoc Value
raw_config = ("token", Value.string "") ∷ ("server", Value.string "s") ∷ []

prune_empty_lem_example : lookup "token" (prune_empty raw_config) ≡ none
unfolding has_empty_value lookup
prune_empty_lem_example = prune_empty_lem "token" raw_config

abbrev own_taint : Taint
own_taint = record { key = "team"; value = "a"; effect = "NoSchedule" }

abbrev tainted_entry : PlanEntry
tainted_entry = record server_entry {
  metadata = some (with_annotation Names.taints_annotation "[]" server_metadata);
}

get_taints_lem_example :
    get_taints (λ data_. ok (own_taint ∷ [])) tainted_entry control_plane
    ≡ ok (own_taint ∷ etcd_taint ∷ control_plane_taint ∷ [])
unfolding decode_taints annotation lookup insert is_worker is_etcd is_control_plane get_runtime
    contains
get_taints_lem_example = get_taints_lem (λ data_. ok (own_taint ∷ [])) tainted_entry control_plane
