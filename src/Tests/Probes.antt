-- ===== src/Tests/Probes.antt =====
-- pkg/planner/probe.go on concrete control planes.
use cluster_api_provider_ran.Prelude.{String, ◌≡◌, refl, [], ◌∷◌, Assoc, lookup, contains}
use cluster_api_provider_ran.Errors.{ok}
use cluster_api_provider_ran.Plan.{Probe}
use cluster_api_provider_ran.Objects.{Value}
use cluster_api_provider_ran.Planner.Args.{render_arg_and_mount}
use cluster_api_provider_ran.Planner.Probes.{
  probe_of, plain_action, sprintf, render_secure_probe, probe_names, generate_probes,
}
use cluster_api_provider_ran.Planner.Probes.Laws.{render_secure_probe-rendered, generate_probes_ok}
use cluster_api_provider_ran.Tests.Base.{control_plane, server_entry}
use cluster_api_provider_ran.ControlPlane.{get_runtime}
use cluster_api_provider_ran.Planner.Entry.{
  is_etcd, is_control_plane, is_only_etcd, role_not, windows,
}

abbrev to_string : Value → String
to_string (Value.string s) = s
to_string v = ""

formatted :
    sprintf "https://%s:%s/healthz" ("127.0.0.1" ∷ "10259" ∷ []) ≡ "https://127.0.0.1:10259/healthz"
unfolding sprintf
formatted = refl

missing_argument : sprintf "%s/%s" ("a" ∷ []) ≡ "a/%!s(MISSING)"
unfolding sprintf
missing_argument = refl

server_probe_names :
    probe_names to_string control_plane server_entry
    ≡ "etcd" ∷ "kube-apiserver" ∷ "kube-controller-manager" ∷ "kube-scheduler" ∷ "kubelet"
      ∷ "calico" ∷ []
unfolding probe_names get_runtime contains is_etcd lookup is_control_plane is_only_etcd role_not
    windows
server_probe_names = refl

abbrev user_args : Value
user_args = Value.string "secure-port=11259"

abbrev scheduler_probe : Probe
scheduler_probe = probe_of (plain_action "https://%s:%s/healthz")

render_secure_probe-rendered_example :
    render_secure_probe
      (Value.strings
        (render_arg_and_mount user_args Value.nil control_plane "10259"
          "server/tls/kube-scheduler").0)
      scheduler_probe
      control_plane
      "127.0.0.1"
      "10259"
      "server/tls/kube-scheduler"
      "kube-scheduler.crt"
    ≡ render_secure_probe user_args scheduler_probe control_plane "127.0.0.1" "10259"
        "server/tls/kube-scheduler" "kube-scheduler.crt"
render_secure_probe-rendered_example =
    render_secure_probe-rendered user_args Value.nil scheduler_probe control_plane "127.0.0.1"
      "10259" "server/tls/kube-scheduler" "kube-scheduler.crt"

abbrev config : Assoc Value
config = ("kube-scheduler-arg", user_args) ∷ []

generate_probes_ok_example :
    (probes : Assoc Probe) × (generate_probes to_string control_plane server_entry config
      ≡ ok probes)
generate_probes_ok_example = generate_probes_ok to_string control_plane server_entry config
