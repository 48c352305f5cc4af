-- ===== src/Planner/Probes.antt =====
-- pkg/planner/probe.go: the probes by which a node's components are watched.
pub mod Laws
use Prim.Native.Char.{Char, code}
use cluster_api_provider_ran.Prelude.{
  ℕ, ◌==◌, String, Bool, true, false, not, ◌&&◌, ◌||◌, none, some, List, [], ◌∷◌, ◌++◌, Assoc,
  lookup, insert, or_zero, str_eq, contains, ◌<>◌, if◌then◌else◌,
}
use cluster_api_provider_ran.Errors.{Result, ok, err, other, and_then}
use cluster_api_provider_ran.Plan.{HttpGetAction, Probe}
use cluster_api_provider_ran.Objects.{Value}
use cluster_api_provider_ran.ControlPlane.{
  ControlPlane, get_runtime, get_distro_data_dir, get_loopback_address,
}
use cluster_api_provider_ran.Names
use cluster_api_provider_ran.Paths.{join_path}
use cluster_api_provider_ran.Planner.Entry.{
  PlanEntry, is_etcd, is_control_plane, is_only_etcd, role_not, windows,
}
use cluster_api_provider_ran.Planner.Args.{
  secure_port_argument, cert_dir_argument, tls_cert_file_argument, get_arg_value,
}

abbrev pub kube_controller_manager_arg : String
kube_controller_manager_arg = "kube-controller-manager-arg"

abbrev pub kube_scheduler_arg : String
kube_scheduler_arg = "kube-scheduler-arg"

-- fmt.Sprintf of texts at a format whose only verb is `%s`; a missing argument and arguments to spare
-- are reported in the text.
abbrev extra_args : List String → String
extra_args [] = ""
extra_args (a ∷ []) = "string=" <> a
extra_args (a ∷ b ∷ args) = "string=" <> a <> ", " <> extra_args (b ∷ args)

abbrev spare : List String → String
spare [] = ""
spare (a ∷ args) = "%!(EXTRA " <> extra_args (a ∷ args) <> ")"

abbrev first_arg : List String → String
first_arg [] = "%!s(MISSING)"
first_arg (a ∷ args) = a

abbrev rest_args : List String → List String
rest_args [] = []
rest_args (a ∷ args) = args

unfoldable pub sprintf : String → List String → String
sprintf String.[] args = spare args
sprintf (String.◌∷◌ c String.[]) args = String.◌∷◌ c (spare args)
sprintf (String.◌∷◌ c (String.◌∷◌ d s)) args = elim (code c == 37 && code d == 115) [
  | true ↦ first_arg args <> sprintf s (rest_args args)
  | false ↦ String.◌∷◌ c (sprintf (String.◌∷◌ d s) args)
]

abbrev pub probe_of : HttpGetAction → Probe
probe_of action = record {
  name = "";
  initial_delay_seconds = 1;
  timeout_seconds = 5;
  success_threshold = 1;
  failure_threshold = 2;
  http_get_action = action;
}

abbrev pub plain_action : String → HttpGetAction
plain_action url = record {
  url = url;
  insecure = false;
  client_cert = "";
  client_key = "";
  ca_cert = "";
}

-- allProbes
abbrev pub all_probes : Assoc Probe
all_probes =
    ("calico", probe_of (plain_action "http://%s:9099/liveness"))
    ∷ ("etcd", probe_of (plain_action "http://%s:2381/health"))
    ∷ (
      "kube-apiserver",
      probe_of (record {
        url = "https://%s:6443/readyz";
        insecure = false;
        client_cert = "%s/server/tls/client-kube-apiserver.crt";
        client_key = "%s/server/tls/client-kube-apiserver.key";
        ca_cert = "%s/server/tls/server-ca.crt";
      }),
    )
    ∷ ("kube-scheduler", probe_of (plain_action "https://%s:%s/healthz"))
    ∷ ("kube-controller-manager", probe_of (plain_action "https://%s:%s/healthz"))
    ∷ ("kubelet", probe_of (plain_action "http://%s:10248/healthz"))
    ∷ []

-- The zero value, which a lookup of a missing key gives
abbrev pub zero_probe : Probe
zero_probe = record {
  name = "";
  initial_delay_seconds = 0;
  timeout_seconds = 0;
  success_threshold = 0;
  failure_threshold = 0;
  http_get_action = plain_action "";
}

-- replaceCACertAndPortForProbes
unfoldable pub replace_ca_cert_and_port_for_probes : Probe → String → String → String → Result Probe
replace_ca_cert_and_port_for_probes probe cacert host port =
    if str_eq cacert ""
    then err (other "cacert cannot be empty")
    else if str_eq port ""
    then err (other "port cannot be empty")
    else if str_eq host ""
    then err (other "address cannot be empty")
    else ok (record probe {
      http_get_action = record probe.http_get_action {
        ca_cert = cacert;
        url = sprintf probe.http_get_action.url (host ∷ port ∷ []);
      };
    })

-- A text, or another where it is empty
unfoldable pub or_default : String → String → String
or_default default s = if str_eq s "" then default else s

-- The certificate that renderSecureProbe uses
unfoldable pub tls_cert : Value → ControlPlane → String → String → String
unfolding or_default
tls_cert arg control_plane default_cert_dir default_cert =
    or_default
      (or_default (join_path (get_distro_data_dir control_plane) default_cert_dir)
          (get_arg_value arg cert_dir_argument "=")
        <> "/"
        <> default_cert)
      (get_arg_value arg tls_cert_file_argument "=")

-- renderSecureProbe
unfoldable pub render_secure_probe :
    Value → Probe → ControlPlane → String → String → String → String → Result Probe
unfolding or_default tls_cert
render_secure_probe arg raw_probe control_plane loopback_address default_secure_port
      default_cert_dir default_cert =
    replace_ca_cert_and_port_for_probes raw_probe
      (tls_cert arg control_plane default_cert_dir default_cert) loopback_address
      (or_default default_secure_port (get_arg_value arg secure_port_argument "="))

-- replaceIfFormatSpecifier
unfoldable pub replace_if_format_specifier : String → String → String
replace_if_format_specifier s runtime = if contains s "%s" then sprintf s (runtime ∷ []) else s

unfoldable pub insert_data_dir : String → Probe → Probe
unfolding replace_if_format_specifier
insert_data_dir data_dir v = record v {
  http_get_action = record v.http_get_action {
    ca_cert = replace_if_format_specifier v.http_get_action.ca_cert data_dir;
    client_cert = replace_if_format_specifier v.http_get_action.client_cert data_dir;
    client_key = replace_if_format_specifier v.http_get_action.client_key data_dir;
  };
}

unfoldable pub replace_url : String → Probe → Probe
unfolding replace_if_format_specifier
replace_url loopback_address v = record v {
  http_get_action = record v.http_get_action {
    url = replace_if_format_specifier v.http_get_action.url loopback_address;
  };
}

-- A loop that puts each probe into the result under its own key
unfoldable pub map_probes : (Probe → Probe) → Assoc Probe → Assoc Probe
map_probes f [] = []
map_probes f ((k, v) ∷ probes) = (k, f v) ∷ map_probes f probes

-- insertDataDirForProbes
unfoldable pub insert_data_dir_for_probes : ControlPlane → Assoc Probe → Assoc Probe
unfolding insert_data_dir map_probes
insert_data_dir_for_probes control_plane probes =
    map_probes (insert_data_dir (get_distro_data_dir control_plane)) probes

-- replaceURLForProbes
unfoldable pub replace_url_for_probes : Assoc Probe → String → Assoc Probe
unfolding replace_url map_probes
replace_url_for_probes probes loopback_address = map_probes (replace_url loopback_address) probes

-- `convert.ToString` of wrangler is a parameter.
module _ (to_string : Value → String) where
  -- isCalico
  unfoldable pub is_calico : ControlPlane → String → Bool
  is_calico control_plane runtime =
      let cni = to_string (or_zero Value.nil (lookup "cni" control_plane.machine_global_config)) in
      str_eq runtime Names.runtime_rke2
      && (str_eq cni "" || str_eq cni "calico" || str_eq cni "calico+multus")

  -- The names that generateProbes collects
  unfoldable pub probe_names : ControlPlane → PlanEntry → List String
  unfolding is_calico
  probe_names control_plane entry =
      let runtime = get_runtime control_plane.kubernetes_version in
      (if not (str_eq runtime Names.runtime_k3s) && is_etcd entry then "etcd" ∷ [] else [])
      ++ ((if is_control_plane entry
            then "kube-apiserver" ∷ "kube-controller-manager" ∷ "kube-scheduler" ∷ []
            else [])
          ++ ((if not (is_only_etcd entry && str_eq runtime Names.runtime_k3s)
                then "kubelet" ∷ []
                else [])
              ++ (if not (is_only_etcd entry)
                    && is_calico control_plane runtime
                    && role_not windows entry
                  then "calico" ∷ []
                  else [])))

  unfoldable pub select_probes : List String → Assoc Probe → Assoc Probe
  select_probes [] probes = probes
  select_probes (k ∷ ks) probes =
      select_probes ks (insert k (or_zero zero_probe (lookup k all_probes)) probes)

  unfoldable pub render_into :
      Assoc Value
      → ControlPlane
      → String
      → String
      → String
      → String
      → String
      → String
      → Assoc Probe
      → Result (Assoc Probe)
  render_into config control_plane loopback_address arg name port cert_dir cert probes =
      and_then
        (render_secure_probe (or_zero Value.nil (lookup arg config))
          (or_zero zero_probe (lookup name probes)) control_plane loopback_address port cert_dir
          cert)
        (λ probe. ok (insert name probe probes))

  unfoldable pub render_secure_probes :
      Assoc Value → ControlPlane → String → Assoc Probe → Result (Assoc Probe)
  unfolding render_into
  render_secure_probes config control_plane loopback_address probes =
      and_then
        (render_into config control_plane loopback_address kube_controller_manager_arg
          "kube-controller-manager" "10257" "server/tls/kube-controller-manager"
          "kube-controller-manager.crt" probes)
        (render_into config control_plane loopback_address kube_scheduler_arg "kube-scheduler"
          "10259" "server/tls/kube-scheduler" "kube-scheduler.crt")

  -- generateProbes
  unfoldable pub generate_probes : ControlPlane → PlanEntry → Assoc Value → Result (Assoc Probe)
  unfolding probe_names select_probes render_secure_probes
  generate_probes control_plane entry config =
      let loopback_address = get_loopback_address control_plane in
      let probes =
        insert_data_dir_for_probes control_plane
          (select_probes (probe_names control_plane entry) []) in
      and_then
        (if is_control_plane entry
          then render_secure_probes config control_plane loopback_address probes
          else ok probes)
        (λ rendered. ok (replace_url_for_probes rendered loopback_address))
