-- ===== src/Planner/Probes/Laws.antt =====
-- pkg/planner/probe.go: the probes agree with the rendered arguments, and they are always generated.
use Prim.Native.Char.{Char}
use Prim.Native.String.append
use cluster_api_provider_ran.Prelude.{
  String, Bool, true, false, ◌≡◌, inl, inr, refl, sym, ap, ◌∙◌, Option, none, some, [], ◌∷◌, str_eq,
  str_eq_ne, if◌then◌else◌, arith, or_zero, Bool-cases, absurd, ◌<>◌, Assoc, lookup, insert,
}
use cluster_api_provider_ran.Errors.{Result, ok, and_then}
use cluster_api_provider_ran.Plan.{Probe}
use cluster_api_provider_ran.Objects.{Value}
use cluster_api_provider_ran.ControlPlane.{
  ControlPlane, get_distro_data_dir, get_loopback_address, loopback_of, stack_preference,
}
use cluster_api_provider_ran.Paths.{join_path}
use cluster_api_provider_ran.Planner.Entry.{PlanEntry, is_control_plane}
use cluster_api_provider_ran.Planner.Args.{
  secure_port_argument, cert_dir_argument, tls_cert_file_argument, find_arg, get_arg_value,
  convert_interface_to_string_slice, render_arg_and_mount,
}
use cluster_api_provider_ran.Planner.Args.Setting.{or_else, or_else-none}
use cluster_api_provider_ran.Planner.Args.Mounts.{added_value, render_arg_and_mount-args}
use cluster_api_provider_ran.Planner.Probes.{
  sprintf, zero_probe, replace_url_for_probes, replace_ca_cert_and_port_for_probes, or_default,
  tls_cert, render_secure_probe, render_into, render_secure_probes, generate_probes,
}

get_arg_value_lem :
    (arg : Value) (key : String)
    → get_arg_value arg key "="
      ≡ or_zero "" (find_arg (convert_interface_to_string_slice arg) key "=")
unfolding get_arg_value find_arg convert_interface_to_string_slice
get_arg_value_lem (Value.interfaces xs) key = refl
get_arg_value_lem (Value.strings args) key = refl
get_arg_value_lem (Value.string s) key = ground arith
get_arg_value_lem Value.nil key = refl
get_arg_value_lem (Value.other x) key = refl

or_default-added :
    (d : String) (o : Option String)
    → or_default d (or_zero "" (or_else o (some d))) ≡ or_default d (or_zero "" o)
unfolding or_default
or_default-added d none = ground arith
or_default-added d (some v) = refl

or_default-keeps : (d s : String) → str_eq s "" ≡ false → or_default d s ≡ s
unfolding or_default
or_default-keeps d s h = simp (h)

cert-added :
    (d suffix : String) (cert tls : Option String)
    → or_default
        (or_default d
            (or_zero "" (or_else cert (if str_eq (or_zero "" tls) "" then some d else none)))
          <> suffix)
        (or_zero "" tls)
      ≡ or_default (or_default d (or_zero "" cert) <> suffix) (or_zero "" tls)
cert-added d suffix cert tls = elim (Bool-cases (str_eq (or_zero "" tls) "")) [
  | inl h ↦ simp (h, or_default-added)
  | inr h ↦ or_default-keeps _ (or_zero "" tls) h ∙ sym (or_default-keeps _ (or_zero "" tls) h)
]

value-rendered :
    (arg mount : Value) (cp : ControlPlane) (port cert_dir key : String)
    → get_arg_value (Value.strings (render_arg_and_mount arg mount cp port cert_dir).0) key "="
      ≡ or_zero "" (
          or_else (find_arg (convert_interface_to_string_slice arg) key "=") (
            added_value
              (convert_interface_to_string_slice arg)
              (join_path (get_distro_data_dir cp) cert_dir)
              port
              key))
unfolding get_arg_value
value-rendered arg mount cp port cert_dir key =
    ap (or_zero "") (render_arg_and_mount-args arg mount cp port cert_dir key)

-- The probe of a component is the same whether it is computed from the user's arguments or from the
-- arguments that renderArgAndMount renders with the same defaults.
pub render_secure_probe-rendered :
    (arg mount : Value) (probe : Probe) (cp : ControlPlane) (host port cert_dir cert : String)
    → render_secure_probe
        (Value.strings (render_arg_and_mount arg mount cp port cert_dir).0)
        probe
        cp
        host
        port
        cert_dir
        cert
      ≡ render_secure_probe arg probe cp host port cert_dir cert
unfolding render_secure_probe tls_cert
render_secure_probe-rendered arg mount probe cp host port cert_dir cert = simp (
  value-rendered arg mount cp port cert_dir secure_port_argument,
  value-rendered arg mount cp port cert_dir tls_cert_file_argument,
  value-rendered arg mount cp port cert_dir cert_dir_argument,
  get_arg_value_lem arg,
  or_else-none,
  or_default-added,
  cert-added,
)

or_default-not_empty : (d s : String) → str_eq d "" ≡ false → str_eq (or_default d s) "" ≡ false
unfolding or_default
or_default-not_empty d s h = ground (arith, h)

is_nil : String → Bool
is_nil String.[] = true
is_nil (String.◌∷◌ c s) = false

cons-not_empty : (c : Char) (s : String) → str_eq (String.◌∷◌ c s) "" ≡ false
unfolding is_nil
cons-not_empty c s = str_eq_ne (String.◌∷◌ c s) "" (λ e. absurd (ap is_nil e))

append-not_empty : (s t : String) → str_eq (s <> "/" <> t) "" ≡ false
append-not_empty String.[] t =
    ap (λ u. str_eq u "") (append.nil ("/" <> t) ∙ append.cons "/" "" t)
    ∙ cons-not_empty "/" ("" <> t)
append-not_empty (String.◌∷◌ c s) t =
    ap (λ u. str_eq u "") (append.cons c s ("/" <> t)) ∙ cons-not_empty c (s <> "/" <> t)

-- A computed result is no error.
abbrev IsOk : {A : Type 0} → Result A → Type 0
IsOk {A} r = (a : A) × (r ≡ ok a)

and_then-IsOk :
    {A B : Type 0} (r : Result A) (f : A → Result B)
    → IsOk r
    → ((a : A) → IsOk (f a))
    → IsOk (and_then r f)
and_then-IsOk r f (a, h) k = ((k a).0, ap (λ r. and_then r f) h ∙ (k a).1)

replace-IsOk :
    (probe : Probe) (cacert host port : String)
    → str_eq cacert "" ≡ false
    → str_eq host "" ≡ false
    → str_eq port "" ≡ false
    → IsOk (replace_ca_cert_and_port_for_probes probe cacert host port)
unfolding replace_ca_cert_and_port_for_probes
replace-IsOk probe cacert host port hc hh hp = (
  record probe {
    http_get_action = record probe.http_get_action {
      ca_cert = cacert;
      url = sprintf probe.http_get_action.url (host ∷ port ∷ []);
    };
  },
  simp (hc, hh, hp),
)

render_secure_probe-IsOk :
    (arg : Value) (probe : Probe) (cp : ControlPlane) (host port cert_dir cert : String)
    → str_eq host "" ≡ false
    → str_eq port "" ≡ false
    → IsOk (render_secure_probe arg probe cp host port cert_dir cert)
unfolding render_secure_probe tls_cert
render_secure_probe-IsOk arg probe cp host port cert_dir cert hh hp =
    replace-IsOk probe _ host _
      (or_default-not_empty _ (get_arg_value arg tls_cert_file_argument "=") (
        append-not_empty
          (or_default (join_path (get_distro_data_dir cp) cert_dir)
            (get_arg_value arg cert_dir_argument "="))
          cert))
      hh (or_default-not_empty port (get_arg_value arg secure_port_argument "=") hp)

loopback_of-not_empty : (preference : String) → str_eq (loopback_of preference) "" ≡ false
unfolding loopback_of
loopback_of-not_empty preference = go (str_eq preference "ipv6") (str_eq preference "dual")
  where
    go :
        (six dual : Bool)
        → str_eq (if six then "[::1]" else if dual then "localhost" else "127.0.0.1") "" ≡ false
    go true dual = refl
    go false true = refl
    go false false = refl

get_loopback_address-not_empty : (cp : ControlPlane) → str_eq (get_loopback_address cp) "" ≡ false
unfolding get_loopback_address
get_loopback_address-not_empty cp = loopback_of-not_empty (stack_preference cp.networking)

if-IsOk : {A : Type 0} (b : Bool) (r : Result A) (a : A) → IsOk r → IsOk (if b then r else ok a)
if-IsOk true r a h = h
if-IsOk false r a h = (a, refl)

render_into-IsOk :
    (to_string : Value → String) (config : Assoc Value) (cp : ControlPlane)
    (host arg name port cert_dir cert : String) (probes : Assoc Probe)
    → str_eq host "" ≡ false
    → str_eq port "" ≡ false
    → IsOk (render_into to_string config cp host arg name port cert_dir cert probes)
unfolding render_into
render_into-IsOk to_string config cp host arg name port cert_dir cert probes hh hp =
    and_then-IsOk _ _
      (render_secure_probe-IsOk (or_zero Value.nil (lookup arg config))
        (or_zero zero_probe (lookup name probes)) cp host port cert_dir cert hh hp)
      (λ probe. (insert name probe probes, refl))

render_secure_probes-IsOk :
    (to_string : Value → String) (config : Assoc Value) (cp : ControlPlane) (host : String)
    (probes : Assoc Probe)
    → str_eq host "" ≡ false
    → IsOk (render_secure_probes to_string config cp host probes)
unfolding render_secure_probes
render_secure_probes-IsOk to_string config cp host probes hh =
    and_then-IsOk _ _ (render_into-IsOk to_string config cp host _ _ "10257" _ _ probes hh refl)
      (λ rendered. render_into-IsOk to_string config cp host _ _ "10259" _ _ rendered hh refl)

-- generateProbes never fails: the default ports, the certificate paths and the loopback address are
-- not empty, whatever the configuration, so none of the errors of probe.go is returned.
pub generate_probes_ok :
    (to_string : Value → String) (cp : ControlPlane) (entry : PlanEntry) (config : Assoc Value)
    → (probes : Assoc Probe) × (generate_probes to_string cp entry config ≡ ok probes)
unfolding generate_probes
generate_probes_ok to_string cp entry config =
    and_then-IsOk _ _
      (if-IsOk (is_control_plane entry) _ _
        (render_secure_probes-IsOk to_string config cp _ _ (get_loopback_address-not_empty cp)))
      (λ rendered. (replace_url_for_probes rendered (get_loopback_address cp), refl))
