-- ===== src/Planner/Args/Mounts.antt =====
-- renderArgAndMount in pkg/planner/planner.go: the values of the rendered arguments, key by key, and
-- the mount that goes with them.
use cluster_api_provider_ran.Prelude.{
  ◌&&◌, String, true, ◌≡◌, inl, inr, ap, ◌∙◌, Str-cases, Option, none, some, List, [], ◌∷◌, ◌++◌,
  str_eq, str_eq_ne, if◌then◌else◌, arith, or_zero, Option-cases, absurd,
}
use cluster_api_provider_ran.ControlPlane.{ControlPlane, get_runtime, get_distro_data_dir}
use mathlib.Core.Path.{subst}
use cluster_api_provider_ran.Paths.{join_path, dir}
use cluster_api_provider_ran.Names
use cluster_api_provider_ran.Objects.{Value}
use cluster_api_provider_ran.Planner.Args.{
  secure_port_argument, cert_dir_argument, tls_cert_file_argument, find_arg, get_arg_value,
  convert_interface_to_string_slice, mount_of, render_arg_and_mount,
}
use cluster_api_provider_ran.Planner.Args.Setting.{
  or_else, find_arg-append, find_arg-if, split_two-cert_dir, split_two-secure_port, or_else-none,
}
use cluster_api_provider_ran.Planner.Args.Rendering.{
  unset, added_args, args_of_rendering, mounted_dir, mounts_of_rendering,
}

-- The value that renderArgAndMount adds for a key that the user has not set
abbrev pub added_value : List String → String → String → String → Option String
added_value args cert_dir port key =
    if str_eq cert_dir_argument key
    then if unset args tls_cert_file_argument then some cert_dir else none
    else if str_eq secure_port_argument key
    then some port
    else none

find_arg-added_args :
    (args : List String) (d p key : String)
    → find_arg (added_args args d p) key "="
      ≡ or_else
          (if (unset args tls_cert_file_argument && unset args cert_dir_argument)
              && str_eq cert_dir_argument key
            then some d
            else none)
          (if unset args secure_port_argument && str_eq secure_port_argument key
            then some p
            else none)
find_arg-added_args args d p key = simp (
  find_arg-append,
  find_arg-if _ cert_dir_argument d key split_two-cert_dir,
  find_arg-if _ secure_port_argument p key split_two-secure_port,
)

unset-missing :
    (args : List String) (key : String) → find_arg args key "=" ≡ none → unset args key ≡ true
unset-missing args key h = ap (λ o. str_eq (or_zero "" o) "") h

module _ (args : List String) (d p : String) where
  -- What is added for a key that is not set
  abbrev AddsFor : String → Type 0
  AddsFor key =
      find_arg args key "=" ≡ none
      → find_arg (added_args args d p) key "=" ≡ added_value args d p key

  adds-cert_dir : AddsFor cert_dir_argument
  adds-cert_dir h =
      find_arg-added_args args d p cert_dir_argument
      ∙ ground (arith, unset-missing args cert_dir_argument h)

  adds-secure_port : AddsFor secure_port_argument
  adds-secure_port h =
      find_arg-added_args args d p secure_port_argument
      ∙ ground (arith, unset-missing args secure_port_argument h)

  added_to : (key : String) → AddsFor key
  added_to key h = elim (Str-cases cert_dir_argument key) [
    | inl e ↦ subst AddsFor e adds-cert_dir h
    | inr n ↦ elim (Str-cases secure_port_argument key) [
      | inl e ↦ subst AddsFor e adds-secure_port h
      | inr m ↦
          find_arg-added_args args d p key
          ∙ ground (arith, str_eq_ne cert_dir_argument key n, str_eq_ne secure_port_argument key m)
    ]
  ]

or_else-added_args :
    (args : List String) (d p key : String)
    → or_else (find_arg args key "=") (find_arg (added_args args d p) key "=")
      ≡ or_else (find_arg args key "=") (added_value args d p key)
or_else-added_args args d p key = elim (Option-cases (find_arg args key "=")) [
  | inl h ↦ simp (h, added_to args d p key h)
  | inr (v, h) ↦ simp (h)
]

-- A key has in the rendered arguments the value that it has in the user's arguments. Where the user
-- does not set it, only cert-dir and secure-port get a value: cert-dir the joined default directory,
-- unless the user sets tls-cert-file to a value that is not empty, and secure-port the default port.
pub render_arg_and_mount-args :
    (arg mount : Value) (cp : ControlPlane) (port cert_dir key : String)
    → let args = convert_interface_to_string_slice arg in
      find_arg (render_arg_and_mount arg mount cp port cert_dir).0 key "="
      ≡ or_else
          (find_arg args key "=")
          (added_value args (join_path (get_distro_data_dir cp) cert_dir) port key)
render_arg_and_mount-args arg mount cp port cert_dir key =
    ap (λ l. find_arg l key "=") (args_of_rendering arg mount cp port cert_dir)
    ∙ find_arg-append (convert_interface_to_string_slice arg) _ key "="
    ∙ or_else-added_args (convert_interface_to_string_slice arg) _ port key

-- The directory with the certificate that the arguments name
abbrev pub served_dir : List String → String
served_dir args =
    if str_eq (get_arg_value (Value.strings args) tls_cert_file_argument "=") ""
    then get_arg_value (Value.strings args) cert_dir_argument "="
    else dir (get_arg_value (Value.strings args) tls_cert_file_argument "=")

mount_dir :
    (tls cert : Option String) (d : String)
    → (cert ≡ some "" → ⊥)
    → (if str_eq (or_zero "" tls) ""
        then if str_eq (or_zero "" cert) "" then d else or_zero "" cert
        else dir (or_zero "" tls))
      ≡ (if str_eq (or_zero "" tls) ""
          then or_zero "" (or_else cert (if str_eq (or_zero "" tls) "" then some d else none))
          else dir (or_zero "" tls))
mount_dir tls none d h = ground arith
mount_dir tls (some c) d h = elim (Str-cases c "") [
  | inl e ↦ absurd (ground (arith, h (ap some e)))
  | inr n ↦ simp (str_eq_ne c "" n)
]

mounted_dir_lem :
    (arg mount : Value) (cp : ControlPlane) (port cert_dir : String)
    → (find_arg (convert_interface_to_string_slice arg) cert_dir_argument "=" ≡ some "" → ⊥)
    → mounted_dir
        (convert_interface_to_string_slice arg)
        (join_path (get_distro_data_dir cp) cert_dir)
      ≡ served_dir (render_arg_and_mount arg mount cp port cert_dir).0
unfolding get_arg_value
mounted_dir_lem arg mount cp port cert_dir h =
    mount_dir (find_arg (convert_interface_to_string_slice arg) tls_cert_file_argument "=")
      (find_arg (convert_interface_to_string_slice arg) cert_dir_argument "=")
      (join_path (get_distro_data_dir cp) cert_dir) h
    ∙ simp (
      render_arg_and_mount-args arg mount cp port cert_dir tls_cert_file_argument,
      render_arg_and_mount-args arg mount cp port cert_dir cert_dir_argument,
      or_else-none,
    )

-- The mounts go with the arguments: on rke2 the user's mounts are followed by one mount, of the
-- directory with the certificate that the rendered arguments name, and elsewhere by none. The user's
-- arguments must not set cert-dir to the empty value.
pub render_arg_and_mount-mounts :
    (arg mount : Value) (cp : ControlPlane) (port cert_dir : String)
    → (find_arg (convert_interface_to_string_slice arg) cert_dir_argument "=" ≡ some "" → ⊥)
    → (render_arg_and_mount arg mount cp port cert_dir).1
      ≡ convert_interface_to_string_slice mount
        ++ (if str_eq (get_runtime cp.kubernetes_version) Names.runtime_rke2
            then mount_of (served_dir (render_arg_and_mount arg mount cp port cert_dir).0) ∷ []
            else [])
render_arg_and_mount-mounts arg mount cp port cert_dir h =
    mounts_of_rendering arg mount cp port cert_dir
    ∙ simp (mounted_dir_lem arg mount cp port cert_dir h)
