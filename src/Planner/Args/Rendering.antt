-- ===== src/Planner/Args/Rendering.antt =====
-- What renderArgAndMount of pkg/planner/planner.go adds to the user's arguments and mounts.
use cluster_api_provider_ran.Prelude.{
  ◌&&◌, String, Bool, true, false, ◌≡◌, inl, inr, refl, ap, ◌∙◌, none, List, [], ◌∷◌, ◌++◌, str_eq,
  if◌then◌else◌, arith, or_zero, Bool-cases,
}
use cluster_api_provider_ran.ControlPlane.{ControlPlane, get_runtime, get_distro_data_dir}
use mathlib.Core.List.{append-nil, append_assoc}
use cluster_api_provider_ran.Paths.{join_path, dir}
use cluster_api_provider_ran.Names
use cluster_api_provider_ran.Objects.{Value}
use cluster_api_provider_ran.Planner.Args.{
  Rendered, secure_port_argument, cert_dir_argument, tls_cert_file_argument, find_arg,
  get_arg_value, append_to_interface, convert_interface_to_string_slice, mount_of,
  default_rendering, use_arguments, use_cert_dir, use_tls_cert_file, use_secure_port,
  append_unless_empty, put_together, render_arg_and_mount, split_two,
}
use cluster_api_provider_ran.Planner.Args.Setting.{
  setting, setting-not_empty, split_two-cert_dir, split_two-secure_port,
}

append_to_interface_lem :
    (v : Value) (elem : String)
    → append_to_interface v elem ≡ convert_interface_to_string_slice v ++ (elem ∷ [])
unfolding append_to_interface convert_interface_to_string_slice
append_to_interface_lem (Value.interfaces xs) elem = refl
append_to_interface_lem (Value.strings args) elem = refl
append_to_interface_lem (Value.string s) elem = refl
append_to_interface_lem Value.nil elem = refl
append_to_interface_lem (Value.other x) elem = refl

-- The value of an argument is empty where the argument is missing.
abbrev pub unset : List String → String → Bool
unset args key = str_eq (or_zero "" (find_arg args key "=")) ""

abbrev pub added_args : List String → String → String → List String
added_args args cert_dir port =
    (if unset args tls_cert_file_argument && unset args cert_dir_argument
      then setting cert_dir_argument cert_dir ∷ []
      else [])
    ++ (if unset args secure_port_argument then setting secure_port_argument port ∷ [] else [])

use_arguments_lem :
    (args : List String) (r : Rendered)
    → use_arguments args r
      ≡ use_secure_port (or_zero "" (find_arg args secure_port_argument "=")) (
          use_tls_cert_file
            (or_zero "" (find_arg args tls_cert_file_argument "="))
            (or_zero "" (find_arg args cert_dir_argument "="))
            r)
unfolding use_arguments get_arg_value find_arg use_secure_port use_tls_cert_file use_cert_dir
use_arguments_lem [] r = refl
use_arguments_lem (a ∷ args) r = refl

append_unless_empty_lem :
    (v : Value) (elem : String)
    → append_unless_empty v (convert_interface_to_string_slice v) elem
      ≡ convert_interface_to_string_slice v ++ (if str_eq elem "" then [] else elem ∷ [])
unfolding append_unless_empty
append_unless_empty_lem v elem = elim (Bool-cases (str_eq elem "")) [
  | inl h ↦ simp (h, append-nil)
  | inr h ↦ simp (h, append_to_interface_lem)
]

append_both :
    (v : Value) (a b : String)
    → append_unless_empty
        (Value.strings (append_unless_empty v (convert_interface_to_string_slice v) a))
        (append_unless_empty v (convert_interface_to_string_slice v) a)
        b
      ≡ convert_interface_to_string_slice v
        ++ ((if str_eq a "" then [] else a ∷ []) ++ (if str_eq b "" then [] else b ∷ []))
unfolding convert_interface_to_string_slice
append_both v a b =
    append_unless_empty_lem
      (Value.strings (append_unless_empty v (convert_interface_to_string_slice v) a)) b
    ∙ ap (λ l. l ++ (if str_eq b "" then [] else b ∷ [])) (append_unless_empty_lem v a)
    ∙ append_assoc (convert_interface_to_string_slice v) _ _

if-setting :
    (c : Bool) (k v : String)
    → split_two "=" k ≡ none
    → (if str_eq (if c then setting k v else "") ""
        then []
        else (if c then setting k v else "") ∷ [])
      ≡ (if c then setting k v ∷ [] else [])
if-setting true k v h = simp (setting-not_empty k v h)
if-setting false k v h = refl

-- The fields after the three questions to the arguments
module _ (tls cert port : String) (d p : String) where
  unfoldable asked : Rendered
  asked = use_secure_port port (use_tls_cert_file tls cert (default_rendering d p))

  asked-cert_dir_arg :
      asked.cert_dir_arg
      ≡ (if str_eq tls "" && str_eq cert "" then setting cert_dir_argument d else "")
  unfolding asked use_secure_port use_tls_cert_file use_cert_dir default_rendering
  asked-cert_dir_arg = ground arith

  asked-secure_port_arg :
      asked.secure_port_arg ≡ (if str_eq port "" then setting secure_port_argument p else "")
  unfolding asked use_secure_port use_tls_cert_file use_cert_dir default_rendering
  asked-secure_port_arg = ground arith

  asked-cert_dir_mount :
      asked.cert_dir_mount
      ≡ mount_of (if str_eq tls "" then if str_eq cert "" then d else cert else dir tls)
  unfolding asked use_secure_port use_tls_cert_file use_cert_dir default_rendering
  asked-cert_dir_mount = ground arith

use_arguments-default_rendering :
    (args : List String) (d p : String)
    → use_arguments args (default_rendering d p)
      ≡ asked
          (or_zero "" (find_arg args tls_cert_file_argument "="))
          (or_zero "" (find_arg args cert_dir_argument "="))
          (or_zero "" (find_arg args secure_port_argument "="))
          d
          p
unfolding asked
use_arguments-default_rendering args d p = use_arguments_lem args (default_rendering d p)

pub args_of_rendering :
    (arg mount : Value) (cp : ControlPlane) (port cert_dir : String)
    → (render_arg_and_mount arg mount cp port cert_dir).0
      ≡ convert_interface_to_string_slice arg
        ++ added_args
            (convert_interface_to_string_slice arg)
            (join_path (get_distro_data_dir cp) cert_dir)
            port
unfolding render_arg_and_mount put_together
args_of_rendering arg mount cp port cert_dir = simp (
  append_both arg,
  use_arguments-default_rendering,
  asked-cert_dir_arg,
  asked-secure_port_arg,
  if-setting _ cert_dir_argument _ split_two-cert_dir,
  if-setting _ secure_port_argument _ split_two-secure_port,
)

-- The directory that renderArgAndMount mounts
abbrev pub mounted_dir : List String → String → String
mounted_dir args d =
    if unset args tls_cert_file_argument
    then if unset args cert_dir_argument
      then d
      else or_zero "" (find_arg args cert_dir_argument "=")
    else dir (or_zero "" (find_arg args tls_cert_file_argument "="))

pub mounts_of_rendering :
    (arg mount : Value) (cp : ControlPlane) (port cert_dir : String)
    → (render_arg_and_mount arg mount cp port cert_dir).1
      ≡ convert_interface_to_string_slice mount
        ++ (if str_eq (get_runtime cp.kubernetes_version) Names.runtime_rke2
            then mount_of (
                mounted_dir
                  (convert_interface_to_string_slice arg)
                  (join_path (get_distro_data_dir cp) cert_dir))
              ∷ []
            else [])
unfolding render_arg_and_mount put_together
mounts_of_rendering arg mount cp port cert_dir =
    elim (Bool-cases (str_eq (get_runtime cp.kubernetes_version) Names.runtime_rke2)) [
      | inl h ↦
          simp (h, append_to_interface_lem, use_arguments-default_rendering, asked-cert_dir_mount)
      | inr h ↦ simp (h, append-nil)
    ]
