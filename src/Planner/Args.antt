-- ===== src/Planner/Args.antt =====
-- pkg/planner/planner.go: the arguments and mounts of a component in the distribution's configuration.
pub mod Laws
pub mod Setting
pub mod Rendering
pub mod Mounts
use cluster_api_provider_ran.Prelude.{
  ℕ, ◌==◌, String, Bool, true, false, not, ◌&&◌, Option, none, some, List, [], ◌∷◌, ◌++◌, Assoc,
  lookup, delete, keys, is_empty, str_eq, ◌<>◌, if◌then◌else◌, or_zero,
}
use cluster_api_provider_ran.Objects.{Element, Value}
use cluster_api_provider_ran.ControlPlane.{ControlPlane, get_runtime, get_distro_data_dir}
use cluster_api_provider_ran.Paths.{join_path, dir}
use cluster_api_provider_ran.Names
use Prim.Native.Char.{Char, code}

abbrev pub secure_port_argument : String
secure_port_argument = "secure-port"

abbrev pub cert_dir_argument : String
cert_dir_argument = "cert-dir"

abbrev pub tls_cert_file_argument : String
tls_cert_file_argument = "tls-cert-file"

-- What follows `prefix` in a text
unfoldable pub strip_prefix : String → String → Option String
strip_prefix String.[] s = some s
strip_prefix (String.◌∷◌ d prefix) String.[] = none
strip_prefix (String.◌∷◌ d prefix) (String.◌∷◌ c s) =
    if code d == code c then strip_prefix prefix s else none

-- The two parts, or those of the rest with `c` before the first
unfoldable pub first_or : Char → Option String → Option (String × String) → Option (String × String)
first_or c (some after) parts = some ("", after)
first_or c none none = none
first_or c none (some (key, value)) = some (String.◌∷◌ c key, value)

-- strings.SplitN into two, at a delimiter that is not empty
unfoldable pub split_two : String → String → Option (String × String)
unfolding strip_prefix first_or
split_two delim String.[] = none
split_two delim (String.◌∷◌ c s) =
    first_or c (strip_prefix delim (String.◌∷◌ c s)) (split_two delim s)

-- splitArgKeyVal
unfoldable pub split_arg_key_val : String → String → String × String
unfolding split_two
split_arg_key_val value delim = or_zero ("", "") (split_two delim value)

-- The loop of getArgValue: the value of the first argument with the key
unfoldable pub find_arg : List String → String → String → Option String
unfolding split_arg_key_val
find_arg [] search_arg delim = none
find_arg (a ∷ args) search_arg delim =
    let (key, value) = split_arg_key_val a delim in
    if str_eq key search_arg then some value else find_arg args search_arg delim

-- convertInterfaceSliceToStringSlice
unfoldable pub convert_interface_slice_to_string_slice : List Element → List String
convert_interface_slice_to_string_slice [] = []
convert_interface_slice_to_string_slice (x ∷ xs) =
    x.printed ∷ convert_interface_slice_to_string_slice xs

-- getArgValue
unfoldable pub get_arg_value : Value → String → String → String
unfolding find_arg convert_interface_slice_to_string_slice
get_arg_value (Value.interfaces xs) search_arg delim =
    or_zero "" (find_arg (convert_interface_slice_to_string_slice xs) search_arg delim)
get_arg_value (Value.strings args) search_arg delim = or_zero "" (find_arg args search_arg delim)
get_arg_value (Value.string s) search_arg delim =
    let (key, value) = split_arg_key_val s delim in if str_eq key search_arg then value else ""
get_arg_value Value.nil search_arg delim = ""
get_arg_value (Value.other x) search_arg delim = ""

-- appendToInterface
unfoldable pub append_to_interface : Value → String → List String
unfolding convert_interface_slice_to_string_slice
append_to_interface (Value.interfaces xs) elem =
    convert_interface_slice_to_string_slice xs ++ (elem ∷ [])
append_to_interface (Value.strings args) elem = args ++ (elem ∷ [])
append_to_interface (Value.string s) elem = s ∷ elem ∷ []
append_to_interface Value.nil elem = elem ∷ []
append_to_interface (Value.other x) elem = elem ∷ []

-- convertInterfaceToStringSlice
unfoldable pub convert_interface_to_string_slice : Value → List String
unfolding convert_interface_slice_to_string_slice
convert_interface_to_string_slice (Value.interfaces xs) = convert_interface_slice_to_string_slice xs
convert_interface_to_string_slice (Value.strings args) = args
convert_interface_to_string_slice (Value.string s) = s ∷ []
convert_interface_to_string_slice Value.nil = []
convert_interface_to_string_slice (Value.other x) = []

-- The variables certDirArg, certDirMount and securePortArg of renderArgAndMount
pub record Rendered : Type 0 where
  pub cert_dir_arg : String
  pub cert_dir_mount : String
  pub secure_port_arg : String

unfoldable pub mount_of : String → String
mount_of d = d <> ":" <> d

unfoldable pub default_rendering : String → String → Rendered
unfolding mount_of
default_rendering rendered_cert_dir default_secure_port = record {
  cert_dir_arg = cert_dir_argument <> "=" <> rendered_cert_dir;
  cert_dir_mount = mount_of rendered_cert_dir;
  secure_port_arg = secure_port_argument <> "=" <> default_secure_port;
}

unfoldable pub use_cert_dir : String → Rendered → Rendered
unfolding mount_of
use_cert_dir cert_dir r =
    if str_eq cert_dir ""
    then r
    else record r { cert_dir_arg = ""; cert_dir_mount = mount_of cert_dir }

unfoldable pub use_tls_cert_file : String → String → Rendered → Rendered
unfolding use_cert_dir
use_tls_cert_file tls_cf cert_dir r =
    if str_eq tls_cf ""
    then use_cert_dir cert_dir r
    else record r { cert_dir_arg = ""; cert_dir_mount = mount_of (dir tls_cf) }

unfoldable pub use_secure_port : String → Rendered → Rendered
use_secure_port port r = if str_eq port "" then r else record r { secure_port_arg = "" }

-- The block under `len(retArg) > 0`
unfoldable pub use_arguments : List String → Rendered → Rendered
unfolding use_tls_cert_file use_secure_port
use_arguments args r =
    if is_empty args
    then r
    else use_secure_port (get_arg_value (Value.strings args) secure_port_argument "=") (
        use_tls_cert_file (get_arg_value (Value.strings args) tls_cert_file_argument "=")
          (get_arg_value (Value.strings args) cert_dir_argument "=") r)

unfoldable pub append_unless_empty : Value → List String → String → List String
append_unless_empty existing converted elem =
    if str_eq elem "" then converted else append_to_interface existing elem

unfoldable pub put_together :
    Value → Value → ControlPlane → List String → List String → Rendered → List String × List String
unfolding append_unless_empty
put_together existing_arg existing_mount control_plane ret_arg ret_mount r =
    let with_cert_dir = append_unless_empty existing_arg ret_arg r.cert_dir_arg in
    let args = append_unless_empty (Value.strings with_cert_dir) with_cert_dir r.secure_port_arg in
    (
      args,
      if str_eq (get_runtime control_plane.kubernetes_version) Names.runtime_rke2
          then append_to_interface existing_mount r.cert_dir_mount
          else ret_mount,
    )

-- renderArgAndMount
unfoldable pub render_arg_and_mount :
    Value → Value → ControlPlane → String → String → List String × List String
unfolding default_rendering use_arguments put_together
render_arg_and_mount existing_arg existing_mount control_plane default_secure_port
      default_cert_dir =
    let ret_arg = convert_interface_to_string_slice existing_arg in
    let rendered_cert_dir = join_path (get_distro_data_dir control_plane) default_cert_dir in
    put_together existing_arg existing_mount control_plane ret_arg
      (convert_interface_to_string_slice existing_mount)
      (use_arguments ret_arg (default_rendering rendered_cert_dir default_secure_port))

-- The values that PruneEmpty deletes
unfoldable pub is_empty_value : Value → Bool
is_empty_value Value.nil = true
is_empty_value (Value.string s) = str_eq s ""
is_empty_value (Value.strings args) = is_empty args
is_empty_value (Value.interfaces xs) = is_empty xs
is_empty_value (Value.other x) = false

unfoldable pub has_empty_value : Option Value → Bool
unfolding is_empty_value
has_empty_value none = false
has_empty_value (some v) = is_empty_value v

-- The loop of PruneEmpty, on the keys that are left
unfoldable pub prune_keys : List String → Assoc Value → Assoc Value
unfolding has_empty_value
prune_keys [] config = config
prune_keys (k ∷ ks) config =
    prune_keys ks (if has_empty_value (lookup k config) then delete k config else config)

-- PruneEmpty
unfoldable pub prune_empty : Assoc Value → Assoc Value
unfolding prune_keys
prune_empty config = prune_keys (keys config) config
