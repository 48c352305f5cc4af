-- ===== src/Planner/S3Args.antt =====
-- pkg/planner/s3args.go: the arguments, environment and files for etcd snapshots that are kept in S3.
use cluster_api_provider_ran.Prelude.{
  ℕ, String, Bool, false, not, ◌&&◌, ◌||◌, Option, none, some, List, [], ◌∷◌, ◌++◌, Assoc, get,
  insert, is_empty, has_suffix, str_eq, ◌<>◌, if◌then◌else◌,
}
use cluster_api_provider_ran.Errors.{wrap, Result, ok, err, and_then}
use cluster_api_provider_ran.Plan.{File}
use cluster_api_provider_ran.Objects.{KubeSecret, Api}
use cluster_api_provider_ran.ControlPlane.{
  ControlPlane, EtcdSnapshotS3, get_runtime, get_distro_data_dir,
}
use cluster_api_provider_ran.Paths.{join_path}

-- The cache of the secrets, wrangler's kv.RSplit and name.Hex, the test for base64 text, and Rancher's
-- global namespace.
pub record S3Api : Type 0 where
  pub cached_secret : String → String → Result KubeSecret
  pub kv_rsplit : String → String → String × String
  pub name_hex : String → ℕ → String
  pub is_base64 : String → Bool
  pub global_namespace : String

unfoldable pub first_non_blank : String → String → String
first_non_blank one two = if str_eq one "" then two else one

unfoldable pub s3_enabled : Option EtcdSnapshotS3 → Bool
s3_enabled none = false
s3_enabled (some s3) =
    not (str_eq s3.bucket "")
    || not (str_eq s3.endpoint "")
    || not (str_eq s3.folder "")
    || not (str_eq s3.cloud_credential_name "")
    || not (str_eq s3.region "")

pub record S3Credential : Type 0 where
  pub access_key : String
  pub secret_key : String
  pub region : String
  pub endpoint : String
  pub endpoint_ca : String
  pub skip_ssl_verify : Bool
  pub bucket : String
  pub folder : String

abbrev no_credential : S3Credential
no_credential = record {
  access_key = "";
  secret_key = "";
  region = "";
  endpoint = "";
  endpoint_ca = "";
  skip_ssl_verify = false;
  bucket = "";
  folder = "";
}

-- The entry of config.go's `filePaths` for the name, which has one.
unfoldable pub config_file : ControlPlane → String → String
unfolding get_distro_data_dir get_runtime
config_file cp filename =
    if str_eq filename "private-registry"
    then "/etc/rancher/" <> get_runtime cp.kubernetes_version <> "/registries.yaml"
    else join_path (get_distro_data_dir cp) (join_path "etc/config-files" filename)

abbrev plain_file : String → String → File
plain_file content path = record {
  content = content;
  path = path;
  permissions = "";
  dynamic = false;
  minor = false;
}

-- The arguments, the environment and the files
pub record Rendered : Type 0 where
  pub args : List String
  pub env : List String
  pub files : List File

abbrev pub nothing_rendered : Rendered
nothing_rendered = record { args = []; env = []; files = [] }

-- An argument where its value is not empty
unfoldable pub arg_unless_empty : String → String → List String
arg_unless_empty name value = if str_eq value "" then [] else (name <> "=" <> value) ∷ []

module _ {S : Type 0} (api : Api S) (s3_api : S3Api) (cp : ControlPlane) where
  unfoldable pub get_cloud_credential_secret : String → String → Result KubeSecret
  get_cloud_credential_secret namespace name =
      let (global_namespace, global_name) = api.kv_split name ":" in
      if not (str_eq global_name "") && str_eq global_namespace s3_api.global_namespace
      then s3_api.cached_secret global_namespace global_name
      else s3_api.cached_secret namespace name

  -- The loop that takes the prefix of each key away. Go's order over the keys is any; keys that end
  -- in the same name would make a difference.
  unfoldable pub short_keys : Assoc String → Assoc String
  short_keys [] = []
  short_keys ((k, v) ∷ rest) = insert (s3_api.kv_rsplit k "-").1 v (short_keys rest)

  abbrev credential_of : Assoc String → S3Credential
  credential_of contents = record {
    access_key = get "accessKey" contents;
    secret_key = get "secretKey" contents;
    region = get "defaultRegion" contents;
    endpoint = get "defaultEndpoint" contents;
    endpoint_ca = get "defaultEndpointCA" contents;
    skip_ssl_verify = str_eq (get "defaultSkipSSLVerify" contents) "true";
    bucket = get "defaultBucket" contents;
    folder = get "defaultFolder" contents;
  }

  unfoldable pub credential_from : Result KubeSecret → Result S3Credential
  unfolding short_keys
  credential_from (err e) = err (wrap "failed to lookup etcdSnapshotCloudCredentialName: " e)
  credential_from (ok secret) = ok (credential_of (short_keys secret.contents))

  unfoldable pub get_s3_credential : String → String → Result S3Credential
  unfolding get_cloud_credential_secret credential_from
  get_s3_credential namespace name =
      if str_eq name ""
      then ok no_credential
      else credential_from (get_cloud_credential_secret namespace name)

  abbrev ca_name : String → String
  ca_name v = "s3-endpoint-ca-" <> s3_api.name_hex v 5 <> ".crt"

  -- A text that is no base64 is encoded.
  unfoldable pub encoded : String → String
  encoded v = if s3_api.is_base64 v then v else api.encode_base64 v

  unfoldable pub generate_endpoint_ca_file_if_path_matches : String → String → Option File
  unfolding config_file encoded
  generate_endpoint_ca_file_if_path_matches existing_path endpoint_ca =
      if str_eq existing_path (config_file cp (ca_name endpoint_ca))
      then some (plain_file (encoded endpoint_ca) (config_file cp (ca_name endpoint_ca)))
      else none

  abbrev file_list : Option File → List File
  file_list none = []
  file_list (some f) = f ∷ []

  abbrev control_plane_ca : Option EtcdSnapshotS3 → String
  control_plane_ca none = ""
  control_plane_ca (some s3) = s3.endpoint_ca

  abbrev control_plane_credential : Option EtcdSnapshotS3 → String
  control_plane_credential none = ""
  control_plane_credential (some s3) = s3.cloud_credential_name

  -- The certificate of a snapshot that has the path of the file alone
  unfoldable pub found_ca : String → S3Credential → List File
  unfolding generate_endpoint_ca_file_if_path_matches
  found_ca v credential =
      if not (str_eq credential.endpoint_ca "")
      then file_list (generate_endpoint_ca_file_if_path_matches v credential.endpoint_ca)
      else if not (str_eq (control_plane_ca cp.etcd_s3) "")
      then file_list (generate_endpoint_ca_file_if_path_matches v (control_plane_ca cp.etcd_s3))
      else []

  unfoldable pub endpoint_ca_rendered : String → EtcdSnapshotS3 → S3Credential → String → Rendered
  unfolding found_ca encoded config_file
  endpoint_ca_rendered prefix s3 credential v =
      if str_eq v ""
      then nothing_rendered
      else if str_eq v s3.endpoint_ca && has_suffix v ".crt"
      then record {
        args = ("--" <> prefix <> "s3-endpoint-ca=" <> v) ∷ [];
        env = [];
        files = found_ca v credential;
      }
      else let path = config_file cp (ca_name (encoded v)) in
        record {
          args = ("--" <> prefix <> "s3-endpoint-ca=" <> path) ∷ [];
          env = [];
          files = plain_file (encoded v) path ∷ [];
        }

  unfoldable pub secret_key_rendered : String → Bool → String → Rendered
  secret_key_rendered prefix in_env secret_key =
      if str_eq secret_key ""
      then nothing_rendered
      else if in_env
      then record nothing_rendered { env = ("AWS_SECRET_ACCESS_KEY=" <> secret_key) ∷ [] }
      else record nothing_rendered {
        args = ("--" <> prefix <> "s3-secret-key=" <> secret_key) ∷ [];
      }

  abbrev with_flag : String → Rendered → Rendered
  with_flag prefix r =
      if is_empty r.args then r else record r { args = r.args ++ ("--" <> prefix <> "s3") ∷ [] }

  unfoldable pub render_with : EtcdSnapshotS3 → String → Bool → S3Credential → Rendered
  unfolding first_non_blank arg_unless_empty endpoint_ca_rendered secret_key_rendered
  render_with s3 prefix in_env credential =
      let arg : String → String = λ name. "--" <> prefix <> name in
      let secret_key = secret_key_rendered prefix in_env credential.secret_key in
      let ca =
        endpoint_ca_rendered prefix s3 credential
          (first_non_blank s3.endpoint_ca credential.endpoint_ca) in
      with_flag prefix (record {
        args =
            arg_unless_empty (arg "s3-bucket") (first_non_blank s3.bucket credential.bucket)
            ++ arg_unless_empty (arg "s3-access-key") credential.access_key
            ++ secret_key.args
            ++ arg_unless_empty (arg "s3-region") (first_non_blank s3.region credential.region)
            ++ arg_unless_empty (arg "s3-folder") (first_non_blank s3.folder credential.folder)
            ++ arg_unless_empty (arg "s3-endpoint")
                (first_non_blank s3.endpoint credential.endpoint)
            ++ (if s3.skip_ssl_verify || credential.skip_ssl_verify
                then arg "s3-skip-ssl-verify" ∷ []
                else [])
            ++ ca.args;
        env = secret_key.env;
        files = ca.files;
      })

  unfoldable pub to_args : Option EtcdSnapshotS3 → String → Bool → Result Rendered
  unfolding s3_enabled first_non_blank get_s3_credential render_with
  to_args none prefix in_env = ok nothing_rendered
  to_args (some s3) prefix in_env =
      if not (s3_enabled (some s3))
      then ok nothing_rendered
      else and_then
          (get_s3_credential cp.namespace
            (first_non_blank s3.cloud_credential_name (control_plane_credential cp.etcd_s3)))
          (λ credential. ok (render_with s3 prefix in_env credential))
