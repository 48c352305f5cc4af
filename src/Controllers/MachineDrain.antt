-- ===== src/Controllers/MachineDrain.antt =====
-- pkg/controllers/machinedrain/machinedrain.go: the controller that drains and releases nodes when
-- the annotations of their plan secrets ask for it.
pub mod Stored
pub mod Safety
pub mod Made
pub mod Progress
use cluster_api_provider_ran.Prelude.{
  ℕ, zero, suc, String, Bool, true, false, not, ◌&&◌, ◌||◌, Option, none, some, List, [], ◌∷◌,
  Assoc, lookup, insert, delete, get, ℤ, pos, int_eq, str_eq, is_some, is_empty, ◌<>◌,
  if◌then◌else◌,
}
use cluster_api_provider_ran.Errors.{
  Error, other, message, Result, ok, err, Run, pure, raise, lift, error_of, ◌>>=◌, ◌>>◌, run_if,
}
use cluster_api_provider_ran.Objects.{Machine, KubeSecret, DrainHook, DrainOptions, Api}
use cluster_api_provider_ran.Names

-- kubectl's drain.Helper over a client `K`, with the fields that the controller sets
pub record Helper (K : Type 0) : Type 0 where
  pub client : K
  pub force : Bool
  pub grace_period_seconds : ℤ
  pub ignore_all_daemon_sets : Bool
  pub timeout_seconds : ℤ
  pub delete_empty_dir_data : Bool
  pub disable_eviction : Bool
  pub skip_wait_for_delete_timeout_seconds : ℤ

-- What the controller calls outside the repository, over the state `S` of both API servers: the
-- caches, the client of the downstream cluster, kubectl's drain, and JSON.
pub record NodeApi (S K : Type 0) : Type 0 where
  pub cached_machine : String → String → Run S Machine
  pub cached_secret : String → String → Run S KubeSecret
  pub machine_cluster_name : Machine → String
  pub rest_client : String → Result K
  pub get_node : K → String → Run S String
  pub run_cordon_or_uncordon : Helper K → String → Bool → Run S (Unit {0})
  pub run_node_drain : Helper K → String → Run S (Unit {0})
  pub unmarshal_drain_options : String → Result DrainOptions
  pub is_conflict : Error → Bool

-- The pair (*corev1.Secret, error) that the functions of the controller return. `none` is nil, or a
-- secret whose map of annotations is nil, which the deferred function takes for the same.
abbrev pub Answer : Type 0
Answer = Option KubeSecret × Option Error

abbrev pub secret_annotation : String → KubeSecret → String
secret_annotation k secret = get k secret.annotations

abbrev pub with_secret_annotation : String → String → KubeSecret → KubeSecret
with_secret_annotation k v secret = record secret { annotations = insert k v secret.annotations }

-- The zero value, which a client returns along with an error
abbrev pub empty_secret : KubeSecret
empty_secret = record {
  namespace = "";
  name = "";
  secret_type = "";
  deletion_timestamp = none;
  labels = [];
  annotations = [];
  contents = [];
}

-- secretAnnotationDoesNotHaveValue
unfoldable pub secret_annotation_does_not_have_value : String → String → KubeSecret → Bool
secret_annotation_does_not_have_value annotation value secret =
    not (str_eq (secret_annotation annotation secret) value)

unfoldable pub hook_answered : String → KubeSecret → DrainHook → Bool
hook_answered drain_data secret hook =
    str_eq hook.hook_annotation ""
    || str_eq (secret_annotation hook.hook_annotation secret) drain_data

-- checkHookAnnotations
unfoldable pub check_hook_annotations : String → List DrainHook → KubeSecret → Bool
unfolding hook_answered
check_hook_annotations drain_data [] secret = true
check_hook_annotations drain_data (hook ∷ hooks) secret =
    hook_answered drain_data secret hook && check_hook_annotations drain_data hooks secret

unfoldable pub delete_hooks : List DrainHook → Assoc String → Assoc String
delete_hooks [] annotations = annotations
delete_hooks (hook ∷ hooks) annotations =
    delete_hooks hooks (delete hook.hook_annotation annotations)

-- What cleanSecretAnnotationsIfCheckTrue deletes
unfoldable pub clean_annotations : DrainOptions → KubeSecret → KubeSecret
unfolding delete_hooks
clean_annotations options secret = record secret {
  annotations = delete_hooks options.post_drain_hooks (
      delete_hooks options.pre_drain_hooks (
        delete Names.uncordon_annotation (
          delete Names.drain_done_annotation (
            delete Names.drain_annotation (
              delete Names.post_drain_annotation
                (delete Names.pre_drain_annotation secret.annotations))))));
}

-- The variable `secret` that a closure shares with its function, with whether its map of annotations is
-- nil, and the server's state
pub record Held (S : Type 0) : Type 0 where
  pub secret : KubeSecret
  pub no_annotations : Bool
  pub server : S

abbrev pub held : {S : Type 0} → KubeSecret → S → Held S
held secret s = record { secret = secret; no_annotations = is_empty secret.annotations; server = s }

-- A machine without a node is not reached.
unfoldable pub has_node : Machine → Bool
has_node machine = elim machine.node_ref [ none ↦ false | some name ↦ not (str_eq name "") ]

abbrev pub node_name : Machine → String
node_name machine = elim machine.node_ref [ none ↦ "" | some name ↦ name ]

-- `none` is a nil pointer, which stands for true.
unfoldable pub ignores_daemon_sets : DrainOptions → Bool
ignores_daemon_sets options = elim options.ignore_daemon_sets [ none ↦ true | some b ↦ b ]

unfoldable pub helper_of : {K : Type 0} → K → DrainOptions → Helper K
unfolding ignores_daemon_sets
helper_of client options = record {
  client = client;
  force = options.force;
  grace_period_seconds = options.grace_period;
  ignore_all_daemon_sets = ignores_daemon_sets options;
  timeout_seconds = if int_eq options.timeout (pos 0) then pos 600 else options.timeout;
  delete_empty_dir_data = options.delete_empty_dir_data;
  disable_eviction = options.disable_eviction;
  skip_wait_for_delete_timeout_seconds = options.skip_wait_for_delete_timeout_seconds;
}

-- The secret that the deferred function works on
unfoldable pub secret_or_old : KubeSecret → Option KubeSecret → KubeSecret
secret_or_old old none = old
secret_or_old old (some secret) = secret

-- Whether the drain-error annotation says what it should
unfoldable pub error_recorded : Option Error → Option String → Bool
error_recorded none annotation = not (is_some annotation)
error_recorded (some e) none = str_eq "" (message e)
error_recorded (some e) (some recorded) = str_eq recorded (message e)

unfoldable pub record_error : Option Error → KubeSecret → KubeSecret
record_error (some e) secret =
    with_secret_annotation Names.drain_error_annotation (message e) secret
record_error none secret = record secret {
  annotations = delete Names.drain_error_annotation secret.annotations;
}

unfoldable pub is_ours : KubeSecret → Bool
is_ours secret =
    not (is_some secret.deletion_timestamp)
    && not (str_eq (get Names.machine_name_label secret.labels) "")
    && str_eq secret.secret_type Names.secret_type_machine_plan

module _ {S K : Type 0} (api : Api S) (nodes : NodeApi S K) where
  unfoldable pub retry_after :
      (Held S → Option Error × Held S) → Option Error × Held S → Option Error × Held S
  retry_after again (none, h) = (none, h)
  retry_after again (some e, h) = if nodes.is_conflict e then again h else (some e, h)

  -- retry.RetryOnConflict with the rounds left: client-go's DefaultRetry has five.
  unfoldable pub retry_on_conflict :
      ℕ → (Held S → Option Error × Held S) → Held S → Option Error × Held S
  unfolding retry_after
  retry_on_conflict zero body h = body h
  retry_on_conflict (suc left) body h = retry_after (retry_on_conflict left body) (body h)

  unfoldable pub send_held : KubeSecret → S → Option Error × Held S
  send_held secret s =
      let (r, s') = api.update_secret secret s in
      (error_of r, record { secret = secret; no_annotations = false; server = s' })

  unfoldable pub change_read :
      (KubeSecret → Bool)
      → (KubeSecret → KubeSecret)
      → Result KubeSecret × S
      → Option Error × Held S
  unfolding send_held
  change_read wanted change (err e, s) =
      (some e, record { secret = empty_secret; no_annotations = true; server = s })
  change_read wanted change (ok secret, s) =
      if wanted secret then send_held (change secret) s else (none, held secret s)

  -- The closures: the secret is read again, and sent where `wanted` says so, after `change`. The secret
  -- has annotations, those that asked for the drain, so the map that is written to is not nil.
  unfoldable pub change_if :
      (KubeSecret → Bool) → (KubeSecret → KubeSecret) → Held S → Option Error × Held S
  unfolding change_read
  change_if wanted change h =
      change_read wanted change (api.get_secret h.secret.namespace h.secret.name h.server)

  abbrev answer_held : Option Error × Held S → Answer × S
  answer_held (error, h) = ((if h.no_annotations then none else some h.secret, error), h.server)

  -- The secret that is returned is the variable after the retries.
  unfoldable pub update_secret_annotation_if_check_true :
      KubeSecret → String → String → (KubeSecret → Bool) → S → Answer × S
  unfolding retry_on_conflict change_if
  update_secret_annotation_if_check_true secret annotation value check s = answer_held (
      retry_on_conflict 4
        (change_if
          (λ stored. check stored && not (str_eq (secret_annotation annotation stored) value))
          (with_secret_annotation annotation value))
        (held secret s))

  unfoldable pub clean_secret_annotations_if_check_true :
      KubeSecret → DrainOptions → (KubeSecret → Bool) → S → Answer × S
  unfolding retry_on_conflict change_if clean_annotations
  clean_secret_annotations_if_check_true secret options check s =
      answer_held
        (retry_on_conflict 4 (change_if check (clean_annotations options)) (held secret s))

  unfoldable pub k8s_client : Machine → Run S K
  k8s_client machine = do
    secret ←
        nodes.cached_secret machine.namespace
          (api.safe_concat_name (nodes.machine_cluster_name machine ∷ "kubeconfig" ∷ []))
    lift (nodes.rest_client (get "value" secret.contents))

  unfoldable pub get_helper : Machine → DrainOptions → Run S (Helper K × String)
  unfolding k8s_client helper_of
  get_helper machine options = do
    client ← k8s_client machine
    node ← nodes.get_node client (node_name machine)
    pure (helper_of client options, node)

  unfoldable pub cordon_with : Bool → Machine → DrainOptions → Run S (Unit {0})
  unfolding get_helper
  cordon_with desired machine options = do
    (helper, node) ← get_helper machine options
    nodes.run_cordon_or_uncordon helper node desired

  unfoldable pub cordon : Machine → DrainOptions → Run S (Unit {0})
  unfolding has_node cordon_with
  cordon machine options =
      if not (has_node machine) then pure tt else cordon_with true machine options

  unfoldable pub perform_drain : Machine → DrainOptions → Run S (Unit {0})
  unfolding has_node get_helper
  perform_drain machine options =
      if not (has_node machine)
      then pure tt
      else do (helper, node) ← get_helper machine options; nodes.run_node_drain helper node

  -- The end of `drain`: the node is drained where that is enabled, and reported as done.
  unfoldable pub after_drain :
      KubeSecret → String → DrainOptions → Result (Unit {0}) × S → Answer × S
  unfolding update_secret_annotation_if_check_true
  after_drain secret drain_data options (err e, s) = ((none, some e), s)
  after_drain secret drain_data options (ok _, s) =
      update_secret_annotation_if_check_true secret Names.drain_done_annotation drain_data
        (check_hook_annotations drain_data options.pre_drain_hooks) s

  unfoldable pub drain_node : KubeSecret → Machine → String → DrainOptions → S → Answer × S
  unfolding perform_drain after_drain
  drain_node secret machine drain_data options s =
      after_drain secret drain_data options
        (run_if options.enabled (perform_drain machine options) s)

  -- Hooks are asked for by an annotation, and waited for.
  unfoldable pub after_hooks :
      String → String → List DrainHook → KubeSecret → (S → Answer × S) → S → Answer × S
  unfolding update_secret_annotation_if_check_true
  after_hooks annotation drain_data hooks secret next s =
      if is_empty hooks
      then next s
      else if secret_annotation_does_not_have_value annotation drain_data secret
      then update_secret_annotation_if_check_true secret annotation drain_data
          (secret_annotation_does_not_have_value annotation drain_data) s
      else if not (check_hook_annotations drain_data hooks secret)
      then ((some secret, none), s)
      else next s

  unfoldable pub after_cordon :
      KubeSecret → Machine → String → DrainOptions → Result (Unit {0}) × S → Answer × S
  unfolding after_hooks drain_node
  after_cordon secret machine drain_data options (err e, s) = ((some secret, some e), s)
  after_cordon secret machine drain_data options (ok _, s) =
      after_hooks Names.pre_drain_annotation drain_data options.pre_drain_hooks secret
        (drain_node secret machine drain_data options) s

  unfoldable pub drain_decoded :
      KubeSecret → Machine → String → Result DrainOptions → S → Answer × S
  unfolding cordon after_cordon
  drain_decoded secret machine drain_data (err e) s = ((none, some e), s)
  drain_decoded secret machine drain_data (ok options) s =
      after_cordon secret machine drain_data options (cordon machine options s)

  unfoldable pub drain : KubeSecret → Machine → String → S → Answer × S
  unfolding drain_decoded
  drain secret machine drain_data s =
      drain_decoded secret machine drain_data (nodes.unmarshal_drain_options drain_data) s

  -- The end of `unDrain`: the node is released, and the annotations are cleared.
  unfoldable pub after_uncordon :
      KubeSecret → String → DrainOptions → Result (Unit {0}) × S → Answer × S
  unfolding clean_secret_annotations_if_check_true
  after_uncordon secret drain_data options (err e, s) = ((none, some e), s)
  after_uncordon secret drain_data options (ok _, s) =
      clean_secret_annotations_if_check_true secret options
        (check_hook_annotations drain_data options.post_drain_hooks) s

  unfoldable pub release_node : KubeSecret → Machine → String → DrainOptions → S → Answer × S
  unfolding cordon_with after_uncordon
  release_node secret machine drain_data options s =
      after_uncordon secret drain_data options (cordon_with false machine options s)

  unfoldable pub un_drain_decoded :
      KubeSecret → Machine → String → Result DrainOptions → S → Answer × S
  unfolding after_hooks release_node
  un_drain_decoded secret machine drain_data (err e) s = ((some secret, some e), s)
  un_drain_decoded secret machine drain_data (ok options) s =
      after_hooks Names.post_drain_annotation drain_data options.post_drain_hooks secret
        (release_node secret machine drain_data options) s

  unfoldable pub un_drain : KubeSecret → Machine → String → S → Answer × S
  unfolding has_node un_drain_decoded
  un_drain secret machine drain_data s =
      if not (has_node machine)
      then ((some secret, none), s)
      else un_drain_decoded secret machine drain_data (nodes.unmarshal_drain_options drain_data) s

  -- The deferred function. The results of OnChange have no names, so what it makes of them, the error
  -- of its own update included, is lost.
  unfoldable pub deferred : KubeSecret → Answer → S → S
  unfolding secret_or_old error_recorded record_error
  deferred old (secret, error) s =
      let current = secret_or_old old secret in
      if error_recorded error (lookup Names.drain_error_annotation current.annotations)
      then s
      else (api.update_secret (record_error error current) s).1

  unfoldable pub act : KubeSecret → Machine → S → Answer × S
  unfolding drain un_drain
  act secret machine s =
      let wanted = secret_annotation Names.drain_annotation secret in
      if not (str_eq wanted "")
        && not (str_eq (secret_annotation Names.drain_done_annotation secret) wanted)
      then drain secret machine wanted s
      else if not (str_eq (secret_annotation Names.uncordon_annotation secret) "")
      then un_drain secret machine wanted s
      else ((some secret, none), s)

  unfoldable pub on_machine : KubeSecret → Machine → S → Answer × S
  unfolding act deferred
  on_machine secret machine s =
      let (answer, s') = act secret machine s in (answer, deferred secret answer s')

  unfoldable pub on_cached : KubeSecret → Result Machine × S → Answer × S
  unfolding on_machine
  on_cached secret (err e, s) = ((some secret, some e), s)
  on_cached secret (ok machine, s) = on_machine secret machine s

  -- OnChange
  unfoldable pub on_change : Option KubeSecret → S → Answer × S
  unfolding on_cached is_ours
  on_change none s = ((none, none), s)
  on_change (some secret) s =
      if not (is_ours secret)
      then ((some secret, none), s)
      else on_cached secret
          (nodes.cached_machine secret.namespace (get Names.machine_name_label secret.labels) s)
