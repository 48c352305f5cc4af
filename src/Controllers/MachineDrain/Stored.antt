-- ===== src/Controllers/MachineDrain/Stored.antt =====
-- The plan secret that the API server stores while machinedrain.go handles it, and what keeps it.
use cluster_api_provider_ran.Prelude.{
  String, Bool, true, not, ◌≡◌, ◌⊎◌, inl, inr, ◌∙◌, [], ◌∷◌, get, Bool-cases,
}
use cluster_api_provider_ran.Errors.{ok, pure, lift, ◌>>=◌}
use cluster_api_provider_ran.Errors.Laws.{keeps-bind}
use cluster_api_provider_ran.Objects.{Machine, KubeSecret, DrainOptions, Api}
use cluster_api_provider_ran.Controllers.MachineDrain.{
  Helper, NodeApi, k8s_client, get_helper, helper_of, has_node, node_name, cordon_with, cordon,
  perform_drain,
}

-- The secret at hand as the server stores it. A read that succeeds gives it, a write sets it or is
-- refused, and the calls about machines and nodes leave it alone: nobody else writes it meanwhile.
pub record SecretStore {S K : Type 0} (api : Api S) (nodes : NodeApi S K) : Type 0 where
  pub stored : S → KubeSecret
  pub get_stored :
      (namespace name : String) (s : S) (x : KubeSecret)
      → (api.get_secret namespace name s).0 ≡ ok x
      → x ≡ stored s
  pub get_keeps :
      (namespace name : String) (s : S) → stored (api.get_secret namespace name s).1 ≡ stored s
  pub update_sets :
      (x : KubeSecret) (s : S)
      → (stored (api.update_secret x s).1 ≡ x) ⊎ (stored (api.update_secret x s).1 ≡ stored s)
  pub machine_keeps :
      (namespace name : String) (s : S)
      → stored (nodes.cached_machine namespace name s).1 ≡ stored s
  pub secret_keeps :
      (namespace name : String) (s : S) → stored (nodes.cached_secret namespace name s).1 ≡ stored s
  pub node_keeps : (k : K) (name : String) (s : S) → stored (nodes.get_node k name s).1 ≡ stored s
  pub cordon_keeps :
      (helper : Helper K) (node : String) (desired : Bool) (s : S)
      → stored (nodes.run_cordon_or_uncordon helper node desired s).1 ≡ stored s
  pub drain_keeps :
      (helper : Helper K) (node : String) (s : S)
      → stored (nodes.run_node_drain helper node s).1 ≡ stored s

module _ {S K : Type 0} (api : Api S) (nodes : NodeApi S K) (store : SecretStore api nodes)
    (x : KubeSecret) where
  -- The stored secret is this one.
  abbrev pub Holds : S → Type 0
  Holds s = store.stored s ≡ x

  k8s_client-Holds :
      (machine : Machine) (s : S) → Holds s → Holds (k8s_client api nodes machine s).1
  unfolding k8s_client
  k8s_client-Holds machine s h =
      keeps-bind Holds
        (nodes.cached_secret machine.namespace
          (api.safe_concat_name (nodes.machine_cluster_name machine ∷ "kubeconfig" ∷ [])))
        (λ secret. lift (nodes.rest_client (get "value" secret.contents))) s
        (store.secret_keeps _ _ s ∙ h) (λ secret u hu. hu)

  get_helper-Holds :
      (machine : Machine) (options : DrainOptions) (s : S)
      → Holds s
      → Holds (get_helper api nodes machine options s).1
  unfolding get_helper
  get_helper-Holds machine options s h =
      keeps-bind Holds (k8s_client api nodes machine)
        (λ client. nodes.get_node client (node_name machine) >>= λ node.
          pure (helper_of client options, node))
        s (k8s_client-Holds machine s h)
        (λ client u hu.
          keeps-bind Holds (nodes.get_node client (node_name machine))
            (λ node. pure (helper_of client options, node)) u (store.node_keeps client _ u ∙ hu)
            (λ node v hv. hv))

  pub cordon_with-Holds :
      (desired : Bool) (machine : Machine) (options : DrainOptions) (s : S)
      → Holds s
      → Holds (cordon_with api nodes desired machine options s).1
  unfolding cordon_with
  cordon_with-Holds desired machine options s h =
      keeps-bind Holds (get_helper api nodes machine options)
        (λ found. nodes.run_cordon_or_uncordon found.0 found.1 desired) s
        (get_helper-Holds machine options s h)
        (λ found u hu. store.cordon_keeps found.0 found.1 desired u ∙ hu)

  pub cordon-Holds :
      (machine : Machine) (options : DrainOptions) (s : S)
      → Holds s
      → Holds (cordon api nodes machine options s).1
  unfolding cordon
  cordon-Holds machine options s h = elim (Bool-cases (not (has_node machine))) [
    | inl e ↦ rw e h
    | inr e ↦ rw e (cordon_with-Holds true machine options s h)
  ]

  pub perform_drain-Holds :
      (machine : Machine) (options : DrainOptions) (s : S)
      → Holds s
      → Holds (perform_drain api nodes machine options s).1
  unfolding perform_drain
  perform_drain-Holds machine options s h = elim (Bool-cases (not (has_node machine))) [
    | inl e ↦ rw e h
    | inr e ↦ rw e (
        keeps-bind Holds (get_helper api nodes machine options)
          (λ found. nodes.run_node_drain found.0 found.1) s (get_helper-Holds machine options s h)
          (λ found u hu. store.drain_keeps found.0 found.1 u ∙ hu))
  ]
