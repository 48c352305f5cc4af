-- ===== src/Controllers/MachineDrain/Made.antt =====
-- machinedrain.go where the calls succeed: what is written, and what the deferred function leaves.
use cluster_api_provider_ran.Prelude.{
  ℕ, zero, suc, String, Bool, true, false, not, ◌&&◌, ◌≡◌, ◌⊎◌, inl, inr, refl, sym, ap, Option,
  none, some, List, [], ◌∷◌, is_empty, str_eq, get-delete, if◌then◌else◌, absurd, Bool-cases,
  Option-cases, is_some, lookup, delete, lookup-delete,
}
use cluster_api_provider_ran.Errors.{Error, ok, error_of}
use cluster_api_provider_ran.Objects.{Machine, KubeSecret, DrainHook, DrainOptions, Api}
use cluster_api_provider_ran.Names
use mathlib.Core.Path.{subst}
use cluster_api_provider_ran.Controllers.MachineDrain
use cluster_api_provider_ran.Controllers.MachineDrain.{
  NodeApi, Held, held, secret_annotation, with_secret_annotation,
  secret_annotation_does_not_have_value, check_hook_annotations, retry_on_conflict, send_held,
  change_read, change_if, retry_after, update_secret_annotation_if_check_true, cordon, cordon_with,
  has_node, perform_drain, drain_node, delete_hooks, clean_annotations,
  clean_secret_annotations_if_check_true, un_drain, un_drain_decoded, release_node, after_uncordon,
  after_hooks, after_drain, after_cordon, drain_decoded, drain, secret_or_old, error_recorded,
  record_error, deferred, act, on_machine,
}

-- A server whose calls succeed while it handles the secret: a read gives the stored secret, a write
-- sets it, and the machine's node can be cordoned and drained.
pub record Reliable {S K : Type 0} (api : Api S) (nodes : NodeApi S K) (machine : Machine)
    (options : DrainOptions) : Type 0 where
  pub stored : S → KubeSecret
  pub get_ok :
      (namespace name : String) (s : S)
      → ((api.get_secret namespace name s).0 ≡ ok (stored s))
        × (stored (api.get_secret namespace name s).1 ≡ stored s)
  pub update_ok :
      (x : KubeSecret) (s : S)
      → (error_of (api.update_secret x s).0 ≡ none) × (stored (api.update_secret x s).1 ≡ x)
  pub cordon_ok :
      (s : S) → (u : S) × (cordon api nodes machine options s ≡ (ok tt, u)) × (stored u ≡ stored s)
  pub uncordon_ok :
      (s : S)
      → (u : S) × (cordon_with api nodes false machine options s ≡ (ok tt, u))
        × (stored u ≡ stored s)
  pub drain_ok :
      (s : S)
      → (u : S) × (perform_drain api nodes machine options s ≡ (ok tt, u)) × (stored u ≡ stored s)

module _ {S K : Type 0} (api : Api S) (nodes : NodeApi S K) (machine : Machine)
    (options : DrainOptions) (server : Reliable api nodes machine options) where
  -- What was to be stored is stored, and no error was met.
  abbrev pub Made : KubeSecret → Option Error × Held S → Type 0
  Made x r =
      (r.0 ≡ none)
      × (r.1.secret ≡ x)
      × (r.1.no_annotations ≡ false)
      × (server.stored r.1.server ≡ x)

  change_read-Made :
      (wanted : KubeSecret → Bool) (change : KubeSecret → KubeSecret) (x : KubeSecret) (s : S)
      → wanted x ≡ true
      → Made (change x) (change_read api nodes wanted change (ok x, s))
  unfolding change_read send_held
  change_read-Made wanted change x s hw =
      let (sent, set) = server.update_ok (change x) s in rw hw (sent, refl, refl, set)

  change_if-Made :
      (wanted : KubeSecret → Bool) (change : KubeSecret → KubeSecret) (h : Held S)
      → wanted (server.stored h.server) ≡ true
      → Made (change (server.stored h.server)) (change_if api nodes wanted change h)
  unfolding change_if
  change_if-Made wanted change h hw =
      let read = api.get_secret h.secret.namespace h.secret.name h.server in
      let x = server.stored h.server in
      subst (λ r. Made (change x) (change_read api nodes wanted change (r, read.1)))
        (sym (server.get_ok h.secret.namespace h.secret.name h.server).0)
        (change_read-Made wanted change x read.1 hw)

  retry_after-Made :
      (again : Held S → Option Error × Held S) (x : KubeSecret) (r : Option Error × Held S)
      → Made x r
      → Made x (retry_after api nodes again r)
  unfolding retry_after
  retry_after-Made again x (none, h) k = k
  retry_after-Made again x (some e, h) k = absurd (sym (ap is_some k.0))

  pub retry-Made :
      (left : ℕ) (wanted : KubeSecret → Bool) (change : KubeSecret → KubeSecret) (h : Held S)
      → wanted (server.stored h.server) ≡ true
      → Made
          (change (server.stored h.server))
          (retry_on_conflict api nodes left (change_if api nodes wanted change) h)
  unfolding retry_on_conflict
  retry-Made zero wanted change h hw = change_if-Made wanted change h hw
  retry-Made (suc left) wanted change h hw =
      retry_after-Made (retry_on_conflict api nodes left (change_if api nodes wanted change)) _ _
        (change_if-Made wanted change h hw)

  abbrev pub AnswerMade : KubeSecret → MachineDrain.Answer × S → Type 0
  AnswerMade x r = (r.0 ≡ (some x, none)) × (server.stored r.1 ≡ x)

  pub answer-Made :
      (x : KubeSecret) (r : Option Error × Held S)
      → Made x r
      → AnswerMade x (((if r.1.no_annotations then none else some r.1.secret), r.0), r.1.server)
  answer-Made x r (he, hx, hn, hs) = (λ i. (if hn i then none else some (hx i), he i), hs)

  -- The annotations after the deferred function: no error, and else those that were written
  abbrev pub AnnotatedAs : KubeSecret → KubeSecret → Type 0
  AnnotatedAs x y =
      (lookup Names.drain_error_annotation y.annotations ≡ none)
      × ((k : String)
          → str_eq Names.drain_error_annotation k ≡ false
          → secret_annotation k y ≡ secret_annotation k x)

  deferred_made :
      (old x : KubeSecret) (s : S)
      → server.stored s ≡ x
      → AnnotatedAs x (server.stored (deferred api nodes old (some x, none) s))
  unfolding deferred secret_or_old error_recorded record_error
  deferred_made old x s hs =
      elim (Option-cases (lookup Names.drain_error_annotation x.annotations)) [
        | inl clear ↦ rw clear (rw hs (clear, λ k hk. refl))
        | inr (m, recorded) ↦ rw recorded (
            rw
              (server.update_ok
                (record x { annotations = delete Names.drain_error_annotation x.annotations }) s).1
              (simp (lookup-delete), λ k hk. simp (get-delete, hk)))
      ]

  pub deferred-Made :
      (old x : KubeSecret) (r : MachineDrain.Answer × S)
      → AnswerMade x r
      → AnnotatedAs x (server.stored (deferred api nodes old r.0 r.1))
  deferred-Made old x r (ha, hs) =
      subst (λ a. AnnotatedAs x (server.stored (deferred api nodes old a r.1))) (sym ha)
        (deferred_made old x r.1 hs)

  pub update_annotation-Made :
      (x : KubeSecret) (k v : String) (check : KubeSecret → Bool) (s : S)
      → server.stored s ≡ x
      → check x ≡ true
      → str_eq (secret_annotation k x) v ≡ false
      → AnswerMade
          (with_secret_annotation k v x)
          (update_secret_annotation_if_check_true api nodes x k v check s)
  unfolding update_secret_annotation_if_check_true
  update_annotation-Made x k v check s hs hc hv = answer-Made (with_secret_annotation k v x) _ (
      subst
        (λ y. Made (with_secret_annotation k v y) (
          retry_on_conflict api nodes 4
            (change_if api nodes
              (λ stored. check stored && not (str_eq (secret_annotation k stored) v))
              (with_secret_annotation k v))
            (held x s)))
        hs
        (retry-Made 4 (λ stored. check stored && not (str_eq (secret_annotation k stored) v))
          (with_secret_annotation k v) (held x s) (rw hs (simp (hc, hv)))))

  -- The hooks are none, or they have been asked and have answered.
  abbrev pub HaveAnswered : String → String → List DrainHook → KubeSecret → Type 0
  HaveAnswered k d hooks x =
      (is_empty hooks ≡ true)
      ⊎ ((secret_annotation_does_not_have_value k d x ≡ false)
          × (check_hook_annotations d hooks x ≡ true))

  pub HaveAnswered-check :
      (k d : String) (hooks : List DrainHook) (x : KubeSecret)
      → HaveAnswered k d hooks x
      → check_hook_annotations d hooks x ≡ true
  unfolding check_hook_annotations
  HaveAnswered-check k d [] x h = refl
  HaveAnswered-check k d (hook ∷ hooks) x (inl e) = absurd e
  HaveAnswered-check k d (hook ∷ hooks) x (inr (a, c)) = c

  pub after_hooks-next :
      (k d : String) (hooks : List DrainHook) (x : KubeSecret) (next : S → MachineDrain.Answer × S)
      (s : S)
      → HaveAnswered k d hooks x
      → after_hooks api nodes k d hooks x next s ≡ next s
  unfolding after_hooks
  after_hooks-next k d hooks x next s (inl e) = simp (e)
  after_hooks-next k d hooks x next s (inr (a, c)) = elim (Bool-cases (is_empty hooks)) [
    | inl e ↦ simp (e)
    | inr e ↦ simp (e, a, c)
  ]
