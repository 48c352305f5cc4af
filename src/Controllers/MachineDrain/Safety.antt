-- ===== src/Controllers/MachineDrain/Safety.antt =====
-- pkg/controllers/machinedrain/machinedrain.go: what it takes for a node to be reported as drained.
use cluster_api_provider_ran.Prelude.{
  ℕ, zero, suc, String, Bool, true, false, not, ◌&&◌, ◌≡◌, ◌⊎◌, inl, inr, refl, sym, ap, ◌∙◌,
  Option, none, some, List, [], ◌∷◌, str_eq, eq_iff, get, get-insert, get-delete, if◌then◌else◌,
  arith, absurd, Bool-cases, lookup, is_some,
}
use cluster_api_provider_ran.Errors.{Error, Result, ok, err, run_if}
use cluster_api_provider_ran.Objects.{Machine, KubeSecret, DrainHook, DrainOptions, Api}
use cluster_api_provider_ran.Names
use cluster_api_provider_ran.Controllers.MachineDrain.{
  NodeApi, Answer, Held, held, secret_annotation, with_secret_annotation,
  secret_annotation_does_not_have_value, check_hook_annotations, retry_on_conflict, send_held,
  change_read, change_if, retry_after, update_secret_annotation_if_check_true, cordon,
  perform_drain, drain_node, after_hooks, after_drain, after_cordon, drain_decoded, drain,
  on_cached, secret_or_old, error_recorded, record_error, deferred, act, on_machine, is_ours,
  on_change,
}
use cluster_api_provider_ran.Controllers.MachineDrain.Stored.{
  SecretStore, cordon-Holds, perform_drain-Holds,
}

-- The secret does not say that the drain with these options is done.
abbrev pub IsNotDone : String → KubeSecret → Type 0
IsNotDone d x = str_eq (secret_annotation Names.drain_done_annotation x) d ≡ false

with_annotation-IsNotDone :
    (d k v : String) (x : KubeSecret)
    → str_eq k Names.drain_done_annotation ≡ false
    → IsNotDone d x
    → IsNotDone d (with_secret_annotation k v x)
with_annotation-IsNotDone d k v x hk h = simp (get-insert, hk) h

record_error-IsNotDone :
    (d : String) (e : Option Error) (x : KubeSecret)
    → IsNotDone d x
    → IsNotDone d (record_error e x)
unfolding record_error
record_error-IsNotDone d none x h = simp (get-delete) h
record_error-IsNotDone d (some e) x h = simp (get-insert) h

module _ {S K : Type 0} (api : Api S) (nodes : NodeApi S K) (store : SecretStore api nodes)
    (d : String) (asked : str_eq "" d ≡ false) where
  -- Neither the variable nor the stored secret says so.
  abbrev AllNotDone : Held S → Type 0
  AllNotDone h = IsNotDone d h.secret × IsNotDone d (store.stored h.server)

  update-IsNotDone :
      (x : KubeSecret) (s : S)
      → IsNotDone d x
      → IsNotDone d (store.stored s)
      → IsNotDone d (store.stored (api.update_secret x s).1)
  update-IsNotDone x s hx hs = elim (store.update_sets x s) [ inl e ↦ rw e hx | inr e ↦ rw e hs ]

  module _ (wanted : KubeSecret → Bool) (change : KubeSecret → KubeSecret)
      (keeps : (x : KubeSecret) → IsNotDone d x → IsNotDone d (change x)) where
    change_read-AllNotDone :
        (r : Result KubeSecret) (s : S)
        → ((x : KubeSecret) → r ≡ ok x → IsNotDone d x)
        → IsNotDone d (store.stored s)
        → AllNotDone (change_read api nodes wanted change (r, s)).1
    unfolding change_read send_held get lookup
    change_read-AllNotDone (err e) s hr hs = (asked, hs)
    change_read-AllNotDone (ok x) s hr hs = elim (Bool-cases (wanted x)) [
      | inl w ↦ rw w (keeps x (hr x refl), update-IsNotDone (change x) s (keeps x (hr x refl)) hs)
      | inr w ↦ rw w (hr x refl, hs)
    ]

    change_if-AllNotDone :
        (h : Held S) → AllNotDone h → AllNotDone (change_if api nodes wanted change h).1
    unfolding change_if
    change_if-AllNotDone h (hv, hs) =
        let read = api.get_secret h.secret.namespace h.secret.name h.server in
        change_read-AllNotDone read.0 read.1
          (λ x e. rw (store.get_stored h.secret.namespace h.secret.name h.server x e) hs)
          (rw (store.get_keeps h.secret.namespace h.secret.name h.server) hs)

    retry_after-AllNotDone :
        (again : Held S → Option Error × Held S) (p : Option Error × Held S)
        → ((h : Held S) → AllNotDone h → AllNotDone (again h).1)
        → AllNotDone p.1
        → AllNotDone (retry_after api nodes again p).1
    unfolding retry_after
    retry_after-AllNotDone again (none, h) k hp = hp
    retry_after-AllNotDone again (some e, h) k hp = elim (Bool-cases (nodes.is_conflict e)) [
      | inl c ↦ rw c (k h hp)
      | inr c ↦ rw c hp
    ]

    retry-AllNotDone :
        (left : ℕ) (h : Held S)
        → AllNotDone h
        → AllNotDone (retry_on_conflict api nodes left (change_if api nodes wanted change) h).1
    unfolding retry_on_conflict
    retry-AllNotDone zero h k = change_if-AllNotDone h k
    retry-AllNotDone (suc left) h k =
        retry_after-AllNotDone
          (retry_on_conflict api nodes left (change_if api nodes wanted change))
          (change_if api nodes wanted change h) (λ h' k'. retry-AllNotDone left h' k')
          (change_if-AllNotDone h k)

  -- The answer's secret, if any, and the stored one do not say that the drain is done.
  abbrev AnswerNotDone : Answer × S → Type 0
  AnswerNotDone r =
      ((x : KubeSecret) → r.0.0 ≡ some x → IsNotDone d x) × IsNotDone d (store.stored r.1)

  some-IsNotDone : (x y : KubeSecret) → IsNotDone d x → some x ≡ some y → IsNotDone d y
  some-IsNotDone x y h e = ground (arith, h, e)

  unless_nil-IsNotDone :
      (nil : Bool) (x : KubeSecret)
      → IsNotDone d x
      → (y : KubeSecret) → (if nil then none else some x) ≡ some y
      → IsNotDone d y
  unless_nil-IsNotDone true x h y e = absurd (ap is_some e)
  unless_nil-IsNotDone false x h y e = some-IsNotDone x y h e

  update_annotation-NotDone :
      (x : KubeSecret) (k v : String) (check : KubeSecret → Bool) (s : S)
      → str_eq k Names.drain_done_annotation ≡ false
      → IsNotDone d x
      → IsNotDone d (store.stored s)
      → AnswerNotDone (update_secret_annotation_if_check_true api nodes x k v check s)
  unfolding update_secret_annotation_if_check_true
  update_annotation-NotDone x k v check s hk hx hs =
      let both =
        retry-AllNotDone (λ stored. check stored && not (str_eq (secret_annotation k stored) v))
          (with_secret_annotation k v) (λ y hy. with_annotation-IsNotDone d k v y hk hy) 4
          (held x s) (hx, hs) in
      (unless_nil-IsNotDone _ _ both.0, both.1)

  -- What a run for the machine from the state given has done: the options decode, the node was
  -- cordoned, the hooks have answered in the secret, and where the options ask for it, the node was
  -- drained with these options next, without an error.
  abbrev pub DoneFor : KubeSecret → Machine → S → Type 0
  DoneFor x machine s =
      (options : DrainOptions) × (v : S) × (nodes.unmarshal_drain_options d ≡ ok options)
      × (cordon api nodes machine options s ≡ (ok tt, v))
      × (check_hook_annotations d options.pre_drain_hooks x ≡ true)
      × (options.enabled ≡ true
          → perform_drain api nodes machine options v
            ≡ (ok tt, (perform_drain api nodes machine options v).1))

  -- The part of it that follows the cordon
  abbrev DrainedFrom : KubeSecret → Machine → DrainOptions → S → Type 0
  DrainedFrom x machine options v =
      (check_hook_annotations d options.pre_drain_hooks x ≡ true)
      × (options.enabled ≡ true
          → perform_drain api nodes machine options v
            ≡ (ok tt, (perform_drain api nodes machine options v).1))

  after_hooks-NotDone :
      (k : String) (hooks : List DrainHook) (x : KubeSecret) (next : S → Answer × S) (s : S)
      (H : Type 0)
      → str_eq k Names.drain_done_annotation ≡ false
      → IsNotDone d x
      → IsNotDone d (store.stored s)
      → (check_hook_annotations d hooks x ≡ true → AnswerNotDone (next s) ⊎ H)
      → AnswerNotDone (after_hooks api nodes k d hooks x next s) ⊎ H
  unfolding after_hooks check_hook_annotations
  after_hooks-NotDone k [] x next s H hk hx hs hn = hn refl
  after_hooks-NotDone k (hook ∷ hooks) x next s H hk hx hs hn =
      elim (Bool-cases (secret_annotation_does_not_have_value k d x)) [
        | inl asks ↦ inl (
            rw asks (
              update_annotation-NotDone x k d (secret_annotation_does_not_have_value k d) s hk hx
                hs))
        | inr has ↦ elim (Bool-cases (check_hook_annotations d (hook ∷ hooks) x)) [
          | inl answered ↦ rw has (rw answered (hn answered))
          | inr waits ↦ rw has (rw waits (inl (λ y e. some-IsNotDone x y hx e, hs)))
        ]
      ]

  AnswerNotDone-none :
      (e : Error) (s : S) → IsNotDone d (store.stored s) → AnswerNotDone ((none, some e), s)
  AnswerNotDone-none e s h = (λ y k. ground (arith, k), h)

  AnswerNotDone-some :
      (x : KubeSecret) (e : Option Error) (s : S)
      → IsNotDone d x
      → IsNotDone d (store.stored s)
      → AnswerNotDone ((some x, e), s)
  AnswerNotDone-some x e s hx hs = (λ y k. some-IsNotDone x y hx k, hs)

  run_if-Drained :
      (machine : Machine) (options : DrainOptions) (b : Bool) (s u : S)
      → run_if b (perform_drain api nodes machine options) s ≡ (ok tt, u)
      → b ≡ true
      → perform_drain api nodes machine options s ≡ (ok tt, u)
  run_if-Drained machine options true s u h k = h
  run_if-Drained machine options false s u h k = absurd k

  run_if-Holds :
      (machine : Machine) (options : DrainOptions) (b : Bool) (s : S)
      → store.stored (run_if b (perform_drain api nodes machine options) s).1 ≡ store.stored s
  run_if-Holds machine options true s =
      perform_drain-Holds api nodes store (store.stored s) machine options s refl
  run_if-Holds machine options false s = refl

  after_drain-NotDone :
      (x : KubeSecret) (machine : Machine) (options : DrainOptions) (s : S) (r : Result (Unit {0}))
      (u : S)
      → check_hook_annotations d options.pre_drain_hooks x ≡ true
      → IsNotDone d (store.stored u)
      → (r ≡ ok tt
          → options.enabled ≡ true
          → perform_drain api nodes machine options s
            ≡ (ok tt, (perform_drain api nodes machine options s).1))
      → AnswerNotDone (after_drain api nodes x d options (r, u)) ⊎ DrainedFrom x machine options s
  unfolding after_drain
  after_drain-NotDone x machine options s (err e) u hc hu hp = inl (AnswerNotDone-none e u hu)
  after_drain-NotDone x machine options s (ok _) u hc hu hp = inr (hc, hp refl)

  drain_node-NotDone :
      (x : KubeSecret) (machine : Machine) (options : DrainOptions) (s : S)
      → check_hook_annotations d options.pre_drain_hooks x ≡ true
      → IsNotDone d (store.stored s)
      → AnswerNotDone (drain_node api nodes x machine d options s) ⊎ DrainedFrom x machine options s
  unfolding drain_node
  drain_node-NotDone x machine options s hc hs =
      let run = run_if options.enabled (perform_drain api nodes machine options) s in
      after_drain-NotDone x machine options s run.0 run.1 hc
        (rw (run_if-Holds machine options options.enabled s) hs)
        (λ e enabled.
          let drained =
            run_if-Drained machine options options.enabled s run.1 (λ i. (e i, run.1)) enabled in
          (λ i. ((drained i).0, (perform_drain api nodes machine options s).1)))

  after_cordon-NotDone :
      (x : KubeSecret) (machine : Machine) (options : DrainOptions) (r : Result (Unit {0}))
      (s v : S)
      → nodes.unmarshal_drain_options d ≡ ok options
      → cordon api nodes machine options s ≡ (r, v)
      → IsNotDone d x
      → IsNotDone d (store.stored v)
      → AnswerNotDone (after_cordon api nodes x machine d options (r, v)) ⊎ DoneFor x machine s
  unfolding after_cordon
  after_cordon-NotDone x machine options (err e) s v hd hv hx hs =
      inl (AnswerNotDone-some x (some e) v hx hs)
  after_cordon-NotDone x machine options (ok _) s v hd hv hx hs =
      elim (after_hooks-NotDone Names.pre_drain_annotation options.pre_drain_hooks x
        (drain_node api nodes x machine d options) v (DrainedFrom x machine options v) refl hx hs
        (λ hc. drain_node-NotDone x machine options v hc hs)) [
          | inl kept ↦ inl kept
          | inr (answered, drained) ↦ inr (options, v, hd, hv, answered, drained)
        ]

  drain_decoded-NotDone :
      (x : KubeSecret) (machine : Machine) (r : Result DrainOptions) (s : S)
      → nodes.unmarshal_drain_options d ≡ r
      → IsNotDone d x
      → IsNotDone d (store.stored s)
      → AnswerNotDone (drain_decoded api nodes x machine d r s) ⊎ DoneFor x machine s
  unfolding drain_decoded
  drain_decoded-NotDone x machine (err e) s hd hx hs = inl (AnswerNotDone-none e s hs)
  drain_decoded-NotDone x machine (ok options) s hd hx hs =
      let r = cordon api nodes machine options s in
      after_cordon-NotDone x machine options r.0 s r.1 hd refl hx
        (rw (cordon-Holds api nodes store (store.stored s) machine options s refl) hs)

  secret_or_old-NotDone :
      (old : KubeSecret) (o : Option KubeSecret)
      → IsNotDone d old
      → ((x : KubeSecret) → o ≡ some x → IsNotDone d x)
      → IsNotDone d (secret_or_old old o)
  unfolding secret_or_old
  secret_or_old-NotDone old none h k = h
  secret_or_old-NotDone old (some x) h k = k x refl

  deferred-NotDone :
      (old : KubeSecret) (o : Option KubeSecret) (e : Option Error) (s : S)
      → IsNotDone d old
      → AnswerNotDone ((o, e), s)
      → IsNotDone d (store.stored (deferred api nodes old (o, e) s))
  unfolding deferred
  deferred-NotDone old o e s h (ho, hs) =
      let x = secret_or_old old o in
      elim (Bool-cases (error_recorded e (lookup Names.drain_error_annotation x.annotations))) [
        | inl r ↦ rw r hs
        | inr r ↦ rw r (
            update-IsNotDone (record_error e x) s
              (record_error-IsNotDone d e x (secret_or_old-NotDone old o h ho)) hs)
      ]

module _ {S K : Type 0} (api : Api S) (nodes : NodeApi S K) (store : SecretStore api nodes)
    (secret : KubeSecret) where
  abbrev pub asked_for : String
  asked_for = secret_annotation Names.drain_annotation secret

  on_machine-NotDone :
      (machine : Machine) (s : S) (asked : str_eq "" asked_for ≡ false)
      → str_eq asked_for "" ≡ false
      → IsNotDone asked_for secret
      → IsNotDone asked_for (store.stored s)
      → IsNotDone asked_for (store.stored (on_machine api nodes secret machine s).1)
        ⊎ DoneFor api nodes store asked_for asked secret machine s
  unfolding on_machine act drain
  on_machine-NotDone machine s asked h hx hs =
      rw (h, hx)
        (elim (drain_decoded-NotDone api nodes store asked_for asked secret machine
          (nodes.unmarshal_drain_options asked_for) s refl hx hs) [
            | inl kept ↦ inl (deferred-NotDone api nodes store asked_for asked secret _ _ _ hx kept)
            | inr done ↦ inr done
          ])

  abbrev done_says : KubeSecret → Bool
  done_says x = str_eq (secret_annotation Names.drain_done_annotation x) asked_for

  on_cached-NotDone :
      (r : Result Machine) (s : S) (asked : str_eq "" asked_for ≡ false)
      → IsNotDone asked_for secret
      → IsNotDone asked_for (store.stored s)
      → IsNotDone asked_for (store.stored (on_cached api nodes secret (r, s)).1)
        ⊎ ((machine : Machine) × (r ≡ ok machine)
            × DoneFor api nodes store asked_for asked secret machine s)
  unfolding on_cached
  on_cached-NotDone (err e) s asked hx hs = inl hs
  on_cached-NotDone (ok machine) s asked hx hs =
      let empty : str_eq asked_for "" ≡ false =
        ground (arith, asked, eq_iff asked_for "", eq_iff "" asked_for) in
      elim (on_machine-NotDone machine s asked empty hx hs) [
        | inl kept ↦ inl kept
        | inr done ↦ inr (machine, refl, done)
      ]

  -- The machine that the controller's cache has for the secret, and the server's state then
  abbrev pub cached : S → Result Machine × S
  cached s = nodes.cached_machine secret.namespace (get Names.machine_name_label secret.labels) s

  -- A node is reported as drained only when it is: the controller writes that a drain is done, where
  -- the secret asks for it and does not say so yet, only for options that decode, only after every
  -- pre-drain hook has answered, and only after the node of the secret's machine was cordoned and,
  -- where the options enable it, drained with these options, both without an error. A machine without
  -- a node counts as cordoned and drained. It holds on every path, retries after a conflict and the
  -- recording of an error included, where the secret is the stored one and nobody else writes it
  -- meanwhile.
  pub done_needs_drain :
      (s : S) (asked : str_eq "" asked_for ≡ false)
      → store.stored s ≡ secret
      → IsNotDone asked_for secret
      → str_eq
          (secret_annotation Names.drain_done_annotation
            (store.stored (on_change api nodes (some secret) s).1))
          asked_for
        ≡ true
      → (machine : Machine) × ((cached s).0 ≡ ok machine)
        × DoneFor api nodes store asked_for asked secret machine (cached s).1
  unfolding on_change
  done_needs_drain s asked hs hx hd = elim (Bool-cases (not (is_ours secret))) [
    | inl foreign ↦
        let same : store.stored (on_change api nodes (some secret) s).1 ≡ secret = rw foreign hs in
        absurd (sym (sym hd ∙ ap done_says same ∙ hx))
    | inr ours ↦
        let before : IsNotDone asked_for (store.stored (cached s).1) =
          rw (store.machine_keeps _ _ s, hs) hx in
        elim (on_cached-NotDone (cached s).0 (cached s).1 asked hx before) [
          | inr done ↦ done
          | inl kept ↦
              let said : done_says (store.stored (on_cached api nodes secret (cached s)).1) ≡ true =
                rw ours at hd in
              absurd (sym (sym said ∙ kept))
        ]
  ]
