-- ===== src/Planner/FullReconcile/Laws.antt =====
-- pkg/planner/planner.go: which tier handles which node, and what a full pass without an error has done.
use mathlib.Core.Path.{subst}
use cluster_api_provider_ran.Prelude.{
  String, ◌≡◌, refl, sym, ap, ◌∙◌, ◌⊎◌, Bool, true, false, not, ◌&&◌, ◌||◌, Option, none, some,
  arith, absurd, str_eq, is_empty, inl, inr, Bool-cases,
}
use cluster_api_provider_ran.Errors.{Error, ignore_errors, Result, ok, err, error_of, ◌>>=◌, ◌>>◌}
use cluster_api_provider_ran.Errors.Laws.{ok-bind, is_ok}
use cluster_api_provider_ran.Objects.{DrainOptions, Api}
use cluster_api_provider_ran.ControlPlane.{ControlPlane}
use cluster_api_provider_ran.Planner.Entry.{
  PlanEntry, role_and, role_not, has_join_url, RoleFilter, is_etcd, is_control_plane, is_init_node,
  is_deleting, is_only_worker, any_role, is_init_node_or_deleting, is_not_init_node_or_is_deleting,
}
use cluster_api_provider_ran.Planner.Collect.{collect}
use cluster_api_provider_ran.Planner.InitNode.{UrlAnswer, Found, find_init_node, elect_init_node}
use cluster_api_provider_ran.Planner.Reconcile.Pass.{World}
use cluster_api_provider_ran.Planner.Reconcile.Tier.{TierSpec, DesiredPlan, reconcile}
use cluster_api_provider_ran.Planner.FullReconcile.{
  Strategy, bootstrap_tier, etcd_tier, control_plane_tier, worker_tier, keep_first, Round, run_tier,
  run_bootstrap_tier, mark_ready, wait_for_control_plane, end_with, require_join_url, url_result,
  join_url_or_wait, join_server_for, elect_first, reconcile_workers, reconcile_servers,
  full_reconcile, control_plane_strategy, worker_strategy,
}

-- A tier changes the plans of the nodes that it includes and does not exclude.
abbrev pub handles : TierSpec → PlanEntry → Bool
handles tier e = tier.include e && not (tier.exclude e)

-- The tiers reach every node that is not being deleted and has a role, and no others, except that a
-- node with the init node's mark is reached only if it has the etcd role.
pub tiers_cover :
    (join_server : String) (servers workers : Strategy) (e : PlanEntry)
    → (handles (bootstrap_tier servers.1) e
        || handles (etcd_tier join_server servers.1) e
        || handles (control_plane_tier join_server servers) e
        || handles (worker_tier workers) e)
      ≡ (not (is_deleting e) && any_role e && (not (is_init_node e) || is_etcd e))
unfolding bootstrap_tier etcd_tier control_plane_tier worker_tier is_not_init_node_or_is_deleting
    is_init_node_or_deleting is_only_worker any_role
tiers_cover join_server servers workers e = ground arith

-- Only the bootstrap tier handles a node with the init node's mark, which it does exactly if the node
-- has the etcd role and is not being deleted, and it handles no other node.
pub bootstrap_tier_apart :
    (join_server : String) (servers workers : Strategy) (e : PlanEntry)
    → (handles (bootstrap_tier servers.1) e ≡ (is_init_node e && is_etcd e && not (is_deleting e)))
      × (is_init_node e ≡ true
          → (handles (etcd_tier join_server servers.1) e
              || handles (control_plane_tier join_server servers) e
              || handles (worker_tier workers) e)
            ≡ false)
unfolding bootstrap_tier etcd_tier control_plane_tier worker_tier is_not_init_node_or_is_deleting
    is_init_node_or_deleting is_only_worker
bootstrap_tier_apart join_server servers workers e = (ground arith, (λ h. ground arith))

abbrev available : RoleFilter
available = role_and is_control_plane (role_and has_join_url (role_not is_deleting))

pair_eq : {A B : Type 0} {p : A × B} {a : A} {b : B} → p.0 ≡ a → p.1 ≡ b → p ≡ (a, b)
pair_eq h k = λ i. (h i, k i)

-- Errors are never lost: nothing is left of them only if there were none.
ignore_errors-none :
    (first : Option Error) (r : Result (Unit {0}))
    → keep_first (ignore_errors first (error_of r)) ≡ ok none
    → (first ≡ none) × (r ≡ ok tt)
unfolding ignore_errors
ignore_errors-none none (ok _) h = (refl, refl)
ignore_errors-none (some f) (ok _) h = ground arith
ignore_errors-none none (err x) h = ground arith
ignore_errors-none (some f) (err x) h = ground arith

ok_inj : {A : Type 0} {a b : A} → ok a ≡ ok b → a ≡ b
ok_inj {a = a} h = ap (λ r. elim r [ ok x ↦ x | err _ ↦ a ]) h

required_ok :
    (first error : Option Error) (url url' : String)
    → join_url_or_wait first error url ≡ ok url'
    → (str_eq url' "" ≡ false) × (url ≡ url')
unfolding join_url_or_wait
required_ok first (some e) url url' h = absurd (ap is_ok h)
required_ok first none url url' h = elim (Bool-cases (str_eq url "")) [
  | inl empty ↦ absurd (ap is_ok (simp empty at h))
  | inr filled ↦
      let same : url ≡ url' = ok_inj (simp filled at h) in
      (ap (λ x. str_eq x "") (sym same) ∙ filled, same)
]

module _ {S : Type 0} where
  found_ok :
      (first : Option Error) (p : Found × World S) (url : String) (t u : Round S)
      → ◌≡◌ {A = Result String × Round S}
          (require_join_url first p.0, record t { world = p.1 })
          (ok url, u)
      → (str_eq url "" ≡ false) × (p.0.join_url ≡ url) × (p.1 ≡ u.world)
  found_ok first p url t u h =
      let (filled, same) = required_ok first p.0.error p.0.join_url url (ap (λ x. x.0) h) in
      (filled, same, ap (λ x. x.1.world) h)

module _ {S : Type 0} (api : Api S) (cp : ControlPlane) (desired_plan : DesiredPlan) where
  run_tier_ok :
      (tier : TierSpec) (first : Option Error) (t u : Round S)
      → run_tier api cp desired_plan tier first t ≡ (ok none, u)
      → (first ≡ none)
        × (reconcile api cp desired_plan tier t.world ≡ (ok tt, u.world))
        × (u.status ≡ t.status)
  unfolding run_tier
  run_tier_ok tier first t u h =
      let (before, after) =
        ignore_errors-none first (reconcile api cp desired_plan tier t.world).0 (ap (λ x. x.0) h) in
      (before, pair_eq after (ap (λ x. x.1.world) h), sym (ap (λ x. x.1.status) h))

  run_bootstrap_tier_ok :
      (drain_options : DrainOptions) (t u : Round S)
      → run_bootstrap_tier api cp desired_plan drain_options t ≡ (ok none, u)
      → reconcile api cp desired_plan (bootstrap_tier drain_options) t.world ≡ (ok tt, u.world)
  unfolding run_bootstrap_tier
  run_bootstrap_tier_ok drain_options t u h =
      let (before, done, same) =
        run_tier_ok (bootstrap_tier drain_options) none t _ (pair_eq (ap (λ x. x.0) h) refl) in
      done ∙ ap (λ w. (ok tt, w)) (ap (λ x. x.1.world) h)

  mark_ready_ok :
      (a : Unit {0}) (t u : Round S)
      → mark_ready t ≡ (ok a, u)
      → (u ≡ t) × (t.status.initialized ≡ true) × (t.status.ready ≡ true)
  unfolding mark_ready
  mark_ready_ok a t u h = elim (Bool-cases (not t.status.initialized || not t.status.ready)) [
    | inl unready ↦ absurd (ap (λ x. is_ok x.0) (simp unready at h))
    | inr ready ↦ (sym (ap (λ x. x.1) (simp ready at h)), ground arith, ground arith)
  ]

  wait_for_control_plane_ok :
      (a : Unit {0}) (t u : Round S) → wait_for_control_plane t ≡ (ok a, u) → u ≡ t
  unfolding wait_for_control_plane
  wait_for_control_plane_ok a t u h =
      elim (Bool-cases (is_empty (collect t.world.plan available))) [
        | inl nobody ↦ absurd (ap (λ x. is_ok x.0) (simp nobody at h))
        | inr found ↦ sym (ap (λ x. x.1) (simp found at h))
      ]

  end_with_ok :
      (first : Option Error) (t u : Round S)
      → end_with first t ≡ (ok tt, u)
      → (first ≡ none) × (u ≡ t)
  end_with_ok none t u h = (refl, sym (ap (λ x. x.1) h))
  end_with_ok (some e) t u h = absurd (ap (λ x. is_ok x.0) h)

  -- The server to join, with the world in which it is known: the one that the election has answered,
  -- or, where that is empty, the one that is found by then, which is not empty either.
  abbrev pub Joins : String → World S → String → World S → Type 0
  Joins elected w url w' =
      (str_eq url "" ≡ false)
      × (((elected ≡ url) × (w ≡ w'))
          ⊎ ((str_eq elected "" ≡ true)
              × ((find_init_node api cp w).0.join_url ≡ url)
              × ((find_init_node api cp w).1 ≡ w')))

  join_server_for_ok :
      (elected url : String) (first : Option Error) (t u : Round S)
      → join_server_for api cp elected first t ≡ (ok url, u)
      → Joins elected t.world url u.world
  unfolding join_server_for
  join_server_for_ok elected url first t u h = elim (Bool-cases (str_eq elected "")) [
    | inl nothing ↦
        let (filled, found, world) =
          found_ok first (find_init_node api cp t.world) url t u (simp nothing at h) in
        (filled, inr (nothing, found, world))
    | inr given ↦
        let taken = simp given at h in
        let same = ok_inj (ap (λ x. x.0) taken) in
        (ap (λ x. str_eq x "") (sym same) ∙ given, inl (same, ap (λ x. x.1.world) taken))
  ]

  -- A tier whose errors are found to be none has run without one.
  tier_ran :
      (tier : TierSpec) (first first' : Option Error) (t u : Round S)
      → run_tier api cp desired_plan tier first t ≡ (ok first', u)
      → first' ≡ none
      → (first ≡ none)
        × (reconcile api cp desired_plan tier t.world ≡ (ok tt, u.world))
        × (u.status ≡ t.status)
  tier_ran tier first first' t u e nothing =
      run_tier_ok tier first t u (e ∙ ap (λ x. (ok x, u)) nothing)

  -- The worker tier has run without an error, and the control plane is ready.
  abbrev WorkersDone : Strategy → World S → Round S → Type 0
  WorkersDone workers w u =
      (reconcile api cp desired_plan (worker_tier workers) w ≡ (ok tt, u.world))
      × (u.status.initialized ≡ true)
      × (u.status.ready ≡ true)

  reconcile_workers_ok :
      (workers : Strategy) (first : Option Error) (t u : Round S)
      → reconcile_workers api cp desired_plan workers first t ≡ (ok tt, u)
      → (first ≡ none)
        × (reconcile api cp desired_plan (worker_tier workers) t.world ≡ (ok tt, u.world))
        × (u.status ≡ t.status)
  unfolding reconcile_workers
  reconcile_workers_ok workers first t u h =
      let (first4, v, e, k) =
        ok-bind _ tt u (run_tier api cp desired_plan (worker_tier workers) first) t h in
      let (nothing, same) = end_with_ok first4 v u k in
      tier_ran (worker_tier workers) first first4 t u (e ∙ ap (λ x. (ok first4, x)) (sym same))
        nothing

  ready_then_workers :
      (workers : Strategy) (first : Option Error) (t u : Round S)
      → (wait_for_control_plane
            >> (mark_ready >> reconcile_workers api cp desired_plan workers first))
          t
        ≡ (ok tt, u)
      → (first ≡ none) × WorkersDone workers t.world u
  ready_then_workers workers first t u h =
      let (a, t1, e1, h1) = ok-bind _ tt u wait_for_control_plane t h in
      let (b, t2, e2, h2) = ok-bind _ tt u mark_ready t1 h1 in
      let same1 = wait_for_control_plane_ok a t t1 e1 in
      let (same2, initialized, ready) = mark_ready_ok b t1 t2 e2 in
      let ran =
        subst (λ x. reconcile_workers api cp desired_plan workers first x ≡ (ok tt, u))
          (same2 ∙ same1) h2 in
      let (nothing, done, status) = reconcile_workers_ok workers first t u ran in
      let was = status ∙ ap (λ x. x.status) (sym same1) in
      (nothing, (done, ap (λ s. s.initialized) was ∙ initialized, ap (λ s. s.ready) was ∙ ready))

  -- From the control plane tier on.
  abbrev ServersDone : Strategy → Strategy → String → World S → Round S → Type 0
  ServersDone servers workers join_server w u =
      (w' : World S) × (reconcile api cp desired_plan (control_plane_tier join_server servers) w
        ≡ (ok tt, w'))
      × WorkersDone workers w' u

  control_plane_then_workers :
      (servers workers : Strategy) (join_server : String) (first : Option Error) (t u : Round S)
      → (run_tier api cp desired_plan (control_plane_tier join_server servers) first >>= λ first3.
            (wait_for_control_plane
              >> (mark_ready >> reconcile_workers api cp desired_plan workers first3)))
          t
        ≡ (ok tt, u)
      → (first ≡ none) × ServersDone servers workers join_server t.world u
  control_plane_then_workers servers workers join_server first t u h =
      let (first3, v, e, k) =
        ok-bind _ tt u (run_tier api cp desired_plan (control_plane_tier join_server servers) first)
          t h in
      let (nothing, done) = ready_then_workers workers first3 v u k in
      let (before, ran, _) =
        tier_ran (control_plane_tier join_server servers) first first3 t v e nothing in
      (before, (v.world, ran, done))

  reconcile_servers_ok :
      (servers workers : Strategy) (join_server : String) (first : Option Error) (t u : Round S)
      → reconcile_servers api cp desired_plan servers workers join_server first t ≡ (ok tt, u)
      → (first ≡ none)
        × (w : World S) × (reconcile api cp desired_plan (etcd_tier join_server servers.1) t.world
            ≡ (ok tt, w))
        × ServersDone servers workers join_server w u
  unfolding reconcile_servers
  reconcile_servers_ok servers workers join_server first t u h =
      let (first2, v, e, k) =
        ok-bind _ tt u (run_tier api cp desired_plan (etcd_tier join_server servers.1) first) t h in
      let (nothing, done) = control_plane_then_workers servers workers join_server first2 v u k in
      let (before, ran, _) =
        tier_ran (etcd_tier join_server servers.1) first first2 t v e nothing in
      (before, v.world, ran, done)

  -- The four tiers one after the other, from the world in which the init node was elected: each tier
  -- starts from the world that the one before it has left, but for the search of the server to join.
  abbrev pub TiersDone : Strategy → Strategy → String → World S → Round S → Type 0
  TiersDone servers workers elected w0 u =
      (join_server : String) × (w1 : World S) × (w2 : World S) × (w3 : World S) × (w4 : World S)
      × (reconcile api cp desired_plan (bootstrap_tier servers.1) w0 ≡ (ok tt, w1))
      × Joins elected w1 join_server w2
      × (reconcile api cp desired_plan (etcd_tier join_server servers.1) w2 ≡ (ok tt, w3))
      × (reconcile api cp desired_plan (control_plane_tier join_server servers) w3 ≡ (ok tt, w4))
      × (reconcile api cp desired_plan (worker_tier workers) w4 ≡ (ok tt, u.world))
      × (u.status.initialized ≡ true)
      × (u.status.ready ≡ true)

  bootstrap_then_servers :
      (servers workers : Strategy) (elected : String) (t u : Round S)
      → (run_bootstrap_tier api cp desired_plan servers.1 >>= λ first.
            (join_server_for api cp elected first >>= λ join_server.
            reconcile_servers api cp desired_plan servers workers join_server first))
          t
        ≡ (ok tt, u)
      → TiersDone servers workers elected t.world u
  bootstrap_then_servers servers workers elected t u h =
      let (first, t1, e1, h1) =
        ok-bind _ tt u (run_bootstrap_tier api cp desired_plan servers.1) t h in
      let (join_server, t2, e2, h2) = ok-bind _ tt u (join_server_for api cp elected first) t1 h1 in
      let (nothing, w3, etcd, (w4, control_plane, (worker, initialized, ready))) =
        reconcile_servers_ok servers workers join_server first t2 u h2 in
      let bootstrap = run_bootstrap_tier_ok servers.1 t t1 (e1 ∙ ap (λ x. (ok x, t1)) nothing) in
      (
        join_server,
        t1.world,
        t2.world,
        w3,
        w4,
        bootstrap,
        join_server_for_ok elected join_server first t1 t2 e2,
        etcd,
        control_plane,
        worker,
        initialized,
        ready,
      )

  url_result_ok :
      (answer : UrlAnswer) (url : String) → url_result answer ≡ ok url → answer ≡ (url, none)
  url_result_ok (x, none) url h = ap (λ y. (y, none)) (ok_inj h)
  url_result_ok (x, some e) url h = absurd (ap is_ok h)

  -- A full pass that answers without an error has elected the init node without one, then run all four
  -- tiers without one in their order, each from the world that the one before it has left, on a server
  -- to join that is not empty and that the election or a search after the bootstrap tier has answered,
  -- and leaves the control plane initialized and ready.
  pub full_reconcile_ok :
      (ignore_drain_and_concurrency : Bool) (t u : Round S)
      → full_reconcile api cp desired_plan ignore_drain_and_concurrency t ≡ (ok tt, u)
      → (elected : String) × ((elect_init_node api cp true t.world).0 ≡ (elected, none))
        × TiersDone
            (control_plane_strategy cp ignore_drain_and_concurrency)
            (worker_strategy cp ignore_drain_and_concurrency)
            elected
            (elect_init_node api cp true t.world).1
            u
  unfolding full_reconcile elect_first
  full_reconcile_ok ignore t u h =
      let servers = control_plane_strategy cp ignore in
      let workers = worker_strategy cp ignore in
      let (elected, t0, e0, h0) = ok-bind _ tt u (elect_first api cp) t h in
      (
        elected,
        url_result_ok (elect_init_node api cp true t.world).0 elected (ap (λ x. x.0) e0),
        subst (λ w. TiersDone servers workers elected w u) (sym (ap (λ x. x.1.world) e0))
            (bootstrap_then_servers servers workers elected t0 u h0),
      )
