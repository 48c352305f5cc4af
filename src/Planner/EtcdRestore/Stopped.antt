-- ===== src/Planner/EtcdRestore/Stopped.antt =====
-- pkg/planner/etcdrestore.go: what has stopped when etcd is restored.
use cluster_api_provider_ran.Prelude.{
  ℕ, suc, length, ◌==◌, String, ◌≡◌, refl, sym, ap, ◌∙◌, inl, inr, Bool, true, false, ◌||◌, Option,
  none, some, List, [], ◌∷◌, All, absurd, is_empty, pos, arith, if◌then◌else◌, Bool-cases,
}
use cluster_api_provider_ran.Errors.{Result, ok, err, Run, pure, ◌>>=◌, ◌>>◌}
use cluster_api_provider_ran.Errors.Laws.{ok-bind, ok-then, is_ok}
use cluster_api_provider_ran.Plan.{NodePlan, Node}
use cluster_api_provider_ran.Plan.Equal.{node_plan_eq}
use cluster_api_provider_ran.Objects.{Api}
use cluster_api_provider_ran.ControlPlane.{ControlPlane}
use cluster_api_provider_ran.Planner.Entry.{
  PlanEntry, role_and, role_not, is_etcd, is_deleting, any_role_without_windows,
}
use cluster_api_provider_ran.Planner.Collect.{collect}
use cluster_api_provider_ran.Planner.CapiCluster.{ClusterApi}
use cluster_api_provider_ran.Planner.Desired.{ConfigPlan}
use cluster_api_provider_ran.Planner.Instructions.{InfoFunctions}
use cluster_api_provider_ran.Planner.S3Args.{S3Api}
use cluster_api_provider_ran.Planner.InitNode.{on_target}
use cluster_api_provider_ran.Planner.Reconcile.Pass.{World}
use cluster_api_provider_ran.Planner.Store.Update.{update_plan}
use cluster_api_provider_ran.Planner.EtcdRestore.Plans.{
  EtcdSnapshot, generate_stop_service_and_kill_all_plan,
}
use cluster_api_provider_ran.Planner.EtcdRestore.Stop.{
  RestoreApi, is_plain_plan, is_in_sync, all_stopped, stop_plan, stop_server, render_and_stop,
  stop_with_plan, stop_each, require_etcd, after_stopping, stop_servers, wait_for_deletion,
  run_etcd_restore_service_stop, run_etcd_restore_init_node_election, force_delete_each,
  force_delete_all_deleting_etcd_machines,
}

ok_value : {A : Type 0} {a b : A} → ok a ≡ ok b → a ≡ b
ok_value {a = a} h = ap (λ r. elim r [ ok x ↦ x | err _ ↦ a ]) h

or_false : (a b : Bool) → a || b ≡ false → (a ≡ false) × (b ≡ false)
or_false a b h = ground arith

-- A step that is left out where the test holds answers so only there.
idle_only_if :
    {T A : Type 0} (b : Bool) (m : Run T A) (t u : T)
    → (if b then pure false else m >> pure true) t ≡ (ok false, u)
    → b ≡ true
idle_only_if true m t u h = refl
idle_only_if false m t u h =
    let (a, v, before, end) = ok-bind (λ _. pure true) false u m t h in
    absurd (sym (ok_value (ap (λ r. r.0) end)))

module _ {S : Type 0} (api : Api S) (clusters : ClusterApi S) (restores : RestoreApi S)
    (s3_api : S3Api) (functions : InfoFunctions) (cp : ControlPlane)
    (config_plan : ConfigPlan) where
  -- The plan that stops a server's services could be rendered, and is the plan that the server has.
  abbrev pub HasStopPlan : String → PlanEntry → Option Node → Type 0
  HasStopPlan join_server e none = Unit {0}
  HasStopPlan join_server e (some node) =
      (p : NodePlan) × (joined : String) × (generate_stop_service_and_kill_all_plan api s3_api
          functions cp config_plan e join_server
        ≡ ok (p, joined))
      × (node_plan_eq node.node_plan
            (stop_plan api clusters restores s3_api functions cp config_plan e p)
          ≡ true)

  -- A server with a plan has stopped its services: it has that plan, and has applied it.
  abbrev pub IsStopped : String → PlanEntry → Type 0
  IsStopped join_server e = HasStopPlan join_server e e.plan × (is_in_sync e.plan ≡ true)

  abbrev stops_with : PlanEntry → String → Option Node → Run (World S) Bool
  stops_with = stop_with_plan api clusters restores s3_api functions cp config_plan

  abbrev stops_each : String → List PlanEntry → Run (World S) Bool
  stops_each = stop_each api clusters restores s3_api functions cp config_plan

  stop_server_idle :
      (e : PlanEntry) (join_server : String) (p : NodePlan) (joined : String) (w u : World S)
      → stop_server api clusters restores s3_api functions cp config_plan e join_server
          (p, joined)
          w
        ≡ (ok false, u)
      → is_plain_plan (stop_plan api clusters restores s3_api functions cp config_plan e p) e.plan
        ≡ true
  unfolding stop_server
  stop_server_idle e join_server p joined w u h =
      idle_only_if _
        (on_target e (
          update_plan api (stop_plan api clusters restores s3_api functions cp config_plan e p)
            joined (pos 0) (pos 0)))
        w u h

  rendered_idle :
      (e : PlanEntry) (join_server : String) (node : Node) (r : Result (NodePlan × String))
      (w u : World S)
      → e.plan ≡ some node
      → generate_stop_service_and_kill_all_plan api s3_api functions cp config_plan e join_server
        ≡ r
      → render_and_stop api clusters restores s3_api functions cp config_plan e join_server r w
        ≡ (ok false, u)
      → HasStopPlan join_server e (some node)
  unfolding render_and_stop is_plain_plan
  rendered_idle e join_server node (err x) w u here rendered h = absurd (ap (λ r. is_ok r.0) h)
  rendered_idle e join_server node (ok (p, joined)) w u here rendered h = (
    p,
    joined,
    rendered,
    sym (
          ap (is_plain_plan (stop_plan api clusters restores s3_api functions cp config_plan e p))
            here)
        ∙ stop_server_idle e join_server p joined w u h,
  )

  stops_with_idle :
      (e : PlanEntry) (join_server : String) (plan : Option Node) (w u : World S)
      → e.plan ≡ plan
      → stops_with e join_server plan w ≡ (ok false, u)
      → HasStopPlan join_server e plan
  unfolding stop_with_plan
  stops_with_idle e join_server none w u here h = tt
  stops_with_idle e join_server (some node) w u here h =
      rendered_idle e join_server node
        (generate_stop_service_and_kill_all_plan api s3_api functions cp config_plan e join_server)
        w u here refl h

  -- A loop that has written nothing has found the plan on every server.
  stops_each_idle :
      (join_server : String) (es : List PlanEntry) (w u : World S)
      → stops_each join_server es w ≡ (ok false, u)
      → All (λ e. HasStopPlan join_server e e.plan) es
  unfolding stop_each
  stops_each_idle join_server [] w u h = tt
  stops_each_idle join_server (e ∷ es) w u h =
      let (wrote, v, first, rest) =
        ok-bind (λ wrote. stops_each join_server es >>= λ rest. pure (wrote || rest)) false u
          (stops_with e join_server e.plan) w h in
      let (others, x, loop, end) =
        ok-bind (λ others. pure (wrote || others)) false u (stops_each join_server es) v rest in
      let both : wrote || others ≡ false = ok_value (ap (λ r. r.0) end) in
      let (one, all_others) = or_false wrote others both in
      (
        stops_with_idle e join_server e.plan w v refl (first ∙ ap (λ b. (ok b, v)) one),
        stops_each_idle join_server es v x (loop ∙ ap (λ b. (ok b, x)) all_others),
      )

  all_stopped_ok :
      (es : List PlanEntry) → all_stopped cp es ≡ ok tt → All (λ e. is_in_sync e.plan ≡ true) es
  unfolding all_stopped
  all_stopped_ok [] h = tt
  all_stopped_ok (e ∷ es) h = elim (Bool-cases (is_in_sync e.plan)) [
    | inl stopped ↦ (stopped, all_stopped_ok es (simp stopped at h))
    | inr running ↦ absurd (ap is_ok (simp running at h))
  ]

  both-All :
      (join_server : String) (es : List PlanEntry)
      → All (λ e. HasStopPlan join_server e e.plan) es
      → All (λ e. is_in_sync e.plan ≡ true) es
      → All (IsStopped join_server) es
  both-All join_server [] h k = tt
  both-All join_server (e ∷ es) (h, hs) (k, ks) = ((h, k), both-All join_server es hs ks)

  require_etcd_ok :
      (r : Result (Unit {0})) (w u : World S)
      → require_etcd api clusters restores s3_api functions cp config_plan r w ≡ (ok tt, u)
      → (r ≡ ok tt) × (is_empty (collect u.plan (role_and is_etcd (role_not is_deleting))) ≡ false)
  unfolding require_etcd
  require_etcd_ok (err e) w u h = absurd (ap (λ r. is_ok r.0) h)
  require_etcd_ok (ok _) w u h =
      elim (Bool-cases (is_empty (collect w.plan (role_and is_etcd (role_not is_deleting))))) [
        | inl lost ↦ absurd (ap (λ r. is_ok r.0) (simp lost at h))
        | inr there ↦ (
          refl,
          ap (λ r. is_empty (collect r.1.plan (role_and is_etcd (role_not is_deleting))))
                (sym (simp there at h))
              ∙ there,
        )
      ]

  -- What stop_servers has established when it answers without an error
  abbrev pub AllStopped : String → World S → World S → Type 0
  AllStopped join_server w u =
      All (IsStopped join_server) (collect w.plan any_role_without_windows)
      × (is_empty (collect u.plan (role_and is_etcd (role_not is_deleting))) ≡ false)

  after_stopping_ok :
      (servers : List PlanEntry) (wrote : Bool) (w u : World S)
      → after_stopping api clusters restores s3_api functions cp config_plan servers wrote w
        ≡ (ok tt, u)
      → (wrote ≡ false)
        × All (λ e. is_in_sync e.plan ≡ true) servers
        × (is_empty (collect u.plan (role_and is_etcd (role_not is_deleting))) ≡ false)
  unfolding after_stopping
  after_stopping_ok servers true w u h = absurd (ap (λ r. is_ok r.0) h)
  after_stopping_ok servers false w u h =
      let (all_in_sync, etcd) = require_etcd_ok (all_stopped cp servers) w u h in
      (refl, all_stopped_ok servers all_in_sync, etcd)

  stop_servers_ok :
      (join_server : String) (w u : World S)
      → stop_servers api clusters restores s3_api functions cp config_plan join_server w
        ≡ (ok tt, u)
      → AllStopped join_server w u
  unfolding stop_servers
  stop_servers_ok join_server w u h =
      let servers = collect w.plan any_role_without_windows in
      let (wrote, v, loop, after) =
        ok-bind (after_stopping api clusters restores s3_api functions cp config_plan servers) tt u
          (stops_each join_server servers) w h in
      let (nothing, all_in_sync, etcd) = after_stopping_ok servers wrote v u after in
      (
        both-All join_server servers
            (stops_each_idle join_server servers w v (loop ∙ ap (λ b. (ok b, v)) nothing))
            all_in_sync,
        etcd,
      )

  abbrev waits : ℕ → Run (World S) (Unit {0})
  waits = wait_for_deletion api clusters restores s3_api functions cp config_plan

  abbrev stops : String → Run (World S) (Unit {0})
  stops = stop_servers api clusters restores s3_api functions cp config_plan

  abbrev after_deletion : String → ℕ → Run (World S) (Unit {0})
  after_deletion join_server n = waits n >>= λ _. stops join_server

  abbrev after_election : String → Run (World S) (Unit {0})
  after_election join_server =
      force_delete_all_deleting_etcd_machines api clusters restores >>= after_deletion join_server

  waits_ok : (n : ℕ) (w u : World S) → waits n w ≡ (ok tt, u) → (n ≡ 0) × (u ≡ w)
  unfolding wait_for_deletion
  waits_ok n w u h = elim (Bool-cases (n == 0)) [
    | inl none_left ↦ (ground arith, ap (λ r. r.1) (sym (simp none_left at h)))
    | inr some_left ↦ absurd (ap (λ r. is_ok r.0) (simp some_left at h))
  ]

  abbrev pub deleting_etcd : World S → List PlanEntry
  deleting_etcd w = collect w.plan (role_and is_etcd is_deleting)

  none_deleting :
      (es : List PlanEntry) (w u : World S) (n : ℕ)
      → (force_delete_each api clusters restores es >> pure (length es)) w ≡ (ok n, u)
      → n ≡ 0
      → (es ≡ []) × (w ≡ u)
  unfolding force_delete_each
  none_deleting [] w u n h k = (refl, ap (λ r. r.1) h)
  none_deleting (e ∷ es) w u n h k =
      let (a, v, _, end) =
        ok-then (force_delete_each api clusters restores (e ∷ es)) (pure (length (e ∷ es))) n w u
          h in
      let count : suc (length es) ≡ n = ok_value (ap (λ r. r.0) end) in
      absurd (ground (arith, count, k))

  force_delete_none :
      (w u : World S) (n : ℕ)
      → force_delete_all_deleting_etcd_machines api clusters restores w ≡ (ok n, u)
      → n ≡ 0
      → (deleting_etcd w ≡ []) × (w ≡ u)
  unfolding force_delete_all_deleting_etcd_machines
  force_delete_none w u n h k = none_deleting (deleting_etcd w) w u n h k

  -- The services stop answers without an error only if an init node was elected, no etcd machine of
  -- the plan is being deleted, every server that is not on Windows and has a plan has the plan that
  -- stops its services and has applied it, and an etcd node is left.
  pub run_etcd_restore_service_stop_ok :
      (snapshot : Option EtcdSnapshot) (w u : World S)
      → run_etcd_restore_service_stop api clusters restores s3_api functions cp config_plan snapshot
          w
        ≡ (ok tt, u)
      → (join_server : String) × (elected : World S) × (run_etcd_restore_init_node_election api
            clusters restores cp snapshot w
          ≡ (ok join_server, elected))
        × (deleting_etcd elected ≡ [])
        × AllStopped join_server elected u
  unfolding run_etcd_restore_service_stop
  run_etcd_restore_service_stop_ok snapshot w u h =
      let (join_server, elected, election, after) =
        ok-bind (after_election) tt u
          (run_etcd_restore_init_node_election api clusters restores cp snapshot) w h in
      let (n, deleted, deletion, rest) =
        ok-bind (after_deletion join_server) tt u
          (force_delete_all_deleting_etcd_machines api clusters restores) elected after in
      let (_, x, waited, end) = ok-bind (λ _. stops join_server) tt u (waits n) deleted rest in
      let (zero_left, same) = waits_ok n deleted x waited in
      let (nothing, kept) = force_delete_none elected deleted n deletion zero_left in
      (
        join_server,
        elected,
        election,
        nothing,
        stop_servers_ok join_server elected u (ap (stops join_server) (kept ∙ sym same) ∙ end),
      )
