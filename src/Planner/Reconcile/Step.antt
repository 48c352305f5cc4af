-- ===== src/Planner/Reconcile/Step.antt =====
-- pkg/planner/planner.go: what `reconcile` does with one node of its tier.
use text.Mathlib.Text.{starts_with}
use Prim.Native.String.{len, slice}
use cluster_api_provider_ran.Prelude.{
  ℕ, String, Bool, true, false, not, ◌&&◌, ◌||◌, Option, none, some, List, [], ◌∷◌, ◌++◌, ℤ, pos,
  minus_one, ◌<ℤ◌, int_eq, ◌==◌, str_eq, if◌then◌else◌,
}
use cluster_api_provider_ran.Errors.{
  Error, ok, err, message, Run, pure, raise, gets, run_if, ◌>>=◌, ◌>>◌,
}
use cluster_api_provider_ran.Plan.{Node}
use cluster_api_provider_ran.Objects.{Machine, DrainOptions, Summary, Api}
use cluster_api_provider_ran.ControlPlane.{ControlPlane}
use cluster_api_provider_ran.Names
use cluster_api_provider_ran.Planner.Entry.{PlanEntry, RoleFilter, annotation, is_control_plane}
use cluster_api_provider_ran.Planner.Messages.{
  remove_reconciled_condition, get_plan_status_reason_message, waiting_plan_status_message,
}
use cluster_api_provider_ran.Planner.Store.Update.{update_plan}
use cluster_api_provider_ran.Planner.Drain.{drain, undrain}
use cluster_api_provider_ran.Planner.Change.{
  Reconcilable, is_in_drain, is_unavailable, plan_applied_but_probes_never_healthy,
}
use cluster_api_provider_ran.Planner.Reconcile.Pass.{
  Progress, Pass, with_target, on_progress, add_ready, add_out_of_sync, add_non_ready,
  add_err_machine, add_draining, add_uncordoned, set_messages, add_message, add_unavailable,
}

-- strings.TrimPrefix
unfoldable pub trim_prefix : String → String → String
trim_prefix s prefix = if starts_with s prefix then slice s (len prefix) (len s) else s

abbrev same_release : Option (ℕ × ℕ × ℕ) → Option (ℕ × ℕ × ℕ) → Bool
same_release none _ = false
same_release (some v) none = false
same_release (some (a, b, c)) (some (x, y, z)) = a == x && b == y && c == z

module _ {S : Type 0} (api : Api S) where
  -- A version that cannot be parsed is not up to date; an unknown one does not hold things up.
  unfoldable pub kubelet_version_up_to_date : ControlPlane → Machine → Bool
  unfolding trim_prefix
  kubelet_version_up_to_date cp machine = elim machine.node_info [
    | none ↦ true
    | some kubelet_version ↦
        if not cp.status.agent_connected
        then true
        else same_release (api.semver (trim_prefix kubelet_version "v"))
            (api.semver (trim_prefix cp.kubernetes_version "v"))
  ]

-- The conditions under which a node with a changed plan is acted on.
unfoldable pub may_change : ℤ → ℕ → Reconcilable → Node → Bool
may_change concurrency unavailable r node =
    is_in_drain r.entry
    || node.failed
    || int_eq concurrency (pos 0)
    || pos unavailable <ℤ concurrency
    || plan_applied_but_probes_never_healthy node

-- strings appended only where there is a message
abbrev pub with_status : List String → String → List String
with_status messages status = if str_eq status "" then messages else messages ++ status ∷ []

-- The summary of a machine and its plan's status, before anything is done about it.
unfoldable pub note_summary : String → Summary → String → Progress → Progress
note_summary name summary status g =
    let g1 = if summary.has_error then add_err_machine name g else g in
    let g2 = if summary.transitioning then add_non_ready name g1 else g1 in
    set_messages name (with_status summary.messages status) g2

module _ {S : Type 0} (api : Api S) (cp : ControlPlane) (exclude : RoleFilter) (concurrency : ℤ)
    (drain_options : DrainOptions) where
  -- store.UpdatePlan(entry, r.desiredPlan, r.joinedURL, -1, 1); the answer is the entry as it is left.
  unfoldable pub deliver : Reconcilable → PlanEntry → Run (Pass S) PlanEntry
  unfolding with_target
  deliver r e p =
      let ((answer, e'), p') =
        with_target e (update_plan api r.desired_plan r.joined_url minus_one (pos 1)) p in
      (elim answer [ err x ↦ err x | ok _ ↦ ok e' ], p')

  -- After the drain: deliver the plan and say what is being waited for.
  unfoldable pub deliver_drained : Reconcilable → PlanEntry → String → Run (Pass S) (Unit {0})
  deliver_drained r e status = do
    e' ← deliver r e
    if not (str_eq (annotation Names.drain_done_annotation e') "")
        then on_progress (add_message r.entry.machine.name "drain completed")
        else if str_eq status ""
        then on_progress (add_message r.entry.machine.name waiting_plan_status_message)
        else pure tt

  -- The three outcomes of `ok, err := p.drain(...)`.
  unfoldable pub after_drain :
      Reconcilable → String → (Bool × Option Error) × PlanEntry → Run (Pass S) (Unit {0})
  after_drain r status ((false, some x), e) = raise x
  after_drain r status ((true, none), e) = deliver_drained r e status
  after_drain r status ((true, some x), e) = do
    on_progress (add_draining r.entry.machine.name)
    on_progress (add_message r.entry.machine.name (message x))
  after_drain r status ((false, none), e) = do
    on_progress (add_draining r.entry.machine.name)
    on_progress (add_message r.entry.machine.name "draining node")

  unfoldable pub run_drain : Reconcilable → Node → String → Run (Pass S) (Unit {0})
  run_drain r node status p =
      let (answer, p') =
        with_target r.entry (drain api node.applied_plan r.desired_plan p.plan drain_options) p in
      after_drain r status answer p'

  -- A plan that changed and is no minor change.
  unfoldable pub change_plan : Reconcilable → Node → String → Run (Pass S) (Unit {0})
  change_plan r node status = do
    on_progress (add_out_of_sync r.entry.machine.name)
    unavailable ← gets (λ p. p.progress.unavailable)
    if may_change concurrency unavailable r node
        then (run_if (not (is_unavailable r node)) (on_progress add_unavailable)
            >> run_drain r node status)
        else pure tt

  -- The checks of a node whose plan is in place, after `undrain`.
  unfoldable pub after_undrain :
      Reconcilable → (Bool × Option Error) × PlanEntry → Run (Pass S) (Unit {0})
  after_undrain r ((false, some x), e) = raise x
  after_undrain r ((true, some x), e) = do
    on_progress (add_uncordoned r.entry.machine.name)
    on_progress (add_message r.entry.machine.name (message x))
  after_undrain r ((false, none), e) = do
    on_progress (add_uncordoned r.entry.machine.name)
    on_progress (add_message r.entry.machine.name "waiting for uncordon to finish")
  after_undrain r ((true, none), e) =
      if not (kubelet_version_up_to_date api cp r.entry.machine)
      then on_progress (add_out_of_sync r.entry.machine.name)
        >> on_progress (add_message r.entry.machine.name "waiting for kubelet to update")
      else if is_control_plane e && not cp.status.agent_connected
      then on_progress (add_out_of_sync r.entry.machine.name)
        >> on_progress (add_message r.entry.machine.name "waiting for cluster agent to connect")
      else on_progress (add_ready r.entry.machine.name)

  unfoldable pub settle : Reconcilable → String → Run (Pass S) (Unit {0})
  settle r status p =
      if not (str_eq status "")
      then on_progress (add_out_of_sync r.entry.machine.name) p
      else let (answer, p') = with_target r.entry (undrain api) p in after_undrain r answer p'

  abbrev deliver_now : Reconcilable → Run (Pass S) (Unit {0})
  deliver_now r = do on_progress (add_out_of_sync r.entry.machine.name); deliver r r.entry; pure tt

  -- The chain of tests on r.entry.Plan, r.minorChange and r.change.
  unfoldable pub act_on :
      Option Node → Bool → Bool → Reconcilable → String → Run (Pass S) (Unit {0})
  act_on none minor_change change r status = deliver_now r
  act_on (some node) true change r status = deliver_now r
  act_on (some node) false true r status = change_plan r node status
  act_on (some node) false false r status = settle r status

  unfoldable pub act : Reconcilable → String → Run (Pass S) (Unit {0})
  unfolding act_on
  act r status = act_on r.entry.plan r.minor_change r.change r status

  unfoldable pub process : Reconcilable → Run (Pass S) (Unit {0})
  unfolding note_summary
  process r =
      let summary = api.summarize (remove_reconciled_condition r.entry.machine) in
      let status = get_plan_status_reason_message r.entry in
      if exclude r.entry
      then pure tt
      else on_progress (note_summary r.entry.machine.name summary status) >> act r status

  -- The loop over the reconcilables; an error ends it.
  unfoldable pub process_all : List Reconcilable → Run (Pass S) (Unit {0})
  process_all [] = pure tt
  process_all (r ∷ rs) = process r >> process_all rs
