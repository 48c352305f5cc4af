-- ===== src/Planner/Reconcile/Tier.antt =====
-- pkg/planner/planner.go: `reconcile`, over all the nodes of a tier.
use cluster_api_provider_ran.Prelude.{
  ℕ, String, Bool, false, not, ◌&&◌, Option, none, some, List, [], ◌∷◌, ℤ, is_empty, ◌<>◌,
  if◌then◌else◌,
}
use cluster_api_provider_ran.Errors.{
  Error, waiting, ignore, panic, Result, ok, err, Run, lift, gets, error_of, and_then, ◌>>=◌,
}
use cluster_api_provider_ran.Plan.{NodePlan, Node}
use cluster_api_provider_ran.Plan.Equal.{node_plan_eq}
use cluster_api_provider_ran.Objects.{DrainOptions, Api}
use cluster_api_provider_ran.ControlPlane.{ControlPlane}
use cluster_api_provider_ran.Planner.Entry.{Plan, PlanEntry, RoleFilter}
use cluster_api_provider_ran.Planner.Collect.{collect}
use cluster_api_provider_ran.Planner.Messages.{at_most_three, detailed_message}
use cluster_api_provider_ran.Planner.Change.{Reconcilable, minor_plan_change_detected}
use cluster_api_provider_ran.Planner.JoinUrl.{determine_join_url}
use cluster_api_provider_ran.Planner.Concurrency.{calculate_concurrency}
use cluster_api_provider_ran.Planner.Conditions.{set_machine_condition_status}
use cluster_api_provider_ran.Planner.Reconcile.Pass.{Progress, World, no_progress}
use cluster_api_provider_ran.Planner.Reconcile.Step.{process_all}

-- What a tier is reconciled with: its name and filters, and what its caller passes on.
pub record TierSpec : Type 0 where
  pub required : Bool
  pub tier_name : String
  pub include : RoleFilter
  pub exclude : RoleFilter
  pub max_unavailable : String
  pub forced_join_url : String
  pub drain_options : DrainOptions

-- p.desiredPlan for the control plane and tokens at hand: the plan wanted and the server joined.
abbrev pub DesiredPlan : Type 0
DesiredPlan = PlanEntry → String → Result (NodePlan × String)

abbrev differs : Option Node → NodePlan → Bool
differs none plan = false
differs (some node) plan = not (node_plan_eq node.node_plan plan)

abbrev differs_slightly : Option Node → NodePlan → Bool
differs_slightly none plan = false
differs_slightly (some node) plan = minor_plan_change_detected node.node_plan plan

unfoldable pub reconcilable_of : PlanEntry → NodePlan × String → Reconcilable
reconcilable_of e (plan, joined_url) = record {
  entry = e;
  desired_plan = plan;
  joined_url = joined_url;
  change = differs e.plan plan;
  minor_change = differs_slightly e.plan plan;
}

-- A panic ends the call.
abbrev no_panic : {A : Type 0} → Option (Result A) → Result A
no_panic none = err (panic "index out of range")
no_panic (some r) = r

module _ {S : Type 0} (api : Api S) (cp : ControlPlane) (desired_plan : DesiredPlan) where
  -- The loop that renders the plans wanted; an error ends it.
  unfoldable pub reconcilables : TierSpec → Plan → List PlanEntry → Result (List Reconcilable)
  unfolding reconcilable_of
  reconcilables tier plan [] = ok []
  reconcilables tier plan (e ∷ es) =
      let rest = reconcilables tier plan es in
      if tier.exclude e
      then rest
      else and_then (no_panic (determine_join_url api cp e plan tier.forced_join_url)) (λ join_url.
        and_then (desired_plan e join_url)
          (λ wanted. and_then rest (λ rs. ok (reconcilable_of e wanted ∷ rs))))

  -- err != nil && firstError == nil, after a call whose other effects stay
  abbrev pub or_first : Option Error → Run S (Unit {0}) → S → Option Error × S
  or_first first m s = let (r, s') = m s in (elim first [ none ↦ error_of r | some e ↦ some e ], s')

  -- The four updates of the machines' conditions, which all run.
  unfoldable pub set_conditions : String → Plan → Progress → S → Option Error × S
  set_conditions tier_name plan g s =
      let set = set_machine_condition_status api plan in
      let (e1, s1) =
        or_first none (set g.uncordoned ("uncordoning " <> tier_name <> " node(s) ") g.messages)
          s in
      let (e2, s2) =
        or_first e1 (set g.draining ("draining " <> tier_name <> " node(s) ") g.messages) s1 in
      let (e3, s3) =
        or_first e2 (set g.out_of_sync ("configuring " <> tier_name <> " node(s) ") g.messages)
          s2 in
      or_first e3 (set g.ready "" []) s3

  -- Errors of the machines themselves do not block the tiers that follow.
  unfoldable pub tier_result : String → Progress → Option Error → Option Error
  tier_result tier_name g (some e) = some e
  tier_result tier_name g none =
      if not (is_empty g.err_machines)
      then some (
          ignore (
            "failing "
            <> tier_name
            <> " machine(s) "
            <> at_most_three g.err_machines
            <> detailed_message g.err_machines g.messages))
      else if not (is_empty g.non_ready)
      then some (
          ignore (
            "non-ready "
            <> tier_name
            <> " machine(s) "
            <> at_most_three g.non_ready
            <> detailed_message g.non_ready g.messages))
      else none

  abbrev as_result : Option Error → Result (Unit {0})
  as_result none = ok tt
  as_result (some e) = err e

  -- The end of `reconcile`, after the loops.
  unfoldable pub finish : TierSpec → Bool → Progress → Run (World S) (Unit {0})
  unfolding set_conditions tier_result
  finish tier nobody g w =
      if tier.required && nobody
      then (err (waiting ("waiting for at least one " <> tier.tier_name <> " node")), w)
      else let (first, s) = set_conditions tier.tier_name w.plan g w.server in
        (as_result (tier_result tier.tier_name g first), record w { server = s })

  -- The loop over the reconcilables, from the counts given.
  unfoldable pub process_tier : TierSpec → List Reconcilable → ℤ × ℕ → Run (World S) Progress
  process_tier tier rs (concurrency, unavailable) w =
      let (r, p) =
        process_all api cp tier.exclude concurrency tier.drain_options rs
          (record { progress = no_progress unavailable; plan = w.plan; server = w.server }) in
      (elim r [ err e ↦ err e | ok _ ↦ ok p.progress ], record { plan = p.plan; server = p.server })

  unfoldable pub reconcile : TierSpec → Run (World S) (Unit {0})
  unfolding reconcilables process_tier finish
  reconcile tier = do
    entries ← gets (λ w. collect w.plan tier.include)
    plan ← gets (λ w. w.plan)
    rs ← lift (reconcilables tier plan entries)
    counts ← lift (calculate_concurrency api tier.max_unavailable rs tier.exclude)
    g ← process_tier tier rs counts
    finish tier (is_empty entries) g
