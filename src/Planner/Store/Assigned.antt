-- ===== src/Planner/Store/Assigned.antt =====
-- pkg/planner/store.go: what `assignAndCheckPlan` has established when it answers without an error.
use cluster_api_provider_ran.Prelude.{
  String, ◌≡◌, refl, sym, ap, ◌∙◌, inl, inr, true, false, Option, none, some, arith, absurd, ℤ,
  ◌<>◌, Bool-cases, Option-cases,
}
use cluster_api_provider_ran.Errors.{ok, waiting, raise, ◌>>◌}
use cluster_api_provider_ran.Errors.Laws.{then-raise}
use cluster_api_provider_ran.Plan.{NodePlan, Node}
use cluster_api_provider_ran.Plan.Equal.{node_plan_eq}
use cluster_api_provider_ran.Objects.{Api}
use cluster_api_provider_ran.Planner.Store.Update.{Target, update_plan}
use cluster_api_provider_ran.Planner.Store.Assign.{has_plan, check_plan, assign_and_check_plan}

-- The node has the plan given, has applied it without failing, and its probes pass.
abbrev pub IsApplied : NodePlan → Option Node → Type 0
IsApplied new_plan plan =
    (node : Node) × (plan ≡ some node)
    × (node_plan_eq node.node_plan new_plan ≡ true)
    × (node.failed ≡ false)
    × (node.in_sync ≡ true)
    × (node.healthy ≡ true)

module _ {S : Type 0} (api : Api S) (msg : String) where
  check_plan_ok :
      (node : Node) (t : Target S)
      → (check_plan api msg (some node) t).0 ≡ ok tt
      → (node.failed ≡ false) × (node.in_sync ≡ true) × (node.healthy ≡ true)
  unfolding check_plan
  check_plan_ok node t h = ground arith

  check_plan_keeps : (plan : Option Node) (t : Target S) → (check_plan api msg plan t).1 ≡ t
  unfolding check_plan
  check_plan_keeps none t = refl
  check_plan_keeps (some node) t = ground arith

  module _ (new_plan : NodePlan) (joined_to : String) (failure_threshold max_retries : ℤ)
      (t : Target S) where
    assign_checks :
        has_plan new_plan t.entry.plan ≡ true
        → assign_and_check_plan api msg new_plan joined_to failure_threshold max_retries t
          ≡ check_plan api msg t.entry.plan t
    unfolding assign_and_check_plan
    assign_checks h = simp h

    assign_writes :
        has_plan new_plan t.entry.plan ≡ false
        → assign_and_check_plan api msg new_plan joined_to failure_threshold max_retries t
          ≡ (update_plan api new_plan joined_to failure_threshold max_retries
                >> raise (waiting ("starting " <> msg)))
              t
    unfolding assign_and_check_plan
    assign_writes h = simp h

    assign_starts :
        has_plan new_plan t.entry.plan ≡ false
        → (assign_and_check_plan api msg new_plan joined_to failure_threshold max_retries t).0
          ≡ ok tt
        → false ≡ true
    assign_starts h k =
        then-raise (update_plan api new_plan joined_to failure_threshold max_retries)
          (waiting ("starting " <> msg)) tt t (sym (ap (λ r. r.0) (assign_writes h)) ∙ k)

    has_plan-node :
        has_plan new_plan t.entry.plan ≡ true
        → (node : Node) × (t.entry.plan ≡ some node) × (node_plan_eq node.node_plan new_plan ≡ true)
    unfolding has_plan
    has_plan-node h = elim (Option-cases t.entry.plan) [
      | inl nothing ↦ absurd (sym (ap (has_plan new_plan) nothing) ∙ h)
      | inr (node, here) ↦ (node, here, sym (ap (has_plan new_plan) here) ∙ h)
    ]

    -- A step of an operation that answers without an error has found the node's plan to be the plan
    -- given, applied without failing and with its probes passing, and has changed nothing.
    pub assign_and_check_plan_ok :
        (assign_and_check_plan api msg new_plan joined_to failure_threshold max_retries t).0 ≡ ok tt
        → IsApplied new_plan t.entry.plan
          × ((assign_and_check_plan api msg new_plan joined_to failure_threshold max_retries t).1
              ≡ t)
    assign_and_check_plan_ok h = elim (Bool-cases (has_plan new_plan t.entry.plan)) [
      | inr other ↦ absurd (assign_starts other h)
      | inl same ↦
          let (node, here, eq) = has_plan-node same in
          let checked = sym (ap (λ r. r.0) (assign_checks same)) ∙ h in
          let at = sym (ap (λ p. (check_plan api msg p t).0) here) ∙ checked in
          let (works, in_sync, healthy) = check_plan_ok node t at in
          (
            (node, here, eq, works, in_sync, healthy),
            ap (λ r. r.1) (assign_checks same) ∙ check_plan_keeps t.entry.plan t,
          )
    ]
