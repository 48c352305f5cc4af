-- ===== src/Planner/Reconcile/Budget.antt =====
-- How many nodes a pass of `reconcile` makes unavailable.
use cluster_api_provider_ran.Prelude.{
  ℕ, zero, suc, absurd, ◌∙◌, ◌+◌, ◌≤◌, ◌<◌, String, ◌≡◌, refl, ◌⊎◌, inl, inr, Bool, true, false,
  not, ◌&&◌, ◌||◌, Option, none, some, List, [], ◌∷◌, arith, All, ℤ, pos, ◌<ℤ◌, if◌then◌else◌,
  Bool-cases,
}
use cluster_api_provider_ran.Errors.{Error, Result, ok, err, Run, continue}
use cluster_api_provider_ran.Plan.{Node}
use cluster_api_provider_ran.Objects.{DrainOptions, Api}
use cluster_api_provider_ran.ControlPlane.{ControlPlane}
use cluster_api_provider_ran.Planner.Entry.{PlanEntry, RoleFilter}
use cluster_api_provider_ran.Planner.Messages.{
  get_plan_status_reason_message, remove_reconciled_condition,
}
use cluster_api_provider_ran.Planner.Store.Update.{Target}
use cluster_api_provider_ran.Planner.Drain.{undrain}
use cluster_api_provider_ran.Planner.Change.{
  Reconcilable, is_unavailable, plan_applied_but_probes_never_healthy,
}
use cluster_api_provider_ran.Planner.Reconcile.Pass.{Pass, with_target}
use cluster_api_provider_ran.Planner.Reconcile.Step.{
  note_summary, may_change, deliver, deliver_drained, after_drain, run_drain, change_plan,
  after_undrain, settle, act_on, act, process, process_all,
}

module _ {S : Type 0} where
  abbrev pub unavailable_of : Pass S → ℕ
  unavailable_of p = p.progress.unavailable

  progress-with_target :
      {B : Type 0} (e : PlanEntry) (m : Target S → B × Target S) (p : Pass S)
      → (with_target e m p).1.progress ≡ p.progress
  unfolding with_target
  progress-with_target e m p = refl

-- A node that none of the exceptions lets through: it is available, and its plan neither failed
-- nor was applied without its probes ever passing.
abbrev pub IsOrdinary : Reconcilable → Node → Type 0
IsOrdinary r node =
    (is_unavailable r node ≡ false)
    × (node.failed ≡ false)
    × (plan_applied_but_probes_never_healthy node ≡ false)

-- A node through which the exceptions let a change pass although it is available.
unfoldable pub is_exception : Reconcilable → Option Node → Bool
is_exception r none = false
is_exception r (some node) =
    not (is_unavailable r node) && (node.failed || plan_applied_but_probes_never_healthy node)

-- Whether a node is one that a change takes down: it is available, and its plan is to change by more
-- than a minor change.
abbrev pub takes_down_on : Option Node → Bool → Bool → Reconcilable → Bool
takes_down_on none minor_change change r = false
takes_down_on (some node) true change r = false
takes_down_on (some node) false false r = false
takes_down_on (some node) false true r = not (is_unavailable r node)

abbrev pub takes_down : RoleFilter → Reconcilable → Bool
takes_down exclude r = not (exclude r.entry) && takes_down_on r.entry.plan r.minor_change r.change r

takes_down_on-IsOrdinary :
    (plan : Option Node) (minor_change change : Bool) (r : Reconcilable)
    → takes_down_on plan minor_change change r ≡ true
    → is_exception r plan ≡ false
    → (node : Node) × (plan ≡ some node)
      × (change ≡ true)
      × (minor_change ≡ false)
      × IsOrdinary r node
unfolding is_exception
takes_down_on-IsOrdinary none m c r h k = absurd h
takes_down_on-IsOrdinary (some node) true c r h k = absurd h
takes_down_on-IsOrdinary (some node) false false r h k = absurd h
takes_down_on-IsOrdinary (some node) false true r h k =
    (node, refl, refl, refl, (ground arith, ground arith, ground arith))

takes_down-IsOrdinary :
    (exclude : RoleFilter) (r : Reconcilable)
    → takes_down exclude r ≡ true
    → is_exception r r.entry.plan ≡ false
    → (node : Node) × (r.entry.plan ≡ some node)
      × (r.change ≡ true)
      × (r.minor_change ≡ false)
      × (exclude r.entry ≡ false)
      × IsOrdinary r node
takes_down-IsOrdinary exclude r h k =
    let here : exclude r.entry ≡ false = ground arith in
    let (node, plan, change, minor, ordinary) =
      takes_down_on-IsOrdinary r.entry.plan r.minor_change r.change r (simp here at h) k in
    (node, plan, change, minor, here, ordinary)

some_left : (u c b n : ℕ) → u < suc c → suc c ≤ b → u + n ≡ b → (m : ℕ) × (n ≡ suc m)
some_left u c b zero h k e = absurd (ground (arith, h, k, e))
some_left u c b (suc m) h k e = (m, refl)

-- A run that goes on after a step: what is to hold of the rest, if the step ends without an error, or
-- else it ends as the step did.
abbrev pub Then :
    {S : Type 0} → Result (Unit {0}) × Pass S → Result (Unit {0}) × Pass S → Type 0 → Type 0
Then (ok _, q) end T = T
Then (err e, q) end T = end ≡ (err e, q)

then_after :
    {S : Type 0} (run : Result (Unit {0}) × Pass S) (rest : Run (Pass S) (Unit {0}))
    (F : Result (Unit {0}) × Pass S → Type 0)
    → F (rest run.1)
    → Then run (continue run.0 (λ _. rest) run.1) (F (continue run.0 (λ _. rest) run.1))
then_after (ok _, q) rest F h = h
then_after (err e, q) rest F h = refl

module _ {S : Type 0} (api : Api S) (cp : ControlPlane) (exclude : RoleFilter) (concurrency : ℤ)
    (drain_options : DrainOptions) where
  unavailable-deliver :
      (r : Reconcilable) (e : PlanEntry) (p : Pass S)
      → unavailable_of (deliver api cp exclude concurrency drain_options r e p).1 ≡ unavailable_of p
  unfolding deliver
  unavailable-deliver r e p = refl

  unavailable-deliver_drained :
      (r : Reconcilable) (e : PlanEntry) (status : String) (p : Pass S)
      → unavailable_of (deliver_drained api cp exclude concurrency drain_options r e status p).1
        ≡ unavailable_of p
  unfolding deliver_drained
  unavailable-deliver_drained r e status p = ground (arith, unavailable-deliver r e p)

  unavailable-after_drain :
      (r : Reconcilable) (status : String) (a : (Bool × Option Error) × PlanEntry) (p : Pass S)
      → unavailable_of (after_drain api cp exclude concurrency drain_options r status a p).1
        ≡ unavailable_of p
  unfolding after_drain
  unavailable-after_drain r status ((true, none), e) p = unavailable-deliver_drained r e status p
  unavailable-after_drain r status ((true, some x), e) p = refl
  unavailable-after_drain r status ((false, none), e) p = refl
  unavailable-after_drain r status ((false, some x), e) p = refl

  unavailable-run_drain :
      (r : Reconcilable) (node : Node) (status : String) (p : Pass S)
      → unavailable_of (run_drain api cp exclude concurrency drain_options r node status p).1
        ≡ unavailable_of p
  unfolding run_drain with_target
  unavailable-run_drain r node status p = unavailable-after_drain r status _ _

  unavailable-after_undrain :
      (r : Reconcilable) (a : (Bool × Option Error) × PlanEntry) (p : Pass S)
      → unavailable_of (after_undrain api cp exclude concurrency drain_options r a p).1
        ≡ unavailable_of p
  unfolding after_undrain
  unavailable-after_undrain r a p = ground arith

  unavailable-settle :
      (r : Reconcilable) (status : String) (p : Pass S)
      → unavailable_of (settle api cp exclude concurrency drain_options r status p).1
        ≡ unavailable_of p
  unfolding settle with_target
  unavailable-settle r status p =
      let (answer, p') = with_target r.entry (undrain api) p in
      ground (arith, unavailable-after_undrain r answer p')

  may_change-ordinary :
      (u : ℕ) (r : Reconcilable) (node : Node)
      → IsOrdinary r node
      → may_change concurrency u r node ≡ true
      → (concurrency ≡ pos 0) ⊎ (pos u <ℤ concurrency ≡ true)
  unfolding may_change is_unavailable
  may_change-ordinary u r node h k = ground arith

  -- When a changed plan makes reconcile act on a node: what the counter does.
  change_plan_count :
      (r : Reconcilable) (node : Node) (status : String) (p : Pass S)
      → unavailable_of (change_plan api cp exclude concurrency drain_options r node status p).1 ≡ (
          if may_change concurrency (unavailable_of p) r node && not (is_unavailable r node)
          then unavailable_of p + 1
          else unavailable_of p)
  unfolding change_plan
  change_plan_count r node status p =
      elim (Bool-cases (may_change concurrency (unavailable_of p) r node)) [
        | inr stays ↦ rw stays
        | inl goes ↦ elim (Bool-cases (is_unavailable r node)) [
          | inl gone ↦ rw (goes, gone) (unavailable-run_drain r node status _)
          | inr here ↦ rw (goes, here) (unavailable-run_drain r node status _)
        ]
      ]

  change_plan_idle :
      (r : Reconcilable) (node : Node) (status : String) (p : Pass S)
      → may_change concurrency (unavailable_of p) r node ≡ false
      → let p' = (change_plan api cp exclude concurrency drain_options r node status p).1 in
        (p'.plan ≡ p.plan) × (p'.server ≡ p.server)
  unfolding change_plan
  change_plan_idle r node status p h = rw h (refl, refl)

  -- The pass once the summary of a node is noted.
  abbrev noted : Reconcilable → Pass S → Pass S
  noted r p = record p {
    progress =
        note_summary r.entry.machine.name
          (api.summarize (remove_reconciled_condition r.entry.machine))
          (get_plan_status_reason_message r.entry) p.progress;
  }

  unavailable-noted :
      (r : Reconcilable) (p : Pass S) → unavailable_of (noted r p) ≡ unavailable_of p
  unfolding note_summary
  unavailable-noted r p = ground arith

  process_changed :
      (r : Reconcilable) (node : Node) (p : Pass S)
      → exclude r.entry ≡ false
      → r.entry.plan ≡ some node
      → r.change ≡ true
      → r.minor_change ≡ false
      → process api cp exclude concurrency drain_options r p
        ≡ change_plan api cp exclude concurrency drain_options r node
            (get_plan_status_reason_message r.entry)
            (noted r p)
  unfolding process act
  process_changed r node p hx hp hc hm = simp (hx, hp, hm, hc)

  -- The step of the budget, for a node with a changed plan that no exception applies to. It is acted
  -- on only if fewer nodes than the concurrency are unavailable, and is then counted; if it is not
  -- acted on, the plans and the API server are left as they were.
  pub process_ordinary :
      (r : Reconcilable) (node : Node) (c : ℕ) (p : Pass S)
      → exclude r.entry ≡ false
      → r.entry.plan ≡ some node
      → r.change ≡ true
      → r.minor_change ≡ false
      → concurrency ≡ pos (suc c)
      → IsOrdinary r node
      → let p' = (process api cp exclude concurrency drain_options r p).1 in
        ((unavailable_of p < suc c) × (unavailable_of p' ≡ unavailable_of p + 1))
        ⊎ ((unavailable_of p' ≡ unavailable_of p) × (p'.plan ≡ p.plan) × (p'.server ≡ p.server))
  process_ordinary r node c p hx hp hc hm hn h =
      let q = noted r p in
      let status = get_plan_status_reason_message r.entry in
      rw (process_changed r node p hx hp hc hm)
        (elim (Bool-cases (may_change concurrency (unavailable_of q) r node)) [
          | inl goes ↦
              let count = change_plan_count r node status q in
              ground
                (arith, may_change-ordinary (unavailable_of q) r node h goes, unavailable-noted r p)
          | inr stays ↦
              let count = change_plan_count r node status q in
              let idle = change_plan_idle r node status q stays in
              ground (arith, unavailable-noted r p)
        ])

  act_on_count :
      (plan : Option Node) (minor_change change : Bool) (r : Reconcilable) (status : String)
      (p : Pass S)
      → takes_down_on plan minor_change change r ≡ false
      → unavailable_of
          (act_on api cp exclude concurrency drain_options plan minor_change change r status p).1
        ≡ unavailable_of p
  unfolding act_on deliver
  act_on_count none m h r status p k = ground arith
  act_on_count (some node) true h r status p k = ground arith
  act_on_count (some node) false true r status p k =
      let gone : is_unavailable r node ≡ true = ground arith in
      change_plan_count r node status p ∙ rw gone (ground arith)
  act_on_count (some node) false false r status p k = unavailable-settle r status p

  -- A node that the loop leaves alone or that was unavailable anyway is not counted.
  process_count :
      (r : Reconcilable) (p : Pass S)
      → takes_down exclude r ≡ false
      → unavailable_of (process api cp exclude concurrency drain_options r p).1 ≡ unavailable_of p
  unfolding process act note_summary
  process_count r p k = elim (Bool-cases (exclude r.entry)) [
    | inl out ↦ rw out refl
    | inr here ↦ rw here (
        act_on_count r.entry.plan r.minor_change r.change r _ (noted r p) (simp here at k)
        ∙ unavailable-noted r p)
  ]

  -- The node is not one to be taken down, or the plans and the API server are left as they were.
  abbrev pub IsSpared : Reconcilable → Pass S → Pass S → Type 0
  IsSpared r p q = (takes_down exclude r ≡ false) ⊎ ((q.plan ≡ p.plan) × (q.server ≡ p.server))

  -- The loop from a pass on takes down at most so many nodes and ends in the given way: each node is
  -- spared, or it is one of them, and the first error ends the loop.
  abbrev pub TakesDownAtMost : List Reconcilable → ℕ → Pass S → Result (Unit {0}) × Pass S → Type 0
  TakesDownAtMost [] n p end = end ≡ (ok tt, p)
  TakesDownAtMost (r ∷ rs) n p end =
      let run = process api cp exclude concurrency drain_options r p in
      (IsSpared r p run.1 × Then run end (TakesDownAtMost rs n run.1 end))
      ⊎ ((m : ℕ) × (n ≡ suc m) × Then run end (TakesDownAtMost rs m run.1 end))

  -- One node: it is spared and the count stays, or the count is below the concurrency and grows.
  process_step :
      (r : Reconcilable) (c : ℕ) (p : Pass S)
      → concurrency ≡ pos (suc c)
      → is_exception r r.entry.plan ≡ false
      → let q = (process api cp exclude concurrency drain_options r p).1 in
        (IsSpared r p q × (unavailable_of q ≡ unavailable_of p))
        ⊎ ((unavailable_of p < suc c) × (unavailable_of q ≡ unavailable_of p + 1))
  process_step r c p hn hx = elim (Bool-cases (takes_down exclude r)) [
    | inr other ↦ inl (inl other, process_count r p other)
    | inl goes ↦
        let (node, hp, hc, hm, he, ordinary) = takes_down-IsOrdinary exclude r goes hx in
        elim (process_ordinary r node c p he hp hc hm hn ordinary) [
          | inl counted ↦ inr counted
          | inr (same, plan, server) ↦ inl (inr (plan, server), same)
        ]
  ]

  -- The budget over a whole loop: with a concurrency that is a positive number, and no node that an
  -- exception lets through, the loop takes down at most as many available nodes, by a change of their
  -- plan that is not minor, as are left to the larger of the concurrency and the count of unavailable
  -- nodes at the start. Every other such node leaves the plans and the API server as they were.
  pub process_all_budget :
      (rs : List Reconcilable) (c b n : ℕ) (p : Pass S)
      → concurrency ≡ pos (suc c)
      → All (λ r. is_exception r r.entry.plan ≡ false) rs
      → suc c ≤ b
      → unavailable_of p + n ≡ b
      → TakesDownAtMost rs n p (process_all api cp exclude concurrency drain_options rs p)
  unfolding process_all
  process_all_budget [] c b n p hn hx hc hb = refl
  process_all_budget (r ∷ rs) c b n p hn (hr, hrs) hc hb =
      let run = process api cp exclude concurrency drain_options r p in
      let rest = process_all api cp exclude concurrency drain_options rs in
      elim (process_step r c p hn hr) [
        | inl (spared, same) ↦ inl (
          spared,
          then_after run rest (TakesDownAtMost rs n run.1)
              (process_all_budget rs c b n run.1 hn hrs hc (omega (arith, same, hb))),
        )
        | inr (below, one) ↦
            let (m, left) = some_left (unavailable_of p) c b n below hc hb in
            inr (
              m,
              left,
              then_after run rest (TakesDownAtMost rs m run.1)
                  (process_all_budget rs c b m run.1 hn hrs hc (omega (arith, one, left, hb))),
            )
      ]
