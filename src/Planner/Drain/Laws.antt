-- ===== src/Planner/Drain/Laws.antt =====
-- pkg/planner/drain.go: what holds of a node when `drain` and `undrain` let its change go on.
use cluster_api_provider_ran.Prelude.{
  String, ◌≡◌, refl, ap, inl, inr, Bool, true, false, not, ◌&&◌, ◌||◌, Option, none, some, arith,
  is_some, str_eq, eq_iff, absurd, Bool-cases,
}
use cluster_api_provider_ran.Errors.{Error, ok}
use cluster_api_provider_ran.Errors.Laws.{Result-cases}
use cluster_api_provider_ran.Plan.{NodePlan}
use cluster_api_provider_ran.Objects.{DrainOptions, Api}
use cluster_api_provider_ran.Names
use cluster_api_provider_ran.Planner.Entry.{Plan, PlanEntry, annotation}
use cluster_api_provider_ran.Planner.Store.Update.{Target}
use cluster_api_provider_ran.Planner.Drain.{
  should_drain, options_to_string, check_for_drain_error, set_and_save, drain_error_or,
  no_drain_wanted, one_machine, answer_or_error, drain_with, drain, undrain,
}

answer_ok :
    (bad : Option Error) (done : Bool)
    → answer_or_error bad done ≡ (true, none)
    → (done ≡ true) × (bad ≡ none)
answer_ok none done h = (ap (λ a. a.0) h, refl)
answer_ok (some e) done h = ground arith

-- The node has been asked to drain with these options, has reported that it is done with them, and
-- has reported no error.
abbrev pub IsDrained : String → PlanEntry → Type 0
IsDrained option_string e =
    (str_eq (annotation Names.drain_annotation e) option_string ≡ true)
    × (str_eq (annotation Names.drain_done_annotation e) option_string ≡ true)
    × (check_for_drain_error e "draining" ≡ none)

nothing_left :
    (wanted uncordon : String)
    → str_eq uncordon "" ≡ true
    → not (str_eq wanted "") && not (str_eq wanted uncordon) ≡ false
    → wanted ≡ ""
nothing_left wanted uncordon h k =
    let same =
      ap (λ u. not (str_eq wanted "") && not (str_eq wanted u)) ((eq_iff uncordon "").0 h) in
    (eq_iff wanted "").0 (ground arith)

-- The test of `undrain`: a drain was asked for and has not been released.
abbrev to_release : PlanEntry → Bool
to_release e =
    not (str_eq (annotation Names.drain_annotation e) "")
    && not (str_eq (annotation Names.drain_annotation e) (annotation Names.uncordon_annotation e))

module _ {S : Type 0} (api : Api S) where
  drain_with_ok :
      (option_string : String) (t : Target S)
      → (drain_with api option_string t).0 ≡ (true, none)
      → IsDrained option_string t.entry × ((drain_with api option_string t).1 ≡ t)
  unfolding drain_with set_and_save drain_error_or
  drain_with_ok option_string t h =
      elim (Bool-cases (str_eq (annotation Names.drain_annotation t.entry) option_string)) [
        | inl asked ↦
            let (done, fine) =
              answer_ok (check_for_drain_error t.entry "draining")
                (str_eq (annotation Names.drain_done_annotation t.entry) option_string)
                (simp asked at h) in
            ((asked, done, fine), simp asked)
        | inr other ↦ absurd (ap (λ a. a.0) (simp other at h))
      ]

  -- A change of a node goes on only when the node is drained: where the node exists, its drain is
  -- wanted, and its restart stamp changes, `drain` answers `true` without an error only if the node has
  -- finished draining with the options at hand, and it has then written nothing.
  pub drain_ok :
      (old_plan : Option NodePlan) (new_plan : NodePlan) (cluster_plan : Plan)
      (options : DrainOptions) (t : Target S)
      → not (is_some t.entry.metadata) || not (is_some t.entry.machine.node_ref) ≡ false
      → no_drain_wanted cluster_plan options ≡ false
      → should_drain api old_plan new_plan ≡ true
      → (drain api old_plan new_plan cluster_plan options t).0 ≡ (true, none)
      → (option_string : String) × (options_to_string api options (one_machine cluster_plan)
          ≡ ok option_string)
        × IsDrained option_string t.entry
        × ((drain api old_plan new_plan cluster_plan options t).1 ≡ t)
  unfolding drain
  drain_ok old_plan new_plan cluster_plan options t hn hw hs h =
      elim (Result-cases (options_to_string api options (one_machine cluster_plan))) [
        | inr (e, bad) ↦ absurd (ap (λ a. a.0) (simp (hn, hw, hs, bad) at h))
        | inl (option_string, good) ↦
            let (drained, same) = drain_with_ok option_string t (simp (hn, hw, hs, good) at h) in
            (option_string, good, drained, simp (hn, hw, hs, good) same)
      ]

  -- A node is ready for use again only when nothing is left of its drain: `undrain` answers `true`
  -- without an error only if no drain is asked for, no uncordon is in progress and no error is
  -- reported; and it has then written nothing.
  pub undrain_ok :
      (t : Target S)
      → (undrain api t).0 ≡ (true, none)
      → (annotation Names.uncordon_annotation t.entry ≡ "")
        × (annotation Names.drain_annotation t.entry ≡ "")
        × (check_for_drain_error t.entry "undraining" ≡ none)
        × ((undrain api t).1 ≡ t)
  unfolding undrain set_and_save drain_error_or
  undrain_ok t h = elim (Bool-cases (to_release t.entry)) [
    | inl waits ↦ absurd (ap (λ a. a.0) (simp waits at h))
    | inr released ↦
        let (done, fine) =
          answer_ok (check_for_drain_error t.entry "undraining")
            (str_eq (annotation Names.uncordon_annotation t.entry) "") (simp released at h) in
        let uncordon = annotation Names.uncordon_annotation t.entry in
        (
          (eq_iff uncordon "").0 done,
          nothing_left (annotation Names.drain_annotation t.entry) uncordon done released,
          fine,
          simp released,
        )
  ]
