-- ===== src/Planner/Drain.antt =====
-- pkg/planner/drain.go: asking for a node to be drained before a change, and released after it.
pub mod Laws
use cluster_api_provider_ran.Prelude.{
  ℕ, String, Bool, true, false, not, ◌&&◌, ◌||◌, Option, none, some, List, [], ◌∷◌, length,
  is_empty, is_some, contains, ◌==◌, str_eq, ◌<>◌, if◌then◌else◌,
}
use cluster_api_provider_ran.Errors.{Error, other, Result, ok, err, error_of}
use cluster_api_provider_ran.Plan.{NodePlan, OneTimeInstruction}
use cluster_api_provider_ran.Objects.{DrainOptions, Api}
use cluster_api_provider_ran.Names
use cluster_api_provider_ran.Planner.Entry.{Plan, PlanEntry, annotation, annotate}
use cluster_api_provider_ran.Planner.Store.Update.{
  Target, update_plan_secret_labels_and_annotations,
}

-- Errors of an unreachable service are expected while the node restarts.
unfoldable pub check_for_drain_error : PlanEntry → String → Option Error
check_for_drain_error e step =
    let err_str = annotation Names.drain_error_annotation e in
    if not (str_eq err_str "") && not (contains err_str "error trying to reach service")
    then some (other ("error " <> step <> " machine " <> e.machine.name <> ": " <> err_str))
    else none

-- The pair (bool, error) that drain and undrain return.
abbrev pub Answer : Type 0
Answer = Bool × Option Error

abbrev pub answer_or_error : Option Error → Bool → Answer
answer_or_error (some e) done = (true, some e)
answer_or_error none done = (done, none)

unfoldable pub drain_error_or : {S : Type 0} → String → Bool → Target S → Answer × Target S
unfolding check_for_drain_error
drain_error_or step done t = (answer_or_error (check_for_drain_error t.entry step) done, t)

abbrev pub one_machine : Plan → Bool
one_machine cluster_plan = length cluster_plan.machines == 1

-- Nothing to do: draining is off or pointless, and there are no hooks.
abbrev pub no_drain_wanted : Plan → DrainOptions → Bool
no_drain_wanted cluster_plan options =
    (not options.enabled || one_machine cluster_plan)
    && is_empty options.pre_drain_hooks
    && is_empty options.post_drain_hooks

module _ {S : Type 0} (api : Api S) where
  -- The value of the first RESTART_STAMP variable among these.
  unfoldable pub stamp_of_env : List String → Option String
  stamp_of_env [] = none
  stamp_of_env (env ∷ es) =
      let rest = stamp_of_env es in
      let (k, v) = api.kv_split env "=" in
      if str_eq k "RESTART_STAMP" || str_eq k "$env:RESTART_STAMP" then some v else rest

  unfoldable pub stamp_of_instructions : List OneTimeInstruction → String
  unfolding stamp_of_env
  stamp_of_instructions [] = ""
  stamp_of_instructions (instr ∷ is) =
      let rest = stamp_of_instructions is in
      elim (stamp_of_env instr.env) [ none ↦ rest | some v ↦ v ]

  unfoldable pub get_restart_stamp : NodePlan → String
  unfolding stamp_of_instructions
  get_restart_stamp plan = stamp_of_instructions plan.instructions

  unfoldable pub should_drain : Option NodePlan → NodePlan → Bool
  should_drain none new_plan = false
  should_drain (some old) new_plan =
      not (str_eq (get_restart_stamp old) (get_restart_stamp new_plan))

  unfoldable pub options_to_string : DrainOptions → Bool → Result String
  options_to_string options disable =
      api.encode_drain_options (if disable then record options { enabled = false } else options)

  -- entry.Metadata.Annotations[k] = v; return false, store.updatePlanSecretLabelsAndAnnotations(entry)
  unfoldable pub set_and_save : String → String → Target S → Answer × Target S
  set_and_save k v t =
      let (r, t') =
        update_plan_secret_labels_and_annotations api (record t { entry = annotate k v t.entry }) in
      ((false, error_of r), t')

  -- Draining with the options already rendered.
  unfoldable pub drain_with : String → Target S → Answer × Target S
  unfolding set_and_save drain_error_or
  drain_with option_string t =
      if not (str_eq (annotation Names.drain_annotation t.entry) option_string)
      then set_and_save Names.drain_annotation option_string t
      else drain_error_or "draining"
          (str_eq (annotation Names.drain_done_annotation t.entry) option_string) t

  -- The code's tests for a nil entry, machine and map of annotations are left out: an entry of the plan
  -- has a machine, and `Load` gives its metadata both maps.
  unfoldable pub drain :
      Option NodePlan → NodePlan → Plan → DrainOptions → Target S → Answer × Target S
  unfolding should_drain options_to_string drain_with
  drain old_plan new_plan cluster_plan options t =
      if not (is_some t.entry.metadata) || not (is_some t.entry.machine.node_ref)
      then ((true, none), t)
      else if no_drain_wanted cluster_plan options
      then ((true, none), t)
      else if not (should_drain old_plan new_plan)
      then ((true, none), t)
      else elim (options_to_string options (one_machine cluster_plan)) [
        | err e ↦ ((false, some e), t)
        | ok option_string ↦ drain_with option_string t
      ]

  unfoldable pub undrain : Target S → Answer × Target S
  unfolding set_and_save drain_error_or
  undrain t =
      let wanted = annotation Names.drain_annotation t.entry in
      if not (str_eq wanted "")
        && not (str_eq wanted (annotation Names.uncordon_annotation t.entry))
      then set_and_save Names.uncordon_annotation wanted t
      else drain_error_or "undraining" (str_eq (annotation Names.uncordon_annotation t.entry) "") t
