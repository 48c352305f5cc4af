-- ===== src/Planner/InitNode.antt =====
-- pkg/planner/initnode.go: finding, electing and designating the init node, which starts the cluster.
pub mod Laws
use cluster_api_provider_ran.Prelude.{
  String, Bool, true, false, not, ◌&&◌, ◌||◌, Option, none, some, List, [], ◌∷◌, length, is_some,
  ltb, get, str_eq, ◌<>◌, if◌then◌else◌,
}
use cluster_api_provider_ran.Errors.{
  Error, waiting, skip, other, is_err_skip, Result, ok, err, Run, pure, raise, gets, error_of,
  ◌>>=◌, ◌>>◌,
}
use cluster_api_provider_ran.Objects.{Machine, Api}
use cluster_api_provider_ran.ControlPlane.{ControlPlane}
use cluster_api_provider_ran.Names
use cluster_api_provider_ran.Planner.Entry.{
  Plan, PlanEntry, RoleFilter, label, annotation, set_label, is_etcd, is_init_node,
  can_be_init_node,
}
use cluster_api_provider_ran.Planner.Collect.{collect}
use cluster_api_provider_ran.Planner.Store.Update.{
  Target, remove_plan_secret_label, update_plan_secret_labels_and_annotations,
}
use cluster_api_provider_ran.Planner.Reconcile.Pass.{World, write_back}

-- The four values that the searches return.
pub record Found : Type 0 where
  pub found : Bool
  pub join_url : String
  pub entry : Option PlanEntry
  pub error : Option Error

abbrev pub not_found_because : Error → Found
not_found_because e = record { found = false; join_url = ""; entry = none; error = some e }

abbrev pub join_url_of : PlanEntry → String
join_url_of e = annotation Names.join_url_annotation e

-- A string and an error.
abbrev pub UrlAnswer : Type 0
UrlAnswer = String × Option Error

-- An error of the kind skip says that something was written; another error ends the caller.
unfoldable pub swallow_skip : {T : Type 0} → Run T (Unit {0}) → Run T Bool
swallow_skip m t =
    let (r, t') = m t in
    (elim r [ ok _ ↦ ok false | err x ↦ if is_err_skip x then ok true else err x ], t')

abbrev with_machine_id : String → RoleFilter
with_machine_id id e = is_some e.metadata && str_eq (label Names.machine_id_label e) id

abbrev machine_id : PlanEntry → String
machine_id e = get Names.machine_id_label e.machine.labels

unfoldable pub first_with_join_url : List PlanEntry → Option PlanEntry
first_with_join_url [] = none
first_with_join_url (e ∷ es) =
    let rest = first_with_join_url es in if not (str_eq (join_url_of e) "") then some e else rest

abbrev pub is_skip : Option Error → Bool
is_skip none = false
is_skip (some x) = is_err_skip x

-- An operation of the store on an entry of the cluster's plan.
unfoldable pub on_target : {S A : Type 0} → PlanEntry → Run (Target S) A → Run (World S) A
unfolding write_back
on_target e m w =
    let (r, t) = m (record { entry = e; server = w.server }) in
    (r, record { plan = write_back t.entry w.plan; server = t.server })

abbrev found_entry : PlanEntry → Option Error → Found
found_entry e error = record {
  found = true;
  join_url = join_url_of e;
  entry = some e;
  error = error;
}

abbrev pub fixed_machine_id : ControlPlane → String
fixed_machine_id cp = get Names.init_node_machine_id_label cp.labels

abbrev pub more_suitable : Option PlanEntry → Option Error
more_suitable none = none
more_suitable (some _) =
    some (other "non-populated init node found, but more suitable alternative is available")

abbrev disallowed : ControlPlane → PlanEntry → Error
disallowed cp e = waiting (
    "rkecluster " <> cp.namespace <> "/" <> cp.cluster_name <> ": re-election of init machine "
    <> e.machine.namespace <> "/" <> e.machine.name <> " disallowed")

module _ {S : Type 0} (api : Api S) where
  -- The entry's metadata is not nil: the callers' filters have seen to it.
  unfoldable pub clear_init_node_mark : PlanEntry → Run (World S) (Unit {0})
  unfolding on_target
  clear_init_node_mark e =
      if str_eq (label Names.init_node_label e) ""
      then pure tt
      else on_target e (remove_plan_secret_label api Names.init_node_label) >> raise skip

  -- The labels are no nil map: they are the labels of a secret, with the role's label among them.
  unfoldable pub set_init_node_mark : PlanEntry → Run (World S) (Unit {0})
  unfolding on_target
  set_init_node_mark e =
      if str_eq (label Names.init_node_label e) "true"
      then pure tt
      else on_target (set_label Names.init_node_label "true" e)
          (update_plan_secret_labels_and_annotations api)
        >> raise skip

  -- The loops that clear the marks of the entries given, but for those that are left out; the answer
  -- is `cachesInvalidated`.
  unfoldable pub clear_marks : RoleFilter → List PlanEntry → Run (World S) Bool
  unfolding clear_init_node_mark swallow_skip
  clear_marks keep [] = pure false
  clear_marks keep (e ∷ es) = elim (keep e) [
    | true ↦ clear_marks keep es
    | false ↦ do
      cleared ← swallow_skip (clear_init_node_mark e)
      rest ← clear_marks keep es
      pure (cleared || rest)
  ]

  -- The fixed machine is there and not marked: the other marks are cleared before it is marked.
  unfoldable pub designate_fixed : String → PlanEntry → World S → Found × World S
  unfolding clear_marks set_init_node_mark
  designate_fixed id e w =
      let (cleared, w') = clear_marks (λ d. str_eq (machine_id d) id) (collect w.plan is_etcd) w in
      elim cleared [
        | err x ↦ (not_found_because x, w')
        | ok true ↦ (not_found_because skip, w')
        | ok false ↦ let (r, w'') = set_init_node_mark e w' in (found_entry e (error_of r), w'')
      ]

  unfoldable pub find_and_designate_fixed_init_node : ControlPlane → World S → Found × World S
  unfolding designate_fixed
  find_and_designate_fixed_init_node cp w =
      let id = fixed_machine_id cp in
      if str_eq id ""
      then (not_found_because (other "fixed machine ID label did not exist on rkecontrolplane"), w)
      else elim (collect w.plan (with_machine_id id)) [
        | [] ↦ (not_found_because (other ("fixed machine with ID " <> id <> " not found")), w)
        | e ∷ [] ↦
            if not (str_eq (label Names.init_node_label e) "true")
            then designate_fixed id e w
            else (found_entry e none, w)
        | e ∷ _ ∷ _ ↦ (
          not_found_because (
              other (
                "multiple machines found with identical machine ID label " <> Names.machine_id_label
                <> "=" <> id)),
          w,
        )
      ]

  -- findInitNode without a fixed machine, which writes nothing.
  unfoldable pub find_marked : Plan → List PlanEntry → Found
  unfolding first_with_join_url
  find_marked plan [] = not_found_because (other "init node not found")
  find_marked plan (e ∷ []) =
      if not (can_be_init_node api e)
      then not_found_because (other "init node not found")
      else if not (str_eq (join_url_of e) "")
      then found_entry e none
      else record {
        found = true;
        join_url = "";
        entry = some e;
        error = more_suitable (first_with_join_url (collect plan (can_be_init_node api)));
      }
  find_marked plan (e ∷ _ ∷ _) = not_found_because (other "multiple init nodes found")

  unfoldable pub find_init_node : ControlPlane → World S → Found × World S
  unfolding find_and_designate_fixed_init_node find_marked
  find_init_node cp w =
      if not (str_eq (fixed_machine_id cp) "")
      then find_and_designate_fixed_init_node cp w
      else (find_marked w.plan (collect w.plan is_init_node), w)

  -- The first node with a join URL is marked, or else the first of all.
  unfoldable pub mark_first : PlanEntry → Option PlanEntry → World S → UrlAnswer × World S
  unfolding set_init_node_mark
  mark_first fallback none w = let (r, w') = set_init_node_mark fallback w in (("", error_of r), w')
  mark_first fallback (some e) w =
      let (r, w') = set_init_node_mark e w in ((join_url_of e, error_of r), w')

  unfoldable pub mark_candidate : List PlanEntry → World S → UrlAnswer × World S
  unfolding mark_first first_with_join_url
  mark_candidate [] w = (("", some (waiting "waiting for viable init node")), w)
  mark_candidate (fallback ∷ es) w = mark_first fallback (first_with_join_url (fallback ∷ es)) w

  unfoldable pub after_clearing : Result Bool × World S → UrlAnswer × World S
  unfolding mark_candidate
  after_clearing (err x, w) = (("", some x), w)
  after_clearing (ok true, w) = (("", some skip), w)
  after_clearing (ok false, w) = mark_candidate (collect w.plan (can_be_init_node api)) w

  unfoldable pub re_elect : World S → UrlAnswer × World S
  unfolding clear_marks after_clearing
  re_elect w = after_clearing (clear_marks (λ _. false) (collect w.plan is_init_node) w)

  -- The loop over the marked nodes stops at the first where a re-election is not allowed.
  unfoldable pub elect : ControlPlane → Bool → List PlanEntry → World S → UrlAnswer × World S
  unfolding re_elect
  elect cp true marked w = re_elect w
  elect cp false [] w = re_elect w
  elect cp false (e ∷ es) w = (("", some (disallowed cp e)), w)

  -- What electInitNode makes of the search.
  unfoldable pub after_search : ControlPlane → Bool → Found → World S → UrlAnswer × World S
  unfolding elect
  after_search cp allow_reelection f w =
      if (f.found && not (is_some f.error)) || is_skip f.error
      then ((f.join_url, f.error), w)
      else if not f.found && not (str_eq (fixed_machine_id cp) "")
      then (
        (
          "",
          some (
              waiting (
                "unable to find designated init node matching machine ID " <> fixed_machine_id cp)),
        ),
        w,
      )
      else elect cp allow_reelection (collect w.plan is_init_node) w

  unfoldable pub elect_init_node : ControlPlane → Bool → World S → UrlAnswer × World S
  unfolding find_init_node after_search
  elect_init_node cp allow_reelection w =
      let (f, w') = find_init_node cp w in after_search cp allow_reelection f w'

-- The variables of the loop of designateInitNodeByMachineID.
pub record Designation : Type 0 where
  pub join_url : String
  pub init_node_found : Bool
  pub cache_invalidated : Bool

module _ {S : Type 0} (api : Api S) (id : String) where
  -- One entry: the machine with the ID is marked, the mark of any other is cleared. What was
  -- written is seen again after the caches sync, so the URL is left for the next pass.
  unfoldable pub designate_entry : PlanEntry → Designation → Run (World S) Designation
  unfolding swallow_skip set_init_node_mark clear_init_node_mark
  designate_entry e d =
      if str_eq (machine_id e) id
      then (swallow_skip (set_init_node_mark api e) >>= λ wrote. pure (record d {
        join_url = if wrote then d.join_url else join_url_of e;
        init_node_found = true;
        cache_invalidated = wrote || d.cache_invalidated;
      }))
      else (swallow_skip (clear_init_node_mark api e) >>= λ wrote.
          pure (record d { cache_invalidated = wrote || d.cache_invalidated }))

  unfoldable pub designate_all : List PlanEntry → Designation → Run (World S) Designation
  unfolding designate_entry
  designate_all [] d = pure d
  designate_all (e ∷ es) d = designate_entry e d >>= λ d'. designate_all es d'

  unfoldable pub answer_designation : ControlPlane → Result Designation → UrlAnswer
  answer_designation cp (err x) = ("", some x)
  answer_designation cp (ok d) =
      if not d.init_node_found
      then (
        "",
        some (
            other (
              "rkecluster " <> cp.namespace <> "/" <> cp.name <> ": init node with machine ID "
              <> id <> " was not found during designation")),
      )
      else if d.cache_invalidated
      then (d.join_url, some skip)
      else (d.join_url, none)

  unfoldable pub designate_init_node_by_machine_id : ControlPlane → World S → UrlAnswer × World S
  unfolding designate_all answer_designation
  designate_init_node_by_machine_id cp w =
      if str_eq id ""
      then (("", some (other "machineID cannot be empty when designating init node")), w)
      else let start : Designation = record {
        join_url = "";
        init_node_found = false;
        cache_invalidated = false;
      } in
        let (r, w') = designate_all (collect w.plan is_etcd) start w in
        (answer_designation cp r, w')
