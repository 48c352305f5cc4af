-- ===== src/Planner/Collect.antt =====
-- pkg/planner/planentry.go: `collect` and `collectAndValidateAnnotationValue`, over Go's maps.
pub mod Laws
use cluster_api_provider_ran.Prelude.{
  String, Bool, true, false, not, ◌&&◌, ◌||◌, List, [], ◌∷◌, Assoc, lookup, str_eq, str_le,
  if◌then◌else◌,
}
use cluster_api_provider_ran.Objects.{Machine}
use cluster_api_provider_ran.Names
use cluster_api_provider_ran.Planner.Entry.{
  Plan, PlanEntry, RoleFilter, annotation, is_not_deleting_and_control_plane_or_init_node,
}

-- The entry that both loops build for a machine of the plan.
unfoldable pub entry_of : Plan → String → Machine → PlanEntry
entry_of p name machine = record {
  machine = machine;
  plan = lookup name p.nodes;
  metadata = lookup name p.metadata;
}

-- The loop of `collect` over the machines.
unfoldable pub included : Plan → RoleFilter → Assoc Machine → List PlanEntry
unfolding entry_of
included p include [] = []
included p include ((name, machine) ∷ ms) =
    let rest = included p include ms in
    if include (entry_of p name machine) then entry_of p name machine ∷ rest else rest

-- sort.Slice by machine name. Machine names are unique in a plan, so ties do not arise.
unfoldable pub insert_by_name : PlanEntry → List PlanEntry → List PlanEntry
insert_by_name x [] = x ∷ []
insert_by_name x (y ∷ ys) =
    if str_le x.machine.name y.machine.name then x ∷ y ∷ ys else y ∷ insert_by_name x ys

unfoldable pub sort_by_name : List PlanEntry → List PlanEntry
unfolding insert_by_name
sort_by_name [] = []
sort_by_name (x ∷ xs) = insert_by_name x (sort_by_name xs)

unfoldable pub collect : Plan → RoleFilter → List PlanEntry
unfolding included sort_by_name
collect p include = sort_by_name (included p include p.machines)

-- The loop of `collectAndValidateAnnotationValue`.
unfoldable pub any_with_annotation : Plan → RoleFilter → String → String → Assoc Machine → Bool
unfolding entry_of
any_with_annotation p validation key value [] = false
any_with_annotation p validation key value ((name, machine) ∷ ms) =
    let rest = any_with_annotation p validation key value ms in
    if not (validation (entry_of p name machine))
    then rest
    else if str_eq (annotation key (entry_of p name machine)) value
    then true
    else rest

unfoldable pub collect_and_validate_annotation_value : Plan → RoleFilter → String → String → Bool
unfolding any_with_annotation
collect_and_validate_annotation_value p validation key value =
    any_with_annotation p validation key value p.machines

unfoldable pub valid_join_url : Plan → String → Bool
valid_join_url p join_url =
    collect_and_validate_annotation_value p is_not_deleting_and_control_plane_or_init_node
      Names.join_url_annotation join_url
