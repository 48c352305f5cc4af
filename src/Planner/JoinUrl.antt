-- ===== src/Planner/JoinUrl.antt =====
-- pkg/planner/planner.go: which server a node joins.
pub mod Laws
use cluster_api_provider_ran.Prelude.{
  ℕ, ◌-◌, ◌*◌, ◌/◌, ◌^◌, ◌%◌, String, Bool, true, false, not, ◌&&◌, Option, none, some, List, [],
  ◌∷◌, length, get_elem?, ltb, ◌==◌, str_eq, ◌<>◌, if◌then◌else◌,
}
use cluster_api_provider_ran.Errors.{Error, other, Result, ok, err}
use cluster_api_provider_ran.Plan.{Node}
use cluster_api_provider_ran.Objects.{Api}
use cluster_api_provider_ran.ControlPlane.{ControlPlane}
use cluster_api_provider_ran.Names
use cluster_api_provider_ran.Planner.Entry.{
  Plan, PlanEntry, RoleFilter, annotation, role_and, role_not, is_init_node, is_control_plane,
  is_only_worker, is_deleting, has_join_url,
}
use cluster_api_provider_ran.Planner.Collect.{collect, valid_join_url}

-- math.MaxUint32
abbrev pub max_uint32 : ℕ
max_uint32 = 2 ^ 32 - 1

-- The control plane nodes that a worker can join.
abbrev pub join_candidate : RoleFilter
join_candidate = role_and is_control_plane (role_and has_join_url (role_not is_deleting))

-- The checksum, kept below the divisor.
unfoldable pub clamp_checksum : ℕ → ℕ
clamp_checksum ck = if ck == max_uint32 then ck - 1 else ck

-- The quotient of a product that is stored in a 64-bit `int`, by math.MaxUint32, truncated to zero;
-- `none` is a negative quotient.
unfoldable pub quotient_of_int : ℕ → Option ℕ
quotient_of_int product =
    if ltb product (2 ^ 63)
    then some (product / max_uint32)
    else if (2 ^ 64 - product) / max_uint32 == 0
    then some 0
    else none

-- The index of the server for a checksum.
unfoldable pub scaled_index : ℕ → ℕ → Option ℕ
unfolding clamp_checksum quotient_of_int
scaled_index ck count = quotient_of_int (clamp_checksum ck * count % 2 ^ 64)

-- entries[i].Metadata.Annotations[...]: out of range is a panic, `none`.
abbrev pub url_at : List PlanEntry → Option ℕ → Option String
url_at entries none = none
url_at entries (some i) = elim (get_elem? entries i) [
  | none ↦ none
  | some e ↦ some (annotation Names.join_url_annotation e)
]

abbrev joined_to_of : Option Node → String
joined_to_of none = ""
joined_to_of (some node) = node.joined_to

-- The server that a worker keeps: the one in its plan, if that is still valid.
unfoldable pub kept_join_url : PlanEntry → Plan → String
kept_join_url e plan =
    let current = joined_to_of e.plan in
    if not (str_eq current "") && valid_join_url plan current then current else ""

-- The answer on a calculated URL.
abbrev pub url_or_error : ControlPlane → PlanEntry → String → Result String
url_or_error cp e url =
    if str_eq url ""
    then err (
        other (
          "no suitable join URL found to join machine " <> e.machine.namespace <> "/"
          <> e.machine.name <> " in rkecluster " <> cp.namespace <> "/" <> cp.name <> " to"))
    else ok url

abbrev pub or_no_join_url : ControlPlane → PlanEntry → Option String → Option (Result String)
or_no_join_url cp e none = none
or_no_join_url cp e (some url) = some (url_or_error cp e url)

module _ {S : Type 0} (api : Api S) where
  -- `none` is a panic.
  unfoldable pub calculate_join_url : PlanEntry → Plan → Option String
  calculate_join_url e plan =
      if is_init_node e
      then some "-"
      else let entries = collect plan join_candidate in
        if length entries == 0
        then some ""
        else url_at entries (scaled_index (api.crc32 e.machine.uid) (length entries))

  -- determineJoinURL. Its three arguments that could be nil are values here; `none` is a panic.
  unfoldable pub determine_join_url :
      ControlPlane → PlanEntry → Plan → String → Option (Result String)
  unfolding kept_join_url calculate_join_url
  determine_join_url cp e plan join_url =
      if not (is_only_worker e)
      then some (ok join_url)
      else if not (str_eq join_url "")
      then some (ok join_url)
      else if not (str_eq (kept_join_url e plan) "")
      then some (ok (kept_join_url e plan))
      else or_no_join_url cp e (calculate_join_url e plan)
