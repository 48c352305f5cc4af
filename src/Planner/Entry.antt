-- ===== src/Planner/Entry.antt =====
-- pkg/planner/planentry.go: a machine with its plan and metadata, and the role filters on it.
use cluster_api_provider_ran.Prelude.{
  String, Bool, false, not, ◌&&◌, ◌||◌, Option, none, some, Assoc, lookup, insert, str_eq, is_some,
  or_zero,
}
use cluster_api_provider_ran.Plan.{Metadata, Node}
use cluster_api_provider_ran.Objects.{Machine, Api}
use cluster_api_provider_ran.Names

-- plan.Plan: the machines of a cluster with their nodes and metadata, by machine name.
pub record Plan : Type 0 where
  pub nodes : Assoc Node
  pub machines : Assoc Machine
  pub metadata : Assoc Metadata

pub record PlanEntry : Type 0 where
  pub machine : Machine
  pub plan : Option Node
  pub metadata : Option Metadata

abbrev pub RoleFilter : Type 0
RoleFilter = PlanEntry → Bool

-- entry.Metadata.Labels[k], with whether the key is there; nil metadata has no labels.
abbrev pub label? : String → Option Metadata → Option String
label? k none = none
label? k (some m) = lookup k m.labels

abbrev pub annotation? : String → Option Metadata → Option String
annotation? k none = none
annotation? k (some m) = lookup k m.annotations

-- entry.Metadata.Labels[k] and entry.Metadata.Annotations[k] as texts
unfoldable pub label : String → PlanEntry → String
label k e = or_zero "" (label? k e.metadata)

unfoldable pub annotation : String → PlanEntry → String
annotation k e = or_zero "" (annotation? k e.metadata)

abbrev pub with_annotation : String → String → Metadata → Metadata
with_annotation k v m = record m { annotations = insert k v m.annotations }

-- entry.Metadata.Annotations[k] = v
unfoldable pub annotate : String → String → PlanEntry → PlanEntry
annotate k v e = record e {
  metadata = elim e.metadata [ none ↦ none | some m ↦ some (with_annotation k v m) ];
}

abbrev pub with_label : String → String → Metadata → Metadata
with_label k v m = record m { labels = insert k v m.labels }

-- entry.Metadata.Labels[k] = v
unfoldable pub set_label : String → String → PlanEntry → PlanEntry
set_label k v e = record e {
  metadata = elim e.metadata [ none ↦ none | some m ↦ some (with_label k v m) ];
}

unfoldable pub role_and : RoleFilter → RoleFilter → RoleFilter
role_and r1 r2 e = r1 e && r2 e

unfoldable pub role_or : RoleFilter → RoleFilter → RoleFilter
role_or r1 r2 e = r1 e || r2 e

unfoldable pub role_not : RoleFilter → RoleFilter
role_not r1 e = not (r1 e)

unfoldable pub is_etcd : RoleFilter
unfolding label
is_etcd e = is_some e.metadata && str_eq (label Names.etcd_role_label e) "true"

unfoldable pub is_init_node : RoleFilter
unfolding label
is_init_node e = is_some e.metadata && str_eq (label Names.init_node_label e) "true"

unfoldable pub is_control_plane : RoleFilter
unfolding label
is_control_plane e = is_some e.metadata && str_eq (label Names.control_plane_role_label e) "true"

unfoldable pub is_worker : RoleFilter
unfolding label
is_worker e = is_some e.metadata && str_eq (label Names.worker_role_label e) "true"

unfoldable pub is_deleting : RoleFilter
is_deleting e = is_some e.machine.deletion_timestamp

unfoldable pub is_not_deleting : RoleFilter
unfolding is_deleting
is_not_deleting e = not (is_deleting e)

unfoldable pub is_failed : RoleFilter
is_failed e = str_eq e.machine.phase "Failed"

unfoldable pub is_init_node_or_deleting : RoleFilter
is_init_node_or_deleting e = is_init_node e || is_deleting e

unfoldable pub is_not_init_node_or_is_deleting : RoleFilter
is_not_init_node_or_is_deleting e = not (is_init_node e) || is_deleting e

unfoldable pub is_not_deleting_and_control_plane_or_init_node : RoleFilter
is_not_deleting_and_control_plane_or_init_node e =
    not (is_deleting e) && (is_control_plane e || is_init_node e)

unfoldable pub can_be_init_node : {S : Type 0} → Api S → RoleFilter
can_be_init_node api e =
    is_etcd e
    && not (is_deleting e)
    && not (is_failed e)
    && api.is_true Names.infrastructure_ready e.machine.conditions

unfoldable pub is_control_plane_and_not_init_node : RoleFilter
is_control_plane_and_not_init_node e = is_control_plane e && not (is_init_node e)

unfoldable pub is_control_plane_etcd : RoleFilter
is_control_plane_etcd e = is_control_plane e || is_etcd e

unfoldable pub is_only_etcd : RoleFilter
is_only_etcd e = is_etcd e && not (is_control_plane e)

unfoldable pub is_etcd_only_init_node : RoleFilter
unfolding is_only_etcd
is_etcd_only_init_node e = is_init_node e && is_only_etcd e

unfoldable pub is_only_control_plane : RoleFilter
is_only_control_plane e = not (is_etcd e) && is_control_plane e

unfoldable pub no_role : RoleFilter
no_role e = not (is_etcd e) && not (is_control_plane e) && not (is_worker e)

unfoldable pub any_role : RoleFilter
unfolding no_role
any_role e = not (no_role e)

unfoldable pub is_only_worker : RoleFilter
is_only_worker e = not (is_etcd e) && not (is_control_plane e) && is_worker e

-- A node without the label is taken for a Linux node.
abbrev os_is_windows : Option String → Bool
os_is_windows none = false
os_is_windows (some os) = str_eq os Names.windows_machine_os

unfoldable pub windows : RoleFilter
windows e = os_is_windows (label? Names.cattle_os_label e.metadata)

unfoldable pub any_role_without_windows : RoleFilter
unfolding no_role windows
any_role_without_windows e = not (no_role e) && not (windows e)

abbrev data_exists : Option Node → Bool
data_exists none = false
data_exists (some n) = n.plan_data_exists

unfoldable pub any_plan_data_exists : RoleFilter
any_plan_data_exists e = data_exists e.plan

unfoldable pub has_join_url : RoleFilter
has_join_url e = is_some e.metadata && not (str_eq (annotation Names.join_url_annotation e) "")

unfoldable pub has_joined_to : RoleFilter
has_joined_to e = is_some e.metadata && not (str_eq (annotation Names.joined_to_annotation e) "")
