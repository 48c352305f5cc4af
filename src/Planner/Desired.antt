-- ===== src/Planner/Desired.antt =====
-- pkg/planner/planner.go: `desiredPlan`, the plan that a node is to have outside of an operation.
use cluster_api_provider_ran.Prelude.{String, Bool, true, not, ◌&&◌, Assoc, is_some, if◌then◌else◌}
use cluster_api_provider_ran.Errors.{Result, ok, and_then}
use cluster_api_provider_ran.Plan.{NodePlan, Probe}
use cluster_api_provider_ran.Objects.{Value, Api}
use cluster_api_provider_ran.ControlPlane.{ControlPlane}
use cluster_api_provider_ran.Names
use cluster_api_provider_ran.Planner.Entry.{
  PlanEntry, annotation?, is_init_node, is_only_etcd, is_etcd,
}
use cluster_api_provider_ran.Planner.Probes.{generate_probes}
use cluster_api_provider_ran.Planner.Reconcile.Tier.{DesiredPlan}
use cluster_api_provider_ran.Planner.S3Args.{s3_enabled}
use cluster_api_provider_ran.Planner.Instructions.{
  InfoFunctions, add_install_instruction_with_restart_stamp, add_init_node_periodic_instruction,
  add_kubeconfig_dump_periodic_instruction, add_etcd_snapshot_list_local_periodic_instruction,
  add_etcd_snapshot_list_s3_periodic_instruction,
}

-- The plan, the configuration that its files hold, and the server that the node joins.
pub record Configured : Type 0 where
  pub node_plan : NodePlan
  pub config : Assoc Value
  pub joined_server : String

-- p.generatePlanWithConfigFiles for the control plane and tokens at hand, from the entry, the server to
-- join and whether the arguments for S3 are rendered.
abbrev pub ConfigPlan : Type 0
ConfigPlan = PlanEntry → String → Bool → Result Configured

abbrev run_when : Bool → (NodePlan → NodePlan) → NodePlan → NodePlan
run_when b f p = if b then f p else p

-- The periodic instructions, which the roles of the node call for
unfoldable pub add_periodic_instructions : ControlPlane → PlanEntry → NodePlan → NodePlan
unfolding s3_enabled add_init_node_periodic_instruction add_kubeconfig_dump_periodic_instruction
    add_etcd_snapshot_list_local_periodic_instruction add_etcd_snapshot_list_s3_periodic_instruction
add_periodic_instructions cp e p =
    let scraped =
      run_when
        (is_init_node e
          && is_only_etcd e
          && not (is_some (annotation? Names.join_url_autoset_disabled e.metadata)))
        (add_init_node_periodic_instruction cp) p in
    let dumped = run_when (is_init_node e) add_kubeconfig_dump_periodic_instruction scraped in
    let listed =
      run_when (is_etcd e) (add_etcd_snapshot_list_local_periodic_instruction cp) dumped in
    run_when (is_etcd e && s3_enabled cp.etcd_s3 && is_init_node e)
      (add_etcd_snapshot_list_s3_periodic_instruction cp) listed

module _ {S : Type 0} (api : Api S) (to_string : Value → String) (functions : InfoFunctions)
    (cp : ControlPlane) where
  unfoldable pub finish_desired : PlanEntry → Configured → Assoc Probe → NodePlan × String
  unfolding add_periodic_instructions add_install_instruction_with_restart_stamp
  finish_desired e c probes = (
    add_periodic_instructions cp e (
        add_install_instruction_with_restart_stamp api functions
          (record c.node_plan { probes = probes }) cp e),
    c.joined_server,
  )

  unfoldable pub desired_plan : ConfigPlan → DesiredPlan
  unfolding finish_desired
  desired_plan config_plan e join_server = and_then (config_plan e join_server true) (λ c.
      and_then (generate_probes to_string cp e c.config) (λ probes. ok (finish_desired e c probes)))
