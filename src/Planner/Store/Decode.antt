-- ===== src/Planner/Store/Decode.antt =====
-- pkg/planner/store.go: what a plan secret says of a node, `SecretToNode` and `ParseProbeStatuses`.
use cluster_api_provider_ran.Prelude.{
  String, Bool, true, false, not, ◌&&◌, ◌||◌, Option, none, some, [], ◌∷◌, Assoc, get, ℤ, pos,
  minus_one, ◌<ℤ◌, int_eq, atoi, str_eq, ◌<>◌, if◌then◌else◌,
}
use cluster_api_provider_ran.Errors.{Result, ok, err, other, and_then}
use cluster_api_provider_ran.Plan.{NodePlan, Node, ProbeStatus, PeriodicInstructionOutput}
use cluster_api_provider_ran.Objects.{KubeSecret, Api}
use cluster_api_provider_ran.Names

-- len(b) != 0
abbrev pub has_bytes : String → Bool
has_bytes b = not (str_eq b "")

abbrev pub int_of : String → Result ℤ
int_of s = elim (atoi s) [
  | none ↦ err (other ("strconv.Atoi: parsing " <> s <> ": invalid syntax"))
  | some n ↦ ok n
]

unfoldable pub all_healthy : Assoc ProbeStatus → Bool
all_healthy [] = true
all_healthy ((name, status) ∷ ps) =
    let rest = all_healthy ps in if not status.healthy then false else rest

module _ {S : Type 0} (api : Api S) where
  unfoldable pub plan_hash : String → String
  plan_hash data_ = api.sha256_hex data_

  -- A threshold that is not set counts as 1; -1 means that the plan never fails.
  unfoldable pub reached_threshold : ℤ → String → Result Bool
  reached_threshold failure_count raw =
      if has_bytes raw
      then and_then (int_of raw)
          (λ threshold. ok (not (failure_count <ℤ threshold || int_eq threshold minus_one)))
      else ok true

  -- The fields that decide Node.Failed.
  unfoldable pub plan_failed : KubeSecret → Result Bool
  unfolding plan_hash reached_threshold
  plan_failed secret =
      let failure_count = get "failure-count" secret.contents in
      let checksum = get "failed-checksum" secret.contents in
      if has_bytes failure_count && str_eq (plan_hash (get "plan" secret.contents)) checksum
      then and_then (int_of failure_count) (λ count.
        if pos 0 <ℤ count
        then reached_threshold count (get "failure-threshold" secret.contents)
        else ok false)
      else ok false

  unfoldable pub parse_probe_statuses : String → Result (Assoc ProbeStatus × Bool)
  unfolding all_healthy
  parse_probe_statuses probes =
      if not (has_bytes probes)
      then err (other "probe status length was 0")
      else and_then (api.unmarshal_probe_statuses probes)
          (λ statuses. ok (statuses, all_healthy statuses))

  -- Without statuses a node counts as healthy.
  unfoldable pub probe_health : String → Result (Assoc ProbeStatus × Bool)
  unfolding parse_probe_statuses
  probe_health probes = if has_bytes probes then parse_probe_statuses probes else ok ([], true)

  unfoldable pub decode_applied_plan : String → Result (Option NodePlan)
  decode_applied_plan data_ =
      if has_bytes data_ then and_then (api.unmarshal_plan data_) (λ p. ok (some p)) else ok none

  unfoldable pub decode_output : String → Result (Assoc String)
  decode_output data_ = if has_bytes data_ then api.unzip_output data_ else ok []

  unfoldable pub decode_periodic_output : String → Result (Assoc PeriodicInstructionOutput)
  decode_periodic_output data_ = if has_bytes data_ then api.unzip_periodic_output data_ else ok []

  -- m[k] where an unset key and an empty text are treated alike.
  abbrev probes_passed : KubeSecret → Bool
  probes_passed secret = has_bytes (get Names.plan_probes_passed_annotation secret.annotations)

  -- SecretToNode from the plan's data on, once the failure and the probes are read.
  unfoldable pub decode_node : KubeSecret → Bool → Assoc ProbeStatus × Bool → Result (Option Node)
  unfolding decode_applied_plan decode_output decode_periodic_output
  decode_node secret failed (statuses, healthy) =
      let plan_data = get "plan" secret.contents in
      let applied_data = get "appliedPlan" secret.contents in
      if not (has_bytes plan_data)
      then ok none
      else and_then (api.unmarshal_plan plan_data) (λ plan.
        and_then (decode_applied_plan applied_data) (λ applied.
          and_then (decode_output (get "applied-output" secret.contents)) (λ output.
            and_then (decode_periodic_output (get "applied-periodic-output" secret.contents))
              (λ periodic. ok (
                some (record {
                  node_plan = plan;
                  applied_plan = applied;
                  joined_to = get Names.joined_to_annotation secret.annotations;
                  output = output;
                  periodic_output = periodic;
                  failed = failed;
                  in_sync = str_eq plan_data applied_data;
                  healthy = healthy;
                  plan_data_exists = true;
                  probe_status = statuses;
                  probes_usable = probes_passed secret;
                }))))))

  unfoldable pub node_of_secret : KubeSecret → Result (Option Node)
  unfolding plan_failed probe_health decode_node
  node_of_secret secret =
      if not (str_eq secret.secret_type Names.secret_type_machine_plan)
      then err (
          other (
            "secret " <> secret.namespace <> "/" <> secret.name <> " was not type "
            <> Names.secret_type_machine_plan))
      else and_then (plan_failed secret) (λ failed.
        and_then (probe_health (get "probe-statuses" secret.contents))
          (λ probes. decode_node secret failed probes))

  -- `none` is a nil pointer: on the left a missing secret, on the right a node without a plan.
  unfoldable pub secret_to_node : Option KubeSecret → Result (Option Node)
  unfolding node_of_secret
  secret_to_node none = err (other "unable to convert secret to node plan, secret was nil")
  secret_to_node (some secret) = node_of_secret secret
