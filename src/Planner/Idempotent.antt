-- ===== src/Planner/Idempotent.antt =====
-- pkg/planner/idempotent.go: instructions that a node carries out once for each value.
use cluster_api_provider_ran.Prelude.{
  String, false, List, [], ◌∷◌, ◌++◌, ◌<>◌, str_eq, to_lower, if◌then◌else◌,
}
use cluster_api_provider_ran.Plan.{OneTimeInstruction}
use cluster_api_provider_ran.Objects.{Api}
use cluster_api_provider_ran.ControlPlane.{ControlPlane, get_provisioning_data_dir}
use cluster_api_provider_ran.Paths.{join_path}

-- Go's zero value of an instruction
abbrev pub no_instruction : OneTimeInstruction
no_instruction = record {
  name = "";
  image = "";
  env = [];
  args = [];
  command = "";
  save_output = false;
}

unfoldable pub idempotent_action_script_path : ControlPlane → String
idempotent_action_script_path cp =
    join_path (get_provisioning_data_dir cp) "idempotence/idempotent.sh"

unfoldable pub generate_idempotency_cleanup_instruction : ControlPlane → String → OneTimeInstruction
generate_idempotency_cleanup_instruction cp key =
    if str_eq key "" then no_instruction else record no_instruction {
      name = "remove idempotency tracking";
      command = "/bin/sh";
      args = "-c" ∷ ("rm -rf " <> get_provisioning_data_dir cp <> "/idempotence/" <> key) ∷ [];
    }

module _ {S : Type 0} (api : Api S) (cp : ControlPlane) (identifier value : String) where
  unfoldable pub idempotent_instruction : String → List String → List String → OneTimeInstruction
  unfolding idempotent_action_script_path
  idempotent_instruction command args env =
      let hashed_command = api.sha256_hex command in
      let hashed_value = api.sha256_hex value in
      record no_instruction {
        name = "idempotent-" <> identifier <> "-" <> hashed_value <> "-" <> hashed_command;
        command = "/bin/sh";
        args =
            ("-x"
              ∷ idempotent_action_script_path cp
              ∷ to_lower identifier
              ∷ hashed_value
              ∷ hashed_command
              ∷ command
              ∷ get_provisioning_data_dir cp
              ∷ [])
            ++ args;
        env = env;
      }

  unfoldable pub convert_to_idempotent_instruction : OneTimeInstruction → OneTimeInstruction
  unfolding idempotent_instruction
  convert_to_idempotent_instruction i = record (idempotent_instruction i.command i.args i.env) {
    image = i.image;
    save_output = i.save_output;
  }

module _ {S : Type 0} (api : Api S) (cp : ControlPlane)
    (identifier value runtime_unit : String) where
  unfoldable pub idempotent_restart_instructions : List OneTimeInstruction
  unfolding idempotent_instruction
  idempotent_restart_instructions =
      idempotent_instruction api cp (identifier <> "-reset-failed") value "/bin/sh"
        ("-c"
          ∷ ("if [ $(systemctl is-failed " <> runtime_unit
              <> ") = failed ]; then systemctl reset-failed " <> runtime_unit <> "; fi")
          ∷ [])
        []
      ∷ idempotent_instruction api cp (identifier <> "-restart") value "systemctl"
          ("restart" ∷ runtime_unit ∷ []) []
      ∷ []

  unfoldable pub idempotent_stop_instruction : OneTimeInstruction
  unfolding idempotent_instruction
  idempotent_stop_instruction =
      idempotent_instruction api cp (identifier <> "-stop") value "systemctl"
        ("stop" ∷ runtime_unit ∷ []) []
