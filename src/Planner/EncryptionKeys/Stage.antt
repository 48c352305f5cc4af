-- ===== src/Planner/EncryptionKeys/Stage.antt =====
-- pkg/planner/encryptionkeyrotation.go: the stage of a rotation in the output of a node.
use Prim.Native.Char.{Char, code}
use cluster_api_provider_ran.Prelude.{
  ℕ, ◌==◌, String, Bool, false, ◌||◌, Option, none, some, List, [], ◌∷◌, lookup, any, str_eq, ◌<>◌,
  if◌then◌else◌,
}
use cluster_api_provider_ran.Errors.{Error, waiting, other, panic, Result, ok, err}
use cluster_api_provider_ran.Plan.{Node}
use cluster_api_provider_ran.ControlPlane.{RotateEncryptionKeysPhase}
use cluster_api_provider_ran.Planner.Args.{split_two}
use cluster_api_provider_ran.Planner.EncryptionKeys.State.{key_phase_text}
use cluster_api_provider_ran.Planner.EncryptionKeys.Plans.{secrets_encrypt_status}

abbrev line_feed : ℕ
line_feed = 10

abbrev onto_first : Char → List String → List String
onto_first c [] = []
onto_first c (l ∷ ls) = String.◌∷◌ c l ∷ ls

-- strings.Split(s, "\n")
unfoldable pub split_lines : String → List String
split_lines String.[] = "" ∷ []
split_lines (String.◌∷◌ c s) =
    let rest = split_lines s in if code c == line_feed then "" ∷ rest else onto_first c rest

abbrev stage_label : String
stage_label = "Current Rotation Stage"

-- The second part of a split at ": ", which ends where the third begins
unfoldable pub second_part : String → String
unfolding split_two
second_part rest = elim (split_two ": " rest) [ none ↦ rest | some parts ↦ parts.0 ]

-- One line: its stage, or none where it has another label. The label alone has no second part.
unfoldable pub stage_of_line : String → Option (String × String) → Result (Option String)
unfolding second_part
stage_of_line line none =
    if str_eq line stage_label then err (panic "index out of range") else ok none
stage_of_line line (some (label, rest)) =
    if str_eq label stage_label then ok (some (second_part rest)) else ok none

-- The answer of the first line that has one, or that of the others
unfoldable pub first_stage : Result (Option String) → Result String → Result String
first_stage (err e) rest = err e
first_stage (ok (some stage)) rest = ok stage
first_stage (ok none) rest = rest

unfoldable pub stage_in : List String → Result String
unfolding split_two stage_of_line first_stage
stage_in [] = err (waiting "unable to parse rotation stage from output")
stage_in (l ∷ ls) = first_stage (stage_of_line l (split_two ": " l)) (stage_in ls)

abbrev incomplete : String → Error
incomplete name =
    waiting (
      "could not extract current stage from plan for [" <> name <> "]: status output is incomplete")

unfoldable pub stage_in_lines : String → List String → Result String
unfolding stage_in
stage_in_lines name [] = err (incomplete name)
stage_in_lines name (l ∷ []) = err (incomplete name)
stage_in_lines name (l ∷ m ∷ ls) = stage_in (l ∷ m ∷ ls)

unfoldable pub encryption_key_rotation_stage_from_output : String → String → Result String
unfolding split_lines stage_in_lines
encryption_key_rotation_stage_from_output name output = stage_in_lines name (split_lines output)

abbrev no_output : String → Error
no_output name =
    waiting
      ("could not extract current status from plan for [" <> name <> "]: no output for status")

-- From the output of the instructions that run once, for a node with a plan
unfoldable pub stage_from_one_time_status : String → Node → Result String
unfolding encryption_key_rotation_stage_from_output
stage_from_one_time_status name node = elim (lookup secrets_encrypt_status node.output) [
  | none ↦ err (no_output name)
  | some output ↦ encryption_key_rotation_stage_from_output name output
]

unfoldable pub stage_from_periodic : String → Node → Result String
unfolding encryption_key_rotation_stage_from_output
stage_from_periodic name node = elim (lookup secrets_encrypt_status node.periodic_output) [
  | none ↦
      if any (λ i. str_eq i.name secrets_encrypt_status) node.node_plan.periodic_instructions
      then err (no_output name)
      else err (
          other (
            "could not extract current status from plan for [" <> name
            <> "]: status command not present in plan"))
  | some output ↦ encryption_key_rotation_stage_from_output name output.stdout
]

abbrev pub reencrypt_request : String
reencrypt_request = "reencrypt_request"

abbrev pub reencrypt_active : String
reencrypt_active = "reencrypt_active"

abbrev pub reencrypt_finished : String
reencrypt_finished = "reencrypt_finished"

unfoldable pub is_allowed : String → RotateEncryptionKeysPhase → Bool
is_allowed stage RotateEncryptionKeysPhase.prepare = str_eq stage "prepare"
is_allowed stage RotateEncryptionKeysPhase.rotate = str_eq stage "rotate"
is_allowed stage RotateEncryptionKeysPhase.reencrypt =
    str_eq stage reencrypt_request
    || str_eq stage reencrypt_active
    || str_eq stage reencrypt_finished
is_allowed stage _ = false

unfoldable pub encryption_key_rotation_is_current_stage_allowed :
    String → RotateEncryptionKeysPhase → Result (Unit {0})
unfolding is_allowed key_phase_text
encryption_key_rotation_is_current_stage_allowed stage phase =
    if is_allowed stage phase
    then ok tt
    else err (
        other (
          "unexpected encryption key rotation stage ["
          <> stage
          <> "] for phase ["
          <> key_phase_text phase
          <> "]"))
