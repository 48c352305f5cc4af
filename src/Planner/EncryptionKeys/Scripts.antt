-- ===== src/Planner/EncryptionKeys/Scripts.antt =====
-- pkg/planner/encryptionkeyrotation.go: the scripts that a rotation runs on the nodes, line by line.
use cluster_api_provider_ran.Prelude.{String, List, [], ◌∷◌}
use cluster_api_provider_ran.Planner.EtcdRestore.Scripts.{text_of}

abbrev wait_for_systemctl_status_script_lines : List String
wait_for_systemctl_status_script_lines =
    "" ∷ "#!/bin/sh" ∷ "" ∷ "runtimeServer=$1" ∷ "i=0" ∷ "" ∷ "while [ $i -lt 30 ]; do"
    ∷ "\tsystemctl is-active $runtimeServer" ∷ "\tif [ $? -eq 0 ]; then" ∷ "\t\texit 0" ∷ "\tfi"
    ∷ "\tsleep 10" ∷ "\ti=$((i + 1))" ∷ "done" ∷ "exit 1" ∷ []

unfoldable pub wait_for_systemctl_status_script : String
unfolding text_of
wait_for_systemctl_status_script = text_of wait_for_systemctl_status_script_lines

abbrev wait_for_secrets_encrypt_status_script_lines : List String
wait_for_secrets_encrypt_status_script_lines =
    "" ∷ "#!/bin/sh" ∷ "" ∷ "runtime=$1" ∷ "i=0" ∷ "" ∷ "while [ $i -lt 10 ]; do"
    ∷ "\t$runtime secrets-encrypt status" ∷ "\tif [ $? -eq 0 ]; then" ∷ "\t\t\texit 0" ∷ "\tfi"
    ∷ "\tsleep 10" ∷ "\ti=$((i + 1))" ∷ "done" ∷ "exit 1" ∷ []

unfoldable pub wait_for_secrets_encrypt_status_script : String
unfolding text_of
wait_for_secrets_encrypt_status_script = text_of wait_for_secrets_encrypt_status_script_lines

abbrev secrets_encrypt_status_script_lines : List String
secrets_encrypt_status_script_lines =
    "" ∷ "#!/bin/sh" ∷ "" ∷ "runtime=$1" ∷ "i=0" ∷ "" ∷ "while [ $i -lt 10 ]; do"
    ∷ "\toutput=\"$($runtime secrets-encrypt status)\"" ∷ "\tif [ $? -eq 0 ]; then"
    ∷ "\t\tif [ -n \"$2\" ]; then" ∷ "\t\t\techo $output | grep -q \"$2\""
    ∷ "\t\t\t\tif [ $? -eq 0 ]; then" ∷ "\t\t\t\t\texit 0" ∷ "\t\t\t\tfi" ∷ "\t\telse"
    ∷ "\t\t\texit 0" ∷ "\t\tfi" ∷ "\tfi" ∷ "\tsleep 10" ∷ "\ti=$((i + 1))" ∷ "done" ∷ "exit 1" ∷ []

unfoldable pub secrets_encrypt_status_script : String
unfolding text_of
secrets_encrypt_status_script = text_of secrets_encrypt_status_script_lines
