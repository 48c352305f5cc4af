-- ===== src/Planner/EtcdRestore/Scripts.antt =====
-- pkg/planner/etcdrestore.go: the scripts that a restore runs on the nodes, line by line.
use cluster_api_provider_ran.Prelude.{String, List, [], ◌∷◌, ◌<>◌}

-- The lines with a line break after each
unfoldable pub text_of : List String → String
text_of [] = ""
text_of (l ∷ ls) = l <> "\n" <> text_of ls

abbrev wait_for_pod_list_script_lines : List String
wait_for_pod_list_script_lines =
    "" ∷ "#!/bin/sh" ∷ "" ∷ "i=0" ∷ "" ∷ "while [ $i -lt 30 ]; do" ∷ "\tif $@ >/dev/null 2>&1; then"
    ∷ "\t\texit 0" ∷ "\tfi" ∷ "\tsleep 10" ∷ "\ti=$((i + 1))" ∷ "done" ∷ "exit 1" ∷ []

unfoldable pub wait_for_pod_list_script : String
unfolding text_of
wait_for_pod_list_script = text_of wait_for_pod_list_script_lines

abbrev clean_up_nodes_script_lines : List String
clean_up_nodes_script_lines =
    "" ∷ "#!/bin/sh" ∷ "" ∷ "if [ -z \"$KUBECTL\" ]; then"
    ∷ "        echo \"Must define KUBECTL environment variable\"" ∷ "        exit 1" ∷ "fi" ∷ ""
    ∷ "if [ -z \"$KUBECONFIG\" ]; then"
    ∷ "        echo \"Must define KUBECONFIG environment variable\"" ∷ "        exit 1" ∷ "fi" ∷ ""
    ∷ "MACHINEIDSFILE=\"$1\"" ∷ "NODENAMESFILE=\"$2\"" ∷ ""
    ∷ "if [ -z \"$MACHINEIDSFILE\" ] || [ -z \"$NODENAMESFILE\" ]; then"
    ∷ "        echo \"Must define nodenames file and machineids file\"" ∷ "fi" ∷ ""
    ∷ "TMPALLNODES=$(mktemp)" ∷ "TMPSAVENODES=$(mktemp)" ∷ ""
    ∷ "cat \"$NODENAMESFILE\" > \"$TMPSAVENODES\"" ∷ ""
    ∷ "if ! ${KUBECTL} get nodes --no-headers -o=jsonpath='{range .items[*]}{.metadata.name}{\"\\n\"}{end}' > \"$TMPALLNODES\"; then"
    ∷ "        echo \"Error listing all nodes\"" ∷ "        exit 1" ∷ "fi" ∷ ""
    ∷ "while IFS='' read -r IDENTIFIER; do"
    ∷ "        if NODENAME=$(${KUBECTL} get node --no-headers -o=jsonpath='{.items[0].metadata.name}' -l rke.cattle.io/machine=\"$IDENTIFIER\"); then"
    ∷ "                echo \"$NODENAME\" >> \"$TMPSAVENODES\"" ∷ "        fi"
    ∷ "done < \"$MACHINEIDSFILE\"" ∷ "" ∷ "echo \"Saving nodes:\"" ∷ "cat \"$TMPSAVENODES\"" ∷ ""
    ∷ "while IFS='' read -r NODE; do" ∷ "        if [ \"${NODE}\" = \"\" ]; then"
    ∷ "                continue" ∷ "        fi" ∷ "        FOUND=false"
    ∷ "        while IFS='' read -r KEEP; do"
    ∷ "                if [ \"${NODE}\" = \"${KEEP}\" ]; then"
    ∷ "                        FOUND=true" ∷ "                        break" ∷ "                fi"
    ∷ "        done < \"$TMPSAVENODES\"" ∷ "        if [ \"${FOUND}\" != \"true\" ]; then"
    ∷ "                echo \"Deleting node ${NODE}\""
    ∷ "                ${KUBECTL} delete node \"${NODE}\" --wait=false" ∷ "        fi"
    ∷ "done < \"$TMPALLNODES\"" ∷ "rm \"$TMPALLNODES\"" ∷ "rm \"$TMPSAVENODES\"" ∷ ""
    ∷ "rm \"$MACHINEIDSFILE\"" ∷ "rm \"$NODENAMESFILE\"" ∷ []

unfoldable pub clean_up_nodes_script : String
unfolding text_of
clean_up_nodes_script = text_of clean_up_nodes_script_lines

abbrev wait_for_ready_script_lines : List String
wait_for_ready_script_lines =
    "" ∷ "#!/bin/sh" ∷ "" ∷ "if [ -z \"$KUBECTL\" ]; then"
    ∷ "        echo \"Must define KUBECTL environment variable\"" ∷ "        exit 1" ∷ "fi" ∷ ""
    ∷ "if [ -z \"$KUBECONFIG\" ]; then"
    ∷ "        echo \"Must define KUBECONFIG environment variable\"" ∷ "        exit 1" ∷ "fi" ∷ ""
    ∷ "TMPMACHINEIDS=$(mktemp)" ∷ "" ∷ "printf '%s\\n' \"$@\" > \"$TMPMACHINEIDS\"" ∷ ""
    ∷ "DESIREDREADYCOUNT=$(wc -l < \"$TMPMACHINEIDS\")" ∷ "" ∷ "DESIREDNODESREADY=false" ∷ ""
    ∷ "while ! $DESIREDNODESREADY; do" ∷ "        DESIREDNODESREADY=true"
    ∷ "        while IFS='' read -r MID; do" ∷ "                if [ \"$MID\" = \"\" ]; then"
    ∷ "                        exit" ∷ "                fi"
    ∷ "                if NODEREADY=$(${KUBECTL} get node --no-headers -o=custom-columns=STATUS:status.conditions\\[\\?\\(\\@.type==\\\"Ready\\\"\\)\\].status -l rke.cattle.io/machine=\"$MID\"); then"
    ∷ "                        if [ \"$NODEREADY\" != \"True\" ]; then"
    ∷ "                                DESIREDNODESREADY=false"
    ∷ "                                sleep 5" ∷ "                                break"
    ∷ "                        fi" ∷ "                fi" ∷ "        done < \"$TMPMACHINEIDS\""
    ∷ "done" ∷ "" ∷ "" ∷ "DESIREDREADYCOUNT=$(wc -l < \"$TMPMACHINEIDS\")" ∷ "rm \"$TMPMACHINEIDS\""
    ∷ "" ∷ "TMPALLREADY=$(mktemp)" ∷ "" ∷ "ITERCOUNT=0" ∷ "while [ \"$ITERCOUNT\" != 60 ]; do"
    ∷ "        ACTUALREADYCOUNT=0" ∷ "        ITERCOUNT=$((ITERCOUNT+1))"
    ∷ "        if ! ${KUBECTL} get nodes --no-headers -o=custom-columns=STATUS:status.conditions\\[\\?\\(\\@.type==\\\"Ready\\\"\\)\\].status > \"$TMPALLREADY\"; then"
    ∷ "                sleep 5" ∷ "                continue" ∷ "        fi"
    ∷ "        while IFS='' read -r STATUS; do"
    ∷ "                if [ \"$STATUS\" = \"True\" ]; then"
    ∷ "                        ACTUALREADYCOUNT=$((ACTUALREADYCOUNT+1))" ∷ "                fi"
    ∷ "        done < \"$TMPALLREADY\""
    ∷ "        if [ \"$DESIREDREADYCOUNT\" = \"$ACTUALREADYCOUNT\" ]; then"
    ∷ "                break" ∷ "        fi" ∷ "        sleep 5" ∷ "done" ∷ ""
    ∷ "rm \"$TMPALLREADY\"" ∷ []

unfoldable pub wait_for_ready_script : String
unfolding text_of
wait_for_ready_script = text_of wait_for_ready_script_lines
