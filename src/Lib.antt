-- ===== src/Lib.antt =====
-- A verification library for the planner of cluster-api-provider-rancher.
--
-- The planner (pkg/planner) turns an RKEControlPlane into a plan for each machine of a cluster. A
-- machine's plan lives in a secret of the management API server: the planner writes the plan and reads
-- what the machine's agent reports about it. One pass over a cluster elects an init node, and then
-- reconciles the machines tier by tier: bootstrap, etcd, control plane, worker. Within a tier it
-- delivers changed plans, draining machines first where a change restarts them, and keeps the number
-- of unavailable machines within the configured concurrency.
--
-- Files and the code they model:
--   Prelude        numbers, texts, lists and string-keyed maps; Prelude/Int has Go's int with
--                  strconv.Itoa and strconv.Atoi
--   Errors         pkg/planner/errors.go, and runs: code that changes a state and may fail
--   Plan           pkg/apis/rke.cattle.io/v1/plan; Plan/Equal is equality.Semantic.DeepEqual on it
--   Names          the labels and annotations of pkg/common.go
--   Objects        the Kubernetes objects, and the interface Api of what is called outside the
--                  repository
--   ControlPlane   the RKEControlPlane with the fields that are read
--   Planner/Entry, Planner/Collect   pkg/planner/planentry.go
--   Planner/Messages                 pkg/planner/messages.go and the status messages of store.go
--   Planner/Store                    pkg/planner/store.go: Decode is SecretToNode, Update is UpdatePlan
--                  and the label and annotation updates, Assign is assignAndCheckPlan; Threshold,
--                  Copying, Delivered and Assigned are proofs
--   Planner/Drain                    pkg/planner/drain.go
--   Planner/Change                   minorPlanChangeDetected, isUnavailable and their helpers
--   Planner/JoinUrl                  calculateJoinURL and determineJoinURL
--   Planner/Concurrency              calculateConcurrency
--   Planner/Conditions               setMachineConditionStatus
--   Planner/Reconcile                reconcile: Pass has its variables, Step the body of its loop, Tier the
--                  whole, Budget proofs about the number of unavailable machines
--   Planner/InitNode                 pkg/planner/initnode.go
--   Planner/FullReconcile            fullReconcile and clusterIsSane; Kept is about the status
--   Planner/EtcdCreate               pkg/planner/etcdcreate.go: the phases of an etcd snapshot
--   Planner/Args                     the argument helpers of planner.go, renderArgAndMount and PruneEmpty;
--                  Setting, Rendering and Mounts are proofs
--   Planner/Taints                   getTaints
--   Planner/Probes                   pkg/planner/probe.go
--   Planner/Idempotent, Planner/Instructions   pkg/planner/idempotent.go and instructions.go, with
--                  restartStamp and getInstallerImage
--   Planner/CapiCluster              pauseCAPICluster and the owner of a control plane
--   Planner/S3Args                   pkg/planner/s3args.go
--   Planner/Desired                  desiredPlan
--   Planner/EtcdRestore              pkg/planner/etcdrestore.go: State has the phase in the status, Scripts and
--                  Plans what is delivered, Stop the shutdown, Phases the whole; Steps, Stopped,
--                  Restored and Finished are proofs
--   Planner/Certificates             pkg/planner/certificaterotation.go
--   Planner/EncryptionKeys           pkg/planner/encryptionkeyrotation.go
--   Paths          path.Join, path.Clean and filepath.Dir of the Go library
--   Controllers/MachineDrain         pkg/controllers/machinedrain: Stored and Reliable (in Made) say what the
--                  API server promises; Stored, Safety, Made and Progress are proofs
--   Tests          a concrete API server and cluster, on which the theorems are applied
--
-- State and operations. The API server's state is a type parameter S, and Api S has the calls that the
-- planner makes of it and of libraries: getting and updating secrets and machines, JSON, gzip,
-- SHA-256 and CRC-32, the clock, semver and the condition helpers. A method that writes is a run on an
-- explicit state: Target is an entry with the server, Pass the variables of reconcile with the cluster's
-- plan and the server, World what outlives a call of it, Round the status with the world. An entry's
-- metadata is a pointer into the plan, so an operation on an entry writes it back to the plan. An error
-- keeps what was written before it. Go's nil pointers are options where the code tests for them.
--
-- Loops are structural recursion on lists, so there is no fuel, except that decimal printing has as
-- much fuel as the number to print, which is more than its digits. Go's int has 64 bits: the product
-- that scales a checksum wraps around, and texts of larger numbers do not parse.
--
-- Not modelled: the rendering of a node's configuration files (generatePlanWithConfigFiles is a
-- parameter of the operations that use it), Process and the secret with the cluster's tokens, the other
-- controllers, logging, generated code and the start-up code.
pub mod Prelude
pub mod Errors
pub mod Plan
pub mod Names
pub mod Objects
pub mod Paths
pub mod ControlPlane
pub mod Planner
pub mod Controllers
pub mod Tests
