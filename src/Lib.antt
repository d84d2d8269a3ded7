-- ===== src/Lib.antt =====
-- mirror-gha runs GitHub Actions workflows on the local machine. This library models the core of
-- it, file by file, and proves what makes each part correct.
--
-- The parts and how they interact. The command line (cmd/mirror/main.go) parses a workflow
-- (internal/engine/workflow.go), puts its jobs in an order in which the needs of a job come before
-- it (TopoSortJobs of internal/engine/workflow_run.go), expands the matrix of each job
-- (internal/engine/matrix.go), and runs each job once the scheduler lets it into its concurrency
-- group (internal/engine/concurrency_scheduler.go). A step talks to the program by files and by
-- lines on its output (internal/commands). A job's steps run one after the other (RunJob and
-- runStep of internal/engine/executor.go) with expressions over the context of the job
-- (internal/engine/expr.go) and actions that `uses:` names (internal/actions), and go to a local
-- cache and artifact server (internal/cacheserver, internal/artifactserver).
--
-- The files:
--   Base: bytes, association lists, insertion sort, results, and the functions of Go's strings and
--     path/filepath packages that the program calls; TrimSpace is the one for texts without white
--     space outside ASCII at their ends.
--   Os: what the program asks of the operating system, as a record of calls that pass a world on,
--     and the combinators for chains of such calls that may fail.
--   Workflow: internal/engine/workflow.go. Types has Workflow, Job, Step and the specs of their
--     fields; Dynamic the values of interface{}; Decode the UnmarshalYAML of StringOrSlice, the
--     decoders of permissions, concurrency, environments and containers, OnEventNames and Parse.
--   Topo: TopoSortJobs. Defs has the closure visit as a function that passes the captured
--     variables state and order; Walks, Order and Errors have the proofs.
--   Matrix: internal/engine/matrix.go. Defs has ExpandMatrix (axes, product, exclude, include);
--     Product and Include have the proofs.
--   Concurrency: internal/engine/concurrency_scheduler.go. Defs has acquire and the closure that
--     it returns as functions on the state under the lock; Queue is about groups that wait, as a
--     step relation over all interleavings, and Preempt about groups with cancel-in-progress.
--   Cache: internal/cacheserver/store.go. Defs has OpenStore, Reserve, Commit, Find and Get; Find
--     has the proofs about lookups, Restore those about entries committed and found. Handlers has
--     the handlers of internal/cacheserver/handlers.go; Handlers.Chunks has the proofs about
--     chunked uploads, Handlers.Protocol about a client's whole exchange.
--   Commands: internal/commands. Files is files.go with the line scanner, Files.RoundTrip its
--     proofs; Annotations is annotations.go, Annotations.Redact the proofs about RedactMasks,
--     Annotations.Shown those about the lines shown. Legacy is legacy.go, FileSets the
--     CreateFileSet of files.go.
--   Expr: internal/engine/context.go and internal/engine/expr.go. Contexts has Context and
--     NewContext, Access resolvePath and callStatusFunc, Syntax the tree of the vendored parser
--     and what is asked of libraries, Eval evalNode, callFunction and EvalBool, Substitution
--     SubstituteExpressions; Substituting and Meaning have the proofs.
--   Executor: internal/engine/executor.go, uses_step.go and composite_step.go. Machine has the
--     state of a job (context, masks, node flag, world), the calls of the system, and the
--     combinators for chains that may fail; Uses is prepareUsesStep, Reports and Steps have the
--     parts of runStep, Composite runStep and runCompositeSteps, Started and Jobs RunJob. Frame
--     says which calls leave the context alone, Outcome what a step leaves in it, Sequence is
--     about the loop over the steps, Redaction about masks. Gives and Dry are about jobs whose
--     backend never fails, as in a dry run.
--   Flow: RunWorkflow of internal/engine/workflow_run.go. Defs has the loop over the jobs, Combos
--     the goroutines of a job's combinations as steps on what they share; Fates and Order are
--     about which jobs run, Slots, Moves and Parallel about the goroutines.
--   Artifacts: internal/artifactserver. Disk is storage.go, Handlers the handlers of v3.go and
--     v4.go; Uploads and Deletion are about what v4 requests leave in the store, Below and Guard
--     about the guard of Resolve.
--   Actions: internal/actions. resolve.go, the references of `uses:`; Metadata is metadata.go,
--     input_env.go and the paths of node.go; Install is fetch.go, cache.go, docker.go and
--     EnsureNode of node.go.
--   Runner: internal/runner. Options is the scanner of dockeropts.go; Backend is backend.go, the
--     interface that the engine runs jobs by; DryRun is dryrun.go, HostJob host_backend.go and
--     Docker docker_backend.go. In Docker, Names has the names and arguments, Health the wait for
--     a service, Service and Start StartJob, Steps the calls of a job; Waiting is about that wait,
--     and Traced, Stopped, Covers, Serving and Release about what StartJob takes and Stop gives
--     back.
--   Credentials: internal/engine/credentials.go.
--   HashFiles: internal/engine/hashfiles.go. Glob has globMatch and what patterns mean, Digest
--     hashFiles, Order the proofs about the order of the walk.
--   Cli: cmd/mirror/main.go and internal/engine/event_payloads.go. Events has the payloads, Vars
--     the flags of variables and overrides, Program what main takes from elsewhere, Listing the
--     lists of jobs, Run and Main the run of a workflow, Exit the proofs about the exit code.
--
-- Conventions. A string is the list of its bytes, in Runner.Options of its runes. A map is an
-- association list that is read by lookup and kept without double keys; where the code ranges over
-- a map, the order of the list stands for an order that Go may choose, and where the code sorts,
-- the model sorts. sort.Slice is an insertion sort. Regular expressions are functions on the bytes
-- of a line, written out for each pattern. An error is a value of a data type with a constructor
-- for each message. What the disk, the clock, the random generator, the YAML decoder and the JSON
-- codec answer are arguments. The recursion of visit runs on fuel, one more than the number of
-- jobs: each nested call marks another job, and Topo.Errors.topo_sort_jobs-Explains says that the
-- fuel never runs out. All other functions but the one at the end of this paragraph are
-- structurally recursive. A channel operation that blocks is a step that is not possible; a select
-- with two ready cases takes the one that an argument names. runStep recurses through
-- runCompositeSteps on the number of composite actions that may still nest, ten at the start as in
-- the source; at none left, a composite action is the error of the source. In Concurrency, a
-- context is one from outside or one that context.WithCancel has made from another, and is done
-- where it was ended or the other is; in Executor, a cancelled context is an error that a call of
-- the backend answers. waitForServiceHealth runs on timeout / second + 1 rounds, each of which
-- sleeps for a second, and Runner.Docker.Waiting.wait_for_service_health-enough says that more
-- rounds change nothing.
--
-- Not modelled: the lists and the v3 download of artifacts; listening and shutdown of the two
-- servers, which is net/http; the flag package, the YAML decoder, the parser of expressions, JSON,
-- and the walk of the file tree, which are arguments; the acceptance tests; and the vendored
-- copies of other projects under third_party.
pub mod Base
pub mod Workflow
pub mod Topo
pub mod Matrix
pub mod Concurrency
pub mod Cache
pub mod Commands
pub mod Actions
pub mod Os
pub mod Runner
pub mod Credentials
pub mod Expr
pub mod Flow
pub mod HashFiles
pub mod Artifacts
pub mod Executor
pub mod Cli
