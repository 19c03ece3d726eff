-- ===== src/Lib.antt =====
-- A model of virt-advisor-operator, the Kubernetes operator that turns a VirtPlatformConfig into a plan of
-- changes to a virtualization cluster, has it reviewed, applies it and watches for drift.
--
-- The program and the model:
--   * Api: the resource, of api/v1alpha1/virtplatformconfig_types.go; Api/Json: unstructured
--     objects.
--   * Kube: the API server and the libraries. A Go function that works on the object in memory and
--     may return an error is a function of the monad `M`: from a `State`, the object and the calls
--     made so far, newest first, to a result or an error, and the state that it leaves. `Env` holds
--     what is not code of this repository: how the API server answers, which may depend on all calls
--     made before and so covers other actors that change the cluster between two calls, and the
--     functions of encoding/json, crypto/sha256, yaml, difflib, fmt, strconv and apimachinery that
--     the code calls. Nothing is assumed of them but what a theorem names as a hypothesis.
--     Kube/Effects and Kube/Applied have the rules by which a relation between the states before and
--     after is derived from the parts of a function, Kube/Endings those for functions whose last
--     step alone breaks it, Kube/Returns those for what holds of results and errors, and Kube/Faults
--     names the errors that are a failed call.
--   * Plan: internal/plan. Plan/Hash: the snapshot hash (ComputeCurrentStateHash, DetectDrift),
--     Plan/Diff: GenerateSSADiff, Plan/Wait: the health of MachineConfigPools, Plan/Path:
--     parseFieldPath, Plan/Crds: the CRDChecker of dynamic.go, Plan/Unused: what nothing in the
--     operator calls; Plan itself: ExecuteItem, ApplyUnstructured, CreateUnstructured.
--   * Util: internal/util/unstructured.go, the readers of unstructured objects; Util/Bounds:
--     int32.
--   * Discovery: internal/discovery/crd_checker.go; Discovery/Missing: a cluster whose CRDs do not
--     change.
--   * Profiles: internal/profiles: the Profile interface as a record, the registry, OptionsToMap;
--     Profiles/Default: init, which registers the profiles that are shipped; Profiles/ManagedTypes:
--     GetAllManagedResourceTypes; Profiles/Builder: PlanItemBuilder (profileutils/builder.go);
--     Profiles/LoadAware and Profiles/Eviction: loadaware/profile.go (Selection: the descheduler
--     profile, Schema: the CRD, Items: the two items, Profile: the interface);
--     Profiles/HigherDensity and Profiles/Density: higherdensity/profile.go and LabelSelectorToMap;
--     Profiles/Example: example/profile.go; Profiles/KernelArgs:
--     profileutils/machineconfig_helpers.go. Profiles/Proposals and Profiles/Reading are about what
--     the shipped profiles propose and what they ask of the API server.
--   * Conditions: setCondition, setPhaseConditions and the conditions that updatePhase writes, of
--     internal/controller/virtplatformconfig_controller.go.
--   * Controller: internal/controller. Controller/Items: the pure helpers on plan items;
--     Controller/Execution: checkOptimisticLock to finalizeInProgressPhase; Controller/Drafting,
--     Review, InProgress, Completed, Drifted, Upgrade: the handlers of virtplatformconfig_phases.go
--     (InProgress/Lock, Terminal, Content and Finished are about the start, the end and the items of
--     an execution, Drafting/DryRun and Review/Approval about plans that nobody approved);
--     Controller/Hco: virtplatformconfig_hco.go; Controller/Reconcile: Reconcile, once the object
--     was fetched (Immediate, Stuck, Drift, Recovery and Finished are about a reconciliation from
--     certain states, Seen about the observed generation, Machine about the table of the phases).
--     Controller/Steps says what the steps are, Controller/Unchanged what of the items they leave;
--     Controller/Quiet and Controller/Reconcile/Phases derive what a whole reconciliation keeps from
--     what they keep, and Controller/Reconcile/Shipped applies it to the shipped profiles.
--     Controller/Runs goes on from one reconciliation to all sequences of reconciliations and edits
--     of the spec (Life: the steps of such a sequence; Stable, Monitored and Preserved: what a
--     reconciliation keeps of the object in memory and of the objects that it sends).
--     Controller/Watches: virtplatformconfig_watches.go (Owners, Pools, Hco: predicates and
--     requests, Advertised: the creation of advertised profiles and the beginning of Reconcile,
--     Setup: SetupWithManager). Controller/Sentinel: crdsentinel_controller.go and the loop of
--     cmd/main.go that marks the missing CRDs.
--   * Tests: a small cluster and the theorems at concrete inputs.
-- Reconcile reads the phase and calls one handler, which reads the cluster, writes to the status in memory,
-- and sends it with an update; only the handler of InProgress applies objects, by ExecuteItem.
--
-- An item that a loop holds by pointer is named by its index. int32 is kept with its wrap-around
-- (Base/Int). No fuel is used: the loops are over lists, by structural recursion. A time is a number of
-- nanoseconds, and the raw JSON of a desired state is a text. Log lines and metrics are left out. After
-- a status update the object in memory keeps its fields.
--
-- Not modelled: cmd/main.go but for that loop, and the builder calls of SetupWithManager, which wire
-- controller-runtime (the errors of client.New and of Complete are arguments of its definition); ConvertToUnstructured of plan/apply.go, which converts typed objects by a library and
-- which nothing in the operator calls; and the generated deep copies. vendor/ is third-party code.
pub mod Base
pub mod Api
pub mod Kube
pub mod Util
pub mod Conditions
pub mod Plan
pub mod Discovery
pub mod Profiles
pub mod Controller
pub mod Tests
