-- ===== src/Lib.antt =====
-- A verification library for stardelt-operator, the Kubernetes operator of a data platform
-- (crates/stardelt-operator/src).
--
-- The operator reads custom resources. It checks each one (crd.rs, `validate`), plans the components
-- that the resource needs (planner.rs), applies each component as a Helm release (helm.rs, and
-- `apply_plan` of controller.rs), and on deletion takes the releases and, if asked, the data down
-- again (`delete_lakehouse` of controller.rs, behind a finalizer).
--
-- The files:
--   Common and its children: booleans, equality, lists, sets and maps as lists, UTF-8 bytes, results
--     with early return, and the integers of the specs.
--   Crd.Names: the name tests that the `validate` functions repeat; Names.Shape and Names.Resource
--     describe the names they accept, and Names.Slash cuts paths.
--   Crd.Volume, Warehouse, Catalog, Principal, Stream: one spec each, as records with the source's
--     fields, and `validate` with every test in the source's order and its messages. `Valid` describes
--     the accepted resources without reference to the code.
--   Crd.Pipeline: the pipeline spec and its `validate`; Notebook has the rules of a notebook task, Kahn
--     the loop that looks for a cycle. `validate` returns an Option, which is none where the source
--     would panic (`expect`, a decrement below 0) or not end. The loop runs on fuel, the number of
--     tasks, which Kahn.Acyclic proves to be enough for any pipeline that reaches it.
--   Planner: the plans and the pinned charts. Order and Pins describe them.
--   Helm: the argument lists of Helm, with the release as a record.
--   Controller.Cluster: an asynchronous function of the controller is a function from the trace of the
--     calls made so far, newest first, to a result and the trace with its own calls. Helm and the
--     Kubernetes API are a record of replies, each a function of the trace before the call, so every
--     failure and every change of the cluster between two calls is covered.
--   Controller.Deletion: `delete_lakehouse`, `delete_lakehouse_data`, `delete_ignoring_not_found` and the
--     finalizer functions on that trace.
--   Controller.Apply: `apply_plan` and `phase` on that trace.
--   Controller.Status: the decisions of `reconcile_lakehouse` around an apply: the lakehouse that owns a
--     namespace, the releases that wait, the count of ready workloads, and `ready_condition`.
--   Controller.Reconcile: `reconcile_lakehouse` on the same trace: the listing, the Blocked status, the
--     finalizer, the gates, the steps of provision.rs by their name, the apply and the status. What a step
--     reports and what the cluster reads are replies. Protocol is a state machine on the calls, an indexed
--     data type; Refinement, Ownership, Waiting, Backing, Readiness and Steps hold the proofs.
--   Crd.Connection: the connection spec, its `validate` with the refresh interval (u32 with saturation),
--     and the path it reads in the secret store. Refresh, Valid and Paths hold the proofs.
--   Connection: the connection controller. Manifest has the ExternalSecret, Sync its sync state; `plan` and
--     `reconcile_connection` stand on the answers of one run, which are parameters. Decision and Report
--     hold the proofs.
--   Values: values documents, `deep_merge` and the layers of `effective_values`. Lookup, Merge and
--     Precedence hold the proofs. Overlay has the overlays, the placeholders and their use in
--     `resolve_component_values`.
--   Controller.Resolve: the external document of `valuesFrom`, its errors and its reading.
--   Controller.Component: `resolve_component_values`, with the stamp of the warehouses. Its result is an
--     Option, which is none where serde_json's index assignment panics.
--   Encoding: the encoders of keycloak.rs and principal_keycloak.rs on bytes, and the credentials that
--     are generated with them. Digits, Hex, Base64 and Url describe the decoders.
--   Secrets: the Secrets of a namespace as a store, with calls that are done, fail, or are done while
--     their answer is lost. Generated, ObjectStore and Vault have the steps of provision.rs that provide
--     credentials, Platform the Secrets they ask for. Store has the rules of the calls; a rule holds of
--     every lawful relation between two stores, of which there are two, so that one walk through a step
--     serves both. Nobody else writes the store between two calls of a step.
--   Provision: the steps of provision.rs that apply objects, on a trace of calls; an object is named by the
--     function that builds it. Lakehouse and Platform have the steps, Rules a rule for each part of a step,
--     Evidence and the modules below the steps what a ready status stands on.
--   Principal: `secret_check` and `principal_state` of principal.rs, and their use in
--     `reconcile_principal`. `from_utf8_lossy` with `trim` is a parameter, and `expect` gives an Option.
--
-- Strings are texts whose `as_bytes` is their UTF-8 encoding. A BTreeSet is the list of its members,
-- where only membership and size are read; a BTreeMap is a list of entries in key order. i32 fields are
-- integers, since they are only compared. JSON and YAML documents, serde_json, serde_yaml, the hasher of
-- the standard library, getrandom, the UTF-8 check and the printers of status messages are parameters.
--
-- Not modelled: logging, watch streams, the other reconcile loops, the listing of workloads (the counts are
-- a reply of the cluster), and the functions that build Kubernetes objects from literals (in
-- prerequisites.rs, keycloak.rs, airflow.rs, superset.rs, nova.rs and their like). `apply_plan` takes the
-- outcome of `resolve_component_values` for each component, with the namespace put in, as a parameter.
pub mod Common
pub mod Crd
pub mod Planner
pub mod Helm
pub mod Values
pub mod Controller
pub mod Connection
pub mod Encoding
pub mod Principal
pub mod Provision
pub mod Secrets
