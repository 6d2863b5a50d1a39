-- ===== src/Connection.antt =====
-- crates/stardelt-operator/src/connection.rs: the ExternalSecret that the controller applies for a
-- connection, the sync state that it reads, and the reconciler. The API server's answers are parameters.
use stardelt_operator.Crd.Status.{Condition}
use stardelt_operator.Values.{Value}
use stardelt_operator.Connection.Manifest.{external_secret}
use stardelt_operator.Connection.Sync.{SyncState, sync_state}
use stardelt_operator.Crd.Names.{byte_is}
use stardelt_operator.Planner.{SecretsMode, external, platform, no_secrets}
use stardelt_operator.Crd.Connection.{
  ConnectionScope, ConnectionSecret, ConnectionSpec, validate, derived_remote_ref,
  connection_secret_name, group, managed,
}
use stardelt_operator.Crd.Connection
use stardelt_operator.Controller.Cluster.{KubeError, api_error, transport_error}
use stardelt_operator.Controller.Deletion.{Action, await_change, requeue}
use stardelt_operator.Controller.Status.{transition_time}
use stardelt_operator.Common.{
  ℕ, ◌-◌, String, Bool, true, false, not, ◌&&◌, ◌||◌, Option, none, some, List, [], ◌∷◌, ◌++◌, leb,
  if◌then◌else◌, ◌==◌, nat_eq, string_eq, length, all, is_empty, Map, get, keys, bytes,
  is_ascii_lowercase, is_ascii_digit, is_ascii_alphanumeric, format, Result, Validated, ok, err, ℤ,
}
pub mod Manifest
pub mod Decision
pub mod Sync
pub mod Report
mod Tests

pub data Plan : Type 0 where
  apply : Value → Plan
  no_secret : Plan
  invalid : String → String → Plan

-- The tests of `store_name`, on the bytes of the target.
pub store_target_ok : List ℕ → Bool
store_target_ok bs =
    not (is_empty bs)
    && leb (length bs) 40
    && byte_is bs 0 is_ascii_alphanumeric
    && byte_is bs (length bs - 1) (λ b. not (b == b'-'))
    && all (λ b. is_ascii_lowercase b || is_ascii_digit b || b == b'-') bs

pub named_store : String → Result String String
named_store target =
    if store_target_ok (bytes target)
    then ok (format ("openbao-" ∷ target ∷ []))
    else err (
        format (
          "the group name `" ∷ target
          ∷ "` cannot name a secret store yet (lower-case letters, digits and dashes, at most 40)"
          ∷ []))

pub store_name : ConnectionScope → Option String → Result String String
store_name managed owner = named_store "managed"
store_name group (some owner) = named_store owner
store_name group none = err "a group connection needs an ownerGroup"

-- The store, its kind and the path; or the reason and the message of an invalid plan.
abbrev pub Target : Type 0
Target = Result (String × String) (String × String × String)

external_target : Option String → Target
external_target none = err (
  "RemoteRefRequired",
  "secrets.mode external: set secret.remoteRef to the path in the enterprise store (for example `apps/crm/db`)",
)
external_target (some path) = ok ("enterprise", "ClusterSecretStore", path)

abbrev in_store : Result String String → String → Target
in_store (ok store) path = ok (store, "SecretStore", path)
in_store (err message) path = err ("GroupNameNotSupported", message)

derived_target : ConnectionSpec → String → Option String → Target
derived_target c name (some path) = err (
  "RemoteRefNotAllowed",
  "secret.remoteRef is only allowed with an external secret store; remove it and the path is derived from the scope",
)
derived_target c name none = in_store (store_name c.scope c.owner_group) (derived_remote_ref c name)

pub target_of : SecretsMode → ConnectionSpec → String → Option String → Target
target_of external c name remote_ref = external_target remote_ref
target_of platform c name remote_ref = derived_target c name remote_ref
target_of no_secrets c name remote_ref = derived_target c name remote_ref

pub plan_target : ConnectionSpec → String → String → String → List String → Target → Plan
plan_target c name namespace uid keys_ (ok target) =
    apply (external_secret c name namespace uid keys_ target)
plan_target c name namespace uid keys_ (err (reason, message)) = invalid reason message

pub plan_secret :
    ConnectionSpec → String → String → String → SecretsMode → Option ConnectionSecret → Plan
plan_secret c name namespace uid mode none = no_secret
plan_secret c name namespace uid mode (some secret) =
    plan_target c name namespace uid secret.keys (target_of mode c name secret.remote_ref)

pub plan_valid : ConnectionSpec → String → String → String → SecretsMode → Validated → Plan
plan_valid c name namespace uid mode (err message) = invalid "InvalidSpec" message
plan_valid c name namespace uid mode (ok u) = plan_secret c name namespace uid mode c.secret

pub plan : ConnectionSpec → String → String → String → SecretsMode → Plan
plan c name namespace uid mode = plan_valid c name namespace uid mode (validate c name)

pub record ConnectionStatus : Type 0 where
  pub ready : Bool
  pub secret_name : Option String
  pub last_sync : Option String
  pub conditions : List Condition
  pub observed_generation : Option ℤ

-- The resource; `ready_before` is the Ready condition of its status.
pub record Resource : Type 0 where
  pub name : String
  pub namespace : Option String
  pub uid : Option String
  pub is_deleted : Bool
  pub generation : Option ℤ
  pub ready_before : Option Condition
  pub spec : ConnectionSpec

-- The API server's answers in one run, and the clock.
pub record Answers : Type 0 where
  pub on_config : Result KubeError (Option (Option (Map String)))
  pub on_apply : Value → Result KubeError Value
  pub on_status : ConnectionStatus → Result KubeError (Unit {0})
  pub now : String

pub data Write : Type 0 where
  apply_secret : Value → Write
  patch_status : ConnectionStatus → Write

mode_text : Option String → SecretsMode
mode_text none = no_secrets
mode_text (some t) =
    if t == "platform" then platform else if t == "external" then external else no_secrets

-- The ConfigMap `stardelt-secrets`, its data, and the key `mode`.
pub mode_of : Option (Option (Map String)) → SecretsMode
mode_of none = no_secrets
mode_of (some none) = no_secrets
mode_of (some (some data_)) = mode_text (get "mode" data_)

-- `(ready, reason, message, last_sync)`
pub record Outcome : Type 0 where
  pub ready : Bool
  pub reason : String
  pub message : Option String
  pub last_sync : Option String

pub synced : SyncState → Outcome
synced s = record {
  ready = s.ready;
  reason = if s.ready then "Synced" else "Syncing";
  message = s.message;
  last_sync = s.last_sync;
}

abbrev unready : String → String → Outcome
unready reason message = record {
  ready = false;
  reason = reason;
  message = some message;
  last_sync = none;
}

pub applied : Result KubeError Value → Result KubeError Outcome
applied (ok object_) = ok (synced (sync_state object_))
applied (err (transport_error e)) = err (transport_error e)
applied (err (api_error code)) =
    if code == 404
    then ok (
        unready "ExternalSecretsNotInstalled"
          "External Secrets Operator is not installed (make external-secrets)")
    else err (api_error code)

-- `match plan(..)`, with what it writes.
pub carry_out : Answers → Plan → Result KubeError Outcome × List Write
carry_out k (invalid reason message) = (ok (unready reason message), [])
carry_out k no_secret = (
  ok (record {
    ready = true;
    reason = "NoSecret";
    message = some "this connection carries no credentials";
    last_sync = none;
  }),
  [],
)
carry_out k (apply manifest) = (applied (k.on_apply manifest), apply_secret manifest ∷ [])

pub ready_condition : Outcome → Option ℤ → Option Condition → String → Condition
ready_condition report generation previous now =
    let status = if report.ready then "True" else "False" in
    record {
      type_ = "Ready";
      status = status;
      reason = some report.reason;
      message = report.message;
      last_transition_time = transition_time status previous now;
      observed_generation = generation;
    }

pub status_of_report : Resource → Answers → Outcome → ConnectionStatus
status_of_report c k report = record {
  ready = report.ready;
  secret_name =
      if report.ready && report.reason == "Synced"
      then some (connection_secret_name c.name)
      else none;
  last_sync = report.last_sync;
  conditions = ready_condition report c.generation c.ready_before k.now ∷ [];
  observed_generation = c.generation;
}

-- The status patch and the action.
pub finish :
    Resource
    → Answers
    → Result KubeError Outcome × List Write
    → Result KubeError Action × List Write
finish c k (err e, writes) = (err e, writes)
finish c k (ok report, writes) =
    let status = status_of_report c k report in
    (
      elim (k.on_status status) [
        | err e ↦ err e
        | ok u ↦ ok (requeue (if report.ready then 300 else 30))
      ],
      writes ++ patch_status status ∷ [],
    )

abbrev or_default : String → Option String → String
or_default d none = d
or_default d (some s) = s

abbrev pub plan_of : Resource → SecretsMode → Plan
plan_of c mode = plan c.spec c.name (or_default "default" c.namespace) (or_default "" c.uid) mode

pub reconcile_mode :
    Resource
    → Answers
    → Result KubeError (Option (Option (Map String)))
    → Result KubeError Action × List Write
reconcile_mode c k (err e) = (err e, [])
reconcile_mode c k (ok config) = finish c k (carry_out k (plan_of c (mode_of config)))

pub reconcile_connection : Resource → Answers → Result KubeError Action × List Write
reconcile_connection c k =
    if c.is_deleted then (ok await_change, []) else reconcile_mode c k k.on_config
