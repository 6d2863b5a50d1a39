-- ===== src/Provision.antt =====
-- crates/stardelt-operator/src/provision.rs: the steps that apply objects and report a status. An object
-- is named by the function that builds it and that function's arguments; the API server's answers are
-- replies that depend on the trace of the calls before.
use stardelt_operator.Crd.Status.{ComponentStatus}
use stardelt_operator.Values.{Value, Items, array, done, item}
use stardelt_operator.Encoding.{Text}
use stardelt_operator.Secrets.{status}
use stardelt_operator.Controller.Cluster.{KubeError, api_error, transport_error}
use stardelt_operator.Connection.Sync.{index, is_text}
use stardelt_operator.Common.{
  String, Bool, true, false, ◌&&◌, ◌||◌, Option, none, some, List, [], ◌∷◌, if◌then◌else◌, ◌==◌,
  nat_eq, string_eq, any, Map, Result, ok, err, ℤ, leb_ℤ, pos,
}
pub mod Rules
pub mod Evidence
pub mod Lakehouse
pub mod Platform

pub data Object : Type 0 where
  built : String → List Text → Object

-- What is read of an applied object: the object itself, `status.succeeded` of a Job and
-- `status.availableReplicas` of a Deployment.
pub record Applied : Type 0 where
  pub document : Value
  pub succeeded : Option ℤ
  pub available_replicas : Option ℤ

-- An object that is applied, for a dry run or not; and a Secret that is read.
pub data Call : Type 0 where
  apply : Object → Bool → Call
  read_secret : String → Call

abbrev pub History : Type 0
History = List Call

-- The API server, `to_string` of its errors, the UTF-8 check, and the standard library's hasher, whose
-- value is printed.
pub record Server : Type 0 where
  pub on_apply : History → Object → Bool → Result KubeError Applied
  pub on_secret : History → String → Result KubeError (Option (Map Text))
  pub show_error : KubeError → String
  pub is_utf8 : Text → Bool
  pub hash : List Text → String

-- A step that may stop with the status that it reports.
abbrev pub Outcome : Type 0 → Type 0
Outcome A = Result ComponentStatus A × History

abbrev pub Run : Type 0 → Type 0
Run A = History → Outcome A

abbrev pub and_then : {A B : Type 0} → Outcome A → (A → Run B) → Outcome B
and_then (ok a, h) f = f a h
and_then (err s, h) f = (err s, h)

infixl 5 ◌>>=◌ ◌>>◌
abbrev pub ◌>>=◌ : {A B : Type 0} → Run A → (A → Run B) → Run B
(m >>= f) h = and_then (m h) f

abbrev pub ◌>>◌ : {A B : Type 0} → Run A → Run B → Run B
m >> n = m >>= λ _. n

abbrev pub stop : {A : Type 0} → ComponentStatus → Run A
stop s h = (err s, h)

abbrev pub return : {A : Type 0} → A → Run A
return a h = (ok a, h)

-- `if stops { return status; }`
abbrev pub stop_if : Bool → ComponentStatus → Run (Unit {0})
stop_if true s h = (err s, h)
stop_if false s h = (ok tt, h)

-- The status that a step reports.
abbrev pub settled : Outcome ComponentStatus → ComponentStatus × History
settled (ok s, h) = (s, h)
settled (err s, h) = (s, h)

-- `if !wanted { return None; }`
abbrev pub only_if : Bool → Run ComponentStatus → History → Option ComponentStatus × History
only_if false m h = (none, h)
only_if true m h = let (s, after) = settled (m h) in (some s, after)

abbrev any_item : (Value → Bool) → Items → Bool
any_item p done = false
any_item p (item v vs) = p v || any_item p vs

abbrev any_in : (Value → Bool) → Value → Bool
any_in p (array items) = any_item p items
any_in p other = false

-- `cluster_ready` and `kafka_ready`
pub cluster_ready : Value → Bool
cluster_ready document =
    any_in (λ c. is_text "Ready" (index c "type") && is_text "True" (index c "status"))
      (index (index document "status") "conditions")

-- `status.and_then(..).unwrap_or(0) >= 1`
pub at_least_one : Option ℤ → Bool
at_least_one none = false
at_least_one (some n) = leb_ℤ (pos 1) n

abbrev pub unready : String → String → ComponentStatus
unready name message = status name false message

-- A Job that has succeeded before: an earlier ready status has its name.
pub was_done : String → String → List ComponentStatus → Bool
was_done name job previous =
    any
      (λ (p : ComponentStatus).
        p.name == name && p.ready && elim p.applied_hash [ none ↦ false | some f ↦ f == job ])
      previous

-- `ComponentStatus { applied_hash: Some(job), ..status(name, true, message) }`
abbrev pub done_by : String → String → String → ComponentStatus
done_by name job message = record {
  name = name;
  ready = true;
  message = some message;
  applied_hash = some job;
}

module _ (k : Server) where
  abbrev pub or_status : {A : Type 0} → String → Result KubeError A → Result ComponentStatus A
  or_status name (ok a) = ok a
  or_status name (err e) = err (unready name (k.show_error e))

  -- An error of the API server is the message of the status.
  pub apply_or : String → Object → Bool → Run Applied
  apply_or name o dry_run h = (or_status name (k.on_apply h o dry_run), apply o dry_run ∷ h)

  -- `Err(kube::Error::Api(e)) if e.code == 404` has a message of its own.
  abbrev pub or_missing :
      String → String → Result KubeError Applied → Result ComponentStatus Applied
  or_missing name missing (ok a) = ok a
  or_missing name missing (err (transport_error e)) =
      err (unready name (k.show_error (transport_error e)))
  or_missing name missing (err (api_error code)) =
      if code == 404
      then err (unready name missing)
      else err (unready name (k.show_error (api_error code)))

  pub apply_known : String → String → Object → Bool → Run Applied
  apply_known name missing o dry_run h =
      (or_missing name missing (k.on_apply h o dry_run), apply o dry_run ∷ h)

  -- Objects one after the other.
  pub apply_each : String → Bool → List Object → Run (Unit {0})
  apply_each name dry_run [] h = (ok tt, h)
  apply_each name dry_run (o ∷ os) h = (apply_or name o dry_run >> apply_each name dry_run os) h

  abbrev pub or_waiting :
      String → Result KubeError (Option (Map Text)) → Result ComponentStatus (Map Text)
  or_waiting name (ok (some secret)) = ok secret
  or_waiting name (ok none) = err (unready name "waiting for Secret stardelt-s3-creds")
  or_waiting name (err e) = err (unready name (k.show_error e))

  -- The Secret `stardelt-s3-creds`, which a step waits for.
  pub need_store : String → Run (Map Text)
  need_store name h =
      (or_waiting name (k.on_secret h "stardelt-s3-creds"), read_secret "stardelt-s3-creds" ∷ h)

  -- A CloudNative-PG `Cluster` and its backup.
  pub database : String → Bool → Object → Object → String → Run ComponentStatus
  database name dry_run cluster backup planned =
      apply_known name "CloudNative-PG is not installed: create a PlatformInstance first" cluster
        dry_run
      >>= λ (applied : Applied).
          stop_if dry_run (unready name planned)
          >> apply_or name backup false
          >> return (
              if cluster_ready applied.document
              then status name true "database ready"
              else unready name "waiting for the database to become Ready")

  -- A Deployment, after the objects that it needs.
  pub workload : String → Bool → List Object → Object → String → Run ComponentStatus
  workload name dry_run objects deployment planned =
      apply_each name dry_run objects >> apply_or name deployment dry_run >>= λ (applied : Applied).
      stop_if dry_run (unready name planned)
      >> return (
          if at_least_one applied.available_replicas
          then status name true "running"
          else unready name "waiting for the Deployment to become ready")

  -- Objects without a readiness of their own.
  pub objects_applied : String → Bool → List Object → String → String → Run ComponentStatus
  objects_applied name dry_run objects planned message =
      apply_each name dry_run objects
      >> stop_if dry_run (unready name planned)
      >> return (status name true message)

  -- A Job that reports its success, unless it is known to have succeeded.
  pub run_job :
      String → List ComponentStatus → String → Object → String → String → Run ComponentStatus
  run_job name previous job o message running =
      if was_done name job previous
      then return (done_by name job message)
      else (apply_or name o false >>= λ (applied : Applied). return (
          if at_least_one applied.succeeded
          then done_by name job message
          else unready name running))
