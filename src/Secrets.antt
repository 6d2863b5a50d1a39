-- ===== src/Secrets.antt =====
-- The Kubernetes Secrets that crates/stardelt-operator/src/provision.rs creates, as a store: the
-- namespace's Secrets with their keys and values, and the API server's answers to the calls.
use stardelt_operator.Crd.Status.{ComponentStatus}
use stardelt_operator.Crd.Status.{}
use stardelt_operator.Common.{
  ℕ, ◌+◌, String, Bool, true, false, Option, none, some, [], ◌∷◌, if◌then◌else◌, Map, get, insert,
  Result, ok, err,
}
use stardelt_operator.Encoding.{Text, Random}
use stardelt_operator.Controller.Cluster.{KubeError}
use stardelt_operator.Controller.Apply.{}
pub mod Store
pub mod Generated
pub mod ObjectStore
pub mod Vault
pub mod Platform

pub record World : Type 0 where
  pub secrets : Map (Map Text)
  pub calls : ℕ

-- What happens to a call: it is done, it fails, or it is done and the answer is lost.
pub data Fate : Type 0 where
  done : Fate
  fails : KubeError → Fate
  is_lost : KubeError → Fate

-- The fields that are read of the answer to the store's initialisation; serde_json reads them.
pub record InitAnswer : Type 0 where
  pub root_token : Option Text
  pub recovery_key_b64 : Option Text
  pub recovery_key : Option Text

pub data InitReply : Type 0 where
  not_built : String → InitReply
  request_failed : String → InitReply
  not_json : String → InitReply
  answered : InitAnswer → InitReply

-- The API server, the random source and the secret store, by the number of the call; `to_string` of an
-- error and of a number; the UTF-8 check; and serde_json's text of the gateway's identities.
pub record Outside : Type 0 where
  pub fate : ℕ → Fate
  pub random : ℕ → Random
  pub show_error : KubeError → String
  pub show_number : ℕ → String
  pub init_reply : ℕ → InitReply
  pub is_utf8 : Text → Bool
  pub show_identities : Text → Text → Text

-- An early return holds the message of the status.
abbrev pub Run : Type 0 → Type 0
Run A = World → Result String A × World

abbrev pub and_then :
    {A B : Type 0} → Result String A × World → (A → Run B) → Result String B × World
and_then (ok a, w) f = f a w
and_then (err e, w) f = (err e, w)

infixl 5 ◌>>=◌ ◌>>◌
abbrev pub ◌>>=◌ : {A B : Type 0} → Run A → (A → Run B) → Run B
(m >>= f) w = and_then (m w) f

abbrev pub ◌>>◌ : {B : Type 0} → Run (Unit {0}) → Run B → Run B
m >> k = m >>= λ _. k

abbrev pub return : {A : Type 0} → A → Run A
return a w = (ok a, w)

abbrev pub tick : World → World
tick w = record w { calls = w.calls + 1 }

-- The keys of `new` replace those of `base`, and the others stay.
pub merge : Map Text → Map Text → Map Text
merge base [] = base
merge base ((k, v) ∷ new) = insert k v (merge base new)

pub or_empty : Option (Map Text) → Map Text
or_empty none = []
or_empty (some m) = m

-- A write of a Secret, by server-side apply or by merge patch: the keys that it names are set.
pub written : Bool → String → Map Text → World → World
written true name new w = tick w
written false name new w = record {
  secrets = insert name (merge (or_empty (get name w.secrets)) new) w.secrets;
  calls = w.calls + 1;
}

module _ (o : Outside) where
  -- A Secret without `data` reads as one with no keys.
  abbrev read_answer : Fate → Option (Map Text) → Result String (Option (Map Text))
  read_answer done found = ok found
  read_answer (fails e) found = err (o.show_error e)
  read_answer (is_lost e) found = err (o.show_error e)

  pub get_opt : String → Run (Option (Map Text))
  get_opt name w = (read_answer (o.fate w.calls) (get name w.secrets), tick w)

  abbrev write_answer : Fate → Bool → String → Map Text → Run (Unit {0})
  write_answer done dry_run name new w = (ok tt, written dry_run name new w)
  write_answer (fails e) dry_run name new w = (err (o.show_error e), tick w)
  write_answer (is_lost e) dry_run name new w = (err (o.show_error e), written dry_run name new w)

  pub write : Bool → String → Map Text → Run (Unit {0})
  write dry_run name new w = write_answer (o.fate w.calls) dry_run name new w

  -- A credential from the random source.
  pub draw : (Random → Result String Text) → Run Text
  draw generate w = (generate (o.random w.calls), tick w)

  -- The POST that initialises the secret store.
  pub post_init : Run InitReply
  post_init w = (ok (o.init_reply w.calls), tick w)

unfoldable pub status : String → Bool → String → ComponentStatus
status name ready message = record {
  name = name;
  ready = ready;
  message = some message;
  applied_hash = none;
}

-- `text(secret, key)`
pub text : (Text → Bool) → Map Text → String → Option Text
text is_utf8 secret key = elim (get key secret) [
  | none ↦ none
  | some value ↦ if is_utf8 value then some value else none
]

-- The status of a step: the message of an early return, or its last status.
abbrev pub reported : String → Result String (Bool × String) × World → ComponentStatus × World
reported name (err message, w) = (status name false message, w)
reported name (ok (ready, message), w) = (status name ready message, w)

-- `if !enabled { return None; }` before a step.
abbrev pub gated : Bool → ComponentStatus × World → World → Option ComponentStatus × World
gated true (s, after) w = (some s, after)
gated false (s, after) w = (none, w)
