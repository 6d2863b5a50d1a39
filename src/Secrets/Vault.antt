-- ===== src/Secrets/Vault.antt =====
-- The sandbox secret store: `ensure_openbao_seal_key` and `ensure_openbao_init` of provision.rs, and
-- `init_secret` of secrets.rs.
pub mod Kept
use stardelt_operator.Crd.Status.{ComponentStatus}
use stardelt_operator.Crd.Status.{}
use stardelt_operator.Encoding.{Text, generate_hex}
use stardelt_operator.Planner.{SecretsMode, runs_store}
use stardelt_operator.Secrets.ObjectStore.{}
use stardelt_operator.Secrets.{
  World, InitAnswer, InitReply, not_built, request_failed, not_json, answered, Outside, Run, ◌>>=◌,
  ◌>>◌, return, get_opt, write, draw, post_init, text, reported, gated,
}
use stardelt_operator.Controller.Apply.{}
use stardelt_operator.Common.{
  String, Bool, true, false, ◌&&◌, Option, none, some, [], ◌∷◌, if◌then◌else◌, string_eq, is_some,
  Map, insert, format, ok, err,
}

abbrev pub seal_secret : String
seal_secret = "openbao-seal-key"

-- `INIT_SECRET`
abbrev pub init_secret_name : String
init_secret_name = "openbao-init"

pub init_secret : Text → Text → Map Text
init_secret recovery_key root_token =
    insert "root-token" root_token (insert "recovery-key" recovery_key [])

-- `unwrap_or_default`, and an early return on an empty text.
pub non_empty : String → Option Text → Run Text
non_empty message none w = (err message, w)
non_empty message (some []) w = (err message, w)
non_empty message (some (b ∷ bs)) w = (ok (b ∷ bs), w)

abbrev pub no_root_token : String
no_root_token = "init answer has no root_token; the store's state must be checked by hand"

abbrev pub no_recovery_key : String
no_recovery_key = "init answer has no recovery key; the store's state must be checked by hand"

abbrev pub initialised : Bool × String
initialised =
    (true, "initialised; recovery key and root token are in Secret openbao-init (sandbox only)")

-- `or_else` of the two recovery keys.
pub first_key : Option Text → Option Text → Option Text
first_key (some k) other = some k
first_key none other = other

pub read_reply : InitReply → Run InitAnswer
read_reply (not_built e) w = (err e, w)
read_reply (request_failed e) w = (err (format ("init request failed: " ∷ e ∷ [])), w)
read_reply (not_json e) w = (err (format ("init answer is not JSON: " ∷ e ∷ [])), w)
read_reply (answered a) w = (ok a, w)

module _ (o : Outside) where
  pub seal : Bool → Option (Map Text) → Run (Bool × String)
  seal dry_run (some existing) = return (true, "ready: kept")
  seal dry_run none = do
    key ← draw o (λ random. generate_hex random 32)
    write o dry_run seal_secret (("key", key) ∷ [])
    return (if dry_run then (false, "planned (dry-run)") else (true, "ready: created"))

  pub ensure_openbao_seal_key : SecretsMode → Bool → World → Option ComponentStatus × World
  ensure_openbao_seal_key mode dry_run w =
      gated (runs_store mode)
        (reported seal_secret ((do existing ← get_opt o seal_secret; seal dry_run existing) w)) w

  -- Both keys are there.
  pub is_complete : Map Text → Bool
  is_complete existing =
      is_some (text o.is_utf8 existing "recovery-key")
      && is_some (text o.is_utf8 existing "root-token")

  abbrev kept : Bool → Bool × String
  kept complete = if complete then (true, "ready: kept") else (
    false,
    "Secret openbao-init exists without both keys: the store is initialised and its root token is gone, restore it by hand",
  )

  pub save_init : Text → Text → Run (Bool × String)
  save_init root_token recovery_key = do
    write o false init_secret_name (init_secret recovery_key root_token)
    return initialised

  pub with_root : InitAnswer → Text → Run (Bool × String)
  with_root answer root_token = do
    recovery_key ← non_empty no_recovery_key (first_key answer.recovery_key_b64 answer.recovery_key)
    save_init root_token recovery_key

  pub from_answer : InitAnswer → Run (Bool × String)
  from_answer answer = do
    root_token ← non_empty no_root_token answer.root_token
    with_root answer root_token

  pub from_reply : InitReply → Run (Bool × String)
  from_reply reply = do answer ← read_reply reply; from_answer answer

  pub initialise : Run (Bool × String)
  initialise = do reply ← post_init o; from_reply reply

  pub initialise_once : Bool → Option (Map Text) → Run (Bool × String)
  initialise_once dry_run (some existing) w = (ok (kept (is_complete existing)), w)
  initialise_once true none w = (ok (false, "planned (dry-run)"), w)
  initialise_once false none w = initialise w

  pub ensure_openbao_init : SecretsMode → Bool → World → Option ComponentStatus × World
  ensure_openbao_init mode dry_run w =
      gated (runs_store mode)
        (reported init_secret_name
          ((do existing ← get_opt o init_secret_name; initialise_once dry_run existing) w))
        w
