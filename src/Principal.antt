-- ===== src/Principal.antt =====
-- crates/stardelt-operator/src/principal.rs: what the credentials Secret of a service principal holds,
-- and the state that the controller reports from it.
use stardelt_operator.Crd.Principal.{
  ExistingSecretRef, ServicePrincipalSpec, validate, principal_client_id,
}
use stardelt_operator.Common.{
  ℕ, String, Bool, true, false, Option, none, some, List, [], ◌∷◌, if◌then◌else◌, ◌==◌, string_eq,
  Map, get, format, Validated, ok, err,
}
pub mod Ready
pub mod Secrecy
mod Tests

abbrev pub Bytes : Type 0
Bytes = List ℕ

pub record Secret : Type 0 where
  pub content : Option (Map Bytes)

pub data SecretCheck : Type 0 where
  missing : SecretCheck
  missing_keys : List String → SecretCheck
  present : String → SecretCheck

-- `(!text.is_empty()).then_some(text)`
non_empty : String → Option String
non_empty text = if text == "" then none else some text

-- `?` on an Option.
abbrev pub and_then : {A B : Type 0} → Option A → (A → Option B) → Option B
and_then none f = none
and_then (some a) f = f a

-- The closure `text` of `secret_check`; `trimmed` is `from_utf8_lossy` with `trim`.
pub held : (Bytes → String) → Secret → String → Option String
held trimmed secret key =
    and_then (secret.content)
      (λ entries. and_then (get key entries) (λ value. non_empty (trimmed value)))

abbrev named : Option String → String → List String → List String
named none key absent = key ∷ absent
named (some text) key absent = absent

-- The `filter_map` over the two absent.
abbrev missing_of : Option String → Option String → List String
missing_of client_id client_secret =
    named client_id "client-id" (named client_secret "client-secret" [])

-- `expect` on the client id: none stands for its panic.
abbrev check_of : List String → Option String → Option SecretCheck
check_of (key ∷ absent) client_id = some (missing_keys (key ∷ absent))
check_of [] none = none
check_of [] (some client_id) = some (present client_id)

pub secret_check : (Bytes → String) → Option Secret → Option SecretCheck
secret_check trimmed none = some missing
secret_check trimmed (some secret) =
    let client_id = held trimmed secret "client-id" in
    check_of (missing_of client_id (held trimmed secret "client-secret")) client_id

pub record PrincipalState : Type 0 where
  pub ready : Bool
  pub reason : String
  pub message : Option String
  pub client_id : Option String
  pub secret_name : Option String

abbrev not_ready : String → String → PrincipalState
not_ready reason message = record {
  ready = false;
  reason = reason;
  message = some message;
  client_id = none;
  secret_name = none;
}

abbrev quoted : String → String
quoted key = format ("`" ∷ key ∷ "`" ∷ [])

-- `named.join(", ")`
abbrev listed : List String → String
listed [] = ""
listed (key ∷ []) = quoted key
listed (key ∷ next ∷ absent) = format (quoted key ∷ ", " ∷ listed (next ∷ absent) ∷ [])

incomplete : String → List String → PrincipalState
incomplete secret_name absent = not_ready "SecretIncomplete" (
    format (
      "the Secret "
      ∷ secret_name
      ∷ " must hold `client-id` and `client-secret`, both non-empty; missing or empty: "
      ∷ listed absent
      ∷ []))

abbrev provisioned : Option String → String → PrincipalState
provisioned client_id secret_name = record {
  ready = true;
  reason = "Provisioned";
  message = none;
  client_id = client_id;
  secret_name = some secret_name;
}

-- `Some(reference)`: an administrator owns the client.
external_state : String → SecretCheck → PrincipalState
external_state secret_name missing = not_ready "ExternalSecretMissing" (
    format (
      "the Secret " ∷ secret_name
      ∷ " named in existingSecretRef does not exist; create it with the app registration's `client-id` and `client-secret`"
      ∷ []))
external_state secret_name (missing_keys absent) = incomplete secret_name absent
external_state secret_name (present client_id) = provisioned none secret_name

-- `None`: the Secret is the one of the principal's own client.
platform_state : String → String → SecretCheck → PrincipalState
platform_state name owner_group missing = not_ready "ClientNotSetUp" (
    format (
      "the identity provider has no client for this principal yet; create it with `make sync-principal NAME="
      ∷ name ∷ " GROUP=" ∷ owner_group ∷ "`" ∷ []))
platform_state name owner_group (missing_keys absent) = incomplete (principal_client_id name) absent
platform_state name owner_group (present client_id) =
    let secret_name = principal_client_id name in
    if client_id == secret_name
    then provisioned (some secret_name) secret_name
    else not_ready "ClientIdMismatch" (
        format (
          "the `client-id` in Secret " ∷ secret_name ∷ " is not `" ∷ secret_name
          ∷ "`: the Secret belongs to another client; recreate it with `make sync-principal NAME="
          ∷ name ∷ " GROUP=" ∷ owner_group ∷ "`" ∷ []))

by_reference : Option ExistingSecretRef → String → String → SecretCheck → PrincipalState
by_reference (some reference) name owner_group check = external_state reference.name check
by_reference none name owner_group check = platform_state name owner_group check

-- `if let Err(message) = spec.validate(name)`
after_validate : Validated → ServicePrincipalSpec → String → SecretCheck → PrincipalState
after_validate (err message) spec name check = not_ready "InvalidSpec" message
after_validate (ok u) spec name check =
    by_reference spec.existing_secret_ref name spec.owner_group check

pub principal_state : ServicePrincipalSpec → String → SecretCheck → PrincipalState
principal_state spec name check = after_validate (validate spec name) spec name check

-- `principal_state(&sp.spec, &name, &secret_check(secret.as_ref()))` of `reconcile_principal`.
pub reported_state :
    (Bytes → String) → ServicePrincipalSpec → String → Option Secret → Option PrincipalState
reported_state trimmed spec name secret =
    and_then (secret_check trimmed secret) (λ check. some (principal_state spec name check))
