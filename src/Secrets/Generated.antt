-- ===== src/Secrets/Generated.antt =====
-- `ensure_generated_secrets` of provision.rs, its uses, and the Secrets of keycloak.rs, airflow.rs,
-- superset.rs and nova.rs that it generates.
pub mod Keys
pub mod Kept
pub mod Complete
mod Tests
use stardelt_operator.Crd.Status.{ComponentStatus}
use stardelt_operator.Crd.Status.{}
use stardelt_operator.Encoding.{Text, generate_secret, generate_fernet_key}
use stardelt_operator.Planner.{}
use stardelt_operator.Secrets.{
  World, Outside, Run, ◌>>=◌, ◌>>◌, return, get_opt, write, draw, reported,
}
use stardelt_operator.Controller.Apply.{}
use stardelt_operator.Common.{
  ℕ, ◌+◌, String, Bool, true, false, not, Option, none, some, List, [], ◌∷◌, ◌++◌, map,
  if◌then◌else◌, ◌==◌, string_eq, is_some, keep, contains, Map, get, insert, bytes, format,
}

pub record IdentitySecret : Type 0 where
  pub name : String
  pub fixed : List (String × String)
  pub generated : List String
  pub fernet : List String

pub key_names : IdentitySecret → List String
key_names d = map (λ (e : String × String). e.0) d.fixed ++ (d.generated ++ d.fernet)

pub missing_keys : Map Text → List String → List String
missing_keys existing desired = keep (λ key. not (is_some (get key existing))) desired

pub insert_fixed : List (String × String) → Map Text → Map Text
insert_fixed [] data_ = data_
insert_fixed ((key, value) ∷ rest) data_ = insert_fixed rest (insert key (bytes value) data_)

-- `desired.fixed.iter().find(..)`
pub find_fixed : String → List (String × String) → Option String
find_fixed key [] = none
find_fixed key ((name, value) ∷ rest) = if name == key then some value else find_fixed key rest

module _ (o : Outside) where
  -- `for key in keys { values.insert(key, value?); }`
  pub insert_each : (String → Run Text) → List String → Map Text → Run (Map Text)
  insert_each value [] values = return values
  insert_each value (key ∷ rest) values = do
    v ← value key
    insert_each value rest (insert key v values)

  abbrev new_secret : Run Text
  new_secret = draw o generate_secret

  abbrev new_fernet_key : Run Text
  new_fernet_key = draw o generate_fernet_key

  pub identity_secret : IdentitySecret → Run (Map Text)
  identity_secret desired = do
    with_generated ←
        insert_each (λ key. new_secret) desired.generated (insert_fixed desired.fixed [])
    insert_each (λ key. new_fernet_key) desired.fernet with_generated

  -- The `match` on the fixed keys.
  pub value_of : IdentitySecret → String → Option String → Run Text
  value_of desired key (some value) = return (bytes value)
  value_of desired key none = if contains desired.fernet key then new_fernet_key else new_secret

  abbrev missing_value : IdentitySecret → String → Run Text
  missing_value desired key = value_of desired key (find_fixed key desired.fixed)

  -- `if values.is_empty() { continue; }` before the patch.
  pub patch_identity_secret : Bool → String → Map Text → Run (Unit {0})
  patch_identity_secret dry_run name [] = return tt
  patch_identity_secret dry_run name (v ∷ values) = write o dry_run name (v ∷ values)

  -- The body of the loop, from what `get_opt` found.
  pub provide : Bool → IdentitySecret → Option (Map Text) → Run (Unit {0})
  provide dry_run desired none = do
    secret ← identity_secret desired
    write o dry_run desired.name secret
  provide dry_run desired (some existing) = do
    values ← insert_each (missing_value desired) (missing_keys existing (key_names desired)) []
    patch_identity_secret dry_run desired.name values

  abbrev counted : Option (Map Text) → ℕ × ℕ → ℕ × ℕ
  counted none (created, kept) = (created + 1, kept)
  counted (some existing) (created, kept) = (created, kept + 1)

  pub provide_all : Bool → List IdentitySecret → ℕ × ℕ → Run (ℕ × ℕ)
  provide_all dry_run [] counts = return counts
  provide_all dry_run (desired ∷ rest) counts = do
    existing ← get_opt o desired.name
    provide dry_run desired existing
    provide_all dry_run rest (counted existing counts)

  abbrev summary : Bool → ℕ × ℕ → Bool × String
  summary dry_run (created, kept) = if dry_run then (false, "planned (dry-run)") else (
    true,
    format ("ready: created " ∷ o.show_number created ∷ " / kept " ∷ o.show_number kept ∷ []),
  )

  pub ensure_generated_secrets :
      Bool → String → List IdentitySecret → World → ComponentStatus × World
  ensure_generated_secrets dry_run name desired w =
      reported name
        ((do counts ← provide_all dry_run desired (0, 0); return (summary dry_run counts)) w)
