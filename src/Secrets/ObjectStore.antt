-- ===== src/Secrets/ObjectStore.antt =====
-- `ensure_s3_secrets` of provision.rs, and the Secrets of prerequisites.rs that it writes.
pub mod Kept
use stardelt_operator.Crd.Status.{ComponentStatus}
use stardelt_operator.Crd.Status.{}
use stardelt_operator.Encoding.{Text, hex, Random}
use stardelt_operator.Planner.{StorageImpl, seaweedfs, byo_s3}
use stardelt_operator.Secrets.Store.{}
use stardelt_operator.Secrets.{
  World, Outside, Run, ◌>>=◌, ◌>>◌, return, merge, get_opt, write, draw, text, reported,
}
use stardelt_operator.Controller.Apply.{}
use stardelt_operator.Common.{
  ℕ, String, Bool, true, false, not, Option, none, some, [], ◌∷◌, if◌then◌else◌, string_eq, Map,
  bytes, format, Result, ok, err,
}

pub record S3Keys : Type 0 where
  pub access_key : Text
  pub secret_key : Text

-- `S3_SECRET`, `S3_CONFIG_SECRET` and `DEFAULT_BUCKET`
abbrev pub s3_secret : String
s3_secret = "stardelt-s3-creds"

abbrev pub s3_config_secret : String
s3_config_secret = "seaweedfs-s3-config"

abbrev default_bucket : String
default_bucket = "lakehouse"

pub bucket : Option String → String
bucket none = default_bucket
bucket (some name) = name

pub s3_endpoint : String → String
s3_endpoint namespace = format ("http://seaweedfs-s3." ∷ namespace ∷ ".svc.cluster.local:8333" ∷ [])

pub random_hex : ℕ → Random → Result String Text
random_hex n random = elim (random n) [ ok bs ↦ ok (hex bs) | err e ↦ err e ]

-- The `stringData` of `s3_creds_secret`.
pub s3_creds : String → Option String → S3Keys → Map Text
s3_creds namespace bucket_name keys_ = merge [] (
    ("access-key", keys_.access_key)
    ∷ ("secret-key", keys_.secret_key)
    ∷ ("endpoint", bytes (s3_endpoint namespace))
    ∷ ("bucket", bytes (bucket bucket_name))
    ∷ ("region", bytes "us-east-1")
    ∷ [])

module _ (o : Outside) where
  -- `read_keys` needs both keys.
  pub read_keys : Map Text → Option S3Keys
  read_keys secret = elim (text o.is_utf8 secret "access-key") [
    | none ↦ none
    | some access ↦ elim (text o.is_utf8 secret "secret-key") [
      | none ↦ none
      | some key ↦ some (record { access_key = access; secret_key = key })
    ]
  ]

  pub generate_keys : Run S3Keys
  generate_keys = do
    access ← draw o (random_hex 10)
    key ← draw o (random_hex 20)
    return (record { access_key = access; secret_key = key })

  pub or_message : {A : Type 0} → String → Option A → Run A
  or_message message none w = (err message, w)
  or_message message (some a) w = (ok a, w)

  pub keys_for : Bool → Option (Map Text) → Run S3Keys
  keys_for dry_run (some secret) w =
      or_message "Secret stardelt-s3-creds exists but lacks access-key or secret-key"
        (read_keys secret) w
  keys_for true none w = (err "planned (dry-run): would generate the S3 key pair", w)
  keys_for false none w = generate_keys w

  pub write_creds : String → Option String → Option (Map Text) → S3Keys → Run (Unit {0})
  write_creds namespace bucket_name (some secret) keys_ = return tt
  write_creds namespace bucket_name none keys_ =
      write o false s3_secret (s3_creds namespace bucket_name keys_)

  pub write_config : Bool → Option (Map Text) → S3Keys → Run (Unit {0})
  write_config dry_run (some secret) keys_ w = (ok tt, w)
  write_config true none keys_ w = (err "planned (dry-run): would write seaweedfs-s3-config", w)
  write_config false none keys_ w =
      write o false s3_config_secret
        (("seaweedfs_s3_config", o.show_identities keys_.access_key keys_.secret_key) ∷ []) w

  -- `implementation == StorageImpl::ByoS3`, from the keys that were read.
  pub own_store : Bool → Option S3Keys → Bool × String
  own_store dry_run (some keys_) = (not dry_run, "using the Secret stardelt-s3-creds you created")
  own_store dry_run none = (
    false,
    "byoS3: create Secret stardelt-s3-creds with access-key, secret-key, endpoint, bucket, region",
  )

  pub keys_of_existing : Option (Map Text) → Option S3Keys
  keys_of_existing none = none
  keys_of_existing (some secret) = read_keys secret

  pub provide_store :
      Bool → String → Option String → StorageImpl → Option (Map Text) → Run (Bool × String)
  provide_store dry_run namespace bucket_name byo_s3 existing =
      return (own_store dry_run (keys_of_existing existing))
  provide_store dry_run namespace bucket_name seaweedfs existing = do
    keys_ ← keys_for dry_run existing
    write_creds namespace bucket_name existing keys_
    config ← get_opt o s3_config_secret
    write_config dry_run config keys_
    return (not dry_run, if dry_run then "planned (dry-run): present" else "present")

  pub ensure_s3_secrets :
      Bool → String → Option String → StorageImpl → World → ComponentStatus × World
  ensure_s3_secrets dry_run namespace bucket_name storage w = reported "s3-credentials" (
      (do
        existing ← get_opt o s3_secret
        provide_store dry_run namespace bucket_name storage existing)
        w)
