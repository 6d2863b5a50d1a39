-- ===== src/Secrets/ObjectStore/Kept.antt =====
-- What `ensure_s3_secrets` may change.
use stardelt_operator.Encoding.{Text}
use stardelt_operator.Planner.{StorageImpl, seaweedfs, byo_s3}
use stardelt_operator.Secrets.Store.{
  bind_rule, IsLawful, chain_rule, write_absent, reported_rule, found_rule,
}
use stardelt_operator.Secrets.ObjectStore.{
  S3Keys, s3_secret, s3_config_secret, random_hex, read_keys, generate_keys, or_message, keys_for,
  write_creds, write_config, provide_store, ensure_s3_secrets,
}
use stardelt_operator.Secrets.{World, Outside, draw}
use stardelt_operator.Common.{
  String, ◌≡◌, refl, ap, ◌∙◌, Bool, true, false, Option, none, some, string_eq, Map, get, Result,
  ok,
}

generate_keys_quiet : (o : Outside) (w : World) → (generate_keys o w).1.secrets ≡ w.secrets
unfolding generate_keys draw
generate_keys_quiet o w =
    bind_rule (λ (p : Result String S3Keys × World). p.1.secrets ≡ w.secrets)
      (draw o (random_hex 10) w) _
      (λ access e.
        bind_rule (λ (p : Result String S3Keys × World). p.1.secrets ≡ w.secrets)
          (draw o (random_hex 20) (draw o (random_hex 10) w).1) _ (λ key q. refl) (λ e q. refl))
      (λ e q. refl)

or_message_quiet :
    {A : Type 0} (o : Outside) (message : String) (a : Option A) (w : World)
    → (or_message o message a w).1.secrets ≡ w.secrets
unfolding or_message
or_message_quiet o message none w = refl
or_message_quiet o message (some a) w = refl

keys_for_quiet :
    (o : Outside) (dry_run : Bool) (found : Option (Map Text)) (w : World)
    → (keys_for o dry_run found w).1.secrets ≡ w.secrets
unfolding keys_for
keys_for_quiet o dry_run (some secret) w = or_message_quiet o _ (read_keys o secret) w
keys_for_quiet o true none w = refl
keys_for_quiet o false none w = generate_keys_quiet o w

module _ {o : Outside} {R : World → World → Type 0} where
  config_rule :
      (dry_run : Bool) (r : IsLawful o dry_run R) (found : Option (Map Text)) (keys_ : S3Keys)
      (w : World)
      → get s3_config_secret w.secrets ≡ found
      → R w (write_config o dry_run found keys_ w).1
  unfolding write_config
  config_rule dry_run r (some secret) keys_ w there = r.same w w refl
  config_rule true r none keys_ w absent = r.same w w refl
  config_rule false r none keys_ w absent = write_absent r s3_config_secret _ w absent

  creds_rule :
      (r : IsLawful o false R) (namespace : String) (bucket_name : Option String)
      (found : Option (Map Text)) (keys_ : S3Keys) (w : World)
      → get s3_secret w.secrets ≡ found
      → R w (write_creds o namespace bucket_name found keys_ w).1
  unfolding write_creds
  creds_rule r namespace bucket_name (some secret) keys_ w there = r.same w w refl
  creds_rule r namespace bucket_name none keys_ w absent = write_absent r s3_secret _ w absent

  -- The keys of a dry run come from a Secret that is there.
  dry_creds_rule :
      (r : IsLawful o true R) (namespace : String) (bucket_name : Option String)
      (found : Option (Map Text)) (keys_ : S3Keys) (w w' : World)
      → (keys_for o true found w).0 ≡ ok keys_
      → R w' (write_creds o namespace bucket_name found keys_ w').1
  unfolding write_creds keys_for
  dry_creds_rule r namespace bucket_name (some secret) keys_ w w' e = r.same w' w' refl
  dry_creds_rule r namespace bucket_name none keys_ w w' e = cc

  made_rule :
      (dry_run : Bool) (r : IsLawful o dry_run R) (namespace : String) (bucket_name : Option String)
      (found : Option (Map Text)) (keys_ : S3Keys) (w : World)
      → get s3_secret w.secrets ≡ found
      → (keys_for o dry_run found w).0 ≡ ok keys_
      → R
          (keys_for o dry_run found w).1
          (write_creds o namespace bucket_name found keys_ (keys_for o dry_run found w).1).1
  made_rule true r namespace bucket_name found keys_ w there e =
      dry_creds_rule r namespace bucket_name found keys_ w _ e
  made_rule false r namespace bucket_name found keys_ w there e =
      creds_rule r namespace bucket_name found keys_ (keys_for o false found w).1
        (ap (λ m. get s3_secret m) (keys_for_quiet o false found w) ∙ there)

  provide_store_rule :
      (dry_run : Bool) (r : IsLawful o dry_run R) (namespace : String) (bucket_name : Option String)
      (storage : StorageImpl) (found : Option (Map Text)) (w : World)
      → get s3_secret w.secrets ≡ found
      → R w (provide_store o dry_run namespace bucket_name storage found w).1
  unfolding provide_store
  provide_store_rule dry_run r namespace bucket_name byo_s3 found w there = r.same w w refl
  provide_store_rule dry_run r namespace bucket_name seaweedfs found w there =
      let made = keys_for o dry_run found w in
      chain_rule r w made _ (r.same w made.1 (keys_for_quiet o dry_run found w)) (λ keys_ e.
        let saved = write_creds o namespace bucket_name found keys_ made.1 in
        chain_rule r made.1 saved _
          (made_rule dry_run r namespace bucket_name found keys_ w there e)
          (λ u q. found_rule r s3_config_secret _ saved.1 (λ config w' here.
            chain_rule r w' (write_config o dry_run config keys_ w') _
              (config_rule dry_run r config keys_ w' here) (λ u' q'. r.same _ _ refl))))

  pub ensure_s3_secrets_rule :
      (dry_run : Bool) (r : IsLawful o dry_run R) (namespace : String) (bucket_name : Option String)
      (storage : StorageImpl) (w : World)
      → R w (ensure_s3_secrets o dry_run namespace bucket_name storage w).1
  unfolding ensure_s3_secrets
  ensure_s3_secrets_rule dry_run r namespace bucket_name storage w =
      reported_rule r "s3-credentials" w _ (
        found_rule r s3_secret (provide_store o dry_run namespace bucket_name storage) w
          (λ found w' there.
            provide_store_rule dry_run r namespace bucket_name storage found w' there))
