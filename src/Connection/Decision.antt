-- ===== src/Connection/Decision.antt =====
-- What `plan` decides: when a manifest is applied, and what it says.
use stardelt_operator.Values.{Value, text, array}
use stardelt_operator.Values.Merge.{at}
use stardelt_operator.Planner.{SecretsMode}
use stardelt_operator.Crd.Connection.{
  ConnectionSecret, ConnectionSpec, validate, derived_remote_ref, connection_secret_name,
}
use stardelt_operator.Connection.Manifest.{array_of, data_entry, external_secret}
use stardelt_operator.Connection.{
  apply, no_secret, store_name, Target, target_of, plan_target, plan_secret, plan_valid, plan,
}
use stardelt_operator.Common.{
  String, ◌≡◌, refl, ◌≢◌, Option, none, some, List, [], ◌∷◌, map, string_eq, Validated, ok, err,
}

module _ (c : ConnectionSpec) (name namespace uid : String) (mode : SecretsMode) where
  -- The secret, the target, and the manifest that is made of them.
  abbrev pub IsManifest : Value → Type 0
  IsManifest v =
      (secret : ConnectionSecret) × (c.secret ≡ some secret)
      × (target : String × String × String) × (target_of mode c name secret.remote_ref ≡ ok target)
      × (v ≡ external_secret c name namespace uid secret.keys target)

  target_applies :
      (secret : ConnectionSecret) (t : Target) (v : Value)
      → plan_target c name namespace uid secret.keys t ≡ apply v
      → (target : String × String × String) × (t ≡ ok target)
        × (v ≡ external_secret c name namespace uid secret.keys target)
  unfolding plan_target
  target_applies secret (ok target) v h = (target, refl, cc)
  target_applies secret (err (reason, message)) v h = cc

  secret_applies :
      (o : Option ConnectionSecret) (v : Value)
      → plan_secret c name namespace uid mode o ≡ apply v
      → (secret : ConnectionSecret) × (o ≡ some secret)
        × (target : String × String × String) × (target_of mode c name secret.remote_ref
            ≡ ok target)
        × (v ≡ external_secret c name namespace uid secret.keys target)
  unfolding plan_secret
  secret_applies none v h = cc
  secret_applies (some secret) v h =
      let (target, e, same) = target_applies secret (target_of mode c name secret.remote_ref) v h in
      (secret, refl, target, e, same)

  valid_applies :
      (r : Validated) (v : Value)
      → plan_valid c name namespace uid mode r ≡ apply v
      → (r ≡ ok tt) × IsManifest v
  unfolding plan_valid
  valid_applies (err message) v h = cc
  valid_applies (ok u) v h = (refl, secret_applies c.secret v h)

  -- A plan applies a manifest only for a valid connection with a secret whose target is accepted.
  pub plan-apply :
      (v : Value)
      → plan c name namespace uid mode ≡ apply v
      → (validate c name ≡ ok tt) × IsManifest v
  unfolding plan
  plan-apply v h = valid_applies (validate c name) v h

  target_is_no_secret :
      (keys_ : List String) (t : Target) → plan_target c name namespace uid keys_ t ≢ no_secret
  unfolding plan_target
  target_is_no_secret keys_ (ok target) h = cc
  target_is_no_secret keys_ (err (reason, message)) h = cc

  nothing_secret :
      (o : Option ConnectionSecret) → plan_secret c name namespace uid mode o ≡ no_secret → o ≡ none
  unfolding plan_secret
  nothing_secret none h = refl
  nothing_secret (some secret) h =
      absurd (target_is_no_secret secret.keys (target_of mode c name secret.remote_ref) h)

  valid_no_secret :
      (r : Validated)
      → plan_valid c name namespace uid mode r ≡ no_secret
      → (r ≡ ok tt) × (c.secret ≡ none)
  unfolding plan_valid
  valid_no_secret (err message) h = cc
  valid_no_secret (ok u) h = (refl, nothing_secret c.secret h)

  pub plan-no_secret :
      plan c name namespace uid mode ≡ no_secret → (validate c name ≡ ok tt) × (c.secret ≡ none)
  unfolding plan
  plan-no_secret h = valid_no_secret (validate c name) h

module _ (c : ConnectionSpec) (name namespace uid : String) where
  abbrev data_path : List String
  data_path = "spec" ∷ "data" ∷ []

  -- The path is the connection's own, and so are the store and the Secret.
  abbrev pub ReadsOwnPath : Value → Type 0
  ReadsOwnPath v =
      (secret : ConnectionSecret) × (store : String) × (c.secret ≡ some secret)
      × (secret.remote_ref ≡ none)
      × (store_name c.scope c.owner_group ≡ ok store)
      × (at data_path v
          ≡ some (array (array_of (map (data_entry (derived_remote_ref c name)) secret.keys))))
      × (at ("spec" ∷ "secretStoreRef" ∷ "name" ∷ []) v ≡ some (text store))
      × (at ("spec" ∷ "target" ∷ "name" ∷ []) v ≡ some (text (connection_secret_name name)))
