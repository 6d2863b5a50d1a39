-- ===== src/Principal/Secrecy.antt =====
-- A report does not depend on the values of the Secret.
use stardelt_operator.Common.{
  String, ◌≡◌, refl, sym, ap, ◌∙◌, ◌↔◌, Bool, true, false, eq_iff, Option, none, some, List, [],
  ◌∷◌, ◌==◌, string_eq, some-injective, is_some, Validated, ok, err,
}
use stardelt_operator.Crd.Principal.{
  ExistingSecretRef, ServicePrincipalSpec, validate, principal_client_id,
}
use stardelt_operator.Principal.{
  Bytes, Secret, SecretCheck, present, and_then, held, named, missing_of, check_of, secret_check,
  PrincipalState, external_state, platform_state, by_reference, after_validate, principal_state,
  reported_state,
}

same_truth : (a b : Bool) → (a ≡ true) ↔ (b ≡ true) → a ≡ b
same_truth true b h = sym (h.0 refl)
same_truth false true h = h.1 refl
same_truth false false h = refl

named_same :
    (a b : Option String) (key : String) (rest : List String)
    → is_some a ≡ is_some b
    → named a key rest ≡ named b key rest
named_same none none key rest e = refl
named_same (some x) (some y) key rest e = refl
named_same none (some y) key rest e = cc
named_same (some x) none key rest e = cc

module _ (spec : ServicePrincipalSpec) (name : String) where
  abbrev own : String
  own = principal_client_id name

  platform_same :
      (group x y : String)
      → (x ≡ own) ↔ (y ≡ own)
      → platform_state name group (present x) ≡ platform_state name group (present y)
  unfolding platform_state
  platform_same group x y h =
      let (x_own, x_is) = eq_iff x own in
      let (y_own, y_is) = eq_iff y own in
      let same : (x == own) ≡ (y == own) =
        same_truth (x == own) (y == own) (λ e. y_is (h.0 (x_own e)), λ e. x_is (h.1 (y_own e))) in
      rw same refl

  by_reference_same :
      (reference : Option ExistingSecretRef) (group x y : String)
      → (x ≡ own) ↔ (y ≡ own)
      → by_reference reference name group (present x)
        ≡ by_reference reference name group (present y)
  unfolding by_reference external_state
  by_reference_same none group x y h = platform_same group x y h
  by_reference_same (some r) group x y h = refl

  state_same :
      (v : Validated) (x y : String)
      → (x ≡ own) ↔ (y ≡ own)
      → after_validate v spec name (present x) ≡ after_validate v spec name (present y)
  unfolding after_validate
  state_same (err m) x y h = refl
  state_same (ok u) x y h = by_reference_same spec.existing_secret_ref spec.owner_group x y h

  abbrev report : SecretCheck → Option PrincipalState
  report check = some (principal_state spec name check)

  check_same :
      (ks : List String) (a b : Option String)
      → is_some a ≡ is_some b
      → (a ≡ some own) ↔ (b ≡ some own)
      → and_then (check_of ks a) report ≡ and_then (check_of ks b) report
  unfolding principal_state
  check_same (k ∷ ks) a b e h = refl
  check_same [] none none e h = refl
  check_same [] none (some y) e h = cc
  check_same [] (some x) none e h = cc
  check_same [] (some x) (some y) e h = ap some (
      state_same (validate spec name) x y
        (λ q. some-injective (h.0 (ap some q)), λ q. some-injective (h.1 (ap some q))))

  -- Two Secrets that hold a text under the same of the two keys, and of which both or neither hold the
  -- principal's own client id, give the same report, whatever else they hold.
  pub reported_state-same :
      (trimmed : Bytes → String) (a b : Secret)
      → is_some (held trimmed a "client-id") ≡ is_some (held trimmed b "client-id")
      → is_some (held trimmed a "client-secret") ≡ is_some (held trimmed b "client-secret")
      → (held trimmed a "client-id" ≡ some own) ↔ (held trimmed b "client-id" ≡ some own)
      → reported_state trimmed spec name (some a) ≡ reported_state trimmed spec name (some b)
  unfolding reported_state secret_check
  reported_state-same trimmed a b id password own_id =
      let a_id = held trimmed a "client-id" in
      let b_id = held trimmed b "client-id" in
      let lacks : missing_of a_id (held trimmed a "client-secret")
          ≡ missing_of b_id (held trimmed b "client-secret") =
        named_same a_id b_id "client-id" _ id
        ∙ ap (named b_id "client-id") (
            named_same (held trimmed a "client-secret") (held trimmed b "client-secret")
              "client-secret" [] password) in
      ap (λ ks. and_then (check_of ks a_id) report) lacks
      ∙ check_same (missing_of b_id (held trimmed b "client-secret")) a_id b_id id own_id
