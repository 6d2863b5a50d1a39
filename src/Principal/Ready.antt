-- ===== src/Principal/Ready.antt =====
-- When a principal is reported ready, and what its report may tell of the Secret.
use stardelt_operator.Common.{
  String, ◌≡◌, refl, sym, ap, ◌∙◌, ◌≢◌, ◌↔◌, true, eq_iff, Option, none, some, ◌==◌, string_eq,
  some-injective, false_iff, if_rule, Map, get, Validated, ok, err,
}
use stardelt_operator.Crd.Principal.{
  ExistingSecretRef, ServicePrincipalSpec, validate, principal_client_id,
}
use stardelt_operator.Crd.Principal.Valid.{IsValid, principal_validate_iff}
use stardelt_operator.Principal.{
  Bytes, Secret, SecretCheck, missing, missing_keys, present, non_empty, and_then, held, missing_of,
  check_of, secret_check, PrincipalState, incomplete, external_state, platform_state, by_reference,
  after_validate, principal_state, reported_state,
}

-- The Secret has the entry, and its trimmed text is `t`, which is not empty.
abbrev pub Holds : (Bytes → String) → Secret → String → String → Type 0
Holds trimmed secret key t =
    (entries : Map Bytes) × (secret.content ≡ some entries)
    × (value : Bytes) × (get key entries ≡ some value)
    × (trimmed value ≡ t)
    × (t ≢ "")

non_empty_iff : (text t : String) → (non_empty text ≡ some t) ↔ ((text ≡ t) × (t ≢ ""))
unfolding non_empty
non_empty_iff text t =
    let there : (non_empty text ≡ some t) → (text ≡ t) × (t ≢ "") =
      if_rule (λ o. (o ≡ some t) → (text ≡ t) × (t ≢ "")) (text == "") none (some text) (λ e h. cc)
        (λ n h. (
          some-injective h,
          λ e. (false_iff (text == "") (eq_iff text "")).0 n (some-injective h ∙ e),
        )) in
    (
      there,
      λ h. rw ((false_iff (text == "") (eq_iff text "")).1 (λ e. h.1 (sym h.0 ∙ e))) (ap some h.0),
    )

and_then_iff :
    {A B : Type 0} (o : Option A) (f : A → Option B) (b : B)
    → (and_then o f ≡ some b) ↔ ((a : A) × (o ≡ some a) × (f a ≡ some b))
and_then_iff none f b = (λ h. cc, λ h. cc)
and_then_iff (some a) f b =
    (λ h. (a, refl, h), λ h. let (c, e, q) = h in ap f (some-injective e) ∙ q)

held_iff :
    (trimmed : Bytes → String) (secret : Secret) (key t : String)
    → (held trimmed secret key ≡ some t) ↔ Holds trimmed secret key t
unfolding held
held_iff trimmed secret key t = (
  λ h.
      let (entries, e, rest) = (and_then_iff secret.content _ t).0 h in
      let (value, found, text) = (and_then_iff (get key entries) _ t).0 rest in
      let (same, full) = (non_empty_iff (trimmed value) t).0 text in
      (entries, e, value, found, same, full),
  λ h.
      let (entries, e, value, found, same, full) = h in
      (and_then_iff secret.content _ t).1 (
        entries,
        e,
        (and_then_iff (get key entries) _ t).1
            (value, found, (non_empty_iff (trimmed value) t).1 (same, full)),
      ),
)

abbrev pub IsReady : (Bytes → String) → ServicePrincipalSpec → String → Option Secret → Type 0
IsReady trimmed spec name secret =
    IsValid spec name
    × (s : Secret) × (secret ≡ some s)
    × (id : String) × Holds trimmed s "client-id" id
    × (password : String) × Holds trimmed s "client-secret" password
    × (spec.existing_secret_ref ≡ none → id ≡ principal_client_id name)

-- The check of an existing Secret, by what it holds.
check_ends :
    (id password : Option String)
    → (c : SecretCheck) × (check_of (missing_of id password) id ≡ some c)
      × ((i : String) → (c ≡ present i) ↔ ((id ≡ some i) × (p : String) × (password ≡ some p)))
check_ends none none = (_, refl, λ i. (λ h. cc, λ h. cc))
check_ends none (some p) = (_, refl, λ i. (λ h. cc, λ h. cc))
check_ends (some i) none = (_, refl, λ j. (λ h. cc, λ h. cc))
check_ends (some i) (some p) = (_, refl, λ j. (λ h. (cc, p, refl), λ h. cc))

check_iff :
    (trimmed : Bytes → String) (secret : Option Secret)
    → (c : SecretCheck) × (secret_check trimmed secret ≡ some c)
      × ((i : String)
          → (c ≡ present i) ↔ (
              (s : Secret) × (secret ≡ some s)
              × (held trimmed s "client-id" ≡ some i)
              × (p : String) × (held trimmed s "client-secret" ≡ some p)))
unfolding secret_check
check_iff trimmed none = (missing, refl, λ i. (λ h. cc, λ h. cc))
check_iff trimmed (some s) =
    let (c, e, there) = check_ends (held trimmed s "client-id") (held trimmed s "client-secret") in
    (
      c,
      e,
      λ i. (
        λ h. let (id, p, password) = (there i).0 h in (s, refl, id, p, password),
        λ h.
            let (s', same, id, p, password) = h in
            let back = some-injective same in
            (there i).1 (
              ap (λ x. held trimmed x "client-id") back ∙ id,
              p,
              ap (λ x. held trimmed x "client-secret") back ∙ password,
            ),
      ),
    )

platform_ready_iff :
    (name group : String) (c : SecretCheck)
    → ((platform_state name group c).ready ≡ true) ↔ (c ≡ present (principal_client_id name))
unfolding platform_state incomplete
platform_ready_iff name group missing = (λ h. cc, λ h. cc)
platform_ready_iff name group (missing_keys ks) = (λ h. cc, λ h. cc)
platform_ready_iff name group (present id) =
    let own = principal_client_id name in
    if_rule (λ (st : PrincipalState). (st.ready ≡ true) ↔ (present id ≡ present own)) (id == own) _
      _ (λ e. (λ h. ap present ((eq_iff id own).0 e), λ h. refl))
      (λ n. (λ h. cc, λ h. absurd ((false_iff (id == own) (eq_iff id own)).0 n cc)))

external_ready_iff :
    (secret_name : String) (c : SecretCheck)
    → ((external_state secret_name c).ready ≡ true) ↔ ((id : String) × (c ≡ present id))
unfolding external_state incomplete
external_ready_iff secret_name missing = (λ h. cc, λ h. cc)
external_ready_iff secret_name (missing_keys ks) = (λ h. cc, λ h. cc)
external_ready_iff secret_name (present id) = (λ h. (id, refl), λ h. refl)

by_reference-ready_iff :
    (reference : Option ExistingSecretRef) (name group : String) (c : SecretCheck)
    → ((by_reference reference name group c).ready ≡ true)
      ↔ ((id : String) × (c ≡ present id) × (reference ≡ none → id ≡ principal_client_id name))
unfolding by_reference
by_reference-ready_iff none name group c =
    let (there, back) = platform_ready_iff name group c in
    (
      λ h. (principal_client_id name, there h, λ e. refl),
      λ h. let (id, e, own) = h in back (e ∙ ap present (own refl)),
    )
by_reference-ready_iff (some r) name group c =
    let (there, back) = external_ready_iff r.name c in
    (λ h. let (id, e) = there h in (id, e, λ e. cc), λ h. let (id, e, own) = h in back (id, e))

after_validate-ready_iff :
    (v : Validated) (spec : ServicePrincipalSpec) (name : String) (c : SecretCheck)
    → ((after_validate v spec name c).ready ≡ true) ↔ (
        (v ≡ ok tt)
        × ((by_reference spec.existing_secret_ref name spec.owner_group c).ready ≡ true))
unfolding after_validate
after_validate-ready_iff (err m) spec name c = (λ h. cc, λ h. cc)
after_validate-ready_iff (ok u) spec name c = (λ h. (refl, h), λ h. h.1)

-- Every Secret gives a report: reading the keys that were checked does not panic. It says ready exactly
-- when the spec is valid, the Secret holds a non-empty text under both keys, and, without
-- `existingSecretRef`, the client id is the principal's own.
pub reported_state-ready_iff :
    (trimmed : Bytes → String) (spec : ServicePrincipalSpec) (name : String)
    (secret : Option Secret)
    → (state : PrincipalState) × (reported_state trimmed spec name secret ≡ some state)
      × ((state.ready ≡ true) ↔ IsReady trimmed spec name secret)
unfolding reported_state principal_state
reported_state-ready_iff trimmed spec name secret =
    let (c, e, ends) = check_iff trimmed secret in
    let (valid, valid') = principal_validate_iff spec name in
    let (after, after') = after_validate-ready_iff (validate spec name) spec name c in
    let (there, back) = by_reference-ready_iff spec.existing_secret_ref name spec.owner_group c in
    (
      principal_state spec name c,
      (and_then_iff (secret_check trimmed secret) _ _).1 (c, e, refl),
      (
        λ h.
            let (v, r) = after h in
            let (id, ce, own) = there r in
            let (s, se, hid, p, hp) = (ends id).0 ce in
            (
              valid v,
              s,
              se,
              id,
              (held_iff trimmed s "client-id" id).0 hid,
              p,
              (held_iff trimmed s "client-secret" p).0 hp,
              own,
            ),
        λ h.
            let (v, s, se, id, hid, p, hp, own) = h in
            let ce = (ends id).1 (
              s,
              se,
              (held_iff trimmed s "client-id" id).1 hid,
              p,
              (held_iff trimmed s "client-secret" p).1 hp,
            ) in
            after' (valid' v, back (id, ce, own)),
      ),
    )
