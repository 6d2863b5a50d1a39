-- ===== src/Principal/Tests.antt =====
-- Reports on concrete Secrets.
use stardelt_operator.Common.{
  String, ◌≡◌, refl, ◌↔◌, true, false, eq_iff, none, some, [], ◌∷◌, if◌then◌else◌, ◌==◌, nat_eq,
  string_eq, some-injective, false_iff, get,
}
use stardelt_operator.Crd.Principal.{
  ServicePrincipalSpec, default_principal_audiences, principal_client_id, pipeline,
}
use stardelt_operator.Principal.{
  Bytes, Secret, missing_keys, present, non_empty, held, secret_check, PrincipalState,
  platform_state, reported_state,
}
use stardelt_operator.Principal.Ready.{IsReady, reported_state-ready_iff}
use stardelt_operator.Principal.Secrecy.{reported_state-same}

abbrev spec : ServicePrincipalSpec
spec = record {
  owner_group = "Data.Eng";
  purpose = pipeline;
  audiences = default_principal_audiences;
  existing_secret_ref = none;
}

-- A decoder for the values of these Secrets.
abbrev decoded : Bytes → String
decoded [] = ""
decoded (b ∷ bs) = if b == 1 then "sp-nightly" else if b == 2 then "other" else "password"

abbrev holding : Bytes → Bytes → Secret
holding id password = record {
  content = some (("client-id", id) ∷ ("client-secret", password) ∷ []);
}

both_keys_are_read :
    secret_check decoded (some (holding (1 ∷ []) (3 ∷ []))) ≡ some (present "sp-nightly")
unfolding secret_check held non_empty get
both_keys_are_read = refl

empty_values_lack :
    secret_check decoded (some (holding [] []))
    ≡ some (missing_keys ("client-id" ∷ "client-secret" ∷ []))
unfolding secret_check held non_empty get
empty_values_lack = refl

own_client_is_ready : (platform_state "nightly" "Data.Eng" (present "sp-nightly")).ready ≡ true
unfolding platform_state principal_client_id
own_client_is_ready = refl

other_client_is_not : (platform_state "nightly" "Data.Eng" (present "other")).ready ≡ false
unfolding platform_state principal_client_id
other_client_is_not = refl

reported_state-ready_iff_example :
    (state : PrincipalState) × (reported_state decoded spec "nightly"
        (some (holding (1 ∷ []) (3 ∷ [])))
      ≡ some state)
    × ((state.ready ≡ true) ↔ IsReady decoded spec "nightly" (some (holding (1 ∷ []) (3 ∷ []))))
reported_state-ready_iff_example =
    reported_state-ready_iff decoded spec "nightly" (some (holding (1 ∷ []) (3 ∷ [])))

reported_state-same_example :
    reported_state decoded spec "nightly" (some (holding (2 ∷ []) (3 ∷ [])))
    ≡ reported_state decoded spec "nightly" (some (holding (4 ∷ []) (5 ∷ 6 ∷ [])))
unfolding held non_empty get principal_client_id
reported_state-same_example =
    reported_state-same spec "nightly" decoded (holding (2 ∷ []) (3 ∷ []))
      (holding (4 ∷ []) (5 ∷ 6 ∷ [])) refl refl
      (
        λ h. absurd (
            (false_iff (◌==◌ {A = String} "other" "sp-nightly") (eq_iff "other" "sp-nightly")).0
              refl (some-injective h)),
        λ h. absurd (
            (false_iff (◌==◌ {A = String} "password" "sp-nightly")
                (eq_iff "password" "sp-nightly")).0
              refl (some-injective h)),
      )
