-- ===== src/Crd/Principal/Tests.antt =====
-- Principals that the checks accept and refuse.
use stardelt_operator.Crd.Names.{name_ok, group_name_ok}
use stardelt_operator.Common.{◌≡◌, refl, ◌↔◌, none, List, [], string_eq, bytes, ok, err}
use stardelt_operator.Crd.Principal.Valid.{IsValid, principal_validate_iff}
use stardelt_operator.Crd.Principal.{
  pipeline, PrincipalAudience, ServicePrincipalSpec, default_principal_audiences, repeats_audience,
  validate,
}

abbrev principal : List PrincipalAudience → ServicePrincipalSpec
principal audiences = record {
  owner_group = "Data.Eng";
  purpose = pipeline;
  audiences = audiences;
  existing_secret_ref = none;
}

no_audience :
    validate (principal []) "nightly" ≡ err "audiences must list each audience once, at least one"
unfolding validate repeats_audience name_ok group_name_ok bytes
no_audience = refl

principal_validate_iff_example :
    (validate (principal default_principal_audiences) "nightly" ≡ ok tt)
    ↔ IsValid (principal default_principal_audiences) "nightly"
principal_validate_iff_example =
    principal_validate_iff (principal default_principal_audiences) "nightly"
