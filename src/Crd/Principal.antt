-- ===== src/Crd/Principal.antt =====
-- `ServicePrincipalSpec` of crd.rs: a non-human identity.
pub mod Valid
mod Tests
use stardelt_operator.Common.{
  String, Bool, not, ◌||◌, Option, List, [], ◌∷◌, map, ◌==◌, nat_eq, string_eq, length, is_empty,
  collect, format, ◌>>=◌, ◌>>◌, reject, Validated,
}
use stardelt_operator.Crd.Names.{name_ok, group_name_ok}

pub data PrincipalPurpose : Type 0 where
  pipeline maintenance collector : PrincipalPurpose

pub data PrincipalAudience : Type 0 where
  trino lakekeeper : PrincipalAudience

pub record ExistingSecretRef : Type 0 where
  pub name : String

pub record ServicePrincipalSpec : Type 0 where
  pub owner_group : String
  pub purpose : PrincipalPurpose
  pub audiences : List PrincipalAudience
  pub existing_secret_ref : Option ExistingSecretRef

-- `format!("{a:?}")`
pub debug : PrincipalAudience → String
debug trino = "Trino"
debug lakekeeper = "Lakekeeper"

abbrev pub default_principal_audiences : List PrincipalAudience
default_principal_audiences = trino ∷ lakekeeper ∷ []

repeats_audience : List PrincipalAudience → Bool
repeats_audience xs = not (length (collect [] (map debug xs)) == length xs)

pub validate : ServicePrincipalSpec → String → Validated
validate p name = do
  reject (not (name_ok name)) (
      format (
        "service principal name `" ∷ name
        ∷ "` must be 1 to 40 lower-case letters, digits and dashes, starting with a letter" ∷ []))
  reject (not (group_name_ok p.owner_group)) "ownerGroup must be a valid group name"
  reject (is_empty p.audiences || repeats_audience p.audiences)
      "audiences must list each audience once, at least one"

unfoldable pub principal_client_id : String → String
principal_client_id name = format ("sp-" ∷ name ∷ [])
