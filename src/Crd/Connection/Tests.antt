-- ===== src/Crd/Connection/Tests.antt =====
-- Connections that the checks accept and refuse.
use stardelt_operator.Common.{String, ◌≡◌, refl, ◌↔◌, nat_eq, string_eq, ok}
use stardelt_operator.Crd.Names.{}
use stardelt_operator.Crd.Connection.Samples.{crm, crm_is_accepted, hourly_is_accepted}
use stardelt_operator.Crd.Connection.{
  leading_digits, decimal, parse_u32, saturating_mul60, last, minutes_of, minutes, validate,
  derived_remote_ref,
}
use stardelt_operator.Crd.Connection.Paths.{derived_remote_ref-injective}
use stardelt_operator.Crd.Connection.Valid.{IsValid, connection_validate_iff}

a_day_is_the_longest : minutes "24h" ≡ 1440
unfolding minutes minutes_of parse_u32 leading_digits decimal last saturating_mul60
a_day_is_the_longest = refl

large_numbers_do_not_parse : minutes "4294967296m" ≡ 0
unfolding minutes minutes_of parse_u32 leading_digits decimal last
large_numbers_do_not_parse = refl

connection_validate_iff_example :
    (validate (crm "15m") "crm-db" ≡ ok tt) ↔ IsValid (crm "15m") "crm-db"
connection_validate_iff_example = connection_validate_iff (crm "15m") "crm-db"

derived_remote_ref-injective_example :
    ((crm "15m").scope ≡ (crm "1h").scope)
    × ((crm "15m").owner_group ≡ (crm "1h").owner_group)
    × (◌≡◌ {A = String} "crm-db" "crm-db")
unfolding derived_remote_ref
derived_remote_ref-injective_example =
    derived_remote_ref-injective (crm "15m") (crm "1h") "crm-db" "crm-db" crm_is_accepted
      hourly_is_accepted refl
