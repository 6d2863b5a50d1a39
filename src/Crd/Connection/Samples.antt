-- ===== src/Crd/Connection/Samples.antt =====
-- Connections for the tests.
use stardelt_operator.Common.{
  String, ◌≡◌, refl, none, some, [], ◌∷◌, nat_eq, string_eq, contains, set_insert, collect, get,
  bytes, starts, contains_bytes, ok,
}
use stardelt_operator.Crd.Names.{name_ok, group_name_ok, key_ok}
use stardelt_operator.Crd.Connection.{
  group, postgresql, ConnectionSpec, check_scope, unsafe_ref, bad_keys, check_secret, looks_secret,
  check_config, needs, leading_digits, decimal, parse_u32, saturating_mul60, last, minutes_of,
  minutes, refresh_ok, validate,
}
use stardelt_operator.Crd.Connection.Paths.{}
use stardelt_operator.Crd.Connection.Valid.{}

abbrev pub crm : String → ConnectionSpec
crm interval = record {
  scope = group;
  owner_group = some "sales";
  usable_by = [];
  type_ = postgresql;
  config = ("host", "crm.example.com") ∷ [];
  secret = some (record { remote_ref = none; keys = "user" ∷ "password" ∷ [] });
  refresh_interval = interval;
}

pub crm_is_accepted : validate (crm "15m") "crm-db" ≡ ok tt
unfolding validate name_ok bytes check_scope group_name_ok unsafe_ref check_secret bad_keys collect
    set_insert contains key_ok check_config looks_secret contains_bytes starts needs get refresh_ok
    minutes minutes_of parse_u32 leading_digits decimal last
crm_is_accepted = refl

pub hourly_is_accepted : validate (crm "1h") "crm-db" ≡ ok tt
unfolding validate name_ok bytes check_scope group_name_ok unsafe_ref check_secret bad_keys collect
    set_insert contains key_ok check_config looks_secret contains_bytes starts needs get refresh_ok
    minutes minutes_of parse_u32 leading_digits decimal last saturating_mul60
hourly_is_accepted = refl
