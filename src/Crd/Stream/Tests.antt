-- ===== src/Crd/Stream/Tests.antt =====
-- Streams that the checks accept and refuse.
use stardelt_operator.Crd.Names.{name_ok, data_identifier_ok, catalog_ok}
use stardelt_operator.Common.{
  String, ◌≡◌, refl, ◌↔◌, false, none, [], ◌∷◌, string_eq, bytes, split_on, ok, err,
}
use stardelt_operator.Crd.Stream.Valid.{IsValid, stream_validate_iff}
use stardelt_operator.Crd.Stream.{spark, json, merge, always, StreamAppSpec, bad_table, validate}

abbrev stream : String → StreamAppSpec
stream table = record {
  source = record { connection_ref = none; topic = "pegel.raw"; format = json };
  sink = record {
    catalog = "water";
    table = table;
    mode = merge;
    merge_keys = "station" ∷ [];
    checkpoint_prefix = none;
  };
  engine = spark;
  owner_group = none;
  run_as = none;
  restart_policy = always;
  stopped = false;
}

three_parts :
    validate (stream "a.b.c") "levels"
    ≡ err "sink.table must be schema.table, lower-case letters, digits and underscores"
unfolding validate bad_table name_ok catalog_ok data_identifier_ok bytes split_on
three_parts = refl

stream_validate_iff_example :
    (validate (stream "raw.levels") "levels" ≡ ok tt) ↔ IsValid (stream "raw.levels") "levels"
stream_validate_iff_example = stream_validate_iff (stream "raw.levels") "levels"
