-- ===== src/Crd/Stream.antt =====
-- `StreamAppSpec` of crd.rs: a stream from a Kafka topic into a table.
pub mod Valid
mod Tests
use stardelt_operator.Common.{
  ℕ, String, Bool, not, ◌&&◌, ◌||◌, Option, none, some, List, [], ◌∷◌, ltb, leb, nat_eq, is_some,
  length, get_elem?, all, is_empty, keys, bytes, split_on, format, ◌>>=◌, ◌>>◌, reject, Validated,
  ok,
}
use stardelt_operator.Crd.Names.{group_byte, name_ok, data_identifier_ok, catalog_ok}

pub data StreamEngine : Type 0 where
  spark : StreamEngine

pub data StreamFormat : Type 0 where
  json : StreamFormat

pub record StreamSource : Type 0 where
  pub connection_ref : Option String
  pub topic : String
  pub format : StreamFormat

pub data SinkMode : Type 0 where
  merge append : SinkMode

pub record StreamSink : Type 0 where
  pub catalog : String
  pub table : String
  pub mode : SinkMode
  pub merge_keys : List String
  pub checkpoint_prefix : Option String

pub data StreamRestartPolicy : Type 0 where
  always on_failure : StreamRestartPolicy

pub record StreamAppSpec : Type 0 where
  pub source : StreamSource
  pub sink : StreamSink
  pub engine : StreamEngine
  pub owner_group : Option String
  pub run_as : Option String
  pub restart_policy : StreamRestartPolicy
  pub stopped : Bool

abbrev topic_ok : String → Bool
topic_ok topic =
    not (is_empty (bytes topic)) && leb (length (bytes topic)) 249 && all group_byte (bytes topic)

-- `parts.next().unwrap_or_default()`
abbrev part : List (List ℕ) → ℕ → List ℕ
part parts i = elim (get_elem? parts i) [ none ↦ [] | some p ↦ p ]

bad_table : List (List ℕ) → Bool
bad_table parts =
    is_some (get_elem? parts 2)
    || not (data_identifier_ok (part parts 0))
    || not (data_identifier_ok (part parts 1))

check_mode : SinkMode → List String → Validated
check_mode merge keys = reject (is_empty keys) "sink.mode merge needs at least one merge key"
check_mode append keys = reject (not (is_empty keys)) "sink.mode append must not set mergeKeys"

check_keys : List String → Validated
check_keys [] = ok tt
check_keys (key ∷ keys) =
    reject (not (data_identifier_ok (bytes key)))
      (format ("merge key `" ∷ key ∷ "` must be a column name" ∷ []))
    >> check_keys keys

pub validate : StreamAppSpec → String → Validated
validate s name = do
  reject (not (name_ok name)) (
      format (
        "stream name `" ∷ name
        ∷ "` must be 1 to 40 lower-case letters, digits and dashes, starting with a letter" ∷ []))
  reject (not (topic_ok s.source.topic))
      "source.topic must be 1 to 249 characters: letters, digits, dot, underscore or dash"
  reject (not (catalog_ok s.sink.catalog)) "sink.catalog must be a lower-case catalog name"
  reject (bad_table (split_on b'.' (bytes s.sink.table)))
      "sink.table must be schema.table, lower-case letters, digits and underscores"
  check_mode s.sink.mode s.sink.merge_keys
  reject (ltb 8 (length s.sink.merge_keys)) "at most 8 merge keys"
  check_keys s.sink.merge_keys
