-- ===== src/Crd/Stream/Valid.antt =====
-- What an accepted stream is, and that `validate` accepts nothing else.
use stardelt_operator.Common.{
  ℕ, suc, ◌≤◌, String, ◌≡◌, refl, sym, ap, subst, ◌∙◌, ◌≢◌, ◌↔◌, Bool, true, false, not, ◌&&◌, List,
  [], ◌∷◌, ◌++◌, arith, ltb, leb, length, all, is_empty, All, keys, bytes, split_on, join,
  join-split_on, split_on-none, split_on-append, ◌>>◌, reject, reject_then_iff, then_iff,
  not-false_iff, ok,
}
use stardelt_operator.Crd.Names.{word_ok, group_byte, name_ok, data_identifier_ok, catalog_ok}
use stardelt_operator.Crd.Names.Shape.{
  IsWord, word_ok_iff, IsGroupByte, IsLowerDigit, IsLowerDash, IsColumnByte, IsColumnName,
  data_identifier_ok_iff, catalog_ok_iff,
}
use stardelt_operator.Crd.Names.Resource.{IsResourceName, name_ok_iff}
use stardelt_operator.Crd.Stream.{
  SinkMode, merge, StreamAppSpec, topic_ok, bad_table, check_mode, check_keys, validate, append,
}

abbrev pub IsTopic : String → Type 0
IsTopic s = IsWord 249 IsGroupByte IsGroupByte (bytes s)

-- `schema.table`
abbrev pub IsTable : String → Type 0
IsTable s =
    (schema : List ℕ) × (table : List ℕ) × (bytes s ≡ schema ++ (b'.' ∷ table))
    × IsColumnName schema
    × IsColumnName table

-- A merge has 1 to 8 keys, and an append has none.
abbrev pub HasModeKeys : SinkMode → List String → Type 0
HasModeKeys merge keys = (1 ≤ length keys) × (length keys ≤ 8)
HasModeKeys append keys = keys ≡ []

abbrev pub IsValid : StreamAppSpec → String → Type 0
IsValid s name =
    IsResourceName name
    × (IsTopic s.source.topic
        × (IsWord 63 IsLowerDigit IsLowerDash (bytes s.sink.catalog)
            × (IsTable s.sink.table
                × (HasModeKeys s.sink.mode s.sink.merge_keys
                    × All (λ key. IsColumnName (bytes key)) s.sink.merge_keys))))

column_no_dot : (bs : List ℕ) → All IsColumnByte bs → All (λ b. b ≢ b'.') bs
column_no_dot [] h = tt
column_no_dot (b ∷ bs) (c, h) = (ground arith, column_no_dot bs h)

name_no_dot : (bs : List ℕ) → IsColumnName bs → All (λ b. b ≢ b'.') bs
name_no_dot bs (c, cs, e, first, rest, _) =
    subst (All (λ b. b ≢ b'.')) (sym e) (ground arith, column_no_dot cs rest)

no_name : data_identifier_ok [] ≡ false
unfolding data_identifier_ok
no_name = refl

bad_table_parts :
    (parts : List (List ℕ))
    → bad_table parts ≡ false
    → (schema : List ℕ) × (table : List ℕ) × (parts ≡ schema ∷ table ∷ [])
      × (data_identifier_ok schema ≡ true)
      × (data_identifier_ok table ≡ true)
unfolding bad_table
bad_table_parts [] h = absurd (let e = no_name in ground arith)
bad_table_parts (p ∷ []) h = absurd (let e = no_name in ground arith)
bad_table_parts (p ∷ q ∷ []) h = (p, q, refl, ground arith, ground arith)
bad_table_parts (p ∷ q ∷ r ∷ rest) h = cc

good_table_parts :
    (p q : List ℕ)
    → data_identifier_ok p ≡ true
    → data_identifier_ok q ≡ true
    → bad_table (p ∷ q ∷ []) ≡ false
unfolding bad_table
good_table_parts p q h k = ground arith

split_table :
    (schema table : List ℕ)
    → IsColumnName schema
    → IsColumnName table
    → split_on b'.' (schema ++ (b'.' ∷ table)) ≡ schema ∷ table ∷ []
split_table schema table h k =
    split_on-append b'.' schema table (name_no_dot schema h)
    ∙ ap (λ l. schema ∷ l) (split_on-none b'.' table (name_no_dot table k))

bad_table-IsTable : (s : String) → (bad_table (split_on b'.' (bytes s)) ≡ false) ↔ IsTable s
bad_table-IsTable s = (
  λ h.
      let (schema, table, e, p, q) = bad_table_parts (split_on b'.' (bytes s)) h in
      (
        schema,
        table,
        sym (join-split_on b'.' (bytes s)) ∙ ap (join b'.') e,
        (data_identifier_ok_iff schema).0 p,
        (data_identifier_ok_iff table).0 q,
      ),
  λ (schema, table, e, p, q).
      rw (e, split_table schema table p q)
        (good_table_parts schema table ((data_identifier_ok_iff schema).1 p)
          ((data_identifier_ok_iff table).1 q)),
)

topic_bits : (a b c : Bool) → (true && a && (b && c)) ≡ true → (true && a && b && (b && c)) ≡ true
topic_bits a b c h = ground arith

word_bits : (a b c : Bool) → (true && a && b && (b && c)) ≡ true → (true && a && (b && c)) ≡ true
word_bits a b c h = ground arith

topic_ok-IsTopic : (topic : String) → (topic_ok topic ≡ true) ↔ IsTopic topic
topic_ok-IsTopic topic =
    let (there, back) =
      word_ok_iff {First = IsGroupByte} {Rest = IsGroupByte} 249 group_byte group_byte
        (λ b. ground arith) (λ b. ground arith) (λ b h. h) (bytes topic) in
    (λ h. there (word_of_topic (bytes topic) h), λ w. topic_of_word (bytes topic) (back w))
  where
    word_of_topic :
        (bs : List ℕ)
        → (not (is_empty bs) && leb (length bs) 249 && all group_byte bs) ≡ true
        → word_ok 249 group_byte group_byte bs ≡ true
    word_of_topic [] h = cc
    word_of_topic (b ∷ bs) h =
        topic_bits (leb (suc (length bs)) 249) (group_byte b) (all group_byte bs) h

    topic_of_word :
        (bs : List ℕ)
        → word_ok 249 group_byte group_byte bs ≡ true
        → (not (is_empty bs) && leb (length bs) 249 && all group_byte bs) ≡ true
    topic_of_word [] h = cc
    topic_of_word (b ∷ bs) h =
        word_bits (leb (suc (length bs)) 249) (group_byte b) (all group_byte bs) h

check_keys_iff :
    (keys : List String) → (check_keys keys ≡ ok tt) ↔ All (λ key. IsColumnName (bytes key)) keys
unfolding check_keys
check_keys_iff [] = (λ h. tt, λ h. refl)
check_keys_iff (key ∷ keys) =
    reject_then_iff _ _ _
      (not-false_iff (data_identifier_ok (bytes key)) (data_identifier_ok_iff (bytes key)))
      (check_keys_iff keys)

mode_iff :
    (m : SinkMode) (keys : List String)
    → ((check_mode m keys ≡ ok tt) × (ltb 8 (length keys) ≡ false)) ↔ HasModeKeys m keys
unfolding check_mode
mode_iff merge [] = (λ h. cc h.0, λ h. absurd (omega arith))
mode_iff merge (key ∷ keys) = (λ h. (omega arith, ground arith), λ h. (refl, ground arith))
mode_iff append [] = (λ h. refl, λ h. (refl, refl))
mode_iff append (key ∷ keys) = (λ h. cc h.0, λ h. cc)

tail_iff :
    (m : SinkMode) (keys : List String) (e : String)
    → ((check_mode m keys >> (reject (ltb 8 (length keys)) e >> check_keys keys)) ≡ ok tt)
      ↔ (HasModeKeys m keys × All (λ key. IsColumnName (bytes key)) keys)
tail_iff m keys e =
    let (mode, mode') = mode_iff m keys in
    let (split, join') =
      then_iff (check_mode m keys) (reject (ltb 8 (length keys)) e >> check_keys keys)
        (λ h. h, λ h. h) (reject_then_iff _ _ _ (λ h. h, λ h. h) (check_keys_iff keys)) in
    (
      λ h. let (m1, (few, names)) = split h in (mode (m1, few), names),
      λ h. let (m1, few) = mode' h.0 in join' (m1, (few, h.1)),
    )

-- `validate` accepts exactly the streams with a resource name, a topic of 1 to 249 letters,
-- digits, dots, underscores and dashes, a catalog name, a table of two column names around a dot,
-- and at most 8 merge keys, all column names: at least one to merge, none to append.
pub stream_validate_iff :
    (s : StreamAppSpec) (name : String) → (validate s name ≡ ok tt) ↔ IsValid s name
unfolding validate
stream_validate_iff s name =
    let mode = s.sink.mode in
    let keys = s.sink.merge_keys in
    reject_then_iff _ _ _ (not-false_iff (name_ok name) (name_ok_iff name)) (
      reject_then_iff _ _ _
        (not-false_iff (topic_ok s.source.topic) (topic_ok-IsTopic s.source.topic))
        (reject_then_iff _ _ _
          (not-false_iff (catalog_ok s.sink.catalog) (catalog_ok_iff s.sink.catalog))
          (reject_then_iff _ _ _ (bad_table-IsTable s.sink.table)
            (tail_iff mode keys "at most 8 merge keys"))))
