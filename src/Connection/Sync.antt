-- ===== src/Connection/Sync.antt =====
-- `sync_state`: what External Secrets reports on an `ExternalSecret`.
use stardelt_operator.Values.Merge.{entry}
use stardelt_operator.Values.{Value, Items, null, text, array, done, item}
use stardelt_operator.Common.{
  String, ◌≡◌, Bool, true, false, not, ◌&&◌, Option, none, some, arith, if◌then◌else◌, ◌==◌,
  string_eq, and-true_iff,
}

-- `v[key]`, `as_str` and `== text` of serde_json.
pub index : Value → String → Value
index v key = elim (entry key v) [ none ↦ null | some u ↦ u ]

pub as_str : Value → Option String
as_str (text t) = some t
as_str other = none

pub is_text : String → Value → Bool
is_text t v = elim (as_str v) [ none ↦ false | some u ↦ u == t ]

-- The closure `text`: a text that is not empty.
pub full_text : Value → Option String
full_text v = elim (as_str v) [ none ↦ none | some u ↦ if u == "" then none else some u ]

pub find_item : (Value → Bool) → Items → Option Value
find_item p done = none
find_item p (item v vs) = let rest = find_item p vs in if p v then some v else rest

pub find_in : (Value → Bool) → Value → Option Value
find_in p (array items) = find_item p items
find_in p other = none

pub record SyncState : Type 0 where
  pub ready : Bool
  pub last_sync : Option String
  pub message : Option String

-- `conditions` with the type `Ready`.
pub ready_condition_of : Value → Option Value
ready_condition_of object_ =
    find_in (λ c. is_text "Ready" (index c "type")) (index (index object_ "status") "conditions")

pub value_missing : Option Value → Bool
value_missing none = false
value_missing (some c) = is_text "SecretDeleted" (index c "reason")

pub says_true : Option Value → Bool
says_true none = false
says_true (some c) = is_text "True" (index c "status")

pub waiting_message : Option Value → Option String
waiting_message none = some "waiting for the first sync from the secret store"
waiting_message (some c) = elim (full_text (index c "message")) [
  | none ↦ some "waiting for the first sync from the secret store"
  | some m ↦ some m
]

pub sync_state : Value → SyncState
sync_state object_ =
    let condition = ready_condition_of object_ in
    let ready = says_true condition && not (value_missing condition) in
    record {
      ready = ready;
      last_sync = if ready then full_text (index (index object_ "status") "refreshTime") else none;
      message =
          if ready
          then none
          else if value_missing condition
          then some
              "the value does not exist in the secret store yet: create the connection in Nova or write the value first"
          else waiting_message condition;
    }

pub sync_state-ready :
    (object_ : Value)
    → (sync_state object_).ready ≡ true
    → (says_true (ready_condition_of object_) ≡ true)
      × (value_missing (ready_condition_of object_) ≡ false)
unfolding sync_state
sync_state-ready object_ h =
    let condition = ready_condition_of object_ in
    let (says, there) = (and-true_iff (says_true condition) (not (value_missing condition))).0 h in
    (says, ground arith)
