-- ===== src/Crd/Connection/Valid.antt =====
-- What an accepted connection is, and that `validate` accepts nothing else.
use stardelt_operator.Common.{
  ◌≤◌, String, ◌≡◌, refl, subst, ◌≢◌, ◌↔◌, ◌⊎◌, inl, inr, Bool, true, false, ◌&&◌, ◌||◌, Option,
  none, some, List, [], ◌∷◌, map, arith, nat_eq, string_eq, some-injective, false_iff, is_some,
  length, is_empty, All, In, Distinct, All-map, any-false_iff, all_iff, contains_iff, repeats_iff,
  keys, In-keys_iff, codes, bytes, ascii_lower, contains_bytes, IsInfix, contains_bytes_iff,
  reject_then_iff, then_iff, last_iff, not-false_iff, ok,
}
use stardelt_operator.Crd.Names.{name_ok, group_name_ok, key_ok}
use stardelt_operator.Crd.Names.Shape.{
  IsLetter, IsLetterDigit, IsWord, IsGroupName, group_name_ok_iff, key_ok_iff,
}
use stardelt_operator.Crd.Names.Resource.{IsResourceName, name_ok_iff}
use stardelt_operator.Crd.Volume.{unsafe_path}
use stardelt_operator.Crd.Volume.Valid.{IsSafePath, unsafe_path_iff}
use stardelt_operator.Crd.Connection.{
  ConnectionScope, group, ConnectionType, postgresql, ConnectionSecret, ConnectionSpec, check_scope,
  unsafe_ref, bad_keys, check_secret, secret_words, looks_secret, check_config, validate,
  secret_keys, has_config, has_key, database_ok, needs, refresh_ok, managed, mysql, sqlserver,
  oracle, rest_api, s3, kafka, sftp, generic,
}
use stardelt_operator.Crd.Connection.Refresh.{IsInterval, refresh_ok_iff}

-- A group's connection names its owner only; a managed one names its users only.
abbrev pub HasScope : ConnectionScope → Option String → List String → Type 0
HasScope group (some g) usable_by = IsGroupName g × (usable_by ≡ [])
HasScope group none usable_by = ⊥
HasScope managed owner usable_by = (owner ≡ none) × (usable_by ≢ []) × All IsGroupName usable_by

is_empty_iff : (xs : List String) → (is_empty xs ≡ true) ↔ (xs ≡ [])
is_empty_iff [] = (λ h. refl, λ h. refl)
is_empty_iff (x ∷ xs) = (λ h. cc, λ h. cc)

is_some_iff : (o : Option String) → (is_some o ≡ false) ↔ (o ≡ none)
is_some_iff none = (λ h. refl, λ h. refl)
is_some_iff (some x) = (λ h. cc, λ h. cc)

check_scope_iff :
    (scope : ConnectionScope) (owner : Option String) (usable_by : List String)
    → (check_scope scope owner usable_by ≡ ok tt) ↔ HasScope scope owner usable_by
unfolding check_scope
check_scope_iff group none usable_by = (λ h. cc, λ h. absurd h)
check_scope_iff group (some g) usable_by =
    let (there, back) = group_name_ok_iff g in
    let (empty, empty') = is_empty_iff usable_by in
    last_iff _ _ (
      λ h. (there (ground arith), empty (ground arith)),
      λ h. let x = back h.0 in let y = empty' h.1 in ground arith,
    )
check_scope_iff managed owner usable_by =
    let (there, back) = all_iff group_name_ok usable_by group_name_ok_iff in
    let (free, free') = is_some_iff owner in
    let (some_, some') = false_iff (is_empty usable_by) (is_empty_iff usable_by) in
    last_iff _ _ (
      λ h. (free (ground arith), some_ (ground arith), there (ground arith)),
      λ h. let x = back h.2 in let y = free' h.0 in let z = some' h.1 in ground arith,
    )

abbrev pub HasSafeRef : Option ConnectionSecret → Type 0
HasSafeRef none = Unit
HasSafeRef (some s) = (path : String) → s.remote_ref ≡ some path → IsSafePath path

unsafe_ref_iff :
    (secret : Option ConnectionSecret) → (unsafe_ref secret ≡ false) ↔ HasSafeRef secret
unfolding unsafe_ref
unsafe_ref_iff none = (λ h. tt, λ h. refl)
unsafe_ref_iff (some s) = by_ref s.remote_ref
  where
    by_ref :
        (ref : Option String)
        → (elim ref [ none ↦ false | some path ↦ unsafe_path path ] ≡ false)
          ↔ ((path : String) → ref ≡ some path → IsSafePath path)
    by_ref none = (λ h path e. cc, λ h. refl)
    by_ref (some p) = (
      λ h path e. subst IsSafePath (some-injective e) ((unsafe_path_iff p).0 h),
      λ h. (unsafe_path_iff p).1 (h p refl),
    )

abbrev pub HasKeys : Option ConnectionSecret → Type 0
HasKeys none = Unit
HasKeys (some s) =
    (s.keys ≢ [])
    × (length s.keys ≤ 16)
    × Distinct s.keys
    × All (λ k. IsWord 63 IsLetter (λ b. IsLetterDigit b ⊎ (b ≡ b'_')) (bytes k)) s.keys

check_secret_iff :
    (secret : Option ConnectionSecret) → (check_secret secret ≡ ok tt) ↔ HasKeys secret
unfolding check_secret bad_keys
check_secret_iff none = (λ h. tt, λ h. refl)
check_secret_iff (some s) =
    let (there, back) = all_iff key_ok s.keys key_ok_iff in
    let (once, once') = repeats_iff s.keys (length s.keys) refl in
    let (some_, some') = false_iff (is_empty s.keys) (is_empty_iff s.keys) in
    last_iff _ _ (
      λ h. (some_ (ground arith), ground arith, once (ground arith), there (ground arith)),
      λ h.
          let y = once' h.2 in let z = some' h.0 in let w = back h.3 in let v = h.1 in ground arith,
    )

-- No name of a setting contains one of the words, whatever its case.
abbrev pub IsPlain : String → Type 0
IsPlain key = All (λ w. ¬ (IsInfix (map ascii_lower (bytes key)) (bytes w))) secret_words

looks_secret_iff : (key : String) → (looks_secret key ≡ false) ↔ IsPlain key
unfolding looks_secret
looks_secret_iff key =
    let words =
      any-false_iff (λ w. contains_bytes (map ascii_lower (bytes key)) (bytes w)) secret_words in
    let one =
      λ (w : String). false_iff _ (contains_bytes_iff (map ascii_lower (bytes key)) (bytes w)) in
    (
      λ h. All-map (λ w e. (one w).0 e) secret_words (words.0 h),
      λ h. words.1 (All-map (λ w n. (one w).1 n) secret_words h),
    )

check_config_iff : (names : List String) → (check_config names ≡ ok tt) ↔ All IsPlain names
unfolding check_config
check_config_iff [] = (λ h. tt, λ h. refl)
check_config_iff (key ∷ names) =
    reject_then_iff _ _ _ (looks_secret_iff key) (check_config_iff names)

abbrev HasConfig : ConnectionSpec → String → Type 0
HasConfig c k = In k (keys c.config)

abbrev HasKey : ConnectionSpec → String → Type 0
HasKey c k = In k (secret_keys c.secret)

abbrev HasDatabase : ConnectionSpec → Type 0
HasDatabase c = HasConfig c "host" × (HasKey c "user" × HasKey c "password")

-- The settings and the secret keys that each type of connection needs.
abbrev pub HasNeeds : ConnectionType → ConnectionSpec → Type 0
HasNeeds postgresql c = HasDatabase c
HasNeeds mysql c = HasDatabase c
HasNeeds sqlserver c = HasDatabase c
HasNeeds oracle c = HasDatabase c
HasNeeds rest_api c =
    HasConfig c "baseUrl" × (HasKey c "token" ⊎ (HasKey c "clientId" × HasKey c "clientSecret"))
HasNeeds s3 c = HasConfig c "bucket" × (HasKey c "accessKeyId" × HasKey c "secretAccessKey")
HasNeeds sftp c =
    HasConfig c "host" × (HasKey c "user" × (HasKey c "password" ⊎ HasKey c "privateKey"))
HasNeeds kafka c = HasConfig c "bootstrapServers"
HasNeeds generic c = Unit

both_iff :
    {P Q : Type 0} (a b : Bool) → (a ≡ true) ↔ P → (b ≡ true) ↔ Q → ((a && b) ≡ true) ↔ (P × Q)
both_iff a b p q = (
  λ h. (p.0 (ground arith), q.0 (ground arith)),
  λ h. let x = p.1 h.0 in let y = q.1 h.1 in ground arith,
)

either_iff :
    {P Q : Type 0} (a b : Bool) → (a ≡ true) ↔ P → (b ≡ true) ↔ Q → ((a || b) ≡ true) ↔ (P ⊎ Q)
either_iff true b p q = (λ h. inl (p.0 refl), λ h. refl)
either_iff false b p q =
    (λ h. inr (q.0 h), λ h. elim h [ inl x ↦ let y = p.1 x in cc | inr y ↦ q.1 y ])

needs_iff : (t : ConnectionType) (c : ConnectionSpec) → (needs t c ≡ true) ↔ HasNeeds t c
unfolding needs
needs_iff t c = go t
  where
    cfg : (k : String) → (has_config c k ≡ true) ↔ HasConfig c k
    cfg k = In-keys_iff k c.config

    key : (k : String) → (has_key c k ≡ true) ↔ HasKey c k
    key k = contains_iff (secret_keys c.secret) k

    database : (database_ok c ≡ true) ↔ HasDatabase c
    database = both_iff _ _ (cfg "host") (both_iff _ _ (key "user") (key "password"))

    go : (t : ConnectionType) → (needs t c ≡ true) ↔ HasNeeds t c
    go postgresql = database
    go mysql = database
    go sqlserver = database
    go oracle = database
    go rest_api =
        both_iff _ _ (cfg "baseUrl")
          (either_iff _ _ (key "token") (both_iff _ _ (key "clientId") (key "clientSecret")))
    go s3 = both_iff _ _ (cfg "bucket") (both_iff _ _ (key "accessKeyId") (key "secretAccessKey"))
    go sftp =
        both_iff _ _ (cfg "host")
          (both_iff _ _ (key "user") (either_iff _ _ (key "password") (key "privateKey")))
    go kafka = cfg "bootstrapServers"
    go generic = (λ h. tt, λ h. refl)

abbrev pub IsValid : ConnectionSpec → String → Type 0
IsValid c name =
    IsResourceName name
    × (HasScope c.scope c.owner_group c.usable_by
        × (HasSafeRef c.secret
            × (HasKeys c.secret
                × (All IsPlain (keys c.config)
                    × (HasNeeds c.type_ c × IsInterval (codes c.refresh_interval))))))

-- `validate` accepts exactly the connections with a resource name, an owner or users as their scope
-- asks, a remote path without `..` and `//`, 1 to 16 distinct secret keys, settings that do not look
-- like secrets, what their type needs, and a refresh interval from a minute to a day.
pub connection_validate_iff :
    (c : ConnectionSpec) (name : String) → (validate c name ≡ ok tt) ↔ IsValid c name
unfolding validate
connection_validate_iff c name =
    reject_then_iff _ _ _ (not-false_iff (name_ok name) (name_ok_iff name)) (
      then_iff _ _ (check_scope_iff c.scope c.owner_group c.usable_by) (
        reject_then_iff _ _ _ (unsafe_ref_iff c.secret) (
          then_iff _ _ (check_secret_iff c.secret) (
            then_iff _ _ (check_config_iff (keys c.config)) (
              reject_then_iff _ _ _ (not-false_iff (needs c.type_ c) (needs_iff c.type_ c)) (
                last_iff _ _ (
                  not-false_iff (refresh_ok c.refresh_interval)
                    (refresh_ok_iff c.refresh_interval))))))))
