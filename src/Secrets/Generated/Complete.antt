-- ===== src/Secrets/Generated/Complete.antt =====
-- A generation that reports ready leaves every desired key with a value.
use stardelt_operator.Encoding.{Text}
use stardelt_operator.Secrets.Store.{
  value_in, value_at, Grows, or_else, write-Sets, get_opt_quiet, get_opt_lem, bind_rule,
  Grows-IsLawful,
}
use stardelt_operator.Secrets.Generated.Keys.{Has, identity_secret_lem, missing_values_lem}
use stardelt_operator.Secrets.Generated.Kept.{provide_all_rule}
use stardelt_operator.Secrets.Generated.{
  IdentitySecret, key_names, missing_keys, insert_each, identity_secret, missing_value,
  patch_identity_secret, provide, counted, provide_all, summary, ensure_generated_secrets,
}
use stardelt_operator.Secrets.{
  World, Outside, and_then, ◌>>◌, return, get_opt, write, status, reported,
}
use stardelt_operator.Controller.Apply.{}
use stardelt_operator.Common.{
  ℕ, String, ◌≡◌, refl, sym, ap, subst, ◌∙◌, ◌⊎◌, inl, inr, Bool, true, false, Option, none, some,
  List, [], ◌∷◌, string_eq, Option-cases, is_some, All, In, Map, get, Result, ok, err,
}

-- Every key of the Secret has a value.
abbrev pub IsProvided : World → IdentitySecret → Type 0
IsProvided w d = (key : String) → In key (key_names d) → is_some (value_at w d.name key) ≡ true

missing_or_there :
    (existing : Map Text) (names : List String) (j : String)
    → In j names
    → In j (missing_keys existing names) ⊎ Has j existing
unfolding missing_keys
missing_or_there existing [] j i = absurd i
missing_or_there existing (k ∷ names) j i = elim (Option-cases (get k existing)) [
  | inl gone ↦ rw gone (elim i [
    | inl e ↦ inl (inl e)
    | inr r ↦ elim (missing_or_there existing names j r) [ inl a ↦ inl (inr a) | inr b ↦ inr b ]
  ])
  | inr (v, e) ↦ rw e (elim i [
    | inl q ↦ inr (ap (λ x. is_some (get x existing)) q ∙ ap (λ x. is_some x) e)
    | inr r ↦ missing_or_there existing names j r
  ])
]

Has-or_else : (a b : Option Text) → is_some a ≡ true → is_some (or_else a b) ≡ true
Has-or_else none b h = cc
Has-or_else (some x) b h = refl

or_else-Has : (a b : Option Text) → is_some b ≡ true → is_some (or_else a b) ≡ true
or_else-Has none b h = h
or_else-Has (some x) b h = refl

grown :
    (w w' : World) (name key : String)
    → Grows w w'
    → is_some (value_at w name key) ≡ true
    → is_some (value_at w' name key) ≡ true
grown w w' name key g h = elim (Option-cases (value_at w name key)) [
  | inl e ↦ let h' : false ≡ true = rw e at h in cc
  | inr (v, e) ↦ ap (λ x. is_some x) (g name key v e)
]

module _ (o : Outside) where
  written_key :
      (name : String) (new : Map Text) (w : World) (key : String)
      → (write o false name new w).0 ≡ ok tt
      → Has key new ⊎ (is_some (value_at w name key) ≡ true)
      → is_some (value_at (write o false name new w).1 name key) ≡ true
  written_key name new w key done_ has =
      ap (λ x. is_some x) (write-Sets o name new w done_ key) ∙ elim has [
        | inl h ↦ Has-or_else (get key new) (value_at w name key) h
        | inr h ↦ or_else-Has (get key new) (value_at w name key) h
      ]

  patched :
      (name : String) (values : Map Text) (w : World) (key : String)
      → (patch_identity_secret o false name values w).0 ≡ ok tt
      → Has key values ⊎ (is_some (value_at w name key) ≡ true)
      → is_some (value_at (patch_identity_secret o false name values w).1 name key) ≡ true
  unfolding patch_identity_secret get
  patched name [] w key done_ (inl h) = cc
  patched name [] w key done_ (inr h) = h
  patched name (x ∷ values) w key done_ has = written_key name (x ∷ values) w key done_ has

  has_keys :
      (d : IdentitySecret) (found : Option (Map Text)) (w : World)
      → get d.name w.secrets ≡ found
      → (provide o false d found w).0 ≡ ok tt
      → IsProvided (provide o false d found w).1 d
  unfolding provide
  has_keys d none w absent =
      let (quiet, says) = identity_secret_lem o d w in
      bind_rule (λ (p : Result String (Unit {0}) × World). p.0 ≡ ok tt → IsProvided p.1 d)
        (identity_secret o d w) (λ secret. write o false d.name secret)
        (λ secret e done_ key i.
          written_key d.name secret (identity_secret o d w).1 key done_
            (inl ((says secret e key).1 i)))
        (λ e q h. cc)
  has_keys d (some existing) w there =
      let made = insert_each o (missing_value o d) (missing_keys existing (key_names d)) [] w in
      let (quiet, says) = missing_values_lem o d existing w in
      let same = ap (λ m. get d.name m) quiet ∙ there in
      bind_rule (λ (p : Result String (Unit {0}) × World). p.0 ≡ ok tt → IsProvided p.1 d) made
        (λ values. patch_identity_secret o false d.name values)
        (λ values e done_ key i.
          patched d.name values made.1 key done_
            (elim (missing_or_there existing (key_names d) key i) [
              | inl m ↦ inl ((says values e key).1 m)
              | inr h ↦ inr (ap (λ m. is_some (value_in m key)) same ∙ h)
            ]))
        (λ e q h. cc)

  list_has_keys :
      (ds : List IdentitySecret) (counts last : ℕ × ℕ) (w : World)
      → (provide_all o false ds counts w).0 ≡ ok last
      → All (IsProvided (provide_all o false ds counts w).1) ds
  unfolding provide_all
  list_has_keys [] counts last w e = tt
  list_has_keys (d ∷ ds) counts last w all_done =
      let found = get_opt o d.name w in
      bind_rule
        (λ (p : Result String (ℕ × ℕ) × World). p.0 ≡ ok last → All (IsProvided p.1) (d ∷ ds)) found
        (λ existing.
          provide o false d existing >> provide_all o false ds (counted o existing counts))
        (λ existing e.
          let here =
            ap (λ m. get d.name m) (get_opt_quiet o d.name w) ∙ get_opt_lem o d.name w existing e in
          let one = provide o false d existing found.1 in
          let rest = provide_all o false ds (counted o existing counts) in
          bind_rule
            (λ (p : Result String (ℕ × ℕ) × World). p.0 ≡ ok last → All (IsProvided p.1) (d ∷ ds))
            one (λ u. rest)
            (λ u q all_ok. (
              λ key i.
                  grown one.1 (rest one.1).1 d.name key
                    (provide_all_rule (Grows-IsLawful o false) ds (counted o existing counts) one.1)
                    (has_keys d existing found.1 here q key i),
              list_has_keys ds (counted o existing counts) last one.1 all_ok,
            ))
            (λ e' q h. cc))
        (λ e q h. cc) all_done

  summed :
      (dry_run : Bool) (name : String) (p : Result String (ℕ × ℕ) × World)
      → (reported name (and_then p (λ counts. return (summary o dry_run counts)))).0.ready ≡ true
      → (dry_run ≡ false)
        × (last : ℕ × ℕ) × (p.0 ≡ ok last)
        × ((reported name (and_then p (λ counts. return (summary o dry_run counts)))).1 ≡ p.1)
  unfolding status
  summed true name (ok last, w) h = cc
  summed false name (ok last, w) h = (refl, last, refl, refl)
  summed dry_run name (err e, w) h = cc

  -- If the step reports ready, it was no dry run, and every key of every Secret that it asks for has a
  -- value.
  pub ensure_generated_secrets-IsProvided :
      (dry_run : Bool) (name : String) (ds : List IdentitySecret) (w : World)
      → (ensure_generated_secrets o dry_run name ds w).0.ready ≡ true
      → (dry_run ≡ false) × All (IsProvided (ensure_generated_secrets o dry_run name ds w).1) ds
  unfolding ensure_generated_secrets
  ensure_generated_secrets-IsProvided true name ds w h =
      let (wet, last, e, same) = summed true name (provide_all o true ds (0, 0) w) h in cc
  ensure_generated_secrets-IsProvided false name ds w h =
      let (wet, last, e, same) = summed false name (provide_all o false ds (0, 0) w) h in
      (
        refl,
        subst (λ after. All (IsProvided after) ds) (sym same) (list_has_keys ds (0, 0) last w e),
      )
