-- ===== src/Secrets/Generated/Kept.antt =====
-- What a generation of Secrets may change.
use stardelt_operator.Encoding.{Text}
use stardelt_operator.Secrets.Store.{
  value_in, value_at, get_opt_quiet, get_opt_lem, IsLawful, chain_rule, write_absent, reported_rule,
}
use stardelt_operator.Secrets.Generated.Keys.{Has, identity_secret_lem, missing_values_lem}
use stardelt_operator.Secrets.{World, Outside, ◌>>◌, return, get_opt, write}
use stardelt_operator.Secrets.Generated.{
  IdentitySecret, key_names, missing_keys, insert_each, identity_secret, missing_value,
  patch_identity_secret, provide, counted, provide_all, summary, ensure_generated_secrets,
}
use stardelt_operator.Common.{
  ℕ, String, ◌≡◌, refl, sym, ap, ◌∙◌, ◌↔◌, inl, inr, Bool, Option, none, some, List, [], ◌∷◌,
  string_eq, Option-cases, In, Map, get,
}

-- A missing key has no value.
missing-none :
    (existing : Map Text) (names : List String) (j : String)
    → In j (missing_keys existing names)
    → get j existing ≡ none
unfolding missing_keys
missing-none existing [] j i = absurd i
missing-none existing (k ∷ names) j i = elim (Option-cases (get k existing)) [
  | inl gone ↦
      let i' : In j (k ∷ missing_keys existing names) = rw gone at i in
      elim i' [
        | inl e ↦ ap (λ (x : String). get x existing) e ∙ gone
        | inr r ↦ missing-none existing names j r
      ]
  | inr (v, e) ↦
      let i' : In j (missing_keys existing names) = rw e at i in missing-none existing names j i'
]

not_present :
    (values existing : Map Text) (names : List String) (key : String) (v : Text)
    → ((j : String) → Has j values ↔ In j (missing_keys existing names))
    → get key existing ≡ some v
    → get key values ≡ none
not_present values existing names key v says there = elim (Option-cases (get key values)) [
  | inl e ↦ e
  | inr (x, e) ↦ let gone = missing-none existing names key ((says key).0 (rw e refl)) in cc
]

module _ {o : Outside} {dry_run : Bool} {R : World → World → Type 0}
    (r : IsLawful o dry_run R) where
  patch_rule :
      (name : String) (values : Map Text) (w : World)
      → ((key : String) (v : Text) → value_at w name key ≡ some v → get key values ≡ none)
      → R w (patch_identity_secret o dry_run name values w).1
  unfolding patch_identity_secret
  patch_rule name [] w fresh = r.same w w refl
  patch_rule name (x ∷ values) w fresh = r.writes name (x ∷ values) w fresh

  -- Each Secret, from what was found of it.
  provide_rule :
      (d : IdentitySecret) (found : Option (Map Text)) (w : World)
      → get d.name w.secrets ≡ found
      → R w (provide o dry_run d found w).1
  unfolding provide
  provide_rule d none w absent =
      let made = identity_secret o d w in
      let (quiet, says) = identity_secret_lem o d w in
      chain_rule r w made (λ secret. write o dry_run d.name secret) (r.same w made.1 quiet)
        (λ secret e. write_absent r d.name secret made.1 (ap (λ m. get d.name m) quiet ∙ absent))
  provide_rule d (some existing) w there =
      let made = insert_each o (missing_value o d) (missing_keys existing (key_names d)) [] w in
      let (quiet, says) = missing_values_lem o d existing w in
      let same = ap (λ m. get d.name m) quiet ∙ there in
      chain_rule r w made (λ values. patch_identity_secret o dry_run d.name values)
        (r.same w made.1 quiet)
        (λ values e. patch_rule d.name values made.1 (λ key v h.
          not_present values existing (key_names d) key v (says values e)
            (sym (ap (λ m. value_in m key) same) ∙ h)))

  pub provide_all_rule :
      (ds : List IdentitySecret) (counts : ℕ × ℕ) (w : World)
      → R w (provide_all o dry_run ds counts w).1
  unfolding provide_all
  provide_all_rule [] counts w = r.same w w refl
  provide_all_rule (d ∷ ds) counts w =
      let found = get_opt o d.name w in
      let quiet = get_opt_quiet o d.name w in
      chain_rule r w found
        (λ existing.
          provide o dry_run d existing >> provide_all o dry_run ds (counted o existing counts))
        (r.same w found.1 quiet)
        (λ existing e.
          let here = ap (λ m. get d.name m) quiet ∙ get_opt_lem o d.name w existing e in
          let provided = provide o dry_run d existing found.1 in
          chain_rule r found.1 provided (λ u. provide_all o dry_run ds (counted o existing counts))
            (provide_rule d existing found.1 here)
            (λ u q. provide_all_rule ds (counted o existing counts) provided.1))

  pub ensure_generated_secrets_rule :
      (name : String) (ds : List IdentitySecret) (w : World)
      → R w (ensure_generated_secrets o dry_run name ds w).1
  unfolding ensure_generated_secrets
  ensure_generated_secrets_rule name ds w = reported_rule r name w _ (
      chain_rule r w (provide_all o dry_run ds (0, 0) w)
        (λ counts. return (summary o dry_run counts)) (provide_all_rule ds (0, 0) w)
        (λ counts e. r.same _ _ refl))
