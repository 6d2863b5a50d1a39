-- ===== src/Secrets/Generated/Keys.antt =====
-- The keys of what is generated for a Secret.
use stardelt_operator.Encoding.{Text, Random, generate_secret, generate_fernet_key}
use stardelt_operator.Secrets.Store.{bind_rule}
use stardelt_operator.Secrets.{World, Outside, Run, draw}
use stardelt_operator.Secrets.Generated.{
  IdentitySecret, key_names, missing_keys, insert_fixed, find_fixed, insert_each, new_secret,
  new_fernet_key, identity_secret, value_of, missing_value,
}
use stardelt_operator.Common.{
  String, ◌≡◌, refl, sym, subst, ◌∙◌, ◌↔◌, ◌⊎◌, inl, inr, true, eq_iff, Option, none, some, List,
  [], ◌∷◌, ◌++◌, map, ◌==◌, string_eq, Bool-cases, false_iff, is_some, if_rule, In, In-append_iff,
  contains, Map, get, insert, get-insert, bytes, Result, ok,
}

abbrev pub Has : String → Map Text → Type 0
Has key m = is_some (get key m) ≡ true

Has-insert_iff :
    (j k : String) (v : Text) (m : Map Text) → Has j (insert k v m) ↔ ((k ≡ j) ⊎ Has j m)
Has-insert_iff j k v m = elim (Bool-cases (k == j)) [
  | inl same ↦ (λ h. inl ((eq_iff k j).0 same), λ h. rw (get-insert k j v m, same) refl)
  | inr other ↦
      let e = get-insert k j v m in
      let e' : get j (insert k v m) ≡ get j m = rw other at e in
      rw e' (
        λ h. inr h,
        λ h. elim h [ inl q ↦ absurd ((false_iff (k == j) (eq_iff k j)).0 other q) | inr i ↦ i ],
      )
]

one_more :
    {j k : String} {P Q : Type 0} (In_ks Has_start : Type 0)
    → P ↔ ((k ≡ j) ⊎ Has_start)
    → Q ↔ (In_ks ⊎ P)
    → Q ↔ (((j ≡ k) ⊎ In_ks) ⊎ Has_start)
one_more In_ks Has_start (ins, ins') (there, back) = (
  λ h. elim (there h) [
    | inl i ↦ inl (inr i)
    | inr m ↦ elim (ins m) [ inl q ↦ inl (inl (sym q)) | inr r ↦ inr r ]
  ],
  λ h. back (elim h [
    | inl (inl q) ↦ inr (ins' (inl (sym q)))
    | inl (inr i) ↦ inl i
    | inr r ↦ inr (ins' (inr r))
  ]),
)

-- A run that leaves the Secrets as they are, and on success gives what `P` says.
abbrev pub Reads : {A : Type 0} → World → (A → Type 0) → Result String A × World → Type 0
Reads w P p = (p.1.secrets ≡ w.secrets) × ((a : _) → p.0 ≡ ok a → P a)

module _ (o : Outside) where
  pub insert_each_lem :
      (value : String → Run Text)
      → ((key : String) (w : World) → (value key w).1.secrets ≡ w.secrets)
      → (ks : List String) (start : Map Text) (w : World)
      → Reads w
          (λ values. (j : String) → Has j values ↔ (In j ks ⊎ Has j start))
          (insert_each o value ks start w)
  unfolding insert_each
  insert_each_lem value quiet [] start w = (
    refl,
    λ values e j.
        let same : start ≡ values = cc in
        (
          λ h. inr (subst (λ m. Has j m) (sym same) h),
          λ h. elim h [ inl nil ↦ absurd nil | inr r ↦ subst (λ m. Has j m) same r ],
        ),
  )
  insert_each_lem value quiet (k ∷ ks) start w =
      bind_rule (Reads w (λ values. (j : String) → Has j values ↔ (In j (k ∷ ks) ⊎ Has j start)))
        (value k w) (λ v. insert_each o value ks (insert k v start))
        (λ v e.
          let (same, says) = insert_each_lem value quiet ks (insert k v start) (value k w).1 in
          (
            same ∙ quiet k w,
            λ values e2 j.
                let (there, back) = says values e2 j in
                one_more (In j ks) (Has j start) (Has-insert_iff j k v start) (there, back),
          ))
        (λ e q. (quiet k w, λ a z. cc))

insert_fixed_iff :
    (fixed : List (String × String)) (start : Map Text) (j : String)
    → Has j (insert_fixed fixed start)
      ↔ (In j (map (λ (e : String × String). e.0) fixed) ⊎ Has j start)
unfolding insert_fixed
insert_fixed_iff [] start j = (λ h. inr h, λ h. elim h [ inl nil ↦ absurd nil | inr r ↦ r ])
insert_fixed_iff ((k, v) ∷ fixed) start j =
    one_more (In j (map (λ (e : String × String). e.0) fixed)) (Has j start)
      (Has-insert_iff j k (bytes v) start) (insert_fixed_iff fixed (insert k (bytes v) start) j)

module _ (o : Outside) where
  value_of_quiet :
      (d : IdentitySecret) (key : String) (found : Option String) (w : World)
      → (value_of o d key found w).1.secrets ≡ w.secrets
  unfolding value_of draw
  value_of_quiet d key (some value) w = refl
  value_of_quiet d key none w =
      if_rule (λ (m : Run Text). (m w).1.secrets ≡ w.secrets) (contains d.fernet key) _ _
        (λ e. refl) (λ e. refl)

  draws_quiet :
      (generate : Random → Result String Text) (w : World)
      → (draw o generate w).1.secrets ≡ w.secrets
  unfolding draw
  draws_quiet generate w = refl

  no_keys : (j : String) → ¬ Has j []
  unfolding get
  no_keys j h = cc

  In-key_names_iff :
      (d : IdentitySecret) (j : String)
      → In j (key_names d)
        ↔ (In j (map (λ (e : String × String). e.0) d.fixed) ⊎ (In j d.generated ⊎ In j d.fernet))
  unfolding key_names
  In-key_names_iff d j =
      let (there, back) =
        In-append_iff j (map (λ (e : String × String). e.0) d.fixed) (d.generated ++ d.fernet) in
      let (there', back') = In-append_iff j d.generated d.fernet in
      (
        λ h. elim (there h) [ inl a ↦ inl a | inr b ↦ inr (there' b) ],
        λ h. back (elim h [ inl a ↦ inl a | inr b ↦ inr (back' b) ]),
      )

  -- A new Secret has exactly the desired keys.
  pub identity_secret_lem :
      (d : IdentitySecret) (w : World)
      → Reads w (λ secret. (j : String) → Has j secret ↔ In j (key_names d)) (identity_secret o d w)
  unfolding identity_secret
  identity_secret_lem d w =
      let (quiet, says) =
        insert_each_lem o (λ key. new_secret o) (λ key w. draws_quiet generate_secret w) d.generated
          (insert_fixed d.fixed []) w in
      bind_rule (Reads w (λ secret. (j : String) → Has j secret ↔ In j (key_names d)))
        (insert_each o (λ key. new_secret o) d.generated (insert_fixed d.fixed []) w)
        (insert_each o (λ key. new_fernet_key o) d.fernet)
        (λ start e.
          let (quiet', says') =
            insert_each_lem o (λ key. new_fernet_key o) (λ key w. draws_quiet generate_fernet_key w)
              d.fernet start
              (insert_each o (λ key. new_secret o) d.generated (insert_fixed d.fixed []) w).1 in
          (
            quiet' ∙ quiet,
            λ secret e' j.
                let (a, a') = insert_fixed_iff d.fixed [] j in
                let (b, b') = says start e j in
                let (c, c') = says' secret e' j in
                let (k, k') = In-key_names_iff d j in
                (
                  λ h. k' (elim (c h) [
                    | inl f ↦ inr (inr f)
                    | inr r ↦ elim (b r) [
                      | inl g ↦ inr (inl g)
                      | inr q ↦ elim (a q) [ inl n ↦ inl n | inr z ↦ absurd (no_keys j z) ]
                    ]
                  ]),
                  λ h. c' (elim (k h) [
                    | inl n ↦ inr (b' (inr (a' (inl n))))
                    | inr (inl g) ↦ inr (b' (inl g))
                    | inr (inr f) ↦ inl f
                  ]),
                ),
          ))
        (λ e q. (quiet, λ a z. cc))

  -- A patch has exactly the keys that are missing.
  pub missing_values_lem :
      (d : IdentitySecret) (existing : Map Text) (w : World)
      → Reads w
          (λ values. (j : String) → Has j values ↔ In j (missing_keys existing (key_names d)))
          (insert_each o (missing_value o d) (missing_keys existing (key_names d)) [] w)
  missing_values_lem d existing w =
      let (quiet, says) =
        insert_each_lem o (missing_value o d)
          (λ key w. value_of_quiet d key (find_fixed key d.fixed) w)
          (missing_keys existing (key_names d)) [] w in
      (
        quiet,
        λ values e j.
            let (there, back) = says values e j in
            (λ h. elim (there h) [ inl i ↦ i | inr z ↦ absurd (no_keys j z) ], λ i. back (inl i)),
      )
