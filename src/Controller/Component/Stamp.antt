-- ===== src/Controller/Component/Stamp.antt =====
-- When the stamp of the warehouses can be written, and where it is then.
use stardelt_operator.Common.{
  String, ◌≡◌, refl, sym, subst, ◌≢◌, ◌↔◌, ◌⊎◌, inl, inr, Bool, true, false, ◌&&◌, false≢true,
  Option, none, some, List, [], ◌∷◌, ◌==◌, string_eq, get, Result, ok, err,
}
use stardelt_operator.Values.{
  Value, Fields, to_map, find, Curated, null, boolean, number, text, array, object, nil,
}
use stardelt_operator.Values.Lookup.{}
use stardelt_operator.Values.Merge.{entry, is_object}
use stardelt_operator.Controller.Resolve.{Objects}
use stardelt_operator.Controller.Component.{
  fields_of, or_null, put_option, set_in, stamp_path, stamp_if, Overrides, external_of,
  before_stamp, finish, resolve_component_values,
}

-- A value on the way of a path that is there and is neither an object nor null.
abbrev pub Blocks : List String → Value → Type 0
Blocks [] v = ⊥
Blocks (k ∷ p) v =
    ((is_object v ≡ false) × (v ≢ null)) ⊎ ((u : Value) × (entry k v ≡ some u) × Blocks p u)

null-Blocks : (p : List String) → ¬ (Blocks p null)
unfolding entry
null-Blocks [] b = b
null-Blocks (k ∷ p) (inl (flat, other)) = other refl
null-Blocks (k ∷ p) (inr (u, e, b)) = cc

put_option_iff :
    (k : String) (fs : Fields) (o : Option Value) → (put_option k fs o ≡ none) ↔ (o ≡ none)
put_option_iff k fs none = (λ h. refl, λ h. refl)
put_option_iff k fs (some w) = (λ h. cc, λ h. cc)

pub set_in-none_iff : (p : List String) (x v : Value) → (set_in p x v ≡ none) ↔ Blocks p v
unfolding set_in fields_of entry
set_in-none_iff [] x v = (λ h. cc, λ b. absurd b)
set_in-none_iff (k ∷ p) x (boolean b) = (λ h. inl (refl, λ e. cc), λ h. refl)
set_in-none_iff (k ∷ p) x (number n) = (λ h. inl (refl, λ e. cc), λ h. refl)
set_in-none_iff (k ∷ p) x (text t) = (λ h. inl (refl, λ e. cc), λ h. refl)
set_in-none_iff (k ∷ p) x (array items) = (λ h. inl (refl, λ e. cc), λ h. refl)
set_in-none_iff (k ∷ p) x null =
    let (put_, put') = put_option_iff k nil (set_in p x (or_null (find k nil))) in
    (
      λ h.
          absurd
            (null-Blocks p (missing p ((set_in-none_iff p x (or_null (find k nil))).0 (put_ h)))),
      λ h. elim h [ inl b ↦ absurd (b.1 refl) | inr b ↦ let e = b.1 in cc ],
    )
  where
    missing : (p : List String) → Blocks p (or_null (find k nil)) → Blocks p null
    missing p b = unfold find to_map get in b
set_in-none_iff (k ∷ p) x (object fs) =
    let (put_, put') = put_option_iff k fs (set_in p x (or_null (find k fs))) in
    let (there, back) = set_in-none_iff p x (or_null (find k fs)) in
    (
      λ h. inr (present (find k fs) refl (there (put_ h))),
      λ h. elim h [
        | inl b ↦ absurd (false≢true (sym b.0))
        | inr (u, e, b) ↦ put' (back (subst (λ o. Blocks p (or_null o)) (sym e) b))
      ],
    )
  where
    present :
        (o : Option Value)
        → find k fs ≡ o
        → Blocks p (or_null o)
        → (u : Value) × (find k fs ≡ some u) × Blocks p u
    present none e b = absurd (null-Blocks p b)
    present (some u) e b = (u, e, b)

module _ {Profile : Type 0} (o : Objects) (c : Curated Profile)
    (identity_values : String → Value) where
  stamp_if-none_iff :
      (wanted : Bool) (stamp : Option String) (v : Value)
      → (stamp_if wanted stamp v ≡ none)
        ↔ ((t : String) × (wanted ≡ true) × (stamp ≡ some t) × Blocks stamp_path v)
  unfolding stamp_if
  stamp_if-none_iff wanted none v = (λ h. cc, λ (t, w, e, b). cc)
  stamp_if-none_iff false (some t) v = (λ h. cc, λ (u, w, e, b). cc)
  stamp_if-none_iff true (some t) v =
      let (there, back) = set_in-none_iff stamp_path (text t) v in
      (λ h. (t, refl, refl, there h), λ (u, w, e, b). back b)

  stamped_iff :
      (r : Option Value)
      → (◌≡◌ {A = Option (Result String Value)}
          (elim r [ none ↦ none | some values ↦ some (ok values) ])
          none)
        ↔ (r ≡ none)
  stamped_iff none = (λ h. refl, λ h. refl)
  stamped_iff (some v) = (λ h. cc, λ h. cc)

  finish-none_iff :
      (w : Overrides Profile) (component : String) (r : Result String (Option Value))
      → (finish o c identity_values w component r ≡ none) ↔ (
          (external : Option Value) × (t : String) × (r ≡ ok external)
          × ((component == "trino" && w.identity) ≡ true)
          × (w.trino_warehouses ≡ some t)
          × Blocks stamp_path (before_stamp o c identity_values w component external))
  unfolding finish
  finish-none_iff w component (err e) = (λ h. cc, λ (x, t, h, _, _, _). cc)
  finish-none_iff w component (ok external) =
      let values = before_stamp o c identity_values w component external in
      let (cut, cut') =
        stamped_iff (stamp_if (component == "trino" && w.identity) w.trino_warehouses values) in
      let (there, back) =
        stamp_if-none_iff (component == "trino" && w.identity) w.trino_warehouses values in
      (
        λ h. let (t, wanted, stamp, b) = there (cut h) in (external, t, refl, wanted, stamp, b),
        λ (x, t, e, wanted, stamp, b). cut' (
            back (
              t,
              wanted,
              stamp,
              subst (λ y. Blocks stamp_path (before_stamp o c identity_values w component y))
                  (ok-value x external (sym e)) b,
            )),
      )
    where
      ok-value : (x y : Option Value) → ◌≡◌ {A = Result String (Option Value)} (ok x) (ok y) → x ≡ y
      ok-value x y e = cc

  -- The values of a component panic exactly when its external document is absent or resolved, the
  -- component is Trino with an identity provider, there is a stamp of the warehouses, and the merged
  -- values, their `coordinator` or their `coordinator.annotations` are there and are neither an object
  -- nor null.
  pub resolve_component_values-none_iff :
      (w : Overrides Profile) (component : String)
      → (resolve_component_values o c identity_values w component ≡ none) ↔ (
          (external : Option Value) × (t : String) × (external_of o c identity_values w component
            ≡ ok external)
          × ((component == "trino" && w.identity) ≡ true)
          × (w.trino_warehouses ≡ some t)
          × Blocks stamp_path (before_stamp o c identity_values w component external))
  unfolding resolve_component_values
  resolve_component_values-none_iff w component =
      finish-none_iff w component (external_of o c identity_values w component)
