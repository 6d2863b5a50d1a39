-- ===== src/Values/Merge.antt =====
-- The precedence of values: what an override says at a path, and where it says nothing.
use stardelt_operator.Common.{
  String, ◌≡◌, refl, sym, ap, subst, ◌∙◌, inl, inr, Bool, true, false, false≢true, Option, none,
  some, List, [], ◌∷◌, ◌==◌, string_eq, Bool-cases, Option-cases, some-injective, get,
}
use stardelt_operator.Values.{
  Value, null, boolean, number, text, array, object, Fields, nil, field, to_map, find, deep_merge,
}
use stardelt_operator.Values.Lookup.{IsTree, AreTrees, merged, find-merge_fields}

-- The entry of a key, where the value is an object that has it.
unfoldable pub entry : String → Value → Option Value
entry k null = none
entry k (boolean b) = none
entry k (number n) = none
entry k (text t) = none
entry k (array items) = none
entry k (object fs) = find k fs

-- The value at a path of keys.
unfoldable pub at : List String → Value → Option Value
at [] v = some v
at (k ∷ p) v = elim (entry k v) [ none ↦ none | some u ↦ at p u ]

pub at-none : (k : String) (p : List String) (v : Value) → entry k v ≡ none → at (k ∷ p) v ≡ none
unfolding at
at-none k p v e = ap (λ o. elim o as (λ _. Option Value) [ none ↦ none | some u ↦ at p u ]) e

pub at-some :
    (k : String) (p : List String) (v u : Value) → entry k v ≡ some u → at (k ∷ p) v ≡ at p u
unfolding at
at-some k p v u e = ap (λ o. elim o as (λ _. Option Value) [ none ↦ none | some w ↦ at p w ]) e

abbrev pub is_object : Value → Bool
is_object null = false
is_object (boolean b) = false
is_object (number n) = false
is_object (text t) = false
is_object (array items) = false
is_object (object fs) = true

-- An override that says nothing at a path: it is an object as far as the path goes in it, and the
-- entry of some key on the way is missing.
abbrev pub IsSilent : List String → Value → Type 0
IsSilent [] v = ⊥
IsSilent (k ∷ p) v = (is_object v ≡ true) × ((u : Value) → entry k v ≡ some u → IsSilent p u)

AreTrees-find : (k : String) (v : Value) (fs : Fields) → AreTrees fs → find k fs ≡ some v → IsTree v
unfolding AreTrees find to_map get
AreTrees-find k v nil t e = cc
AreTrees-find k v (field j w fs) (fresh, tw, ts) e = elim (Bool-cases (j == k)) [
  | inl same ↦ let e' = rw same at e in subst IsTree (some-injective e') tw
  | inr other ↦ let e' = rw other at e in AreTrees-find k v fs ts e'
]

entry-IsTree : (k : String) (over u : Value) → IsTree over → entry k over ≡ some u → IsTree u
unfolding entry IsTree
entry-IsTree k (object fs) u t e = AreTrees-find k u fs t e
entry-IsTree k null u t e = cc
entry-IsTree k (boolean b) u t e = cc
entry-IsTree k (number n) u t e = cc
entry-IsTree k (text x) u t e = cc
entry-IsTree k (array items) u t e = cc

new : (o : Option Value) → o ≡ merged none o
new none = refl
new (some v) = refl

-- The entries of a merge, for an override that is an object.
entry-deep_merge :
    (k : String) (base over : Value)
    → IsTree over
    → is_object over ≡ true
    → entry k (deep_merge base over) ≡ merged (entry k base) (entry k over)
unfolding entry deep_merge IsTree
entry-deep_merge k base null t o = cc
entry-deep_merge k base (boolean b) t o = cc
entry-deep_merge k base (number n) t o = cc
entry-deep_merge k base (text x) t o = cc
entry-deep_merge k base (array items) t o = cc
entry-deep_merge k (object base) (object over) t o = find-merge_fields k base over t
entry-deep_merge k null (object over) t o = new (find k over)
entry-deep_merge k (boolean b) (object over) t o = new (find k over)
entry-deep_merge k (number n) (object over) t o = new (find k over)
entry-deep_merge k (text x) (object over) t o = new (find k over)
entry-deep_merge k (array items) (object over) t o = new (find k over)

flat_wins :
    (base over v : Value) → some over ≡ some v → is_object v ≡ false → deep_merge base over ≡ v
unfolding deep_merge
flat_wins base null v e flat = some-injective e
flat_wins base (boolean b) v e flat = some-injective e
flat_wins base (number n) v e flat = some-injective e
flat_wins base (text x) v e flat = some-injective e
flat_wins base (array items) v e flat = some-injective e
flat_wins base (object fs) v e flat =
    absurd (false≢true (sym flat ∙ ap is_object (sym (some-injective e))))

entry_object : (k : String) (over u : Value) → entry k over ≡ some u → is_object over ≡ true
unfolding entry
entry_object k (object fs) u e = refl
entry_object k null u e = cc
entry_object k (boolean b) u e = cc
entry_object k (number n) u e = cc
entry_object k (text x) u e = cc
entry_object k (array items) u e = cc

-- Where an override has a value that is no object, the merge has that value.
pub at-deep_merge :
    (p : List String) (base over v : Value)
    → IsTree over
    → at p over ≡ some v
    → is_object v ≡ false
    → at p (deep_merge base over) ≡ some v
at-deep_merge [] base over v t e flat = unfold at in ap some (flat_wins base over v e flat)
at-deep_merge (k ∷ p) base over v t e flat = elim (Option-cases (entry k over)) [
  | inl gone ↦ let clash = sym (at-none k p over gone) ∙ e in cc
  | inr (u, here) ↦
      let e' = sym (at-some k p over u here) ∙ e in
      let tu = entry-IsTree k over u t here in
      let step = entry-deep_merge k base over t (entry_object k over u here) in
      elim (Option-cases (entry k base)) [
        | inl none_ ↦ at-some k p (deep_merge base over) u (step ∙ rw (none_, here) refl) ∙ e'
        | inr (b, there) ↦
            at-some k p (deep_merge base over) (deep_merge b u) (step ∙ rw (there, here) refl)
            ∙ at-deep_merge p b u v tu e' flat
      ]
]

at-IsSilent : (p : List String) (u : Value) → IsSilent p u → at p u ≡ none
at-IsSilent [] u s = absurd s
at-IsSilent (k ∷ p) u (o, s) = elim (Option-cases (entry k u)) [
  | inl gone ↦ at-none k p u gone
  | inr (w, here) ↦ at-some k p u w here ∙ at-IsSilent p w (s w here)
]

-- Where an override says nothing, the merge has what the base has.
pub at-deep_merge_silent :
    (p : List String) (base over : Value)
    → IsTree over
    → IsSilent p over
    → at p (deep_merge base over) ≡ at p base
at-deep_merge_silent [] base over t s = absurd s
at-deep_merge_silent (k ∷ p) base over t (o, s) =
    let step = entry-deep_merge k base over t o in
    elim (Option-cases (entry k base)) [
      | inl none_ ↦ elim (Option-cases (entry k over)) [
        | inl gone ↦
            at-none k p (deep_merge base over) (step ∙ rw (none_, gone) refl)
            ∙ sym (at-none k p base none_)
        | inr (u, here) ↦
            at-some k p (deep_merge base over) u (step ∙ rw (none_, here) refl)
            ∙ at-IsSilent p u (s u here)
            ∙ sym (at-none k p base none_)
      ]
      | inr (b, there) ↦ elim (Option-cases (entry k over)) [
        | inl gone ↦
            at-some k p (deep_merge base over) b (step ∙ rw (there, gone) refl)
            ∙ sym (at-some k p base b there)
        | inr (u, here) ↦
            at-some k p (deep_merge base over) (deep_merge b u) (step ∙ rw (there, here) refl)
            ∙ at-deep_merge_silent p b u (entry-IsTree k over u t here) (s u here)
            ∙ sym (at-some k p base b there)
      ]
    ]
