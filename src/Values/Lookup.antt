-- ===== src/Values/Lookup.antt =====
-- Looking up an entry of a merged object.
use stardelt_operator.Common.{
  String, ◌≡◌, refl, sym, ap, subst, ◌∙◌, inl, inr, false, eq_iff, Option, none, some, [], ◌∷◌,
  if◌then◌else◌, ◌==◌, string_eq, Bool-cases, Map, get, insert, get-insert,
}
use stardelt_operator.Values.{
  Value, null, boolean, number, text, array, object, Fields, nil, field, to_map, of_map, find, put,
  deep_merge, merge_fields,
}

to_map-of_map : (m : Map Value) → to_map (of_map m) ≡ m
unfolding to_map of_map
to_map-of_map [] = refl
to_map-of_map (e ∷ m) = ap (λ r. e ∷ r) (to_map-of_map m)

pub find-put :
    (k j : String) (v : Value) (fs : Fields)
    → find j (put k v fs) ≡ (if k == j then some v else find j fs)
unfolding find put
find-put k j v fs =
    ap (λ m. get j m) (to_map-of_map (insert k v (to_map fs))) ∙ get-insert k j v (to_map fs)

-- No key of an object occurs twice, here and in the objects below.
unfoldable mutual
  pub IsTree : Value → Type 0
  IsTree null = Unit
  IsTree (boolean b) = Unit
  IsTree (number n) = Unit
  IsTree (text t) = Unit
  IsTree (array items) = Unit
  IsTree (object fs) = AreTrees fs

  pub AreTrees : Fields → Type 0
  AreTrees nil = Unit
  AreTrees (field k v fs) = (find k fs ≡ none) × IsTree v × AreTrees fs

-- What a key has after a merge: the override's value, merged onto the base's if both have one.
abbrev pub merged : Option Value → Option Value → Option Value
merged base none = base
merged none (some v) = some v
merged (some existing) (some v) = some (deep_merge existing v)

find-field_same : (k : String) (v : Value) (fs : Fields) → find k (field k v fs) ≡ some v
unfolding find to_map get
find-field_same k v fs = rw ((eq_iff k k).1 refl) refl

find-field_other :
    (j k : String) (v : Value) (fs : Fields) → (j == k) ≡ false → find k (field j v fs) ≡ find k fs
unfolding find to_map get
find-field_other j k v fs e = rw e refl

-- Each key of a merged object has what the two objects give it.
pub find-merge_fields :
    (k : String) (base over : Fields)
    → AreTrees over
    → find k (merge_fields base over) ≡ merged (find k base) (find k over)
unfolding merge_fields AreTrees
find-merge_fields k base nil t = unfold find to_map get in refl
find-merge_fields k base (field j v over) (fresh, tv, ts) =
    let w : Value = elim (find j base) [ some existing ↦ deep_merge existing v | none ↦ v ] in
    let rest = find-merge_fields k (put j w base) over ts in
    elim (Bool-cases (j == k)) [
      | inl same ↦
          let e = (eq_iff j k).0 same in
          let gone : find k over ≡ none = subst (λ x. find x over ≡ none) e fresh in
          let here : find k (put j w base) ≡ some w = rw (find-put j k w base, same) refl in
          rest
          ∙ rw (gone, here) (only (find j base) v)
          ∙ subst
              (λ x. merged (find j base) (some v) ≡ merged (find x base) (find x (field j v over)))
              e (ap (merged (find j base)) (sym (find-field_same j v over)))
      | inr other ↦
          let there : find k (put j w base) ≡ find k base = rw (find-put j k w base, other) refl in
          rest
          ∙ ap (λ x. merged x (find k over)) there
          ∙ ap (merged (find k base)) (sym (find-field_other j k v over other))
    ]
  where
    only :
        (o : Option Value) (v : Value)
        → some (elim o [ some existing ↦ deep_merge existing v | none ↦ v ]) ≡ merged o (some v)
    only none v = refl
    only (some existing) v = refl
