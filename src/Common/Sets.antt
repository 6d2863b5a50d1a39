-- ===== src/Common/Sets.antt =====
-- Sets and duplicates: `contains`, and `BTreeSet` where only its members and its size count.
use Prim.Native.Nat.{ℕ, ◌+◌, ◌≤◌}
use mathlib.Core.Path.{◌≡◌, refl, sym, subst, ◌∙◌}
use mathlib.Core.Logic.{◌↔◌, ◌⊎◌, inl, inr}
use mathlib.Core.Bool.{Bool, true, false, ◌||◌, false≢true, not}
use mathlib.Core.List.{List, [], ◌∷◌, map}
use native.Mathlib.Omega.{arith}
use stardelt_operator.Common.Tests.{
  nat_beq, if◌then◌else◌, PartialEq, ◌==◌, nat_eq, string_eq, Bool-cases, pair_eq, bool_eq,
}
use stardelt_operator.Common.Outcome.{Result, ok, err}
use stardelt_operator.Common.Lists.{length, All, In, Distinct}

module _ {A : Type 0} ⦃e : PartialEq A⦄ where
  -- `slice.contains(&x)`
  unfoldable pub contains : List A → A → Bool
  contains [] x = false
  contains (y ∷ ys) x = x == y || contains ys x

  pub contains_iff : (xs : List A) (x : A) → (contains xs x ≡ true) ↔ In x xs
  unfolding contains
  contains_iff [] x = (λ h. cc, λ h. absurd h)
  contains_iff (y ∷ ys) x =
      let (there, back) = contains_iff ys x in
      let (same, same') = e.decides x y in (λ h. ground arith, λ h. ground arith)

  -- `set.insert(x)`
  unfoldable pub set_insert : A → List A → List A
  set_insert x seen = if contains seen x then seen else x ∷ seen

  -- `iter().collect::<BTreeSet<_>>()`, from the members that are already in.
  unfoldable pub collect : List A → List A → List A
  collect seen [] = seen
  collect seen (x ∷ xs) = collect (set_insert x seen) xs

  pub In-set_insert : (x y : A) (seen : List A) → In y (set_insert x seen) ↔ ((y ≡ x) ⊎ In y seen)
  unfolding set_insert
  In-set_insert x y seen = elim (Bool-cases (contains seen x)) [
    | inl old ↦ rw old (
      λ h. inr h,
      λ h. elim h [
        | inl same ↦ subst (λ z. In z seen) (sym same) ((contains_iff seen x).0 old)
        | inr i ↦ i
      ],
    )
    | inr new ↦ rw new (λ h. h, λ h. h)
  ]

  pub In-collect : (y : A) (seen xs : List A) → In y (collect seen xs) ↔ (In y seen ⊎ In y xs)
  unfolding collect
  In-collect y seen [] = (λ h. inl h, λ h. ground arith)
  In-collect y seen (x ∷ xs) =
      let (there, back) = In-collect y (set_insert x seen) xs in
      let (put, got) = In-set_insert x y seen in (λ h. ground arith, λ h. ground arith)

  pub length-collect-le : (seen xs : List A) → length (collect seen xs) ≤ length seen + length xs
  unfolding collect set_insert
  length-collect-le seen [] = omega arith
  length-collect-le seen (x ∷ xs) = ground (arith, length-collect-le (set_insert x seen) xs)

  not-contains : (seen : List A) (x : A) → ¬ (In x seen) → contains seen x ≡ false
  not-contains seen x f = elim (Bool-cases (contains seen x)) [
    | inl old ↦ absurd (f ((contains_iff seen x).0 old))
    | inr new ↦ new
  ]

  pub All-fresh :
      (x : A) (seen xs : List A)
      → All (λ y. ¬ (In y seen)) xs
      → ¬ (In x xs)
      → All (λ y. ¬ (In y (x ∷ seen))) xs
  All-fresh x seen [] f nx = tt
  All-fresh x seen (y ∷ ys) (fy, f) nx = (
    λ i. elim i [ inl e ↦ nx (inl (sym e)) | inr j ↦ fy j ],
    All-fresh x seen ys f (λ i. nx (inr i)),
  )

  pub All-fresh_back :
      (x : A) (seen xs : List A)
      → All (λ y. ¬ (In y (x ∷ seen))) xs
      → All (λ y. ¬ (In y seen)) xs × ¬ (In x xs)
  All-fresh_back x seen [] f = (tt, λ i. i)
  All-fresh_back x seen (y ∷ ys) (fy, f) =
      let (g, nx) = All-fresh_back x seen ys f in
      ((λ i. fy (inr i), g), λ i. elim i [ inl e ↦ fy (inl (sym e)) | inr j ↦ nx j ])

  collect_full :
      (seen xs : List A)
      → length (collect seen xs) ≡ length seen + length xs
      → All (λ x. ¬ (In x seen)) xs × Distinct xs
  unfolding collect set_insert
  collect_full seen [] e = (tt, tt)
  collect_full seen (x ∷ xs) e = elim (Bool-cases (contains seen x)) [
    | inl old ↦ absurd (let e' = rw old at e in omega (arith, length-collect-le seen xs))
    | inr new ↦
        let e' = rw new at e in
        let (f, d) = collect_full (x ∷ seen) xs (omega arith) in
        let (g, nx) = All-fresh_back x seen xs f in
        ((λ i. false≢true (sym new ∙ (contains_iff seen x).1 i), g), (nx, d))
  ]

  pub All-not-In-nil : (xs : List A) → All (λ x. ¬ (In x [])) xs
  All-not-In-nil [] = tt
  All-not-In-nil (x ∷ xs) = (λ i. i, All-not-In-nil xs)

  collect_fresh :
      (seen xs : List A)
      → All (λ x. ¬ (In x seen)) xs
      → Distinct xs
      → length (collect seen xs) ≡ length seen + length xs
  unfolding collect set_insert
  collect_fresh seen [] f d = omega arith
  collect_fresh seen (x ∷ xs) (fx, f) (nx, d) =
      let new = not-contains seen x fx in
      rw new (omega (arith, collect_fresh (x ∷ seen) xs (All-fresh x seen xs f nx) d))

  -- A collection into a set keeps its size exactly when no member occurs twice.
  pub length-collect_iff : (xs : List A) → (length (collect [] xs) ≡ length xs) ↔ Distinct xs
  length-collect_iff xs = (
    λ e. (collect_full [] xs (omega arith)).1,
    λ d. omega (arith, collect_fresh [] xs (All-not-In-nil xs) d),
  )

  -- A test and its negation, for statements with `¬`.
  pub not-contains_iff : (xs : List A) (x : A) → (contains xs x ≡ false) ↔ (¬ (In x xs))
  not-contains_iff xs x = (λ e i. false≢true (sym e ∙ (contains_iff xs x).1 i), not-contains xs x)

  -- `set.len() != xs.len()` fails exactly when no member occurs twice.
  pub repeats_iff :
      (xs : List A) (n : ℕ)
      → n ≡ length xs
      → (not (nat_beq (length (collect [] xs)) n) ≡ false) ↔ Distinct xs
  repeats_iff xs n e =
      let (full, full') = length-collect_iff xs in
      (λ h. full (ground arith), λ d. let same = full' d in ground arith)

-- `for x in xs { if !seen.insert(key(x)) { return Err(message(x)); } }`
module _ {A K E : Type 0} ⦃e : PartialEq K⦄ (key : A → K) (message : A → E) where
  unfoldable pub insert_each : List K → List A → Result E (Unit {0})
  insert_each seen [] = ok tt
  insert_each seen (x ∷ xs) =
      let rest = insert_each (key x ∷ seen) xs in
      if contains seen (key x) then err (message x) else rest

  insert_each_sound :
      (seen : List K) (xs : List A)
      → insert_each seen xs ≡ ok tt
      → All (λ k. ¬ (In k seen)) (map key xs) × Distinct (map key xs)
  unfolding insert_each
  insert_each_sound seen [] h = (tt, tt)
  insert_each_sound seen (x ∷ xs) h = elim (Bool-cases (contains seen (key x))) [
    | inl old ↦ let h' = rw old at h in cc
    | inr new ↦
        let (f, d) = insert_each_sound (key x ∷ seen) xs (rw new at h) in
        let (g, nx) = All-fresh_back (key x) seen (map key xs) f in
        (((not-contains_iff seen (key x)).0 new, g), (nx, d))
  ]

  insert_each_complete :
      (seen : List K) (xs : List A)
      → All (λ k. ¬ (In k seen)) (map key xs)
      → Distinct (map key xs)
      → insert_each seen xs ≡ ok tt
  unfolding insert_each
  insert_each_complete seen [] f d = refl
  insert_each_complete seen (x ∷ xs) (fx, f) (nx, d) =
      rw ((not-contains_iff seen (key x)).1 fx)
        (insert_each_complete (key x ∷ seen) xs (All-fresh (key x) seen (map key xs) f nx) d)

  -- The loop passes exactly when no key occurs twice.
  pub insert_each_iff : (xs : List A) → (insert_each [] xs ≡ ok tt) ↔ Distinct (map key xs)
  insert_each_iff xs = (
    λ h. (insert_each_sound [] xs h).1,
    λ d. insert_each_complete [] xs (All-not-In-nil (map key xs)) d,
  )
