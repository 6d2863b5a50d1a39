-- ===== src/Common/Counting.antt =====
-- Counting members: a list of distinct members of another is no longer than it.
use Prim.Native.Nat.{ℕ, suc, ◌+◌, ◌≤◌}
use mathlib.Core.Path.{◌≡◌, refl, sym, subst, ◌∙◌}
use mathlib.Core.Logic.{inl, inr, ◌≢◌}
use mathlib.Core.Bool.{}
use mathlib.Core.List.{List, [], ◌∷◌}
use native.Mathlib.Omega.{arith}
use stardelt_operator.Common.Tests.{if◌then◌else◌, PartialEq, Bool-cases}
use stardelt_operator.Common.Lists.{length, In, Distinct}
use stardelt_operator.Common.Sets.{
  contains, contains_iff, collect, In-collect, length-collect-le, length-collect_iff,
  not-contains_iff,
}

module _ {A : Type 0} ⦃e : PartialEq A⦄ where
  -- The list without one occurrence of a member.
  without : (x : A) (ys : List A) → In x ys → List A
  without x [] i = absurd i
  without x (y ∷ ys) (inl same) = ys
  without x (y ∷ ys) (inr i) = y ∷ without x ys i

  length-without : (x : A) (ys : List A) (i : In x ys) → length ys ≡ length (without x ys i) + 1
  unfolding without
  length-without x [] i = absurd i
  length-without x (y ∷ ys) (inl same) = omega arith
  length-without x (y ∷ ys) (inr i) = omega (arith, length-without x ys i)

  In-without : (x z : A) (ys : List A) (i : In x ys) → In z ys → z ≢ x → In z (without x ys i)
  unfolding without
  In-without x z [] i j n = absurd i
  In-without x z (y ∷ ys) (inl same) (inl here) n = absurd (n (here ∙ sym same))
  In-without x z (y ∷ ys) (inl same) (inr j) n = j
  In-without x z (y ∷ ys) (inr i) (inl here) n = inl here
  In-without x z (y ∷ ys) (inr i) (inr j) n = inr (In-without x z ys i j n)

  pub length-le_of_subset :
      (xs ys : List A) → Distinct xs → ((x : A) → In x xs → In x ys) → length xs ≤ length ys
  length-le_of_subset [] ys d f = omega arith
  length-le_of_subset (x ∷ xs) ys (nx, d) f =
      let i = f x (inl refl) in
      let rest =
        length-le_of_subset xs (without x ys i) d
          (λ z j. In-without x z ys i (f z (inr j)) (λ same. nx (subst (λ w. In w xs) same j))) in
      omega (arith, length-without x ys i)

  -- With as many distinct members, the two lists have the same members.
  pub In-length :
      (xs ys : List A)
      → Distinct xs
      → ((x : A) → In x xs → In x ys)
      → length ys ≤ length xs
      → (y : A) → In y ys
      → In y xs
  In-length xs ys d f l y i = elim (Bool-cases (contains xs y)) [
    | inl old ↦ (contains_iff xs y).0 old
    | inr new ↦
        let n = (not-contains_iff xs y).0 new in
        absurd (
          let more =
            length-le_of_subset (y ∷ xs) ys (n, d)
              (λ z j. elim j [ inl same ↦ subst (λ w. In w ys) (sym same) i | inr k ↦ f z k ]) in
          omega arith)
  ]

  pub Distinct-length :
      (xs ys : List A)
      → Distinct xs
      → ((x : A) → In x xs → In x ys)
      → length ys ≤ length xs
      → Distinct ys
  Distinct-length xs ys d f l =
      let small = length-collect-le [] ys in
      let big =
        length-le_of_subset xs (collect [] ys) d (λ x i. (In-collect x [] ys).1 (inr (f x i))) in
      (length-collect_iff ys).0 (omega arith)

  -- How many of `xs` are among `ys`.
  unfoldable pub hits : List A → List A → ℕ
  hits ys [] = 0
  hits ys (x ∷ xs) = if contains ys x then suc (hits ys xs) else hits ys xs

  among : List A → List A → List A
  among ys [] = []
  among ys (x ∷ xs) = if contains ys x then x ∷ among ys xs else among ys xs

  length-among : (ys xs : List A) → length (among ys xs) ≡ hits ys xs
  unfolding among hits
  length-among ys [] = refl
  length-among ys (x ∷ xs) = ground (arith, length-among ys xs)

  In-among : (ys xs : List A) (z : A) → In z (among ys xs) → In z xs × In z ys
  unfolding among
  In-among ys [] z i = absurd i
  In-among ys (x ∷ xs) z i = elim (Bool-cases (contains ys x)) [
    | inl old ↦ elim (let j : In z (x ∷ among ys xs) = rw old at i in j) [
      | inl same ↦ (inl same, subst (λ w. In w ys) (sym same) ((contains_iff ys x).0 old))
      | inr j ↦ let (a, b) = In-among ys xs z j in (inr a, b)
    ]
    | inr new ↦ let (a, b) = In-among ys xs z (rw new at i) in (inr a, b)
  ]

  among_back : (ys xs : List A) (z : A) → In z xs → In z ys → In z (among ys xs)
  unfolding among
  among_back ys [] z i j = absurd i
  among_back ys (x ∷ xs) z (inl same) j =
      rw ((contains_iff ys x).1 (subst (λ w. In w ys) same j)) (inl same)
  among_back ys (x ∷ xs) z (inr i) j = elim (Bool-cases (contains ys x)) [
    | inl old ↦ rw old (inr (among_back ys xs z i j))
    | inr new ↦ rw new (among_back ys xs z i j)
  ]

  Distinct-among : (ys xs : List A) → Distinct xs → Distinct (among ys xs)
  unfolding among
  Distinct-among ys [] d = tt
  Distinct-among ys (x ∷ xs) (nx, d) = elim (Bool-cases (contains ys x)) [
    | inl old ↦ rw old (λ i. nx (In-among ys xs x i).0, Distinct-among ys xs d)
    | inr new ↦ rw new (Distinct-among ys xs d)
  ]

  pub hits-le : (ys xs : List A) → Distinct xs → hits ys xs ≤ length ys
  hits-le ys xs d =
      let bound =
        length-le_of_subset (among ys xs) ys (Distinct-among ys xs d)
          (λ z i. (In-among ys xs z i).1) in
      omega (arith, length-among ys xs)

  -- Distinct `xs` hit `ys` in every place exactly when `ys` is distinct and among them.
  pub In-hits :
      (ys xs : List A) → Distinct xs → hits ys xs ≡ length ys → (y : A) → In y ys → In y xs
  In-hits ys xs d full y i =
      let all_in =
        In-length (among ys xs) ys (Distinct-among ys xs d) (λ z j. (In-among ys xs z j).1)
          (omega (arith, length-among ys xs)) y i in
      (In-among ys xs y all_in).0

  pub Distinct-hits : (ys xs : List A) → Distinct xs → hits ys xs ≡ length ys → Distinct ys
  Distinct-hits ys xs d full =
      Distinct-length (among ys xs) ys (Distinct-among ys xs d) (λ z j. (In-among ys xs z j).1)
        (omega (arith, length-among ys xs))

  pub hits_full :
      (ys xs : List A)
      → Distinct xs
      → Distinct ys
      → ((y : A) → In y ys → In y xs)
      → hits ys xs ≡ length ys
  hits_full ys xs d dy f =
      let low = length-le_of_subset ys (among ys xs) dy (λ y i. among_back ys xs y (f y i) i) in
      omega (arith, length-among ys xs, hits-le ys xs d)
