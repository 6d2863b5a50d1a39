-- ===== src/Common/Lists.antt =====
-- Lists measured and indexed by native numbers, and membership by recursion.
use Prim.Native.Nat.{ℕ, zero, suc, ◌+◌}
use mathlib.Core.Path.{◌≡◌, refl, sym, subst, ap}
use mathlib.Core.Logic.{◌↔◌, ◌⊎◌, inl, inr}
use mathlib.Core.Bool.{Bool, true, false, ◌&&◌, ◌||◌}
use mathlib.Core.List.{List, [], ◌∷◌, ◌++◌, map}
use mathlib.Core.Option.{Option, none, some}
use native.Mathlib.Omega.{arith}
use stardelt_operator.Common.Tests.{if◌then◌else◌, and-true_iff}

module _ {ℓ} {A : Type ℓ} where
  abbrev pub length : List A → ℕ
  length [] = 0
  length (x ∷ xs) = suc (length xs)

  abbrev pub get_elem? : List A → ℕ → Option A
  get_elem? [] i = none
  get_elem? (x ∷ xs) zero = some x
  get_elem? (x ∷ xs) (suc i) = get_elem? xs i

  -- `iter().all(p)` and `iter().any(p)`
  abbrev pub all : (A → Bool) → List A → Bool
  all p [] = true
  all p (x ∷ xs) = p x && all p xs

  abbrev pub any : (A → Bool) → List A → Bool
  any p [] = false
  any p (x ∷ xs) = p x || any p xs

  -- `iter().filter(p)`
  abbrev pub keep : (A → Bool) → List A → List A
  keep p [] = []
  keep p (x ∷ xs) = let rest = keep p xs in if p x then x ∷ rest else rest

  abbrev pub is_empty : List A → Bool
  is_empty [] = true
  is_empty (x ∷ xs) = false

  abbrev pub All {κ} : (A → Type κ) → List A → Type κ
  All P [] = Unit
  All P (x ∷ xs) = P x × All P xs

  pub length-append : (xs ys : List A) → length (xs ++ ys) ≡ length xs + length ys
  length-append [] ys = omega arith
  length-append (x ∷ xs) ys = omega (arith, length-append xs ys)

pub length-map {ℓ κ} :
    {A : Type ℓ} {B : Type κ} (f : A → B) (xs : List A) → length (map f xs) ≡ length xs
length-map f [] = refl
length-map f (x ∷ xs) = ap suc (length-map f xs)

module _ {A : Type 0} where
  -- `x` stands in the list.
  abbrev pub In : A → List A → Type 0
  In x [] = ⊥
  In x (y ∷ ys) = (x ≡ y) ⊎ In x ys

  abbrev pub Distinct : List A → Type 0
  Distinct [] = Unit
  Distinct (x ∷ xs) = ¬ (In x xs) × Distinct xs

  pub In-append_iff : (x : A) (xs ys : List A) → In x (xs ++ ys) ↔ (In x xs ⊎ In x ys)
  In-append_iff x [] ys = (λ h. inr h, λ h. ground arith)
  In-append_iff x (y ∷ xs) ys =
      let (there, back) = In-append_iff x xs ys in (λ h. ground arith, λ h. ground arith)

  pub In-middle_iff : (x z : A) (xs ys : List A) → In z (xs ++ (x ∷ ys)) ↔ In z (x ∷ (xs ++ ys))
  In-middle_iff x z [] ys = (λ i. i, λ i. i)
  In-middle_iff x z (w ∷ xs) ys =
      let (there, back) = In-middle_iff x z xs ys in (λ i. ground arith, λ i. ground arith)

  pub Distinct-middle :
      (x : A) (xs ys : List A) → Distinct (x ∷ (xs ++ ys)) → Distinct (xs ++ (x ∷ ys))
  Distinct-middle x [] ys d = d
  Distinct-middle x (w ∷ xs) ys (nx, (nw, d)) = (
    λ i. elim ((In-middle_iff x w xs ys).0 i) [ inl e ↦ nx (inl (sym e)) | inr j ↦ nw j ],
    Distinct-middle x xs ys (λ i. nx (inr i), d),
  )

  pub Distinct-tail_append : (xs ys : List A) → Distinct (xs ++ ys) → Distinct ys
  Distinct-tail_append [] ys d = d
  Distinct-tail_append (x ∷ xs) ys (nx, d) = Distinct-tail_append xs ys d

  pub All-In : (P : A → Type 0) (x : A) (xs : List A) → All P xs → In x xs → P x
  All-In P x [] h i = absurd i
  All-In P x (y ∷ ys) (p, ps) (inl e) = subst P (sym e) p
  All-In P x (y ∷ ys) (p, ps) (inr i) = All-In P x ys ps i

  pub In-All : {P : A → Type 0} (xs : List A) → ((x : A) → In x xs → P x) → All P xs
  In-All [] f = tt
  In-All (x ∷ xs) f = (f x (inl refl), In-All xs (λ y i. f y (inr i)))

  pub All-map : {P Q : A → Type 0} → ((x : A) → P x → Q x) → (xs : List A) → All P xs → All Q xs
  All-map f [] h = tt
  All-map f (x ∷ xs) (p, ps) = (f x p, All-map f xs ps)

  pub any-false_iff : (p : A → Bool) (xs : List A) → (any p xs ≡ false) ↔ All (λ x. p x ≡ false) xs
  any-false_iff p [] = (λ h. tt, λ h. refl)
  any-false_iff p (x ∷ xs) =
      let (there, back) = any-false_iff p xs in
      (λ h. (ground arith, there (ground arith)), λ h. let e = back h.1 in ground arith)

  -- `all p` decides `All`.
  pub all_iff :
      {P : A → Type 0} (p : A → Bool) (xs : List A)
      → ((x : A) → (p x ≡ true) ↔ P x)
      → (all p xs ≡ true) ↔ All P xs
  all_iff p [] h = (λ _. tt, λ _. refl)
  all_iff p (x ∷ xs) h =
      let (there, back) = all_iff p xs h in
      let (a, b) = h x in
      (
        λ e. let (e1, e2) = (and-true_iff _ _).0 e in (a e1, there e2),
        λ e. (and-true_iff _ _).1 (b e.0, back e.1),
      )

module _ {A B : Type 0} (f : A → B) where
  pub In-map : (x : A) (xs : List A) → In x xs → In (f x) (map f xs)
  In-map x [] i = absurd i
  In-map x (y ∷ ys) (inl e) = inl (ap f e)
  In-map x (y ∷ ys) (inr i) = inr (In-map x ys i)

  pub In-map_back : (b : B) (xs : List A) → In b (map f xs) → (x : A) × In x xs × (b ≡ f x)
  In-map_back b [] i = absurd i
  In-map_back b (y ∷ ys) (inl e) = (y, inl refl, e)
  In-map_back b (y ∷ ys) (inr i) = let (x, j, e) = In-map_back b ys i in (x, inr j, e)

  pub Distinct-map_back : (xs : List A) → Distinct (map f xs) → Distinct xs
  Distinct-map_back [] d = tt
  Distinct-map_back (x ∷ xs) (nx, d) = (λ i. nx (In-map x xs i), Distinct-map_back xs d)

  pub Distinct-map :
      ((a b : A) → f a ≡ f b → a ≡ b) → (xs : List A) → Distinct xs → Distinct (map f xs)
  Distinct-map inj [] d = tt
  Distinct-map inj (x ∷ xs) (nx, d) = (
    λ i. let (y, j, e) = In-map_back (f x) xs i in nx (subst (λ z. In z xs) (sym (inj x y e)) j),
    Distinct-map inj xs d,
  )
