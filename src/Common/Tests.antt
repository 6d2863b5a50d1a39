-- ===== src/Common/Tests.antt =====
-- Boolean tests, the conditional, and equality as an interface (Rust's `PartialEq`).
use Prim.Native.Nat.{ℕ, compare, Ordering}
use Prim.Native.String.{String}
use mathlib.Core.Path.{◌≡◌, refl, sym}
use mathlib.Core.Logic.{◌↔◌, ◌⊎◌, inl, inr}
use mathlib.Core.Bool.{Bool, true, false, ◌&&◌, false≢true}
use mathlib.Core.Option.{Option, none, some}
use native.Mathlib.Omega.{arith}
use text.Mathlib.Text.{◌==◌ as str_eq}
use text.Mathlib.TextEquality.{eq_iff}

abbrev pub ltb : ℕ → ℕ → Bool
ltb a b = elim (compare a b) [ Ordering.lt ↦ true | _ ↦ false ]

abbrev pub leb : ℕ → ℕ → Bool
leb a b = elim (compare a b) [ Ordering.gt ↦ false | _ ↦ true ]

abbrev pub nat_beq : ℕ → ℕ → Bool
nat_beq a b = elim (compare a b) [ Ordering.eq ↦ true | _ ↦ false ]

pub nat_beq_iff : (a b : ℕ) → (nat_beq a b ≡ true) ↔ (a ≡ b)
nat_beq_iff a b = ground arith

infix 1 if◌then◌else◌
abbrev pub if◌then◌else◌ {ℓ} : {A : Type ℓ} → Bool → A → A → A
if true then x else y = x
if false then x else y = y

pub record PartialEq {ℓ} (A : Type ℓ) : Type ℓ where
  pub eq : A → A → Bool
  pub decides : (x y : A) → (eq x y ≡ true) ↔ (x ≡ y)

infix 50 ◌==◌
abbrev pub ◌==◌ {ℓ} : {A : Type ℓ} ⦃e : PartialEq A⦄ → A → A → Bool
◌==◌ ⦃e⦄ = e.eq

instance abbrev pub nat_eq : PartialEq ℕ
nat_eq = record { eq = nat_beq; decides = nat_beq_iff }

instance abbrev pub string_eq : PartialEq String
string_eq = record { eq = str_eq; decides = eq_iff }

pub Bool-cases : (b : Bool) → (b ≡ true) ⊎ (b ≡ false)
Bool-cases true = inl refl
Bool-cases false = inr refl

pub Option-cases {ℓ} : {A : Type ℓ} (o : Option A) → (o ≡ none) ⊎ ((a : A) × (o ≡ some a))
Option-cases none = inl refl
Option-cases (some a) = inr (a, refl)

pub some-injective {ℓ} : {A : Type ℓ} {a b : A} → some a ≡ some b → a ≡ b
some-injective e = cc

pub and-true_iff : (a b : Bool) → ((a && b) ≡ true) ↔ ((a ≡ true) × (b ≡ true))
and-true_iff a b = ground arith

pub pair_beq_iff {ℓ κ} :
    {A : Type ℓ} {B : Type κ} ⦃a : PartialEq A⦄ ⦃b : PartialEq B⦄ (p q : A × B)
    → ((p.0 == q.0 && p.1 == q.1) ≡ true) ↔ (p ≡ q)
pair_beq_iff ⦃a⦄ ⦃b⦄ p q = (
  λ h.
      let (x, y) = (and-true_iff (p.0 == q.0) (p.1 == q.1)).0 h in
      λ i. ((a.decides p.0 q.0).0 x i, (b.decides p.1 q.1).0 y i),
  λ e.
      (and-true_iff (p.0 == q.0) (p.1 == q.1)).1
        ((a.decides p.0 q.0).1 (λ i. (e i).0), (b.decides p.1 q.1).1 (λ i. (e i).1)),
)

instance abbrev pub pair_eq {ℓ κ} :
    {A : Type ℓ} {B : Type κ} ⦃a : PartialEq A⦄ ⦃b : PartialEq B⦄ → PartialEq (A × B)
pair_eq ⦃a⦄ ⦃b⦄ = record {
  eq = λ p q. a.eq p.0 q.0 && b.eq p.1 q.1;
  decides = λ p q. pair_beq_iff p q;
}

-- From a test that decides `P`, its failure refutes `P`.
pub false_iff {ℓ} : {P : Type ℓ} (b : Bool) → (b ≡ true) ↔ P → (b ≡ false) ↔ (¬ P)
false_iff true h = (λ e p. absurd (false≢true (sym e)), λ n. absurd (n (h.0 refl)))
false_iff false h = (λ e p. false≢true (h.1 p), λ n. refl)

abbrev pub is_some {ℓ} : {A : Type ℓ} → Option A → Bool
is_some none = false
is_some (some a) = true

-- `==` of Booleans.
abbrev pub bool_beq : Bool → Bool → Bool
bool_beq true b = b
bool_beq false true = false
bool_beq false false = true

pub bool_beq_iff : (a b : Bool) → (bool_beq a b ≡ true) ↔ (a ≡ b)
bool_beq_iff a b = ground arith

instance abbrev pub bool_eq : PartialEq Bool
bool_eq = record { eq = bool_beq; decides = bool_beq_iff }

-- What both branches of a test establish.
pub if_rule {ℓ κ} :
    {A : Type ℓ} (Q : A → Type κ) (b : Bool) (x y : A)
    → (b ≡ true → Q x)
    → (b ≡ false → Q y)
    → Q (if b then x else y)
if_rule Q true x y f g = f refl
if_rule Q false x y f g = g refl
