-- ===== src/Common/Outcome.antt =====
-- `Result`, `?` and early returns.
use Prim.Native.String.{String}
use mathlib.Core.Path.{◌≡◌, refl}
use mathlib.Core.Logic.{◌↔◌, ◌⊎◌, inl, inr}
use mathlib.Core.Bool.{Bool, true, false, not}
use native.Mathlib.Omega.{arith}

pub data Result {ℓ κ} (E : Type ℓ) (A : Type κ) : Type (ℓ ⊔ κ) where
  ok : A → Result E A
  err : E → Result E A

infixl 5 ◌>>=◌ ◌>>◌
abbrev pub ◌>>=◌ {ℓ κ ι} :
    {E : Type ℓ} {A : Type κ} {B : Type ι} → Result E A → (A → Result E B) → Result E B
ok a >>= f = f a
err e >>= f = err e

abbrev pub ◌>>◌ {ℓ ι} : {E : Type ℓ} {B : Type ι} → Result E (Unit {0}) → Result E B → Result E B
m >> k = m >>= λ _. k

-- `if bad { return Err(e); }` before the rest.
module _ {ℓ} {E : Type ℓ} where
  abbrev pub reject : Bool → E → Result E (Unit {0})
  reject true e = err e
  reject false e = ok tt

  -- A chain passes exactly when each of its steps does.
  pub seq-ok_iff : (m k : Result E (Unit {0})) → ((m >> k) ≡ ok tt) ↔ ((m ≡ ok tt) × (k ≡ ok tt))
  seq-ok_iff (ok u) k = (λ h. (refl, h), λ h. h.1)
  seq-ok_iff (err e) k = (λ h. cc, λ h. cc)

  pub reject-ok_iff : (b : Bool) (e : E) → (reject b e ≡ ok tt) ↔ (b ≡ false)
  reject-ok_iff b e = (λ h. ground arith, λ h. ground arith)

  -- The two together, with what the test decides.
  pub reject_then_iff {κ ι} :
      {P : Type κ} {Q : Type ι} (b : Bool) (e : E) (k : Result E (Unit {0}))
      → (b ≡ false) ↔ P
      → (k ≡ ok tt) ↔ Q
      → ((reject b e >> k) ≡ ok tt) ↔ (P × Q)
  reject_then_iff b e k p q =
      let (split, join) = seq-ok_iff (reject b e) k in
      let (pass, pass') = reject-ok_iff b e in
      (λ h. let (l, r) = split h in (p.0 (pass l), q.0 r), λ h. join (pass' (p.1 h.0), q.1 h.1))

  pub then_iff {κ ι} :
      {P : Type κ} {Q : Type ι} (m k : Result E (Unit {0}))
      → (m ≡ ok tt) ↔ P
      → (k ≡ ok tt) ↔ Q
      → ((m >> k) ≡ ok tt) ↔ (P × Q)
  then_iff m k p q =
      let (split, join) = seq-ok_iff m k in
      (λ h. let (l, r) = split h in (p.0 l, q.0 r), λ h. join (p.1 h.0, q.1 h.1))

-- The last test of a chain.
pub last_iff {ℓ κ} :
    {E : Type ℓ} {P : Type κ} (b : Bool) (e : E) → (b ≡ false) ↔ P → (reject b e ≡ ok tt) ↔ P
last_iff b e p = let (pass, pass') = reject-ok_iff b e in (λ h. p.0 (pass h), λ h. pass' (p.1 h))

-- `if !good { return Err(e); }`
pub not-false_iff {κ} : {P : Type κ} (b : Bool) → (b ≡ true) ↔ P → (not b ≡ false) ↔ P
not-false_iff true p = (λ h. p.0 refl, λ h. refl)
not-false_iff false p = (λ h. cc, λ h. let e = p.1 h in cc)

-- `Result<(), String>`
abbrev pub Validated : Type 0
Validated = Result String (Unit {0})

pub Result-cases {ℓ} :
    {E : Type ℓ} (r : Result E (Unit {0})) → (r ≡ ok tt) ⊎ ((e : E) × (r ≡ err e))
Result-cases (ok u) = inl refl
Result-cases (err e) = inr (e, refl)
