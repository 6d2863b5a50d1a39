-- ===== src/Encoding/Digits.antt =====
-- Digits and letters and their values.
use stardelt_operator.Common.{
  ℕ, zero, suc, ◌+◌, ◌-◌, ◌<◌, ◌≡◌, refl, inl, inr, Bool, true, false, not, ◌&&◌, arith, nat_beq,
  nat_beq_iff, if◌then◌else◌, ◌==◌, nat_eq, string_eq, Bool-cases, and-true_iff, false_iff,
  is_ascii_lowercase, is_ascii_uppercase, is_ascii_digit,
}
use stardelt_operator.Encoding.{letter, digit}

-- A test that holds of every number below a bound.
abbrev below : ℕ → (ℕ → Bool) → Bool
below zero p = true
below (suc n) p = p n && below n p

below_sound : (n : ℕ) (p : ℕ → Bool) → below n p ≡ true → (i : ℕ) → i < n → p i ≡ true
below_sound zero p h i l = absurd (omega arith)
below_sound (suc n) p h i l =
    let (here, rest) = (and-true_iff (p n) (below n p)).0 h in
    elim (Bool-cases (nat_beq i n)) [
      | inl e ↦ rw ((nat_beq_iff i n).0 e) here
      | inr e ↦ below_sound n p rest i (omega (arith, (false_iff _ (nat_beq_iff i n)).0 e))
    ]

-- The value of a letter of RFC 4648, section 5.
abbrev pub letter_value : ℕ → ℕ
letter_value c =
    if is_ascii_uppercase c
    then c - b'A'
    else if is_ascii_lowercase c
    then c - b'a' + 26
    else if is_ascii_digit c
    then c - b'0' + 52
    else if c == b'-'
    then 62
    else 63

-- `c` is the letter of value `i`, and no padding.
abbrev reads : ℕ → ℕ → Bool
reads i c = nat_beq (letter_value c) i && not (nat_beq c b'=')

pub letter-value :
    (i : ℕ) → i < 64 → (letter_value (letter i) ≡ i) × (nat_beq (letter i) b'=' ≡ false)
unfolding letter
letter-value i l =
    let h = below_sound 64 (λ i. reads i (letter i)) refl i l in
    let (value, other) =
      (and-true_iff (nat_beq (letter_value (letter i)) i) (not (nat_beq (letter i) b'='))).0 h in
    ((nat_beq_iff (letter_value (letter i)) i).0 value, ground arith)

-- The value of a hexadecimal digit in either case.
abbrev pub hex_value : ℕ → ℕ
hex_value c =
    if is_ascii_digit c
    then c - b'0'
    else if is_ascii_lowercase c
    then c - b'a' + 10
    else c - b'A' + 10

pub hex_value-digit_lower : (d : ℕ) → d < 16 → hex_value (digit b'a' d) ≡ d
hex_value-digit_lower d l = ground arith

pub hex_value-digit_upper : (d : ℕ) → d < 16 → hex_value (digit b'A' d) ≡ d
hex_value-digit_upper d l = ground arith
