-- ===== src/Encoding/Hex.antt =====
-- Hexadecimal text: it decodes, and its length.
use stardelt_operator.Common.{
  ℕ, ◌+◌, ◌*◌, ◌/◌, ◌%◌, ◌≤◌, ◌<◌, ◌≡◌, refl, ◌⊎◌, inl, inr, List, [], ◌∷◌, arith, ltb, nat_eq,
  Bool-cases, length, All,
}
use stardelt_operator.Encoding.Digits.{hex_value, hex_value-digit_lower}
use stardelt_operator.Encoding.{Text, digit, hex}

abbrev pub IsByte : ℕ → Type 0
IsByte b = b < 256

abbrev pub IsHexDigit : ℕ → Type 0
IsHexDigit c = ((b'0' ≤ c) × (c ≤ b'9')) ⊎ ((b'a' ≤ c) × (c ≤ b'f'))

abbrev pub unhex : Text → List ℕ
unhex [] = []
unhex (h ∷ []) = []
unhex (h ∷ l ∷ rest) = (hex_value h * 16 + hex_value l) ∷ unhex rest

-- A text of two digits for each byte, from which the bytes are read back.
abbrev pub IsHexOf : List ℕ → Text → Type 0
IsHexOf bs t = (length t ≡ 2 * length bs) × All IsHexDigit t × (unhex t ≡ bs)

digit-IsHexDigit : (d : ℕ) → d < 16 → IsHexDigit (digit b'a' d)
digit-IsHexDigit d l = elim (Bool-cases (ltb d 10)) [
  | inl e ↦ inl (ground arith)
  | inr e ↦ inr (ground arith)
]

pub hex-IsHexOf : (bs : List ℕ) → All IsByte bs → IsHexOf bs (hex bs)
unfolding hex
hex-IsHexOf [] h = (refl, tt, refl)
hex-IsHexOf (b ∷ bs) (l, h) =
    let (size, digits, back) = hex-IsHexOf bs h in
    let high = hex_value-digit_lower (b / 16) (omega arith) in
    let low = hex_value-digit_lower (b % 16) (omega arith) in
    let same : hex_value (digit b'a' (b / 16)) * 16 + hex_value (digit b'a' (b % 16)) ≡ b =
      rw (high, low) (omega arith) in
    (
      omega (arith, size),
      (digit-IsHexDigit (b / 16) (omega arith), (digit-IsHexDigit (b % 16) (omega arith), digits)),
      cc (same, back),
    )
