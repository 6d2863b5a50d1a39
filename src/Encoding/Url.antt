-- ===== src/Encoding/Url.antt =====
-- Percent encoding: it decodes, and its characters.
use stardelt_operator.Common.{
  ℕ, ◌+◌, ◌*◌, ◌/◌, ◌%◌, ◌<◌, String, ◌≡◌, refl, ap, ◌∙◌, ◌⊎◌, inl, inr, true, false, List, [], ◌∷◌,
  ◌++◌, arith, nat_beq, if◌then◌else◌, ◌==◌, nat_eq, Bool-cases, All, utf8, bytes,
}
use Prim.Native.Char.{char, IsScalar}
use stardelt_operator.Encoding.Digits.{hex_value, hex_value-digit_upper}
use stardelt_operator.Encoding.Hex.{IsByte}
use stardelt_operator.Encoding.{Text, digit, is_unreserved, escaped, url_encode_component}

-- The bytes that a text with escapes stands for.
abbrev pub unescaped : Text → List ℕ
unescaped [] = []
unescaped (c ∷ []) = c ∷ []
unescaped (c ∷ d ∷ []) = c ∷ unescaped (d ∷ [])
unescaped (c ∷ d ∷ e ∷ rest) =
    let plain = c ∷ unescaped (d ∷ e ∷ rest) in
    let escape = (hex_value d * 16 + hex_value e) ∷ unescaped rest in
    if c == b'%' then escape else plain

-- The unreserved characters of RFC 3986 and the escape.
abbrev pub IsUrlSafe : ℕ → Type 0
IsUrlSafe c = (is_unreserved c ≡ true) ⊎ (c ≡ b'%')

unreserved_no_escape : (b : ℕ) → is_unreserved b ≡ true → nat_beq b b'%' ≡ false
unreserved_no_escape b u = ground arith

unescaped-plain : (b : ℕ) (t : Text) → is_unreserved b ≡ true → unescaped (b ∷ t) ≡ b ∷ unescaped t
unescaped-plain b [] u = refl
unescaped-plain b (c ∷ []) u = refl
unescaped-plain b (c ∷ d ∷ rest) u = rw (unreserved_no_escape b u) refl

escaped_lem :
    (bs : List ℕ) → All IsByte bs → (unescaped (escaped bs) ≡ bs) × All IsUrlSafe (escaped bs)
unfolding escaped
escaped_lem [] h = (refl, tt)
escaped_lem (b ∷ bs) (l, h) =
    let (back, safe) = escaped_lem bs h in
    elim (Bool-cases (is_unreserved b)) [
      | inl u ↦ rw u (unescaped-plain b (escaped bs) u ∙ ap (λ x. b ∷ x) back, (inl u, safe))
      | inr n ↦
          let high = hex_value-digit_upper (b / 16) (omega arith) in
          let low = hex_value-digit_upper (b % 16) (omega arith) in
          let same : hex_value (digit b'A' (b / 16)) * 16 + hex_value (digit b'A' (b % 16)) ≡ b =
            rw (high, low) (omega arith) in
          rw n (
            cc (same, back),
            (
              inr refl,
              (upper_is_safe (b / 16) (omega arith), (upper_is_safe (b % 16) (omega arith), safe)),
            ),
          )
    ]
  where
    upper_is_safe : (d : ℕ) → d < 16 → IsUrlSafe (digit b'A' d)
    upper_is_safe d l = inl (ground arith)

All-append : (xs ys : List ℕ) → All IsByte xs → All IsByte ys → All IsByte (xs ++ ys)
All-append [] ys h k = k
All-append (x ∷ xs) ys (l, h) k = (l, All-append xs ys h k)

utf8-IsByte : (n : ℕ) → IsScalar n → All IsByte (utf8 n)
utf8-IsByte n p = ground arith

bytes-IsByte : (s : String) → All IsByte (bytes s)
unfolding bytes
bytes-IsByte String.[] = tt
bytes-IsByte (String.◌∷◌ (char n p) s) =
    All-append (utf8 n) (bytes s) (utf8-IsByte n p) (bytes-IsByte s)

-- The encoding of a text has no character outside the unreserved ones and the escape, and it stands
-- for the text's bytes.
pub unescaped-url_encode_component :
    (s : String)
    → (unescaped (url_encode_component s) ≡ bytes s) × All IsUrlSafe (url_encode_component s)
unfolding url_encode_component
unescaped-url_encode_component s = escaped_lem (bytes s) (bytes-IsByte s)
