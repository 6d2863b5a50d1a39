-- ===== src/Encoding/Base64.antt =====
-- URL-safe base64: it decodes, and its length.
use stardelt_operator.Common.{
  ℕ, ◌+◌, ◌*◌, ◌/◌, ◌%◌, ◌^◌, ◌<◌, ◌≡◌, refl, ap, List, [], ◌∷◌, arith, if◌then◌else◌, ◌==◌, nat_eq,
  length, All,
}
use stardelt_operator.Encoding.{Text, letter, position_of, push_chunk, base64_url}
use stardelt_operator.Encoding.Hex.{IsByte}
use stardelt_operator.Encoding.Digits.{letter_value, letter-value}

-- The bytes of four letters; `=` stands for a letter that is not there.
abbrev pub bytes_of : ℕ → ℕ → ℕ → ℕ → List ℕ → List ℕ
bytes_of w x y z rest =
    let g = letter_value w * 2 ^ 18 + letter_value x * 2 ^ 12 in
    if z == b'='
    then if y == b'='
      then (g / 2 ^ 16) ∷ rest
      else (g / 2 ^ 16) ∷ ((g + letter_value y * 2 ^ 6) / 2 ^ 8 % 256) ∷ rest
    else (g / 2 ^ 16)
      ∷ ((g + letter_value y * 2 ^ 6) / 2 ^ 8 % 256)
      ∷ ((g + letter_value y * 2 ^ 6 + letter_value z) % 256)
      ∷ rest

-- RFC 4648, section 5.
abbrev pub decoded : Text → List ℕ
decoded (w ∷ x ∷ y ∷ z ∷ rest) = bytes_of w x y z (decoded rest)
decoded t = []

abbrev IsBase64Of : List ℕ → ℕ → Text → Type 0
IsBase64Of bs chunks t = (length t ≡ 4 * chunks) × (decoded t ≡ bs)

-- The first, the second and the third byte of four letters.
first_byte :
    (a r w x : ℕ)
    → a < 256
    → r < 2 ^ 16
    → w ≡ (a * 2 ^ 16 + r) / 2 ^ 18 % 64
    → x ≡ (a * 2 ^ 16 + r) / 2 ^ 12 % 64
    → (w * 2 ^ 18 + x * 2 ^ 12) / 2 ^ 16 ≡ a
first_byte a r w x l k we xe = omega arith

second_byte :
    (a b c w x y : ℕ)
    → a < 256
    → b < 256
    → c < 256
    → w ≡ (a * 2 ^ 16 + b * 2 ^ 8 + c) / 2 ^ 18 % 64
    → x ≡ (a * 2 ^ 16 + b * 2 ^ 8 + c) / 2 ^ 12 % 64
    → y ≡ (a * 2 ^ 16 + b * 2 ^ 8 + c) / 2 ^ 6 % 64
    → (w * 2 ^ 18 + x * 2 ^ 12 + y * 2 ^ 6) / 2 ^ 8 % 256 ≡ b
second_byte a b c w x y la lb lc we xe ye = omega arith

third_byte :
    (a b c w x y z : ℕ)
    → a < 256
    → b < 256
    → c < 256
    → w ≡ (a * 2 ^ 16 + b * 2 ^ 8 + c) / 2 ^ 18 % 64
    → x ≡ (a * 2 ^ 16 + b * 2 ^ 8 + c) / 2 ^ 12 % 64
    → y ≡ (a * 2 ^ 16 + b * 2 ^ 8 + c) / 2 ^ 6 % 64
    → z ≡ (a * 2 ^ 16 + b * 2 ^ 8 + c) % 64
    → (w * 2 ^ 18 + x * 2 ^ 12 + y * 2 ^ 6 + z) % 256 ≡ c
third_byte a b c w x y z la lb lc we xe ye ze = omega arith

one_chunk : (a : ℕ) → IsByte a → IsBase64Of (a ∷ []) 1 (push_chunk 1 (a * 2 ^ 16) [])
unfolding push_chunk position_of
one_chunk a l =
    let (wv, wn) = letter-value (a * 2 ^ 16 / 2 ^ 18 % 64) (omega arith) in
    let (xv, xn) = letter-value (a * 2 ^ 16 / 2 ^ 12 % 64) (omega arith) in
    (
      refl,
      ap (λ b. b ∷ []) (first_byte a 0 _ _ l (omega arith) (omega (arith, wv)) (omega (arith, xv))),
    )

two_chunk :
    (a b : ℕ)
    → IsByte a
    → IsByte b
    → IsBase64Of (a ∷ b ∷ []) 1 (push_chunk 2 (a * 2 ^ 16 + b * 2 ^ 8) [])
unfolding push_chunk position_of
two_chunk a b la lb =
    let g = a * 2 ^ 16 + b * 2 ^ 8 in
    let w = letter_value (letter (g / 2 ^ 18 % 64)) in
    let (wv, wn) = letter-value (g / 2 ^ 18 % 64) (omega arith) in
    let x = letter_value (letter (g / 2 ^ 12 % 64)) in
    let (xv, xn) = letter-value (g / 2 ^ 12 % 64) (omega arith) in
    let y = letter_value (letter (g / 2 ^ 6 % 64)) in
    let (yv, yn) = letter-value (g / 2 ^ 6 % 64) (omega arith) in
    let first = first_byte a (b * 2 ^ 8) w x la (omega arith) wv xv in
    let second =
      second_byte a b 0 w x y la lb (omega arith) (omega (arith, wv)) (omega (arith, xv))
        (omega (arith, yv)) in
    (refl, rw yn (cc (first, second)))

three_chunk :
    (a b c : ℕ) (bs : List ℕ) (chunks : ℕ) (rest : Text)
    → IsByte a
    → IsByte b
    → IsByte c
    → IsBase64Of bs chunks rest
    → IsBase64Of (a ∷ b ∷ c ∷ bs) (chunks + 1) (push_chunk 3 (a * 2 ^ 16 + b * 2 ^ 8 + c) rest)
unfolding push_chunk position_of
three_chunk a b c bs chunks rest la lb lc (size, back) =
    let g = a * 2 ^ 16 + b * 2 ^ 8 + c in
    let w = letter_value (letter (g / 2 ^ 18 % 64)) in
    let (wv, wn) = letter-value (g / 2 ^ 18 % 64) (omega arith) in
    let x = letter_value (letter (g / 2 ^ 12 % 64)) in
    let (xv, xn) = letter-value (g / 2 ^ 12 % 64) (omega arith) in
    let y = letter_value (letter (g / 2 ^ 6 % 64)) in
    let (yv, yn) = letter-value (g / 2 ^ 6 % 64) (omega arith) in
    let z = letter_value (letter (g / 2 ^ 0 % 64)) in
    let (zv, zn) = letter-value (g / 2 ^ 0 % 64) (omega arith) in
    let first =
      first_byte a (b * 2 ^ 8 + c) w x la (omega arith) (omega (arith, wv)) (omega (arith, xv)) in
    let second = second_byte a b c w x y la lb lc wv xv yv in
    let third = third_byte a b c w x y z la lb lc wv xv yv (omega (arith, zv)) in
    (omega (arith, size), rw zn (cc (first, second, third, back)))

abbrev pub chunks_of : List ℕ → ℕ
chunks_of bs = (length bs + 2) / 3

-- The text of `base64_url` has four characters for every three bytes begun, and decodes to the bytes.
pub decoded-base64_url :
    (bs : List ℕ)
    → All IsByte bs
    → (length (base64_url bs) ≡ 4 * chunks_of bs) × (decoded (base64_url bs) ≡ bs)
unfolding base64_url
decoded-base64_url [] h = (refl, refl)
decoded-base64_url (a ∷ []) (la, h) = one_chunk a la
decoded-base64_url (a ∷ b ∷ []) (la, (lb, h)) = two_chunk a b la lb
decoded-base64_url (a ∷ b ∷ c ∷ bs) (la, (lb, (lc, h))) =
    let (size, back) =
      three_chunk a b c bs (chunks_of bs) (base64_url bs) la lb lc (decoded-base64_url bs h) in
    (omega (arith, size), back)
