-- ===== src/Crd/Names/Shape.antt =====
-- What an accepted name looks like, written without the code's tests.
use stardelt_operator.Common.{
  ℕ, suc, ◌≤◌, String, ◌≡◌, refl, sym, subst, ◌↔◌, ◌⊎◌, inl, Bool, true, ◌&&◌, ◌||◌, List, [], ◌∷◌,
  arith, leb, ◌==◌, nat_eq, string_eq, length, all, All, all_iff, bytes, is_ascii_lowercase,
  is_ascii_digit, is_ascii_alphabetic, is_ascii_alphanumeric,
}
use stardelt_operator.Crd.Names.{
  word_ok, lower_dash, group_byte, catalog_name_ok, group_name_ok, key_ok, data_identifier_ok,
  catalog_ok,
}

abbrev pub IsLower : ℕ → Type 0
IsLower b = (b'a' ≤ b) × (b ≤ b'z')

abbrev pub IsUpper : ℕ → Type 0
IsUpper b = (b'A' ≤ b) × (b ≤ b'Z')

abbrev pub IsDigit : ℕ → Type 0
IsDigit b = (b'0' ≤ b) × (b ≤ b'9')

abbrev pub IsLetter : ℕ → Type 0
IsLetter b = IsLower b ⊎ IsUpper b

abbrev pub IsLetterDigit : ℕ → Type 0
IsLetterDigit b = IsLetter b ⊎ IsDigit b

-- `First Rest*`, at most `max` bytes.
abbrev pub IsWord : ℕ → (ℕ → Type 0) → (ℕ → Type 0) → List ℕ → Type 0
IsWord max First Rest bs =
    (c : ℕ) × (cs : List ℕ) × (bs ≡ c ∷ cs) × First c × All Rest cs × (length bs ≤ max)

cons-injective : {a b : ℕ} {xs ys : List ℕ} → (a ∷ xs) ≡ (b ∷ ys) → (a ≡ b) × (xs ≡ ys)
cons-injective e = (cc, cc)

and4 :
    (a b c d : Bool) → (true && a && b && (c && d)) ≡ true → (a ≡ true) × ((b ≡ true) × (d ≡ true))
and4 a b c d h = ground arith

and4_back :
    (a b c d : Bool)
    → a ≡ true
    → b ≡ true
    → c ≡ true
    → d ≡ true
    → (true && a && b && (c && d)) ≡ true
and4_back a b c d h k l m = ground arith

pub word_ok_iff :
    {First Rest : ℕ → Type 0} (max : ℕ) (first rest : ℕ → Bool)
    → ((b : ℕ) → (first b ≡ true) ↔ First b)
    → ((b : ℕ) → (rest b ≡ true) ↔ Rest b)
    → ((b : ℕ) → First b → Rest b)
    → (bs : List ℕ) → (word_ok max first rest bs ≡ true) ↔ IsWord max First Rest bs
word_ok_iff {First} {Rest} max first rest f r sub bs = (there bs, back bs)
  where
    there : (bs : List ℕ) → word_ok max first rest bs ≡ true → IsWord max First Rest bs
    there [] h = cc
    there (c ∷ cs) h =
        let (h2, h3) = and4 (leb (suc (length cs)) max) (first c) (rest c) (all rest cs) h in
        (c, cs, refl, (f c).0 h3.0, (all_iff rest cs r).0 h3.1, ground arith)

    back : (bs : List ℕ) → IsWord max First Rest bs → word_ok max first rest bs ≡ true
    back [] (c, cs, e, _, _, _) = cc
    back (b ∷ bs') (c, cs, e, here, later, len) =
        let (same, tails) = cons-injective e in
        and4_back (leb (suc (length bs')) max) (first b) (rest b) (all rest bs') (ground arith)
          ((f b).1 (subst First (sym same) here)) ((r b).1 (sub b (subst First (sym same) here)))
          ((all_iff rest bs' r).1 (subst (All Rest) (sym tails) later))

abbrev pub IsGroupByte : ℕ → Type 0
IsGroupByte b = IsLetterDigit b ⊎ (b ≡ b'.') ⊎ (b ≡ b'_') ⊎ (b ≡ b'-')

abbrev pub IsGroupName : String → Type 0
IsGroupName s = IsWord 64 IsLetterDigit IsGroupByte (bytes s)

-- `group_name_ok` accepts exactly 1 to 64 bytes, a letter or digit and then letters, digits, dots,
-- underscores and dashes.
pub group_name_ok_iff : (s : String) → (group_name_ok s ≡ true) ↔ IsGroupName s
unfolding group_name_ok
group_name_ok_iff s =
    word_ok_iff 64 is_ascii_alphanumeric group_byte (λ b. ground arith) (λ b. ground arith)
      (λ b h. inl h) (bytes s)

abbrev pub IsLowerDigit : ℕ → Type 0
IsLowerDigit b = IsLower b ⊎ IsDigit b

abbrev pub IsLowerDash : ℕ → Type 0
IsLowerDash b = IsLower b ⊎ IsDigit b ⊎ (b ≡ b'-')

-- `catalog_name_ok` accepts exactly 1 to 40 lower-case letters and digits, a letter first.
pub catalog_name_ok_iff :
    (s : String) → (catalog_name_ok s ≡ true) ↔ IsWord 40 IsLower IsLowerDigit (bytes s)
unfolding catalog_name_ok
catalog_name_ok_iff s =
    word_ok_iff 40 is_ascii_lowercase (λ b. is_ascii_lowercase b || is_ascii_digit b)
      (λ b. ground arith) (λ b. ground arith) (λ b h. inl h) (bytes s)

pub key_ok_iff :
    (s : String)
    → (key_ok s ≡ true) ↔ IsWord 63 IsLetter (λ b. IsLetterDigit b ⊎ (b ≡ b'_')) (bytes s)
unfolding key_ok
key_ok_iff s =
    word_ok_iff 63 is_ascii_alphabetic (λ b. is_ascii_alphanumeric b || b == b'_')
      (λ b. ground arith) (λ b. ground arith) (λ b h. inl (inl h)) (bytes s)

abbrev pub IsColumnByte : ℕ → Type 0
IsColumnByte b = IsLowerDigit b ⊎ (b ≡ b'_') ⊎ (b ≡ b'-')

abbrev pub IsColumnName : List ℕ → Type 0
IsColumnName bs = IsWord 63 IsLower IsColumnByte bs

pub data_identifier_ok_iff : (s : List ℕ) → (data_identifier_ok s ≡ true) ↔ IsColumnName s
unfolding data_identifier_ok
data_identifier_ok_iff s =
    word_ok_iff 63 is_ascii_lowercase
      (λ b. is_ascii_lowercase b || is_ascii_digit b || b == b'_' || b == b'-') (λ b. ground arith)
      (λ b. ground arith) (λ b h. inl (inl h)) s

pub catalog_ok_iff :
    (s : String) → (catalog_ok s ≡ true) ↔ IsWord 63 IsLowerDigit IsLowerDash (bytes s)
unfolding catalog_ok
catalog_ok_iff s =
    word_ok_iff 63 (λ b. is_ascii_lowercase b || is_ascii_digit b) lower_dash (λ b. ground arith)
      (λ b. ground arith) (λ b h. ground arith) (bytes s)
