-- ===== src/Crd/Names/Resource.antt =====
-- The names of Connections, Volumes, ServicePrincipals, StreamApps and SqlWarehouses.
use stardelt_operator.Common.{
  ℕ, ◌-◌, String, ◌≡◌, refl, sym, ap, ◌∙◌, ◌≢◌, ◌↔◌, inl, Bool, true, not, ◌&&◌, some, List, [],
  ◌∷◌, ◌++◌, arith, leb, ◌==◌, nat_eq, string_eq, length, get_elem?, all, is_empty, length-append,
  bytes, is_ascii_lowercase,
}
use stardelt_operator.Crd.Names.{byte_is, word_ok, lower_dash, name_ok}
use stardelt_operator.Crd.Names.Shape.{IsLower, IsWord, word_ok_iff, IsLowerDash}

-- 1 to 40 lower-case letters, digits and dashes, a letter first and no dash last.
abbrev pub IsResourceName : String → Type 0
IsResourceName s =
    IsWord 40 IsLower IsLowerDash (bytes s) × ((before : List ℕ) → bytes s ≢ before ++ b'-' ∷ [])

snoc_view : (c : ℕ) (cs : List ℕ) → (before : List ℕ) × (z : ℕ) × ((c ∷ cs) ≡ before ++ z ∷ [])
snoc_view c [] = ([], c, refl)
snoc_view c (d ∷ ds) = let (before, z, e) = snoc_view d ds in (c ∷ before, z, ap (λ l. c ∷ l) e)

get_elem?-last : (before : List ℕ) (z : ℕ) → get_elem? (before ++ z ∷ []) (length before) ≡ some z
get_elem?-last [] z = refl
get_elem?-last (c ∷ cs) z = get_elem?-last cs z

abbrev no_dash : ℕ → Bool
no_dash b = not (b == b'-')

byte_is-some :
    (bs : List ℕ) (i : ℕ) (p : ℕ → Bool) (z : ℕ) → get_elem? bs i ≡ some z → byte_is bs i p ≡ p z
byte_is-some bs i p z e = ground arith

last_byte_iff :
    (before : List ℕ) (z : ℕ) (bs : List ℕ)
    → bs ≡ before ++ z ∷ []
    → byte_is bs (length bs - 1) no_dash ≡ no_dash z
last_byte_iff before z bs e =
    let len : length bs - 1 ≡ length before =
      omega (arith, ap (λ (l : List ℕ). length l) e, length-append before (z ∷ [])) in
    rw (len, e)
      (byte_is-some (before ++ z ∷ []) (length before) no_dash z (get_elem?-last before z))

last-injective : (xs ys : List ℕ) (y z : ℕ) → xs ++ y ∷ [] ≡ ys ++ z ∷ [] → y ≡ z
last-injective [] [] y z e = cc
last-injective (x ∷ xs) (w ∷ ys) y z e = last-injective xs ys y z (cc)
last-injective [] (w ∷ ys) y z e =
    absurd (omega (arith, ap (λ (l : List ℕ). length l) e, length-append ys (z ∷ [])))
last-injective (x ∷ xs) [] y z e =
    absurd (omega (arith, ap (λ (l : List ℕ). length l) e, length-append xs (y ∷ [])))

and5_iff :
    (n a b c d : Bool)
    → ((n && a && b && c && d) ≡ true) ↔ (((n && a && b && d) ≡ true) × (c ≡ true))
and5_iff n a b c d = ground arith

name_ok_parts :
    (s : String)
    → (name_ok s ≡ true) ↔ (
        (word_ok 40 is_ascii_lowercase lower_dash (bytes s) ≡ true)
        × (byte_is (bytes s) (length (bytes s) - 1) no_dash ≡ true))
unfolding name_ok
name_ok_parts s =
    let bs = bytes s in
    and5_iff (not (is_empty bs)) (leb (length bs) 40) (byte_is bs 0 is_ascii_lowercase)
      (byte_is bs (length bs - 1) no_dash) (all lower_dash bs)

-- The last byte is no dash exactly when no prefix is followed by a single dash.
no_dash_last_iff :
    (b : ℕ) (bs : List ℕ)
    → (byte_is (b ∷ bs) (length (b ∷ bs) - 1) no_dash ≡ true)
      ↔ ((before : List ℕ) → (b ∷ bs) ≢ before ++ b'-' ∷ [])
no_dash_last_iff b bs =
    let (before, z, e) = snoc_view b bs in
    let last = last_byte_iff before z (b ∷ bs) e in
    (
      λ h other e'.
          let same = last-injective before other z b'-' (sym e ∙ e') in cc (sym last ∙ h, same),
      λ f. last ∙ no_dash_of (λ same. f before (e ∙ ap (λ y. before ++ y ∷ []) same)),
    )
  where
    no_dash_of : {y : ℕ} → y ≢ b'-' → no_dash y ≡ true
    no_dash_of h = ground arith

-- `name_ok` accepts exactly the names of 1 to 40 bytes that are lower-case letters, digits and
-- dashes, start with a letter and do not end with a dash.
pub name_ok_iff : (s : String) → (name_ok s ≡ true) ↔ IsResourceName s
name_ok_iff s =
    let (there, back) = name_ok_parts s in
    let (word, word') =
      word_ok_iff {First = IsLower} {Rest = IsLowerDash} 40 is_ascii_lowercase lower_dash
        (λ b. ground arith) (λ b. ground arith) (λ b h. inl h) (bytes s) in
    (
      λ h. let (w, l) = there h in let v = word w in (v, (no_dash_last v.2).0 l),
      λ h. back (word' h.0, (no_dash_last h.0.2).1 h.1),
    )
  where
    no_dash_last :
        {b : ℕ} {bs : List ℕ}
        → bytes s ≡ b ∷ bs
        → (byte_is (bytes s) (length (bytes s) - 1) no_dash ≡ true)
          ↔ ((before : List ℕ) → bytes s ≢ before ++ b'-' ∷ [])
    no_dash_last {b} {bs} e = rw e (no_dash_last_iff b bs)
