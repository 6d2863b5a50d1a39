-- ===== src/Crd/Names/Slash.antt =====
-- Texts without a slash, and paths cut at one.
use Prim.Native.Char.{Char, code}
use Prim.Native.String
use text.Mathlib.TextLemmas.{
  nil-append, cons-append, append_cancel_left, head-eq_of_cons-eq, tail-eq_of_cons-eq,
}
use stardelt_operator.Common.{
  ℕ, String, ◌≡◌, refl, sym, ap, subst, ◌∙◌, ◌≢◌, List, [], ◌∷◌, ◌++◌, nat_eq, string_eq, all, All,
  codes, utf8, bytes,
}
use stardelt_operator.Crd.Names.{}
use stardelt_operator.Crd.Names.Shape.{}
use stardelt_operator.Crd.Connection.{}
use stardelt_operator.Crd.Connection.Valid.{}

abbrev pub HasNoSlash : String → Type 0
HasNoSlash s = All (λ c. c ≢ b'/') (codes s)

-- The first character after an empty part is the slash.
starts_slash :
    (s w : String) (d : Char) (b t : String)
    → w ≡ String.◌∷◌ d b
    → String.◌++◌ "" (String.◌++◌ "/" s) ≡ String.◌++◌ w (String.◌++◌ "/" t)
    → b'/' ≡ code d
starts_slash s w d b t same e =
    let cut : String.◌++◌ w (String.◌++◌ "/" t) ≡ String.◌∷◌ d (String.◌++◌ b (String.◌++◌ "/" t)) =
      subst
        (λ x. String.◌++◌ x (String.◌++◌ "/" t) ≡ String.◌∷◌ d (String.◌++◌ b (String.◌++◌ "/" t)))
        (sym same) (cons-append d b (String.◌++◌ "/" t)) in
    ap (λ z. code z)
      (head-eq_of_cons-eq
        (sym (cons-append "/" "" s) ∙ sym (nil-append (String.◌++◌ "/" s)) ∙ e ∙ cut))

-- A path has one first part.
pub split_slash :
    (a b s t : String)
    → HasNoSlash a
    → HasNoSlash b
    → String.◌++◌ a (String.◌++◌ "/" s) ≡ String.◌++◌ b (String.◌++◌ "/" t)
    → (a ≡ b) × (s ≡ t)
split_slash String.[] String.[] s t p q e = (
  refl,
  append_cancel_left "/" s t
      (sym (nil-append (String.◌++◌ "/" s)) ∙ e ∙ nil-append (String.◌++◌ "/" t)),
)
split_slash String.[] (String.◌∷◌ d b) s t p (qd, q) e =
    absurd (qd (sym (starts_slash s (String.◌∷◌ d b) d b t refl e)))
split_slash (String.◌∷◌ c a) String.[] s t (pc, p) q e =
    absurd (pc (sym (starts_slash t (String.◌∷◌ c a) c a s refl (sym e))))
split_slash (String.◌∷◌ c a) (String.◌∷◌ d b) s t (pc, p) (qd, q) e =
    let same : String.◌∷◌ c (String.◌++◌ a (String.◌++◌ "/" s))
        ≡ String.◌∷◌ d (String.◌++◌ b (String.◌++◌ "/" t)) =
      sym (cons-append c a (String.◌++◌ "/" s)) ∙ e ∙ cons-append d b (String.◌++◌ "/" t) in
    let (ab, st) = split_slash a b s t p q (tail-eq_of_cons-eq same) in
    let heads = head-eq_of_cons-eq same in (cc, st)

All-tail_append : (P : ℕ → Type 0) (xs ys : List ℕ) → All P (xs ++ ys) → All P ys
All-tail_append P [] ys h = h
All-tail_append P (x ∷ xs) ys (p, h) = All-tail_append P xs ys h

-- A slash is one byte.
pub no_slash : (s : String) → All (λ b. b ≢ b'/') (bytes s) → HasNoSlash s
unfolding bytes
no_slash String.[] h = tt
no_slash (String.◌∷◌ c s) h = (
  λ e. one (code c) e h,
  no_slash s (All-tail_append (λ b. b ≢ b'/') (utf8 (code c)) (bytes s) h),
)
  where
    one : (n : ℕ) → n ≡ b'/' → All (λ b. b ≢ b'/') (utf8 n ++ bytes s) → ⊥
    one n e all = (subst (λ m. All (λ b. b ≢ b'/') (utf8 m ++ bytes s)) e all).0 refl
