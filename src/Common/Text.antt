-- ===== src/Common/Text.antt =====
-- Rust's `str`: its characters, its UTF-8 bytes, the ASCII classes, substrings and `format!`.
use Prim.Native.Nat.{ℕ, ◌+◌, ◌/◌, ◌%◌}
use Prim.Native.Char.{code}
use Prim.Native.String
use Prim.Native.String.{String}
use mathlib.Core.Path.{◌≡◌, refl, sym, ap, subst, ◌∙◌}
use mathlib.Core.Logic.{◌≢◌, ◌↔◌, inl, inr}
use mathlib.Core.Bool.{Bool, true, false, ◌&&◌, ◌||◌}
use mathlib.Core.List.{List, [], ◌∷◌, ◌++◌}
use native.Mathlib.Omega.{arith}
use stardelt_operator.Common.Tests.{
  ltb, leb, nat_beq, nat_beq_iff, if◌then◌else◌, Bool-cases, Option-cases, some-injective,
  and-true_iff, false_iff,
}
use mathlib.Core.Option.{Option, none, some}
use stardelt_operator.Common.Lists.{length, All, length-append}

abbrev pub codes : String → List ℕ
codes String.[] = []
codes (String.◌∷◌ c s) = code c ∷ codes s

-- The UTF-8 encoding of one code point.
abbrev pub utf8 : ℕ → List ℕ
utf8 c =
    if ltb c 0x80
    then c ∷ []
    else if ltb c 0x800
    then (0xC0 + c / 64) ∷ (0x80 + c % 64) ∷ []
    else if ltb c 0x10000
    then (0xE0 + c / 4096) ∷ (0x80 + c / 64 % 64) ∷ (0x80 + c % 64) ∷ []
    else (0xF0 + c / 262144) ∷ (0x80 + c / 4096 % 64) ∷ (0x80 + c / 64 % 64) ∷ (0x80 + c % 64) ∷ []

-- `s.as_bytes()`
unfoldable pub bytes : String → List ℕ
bytes String.[] = []
bytes (String.◌∷◌ c s) = utf8 (code c) ++ bytes s

abbrev pub is_ascii_lowercase : ℕ → Bool
is_ascii_lowercase b = leb b'a' b && leb b b'z'

abbrev pub is_ascii_uppercase : ℕ → Bool
is_ascii_uppercase b = leb b'A' b && leb b b'Z'

abbrev pub is_ascii_digit : ℕ → Bool
is_ascii_digit b = leb b'0' b && leb b b'9'

abbrev pub is_ascii_alphabetic : ℕ → Bool
is_ascii_alphabetic b = is_ascii_lowercase b || is_ascii_uppercase b

abbrev pub is_ascii_alphanumeric : ℕ → Bool
is_ascii_alphanumeric b = is_ascii_alphabetic b || is_ascii_digit b

-- `to_ascii_lowercase` of one byte.
abbrev pub ascii_lower : ℕ → ℕ
ascii_lower b = if is_ascii_uppercase b then b + 32 else b

-- `hay.starts_with(needle)` and `hay.contains(needle)` on bytes: UTF-8 is self-synchronising, so
-- these are the tests on characters.
unfoldable pub starts : List ℕ → List ℕ → Bool
starts hay [] = true
starts [] (n ∷ ns) = false
starts (h ∷ hs) (n ∷ ns) = nat_beq h n && starts hs ns

unfoldable pub contains_bytes : List ℕ → List ℕ → Bool
unfolding starts
contains_bytes [] needle = starts [] needle
contains_bytes (h ∷ hs) needle = starts (h ∷ hs) needle || contains_bytes hs needle

-- `needle` stands somewhere in `hay`.
abbrev pub IsInfix : List ℕ → List ℕ → Type 0
IsInfix hay needle = (before : List ℕ) × (after : List ℕ) × (hay ≡ before ++ (needle ++ after))

starts_sound :
    (hay needle : List ℕ) → starts hay needle ≡ true → (after : List ℕ) × (hay ≡ needle ++ after)
unfolding starts
starts_sound hay [] h = (hay, refl)
starts_sound [] (n ∷ ns) h = cc
starts_sound (x ∷ hs) (n ∷ ns) h =
    let (same, more) = (and-true_iff (nat_beq x n) (starts hs ns)).0 h in
    let (after, e) = starts_sound hs ns more in (after, cc ((nat_beq_iff x n).0 same, e))

starts-append : (needle after : List ℕ) → starts (needle ++ after) needle ≡ true
unfolding starts
starts-append [] [] = refl
starts-append [] (a ∷ after) = refl
starts-append (n ∷ ns) after =
    (and-true_iff _ _).1 ((nat_beq_iff n n).1 refl, starts-append ns after)

contains_bytes_of_starts :
    (hay needle : List ℕ) → starts hay needle ≡ true → contains_bytes hay needle ≡ true
unfolding contains_bytes
contains_bytes_of_starts [] needle h = h
contains_bytes_of_starts (x ∷ hs) needle h = ground arith

contains_bytes-append :
    (before needle after : List ℕ) → contains_bytes (before ++ (needle ++ after)) needle ≡ true
unfolding contains_bytes
contains_bytes-append [] needle after =
    contains_bytes_of_starts (needle ++ after) needle (starts-append needle after)
contains_bytes-append (x ∷ before) needle after =
    ground (arith, contains_bytes-append before needle after)

contains_bytes_sound : (hay needle : List ℕ) → contains_bytes hay needle ≡ true → IsInfix hay needle
unfolding contains_bytes
contains_bytes_sound [] needle h = let (after, e) = starts_sound [] needle h in ([], after, e)
contains_bytes_sound (x ∷ hs) needle h = elim (Bool-cases (starts (x ∷ hs) needle)) [
  | inl here ↦ let (after, e) = starts_sound (x ∷ hs) needle here in ([], after, e)
  | inr later ↦
      let (before, after, e) = contains_bytes_sound hs needle (ground arith) in
      (x ∷ before, after, ap (λ l. x ∷ l) e)
]

pub contains_bytes_iff :
    (hay needle : List ℕ) → (contains_bytes hay needle ≡ true) ↔ IsInfix hay needle
contains_bytes_iff hay needle = (
  contains_bytes_sound hay needle,
  λ (before, after, e).
      subst (λ l. contains_bytes l needle ≡ true) (sym e)
        (contains_bytes-append before needle after),
)

-- `s.split(sep)` on bytes; a text with no separator is one part.
extend : ℕ → List (List ℕ) → List (List ℕ)
extend b [] = (b ∷ []) ∷ []
extend b (part ∷ parts) = (b ∷ part) ∷ parts

unfoldable pub split_on : ℕ → List ℕ → List (List ℕ)
unfolding extend
split_on sep [] = [] ∷ []
split_on sep (b ∷ bs) =
    let parts = split_on sep bs in if nat_beq b sep then [] ∷ parts else extend b parts

-- The parts with the separator between them.
abbrev pub join : ℕ → List (List ℕ) → List ℕ
join sep [] = []
join sep (part ∷ []) = part
join sep (part ∷ next ∷ parts) = part ++ (sep ∷ join sep (next ∷ parts))

split_on-cons :
    (sep : ℕ) (bs : List ℕ)
    → (part : List ℕ) × (parts : List (List ℕ)) × (split_on sep bs ≡ part ∷ parts)
unfolding split_on
split_on-cons sep [] = ([], [], refl)
split_on-cons sep (b ∷ bs) = elim (Bool-cases (nat_beq b sep)) [
  | inl here ↦ ([], split_on sep bs, rw here)
  | inr other ↦ let (part, parts, e) = split_on-cons sep bs in (b ∷ part, parts, rw (other, e))
]

join-extend :
    (sep b : ℕ) (part : List ℕ) (parts : List (List ℕ))
    → join sep ((b ∷ part) ∷ parts) ≡ b ∷ join sep (part ∷ parts)
join-extend sep b part [] = refl
join-extend sep b part (next ∷ parts) = refl

pub join-split_on : (sep : ℕ) (bs : List ℕ) → join sep (split_on sep bs) ≡ bs
unfolding split_on
join-split_on sep [] = refl
join-split_on sep (b ∷ bs) =
    let (part, parts, e) = split_on-cons sep bs in
    let ih = join-split_on sep bs in
    let ih' : join sep (part ∷ parts) ≡ bs = rw e at ih in
    elim (Bool-cases (nat_beq b sep)) [
      | inl here ↦ rw (here, e) (cc ((nat_beq_iff b sep).0 here, ih'))
      | inr other ↦ rw (other, e) (join-extend sep b part parts ∙ ap (λ l. b ∷ l) ih')
    ]

-- A text without the separator is one part; one separator cuts it off.
pub split_on-none : (sep : ℕ) (bs : List ℕ) → All (λ b. b ≢ sep) bs → split_on sep bs ≡ bs ∷ []
unfolding split_on
split_on-none sep [] h = refl
split_on-none sep (b ∷ bs) (n, h) =
    rw ((false_iff _ (nat_beq_iff b sep)).1 n, split_on-none sep bs h)

pub split_on-append :
    (sep : ℕ) (part rest : List ℕ)
    → All (λ b. b ≢ sep) part
    → split_on sep (part ++ (sep ∷ rest)) ≡ part ∷ split_on sep rest
unfolding split_on
split_on-append sep [] rest h = rw ((nat_beq_iff sep sep).1 refl)
split_on-append sep (b ∷ part) rest (n, h) =
    rw ((false_iff _ (nat_beq_iff b sep)).1 n, split_on-append sep part rest h)

bytes_beq : List ℕ → List ℕ → Bool
bytes_beq [] [] = true
bytes_beq (a ∷ xs) (b ∷ ys) = nat_beq a b && bytes_beq xs ys
bytes_beq _ _ = false

bytes_beq_sound : (xs ys : List ℕ) → bytes_beq xs ys ≡ true → xs ≡ ys
unfolding bytes_beq
bytes_beq_sound [] [] h = refl
bytes_beq_sound [] (b ∷ ys) h = cc
bytes_beq_sound (a ∷ xs) [] h = cc
bytes_beq_sound (a ∷ xs) (b ∷ ys) h =
    let (same, more) = (and-true_iff (nat_beq a b) (bytes_beq xs ys)).0 h in
    cc ((nat_beq_iff a b).0 same, bytes_beq_sound xs ys more)

bytes_beq_refl : (xs : List ℕ) → bytes_beq xs xs ≡ true
unfolding bytes_beq
bytes_beq_refl [] = refl
bytes_beq_refl (a ∷ xs) = rw ((nat_beq_iff a a).1 refl, bytes_beq_refl xs)

cons_onto : ℕ → Option (List ℕ) → Option (List ℕ)
cons_onto b none = none
cons_onto b (some stem) = some (b ∷ stem)

-- `s.strip_suffix(suffix)` on bytes.
unfoldable pub strip_suffix : List ℕ → List ℕ → Option (List ℕ)
unfolding bytes_beq cons_onto
strip_suffix [] suffix = if bytes_beq [] suffix then some [] else none
strip_suffix (b ∷ bs) suffix =
    let rest = cons_onto b (strip_suffix bs suffix) in
    if bytes_beq (b ∷ bs) suffix then some [] else rest

pub strip_suffix_sound :
    (hay suffix stem : List ℕ) → strip_suffix hay suffix ≡ some stem → hay ≡ stem ++ suffix
unfolding strip_suffix
strip_suffix_sound [] suffix stem h = elim (Bool-cases (bytes_beq [] suffix)) [
  | inl same ↦
      let e : some [] ≡ some stem = rw same at h in
      bytes_beq_sound [] suffix same ∙ ap (λ (l : List ℕ). l ++ suffix) (some-injective e)
  | inr other ↦ let e : none ≡ some stem = rw other at h in cc
]
strip_suffix_sound (b ∷ bs) suffix stem h = elim (Bool-cases (bytes_beq (b ∷ bs) suffix)) [
  | inl same ↦
      let e : some [] ≡ some stem = rw same at h in
      bytes_beq_sound (b ∷ bs) suffix same ∙ ap (λ (l : List ℕ). l ++ suffix) (some-injective e)
  | inr other ↦ elim (Option-cases (strip_suffix bs suffix)) [
    | inl gone ↦ let e : none ≡ some stem = rw (other, gone) at h in cc
    | inr (rest, found) ↦
        let e : some (b ∷ rest) ≡ some stem = rw (other, found) at h in
        ap (λ l. b ∷ l) (strip_suffix_sound bs suffix rest found)
        ∙ ap (λ (l : List ℕ). l ++ suffix) (some-injective e)
  ]
]

pub strip_suffix-append : (stem suffix : List ℕ) → strip_suffix (stem ++ suffix) suffix ≡ some stem
unfolding strip_suffix
strip_suffix-append [] [] = refl
strip_suffix-append [] (b ∷ suffix) = rw (bytes_beq_refl (b ∷ suffix))
strip_suffix-append (c ∷ stem) suffix =
    elim (Bool-cases (bytes_beq (c ∷ (stem ++ suffix)) suffix)) [
      | inl same ↦
          let e =
            ap (λ (l : List ℕ). length l) (bytes_beq_sound (c ∷ (stem ++ suffix)) suffix same) in
          absurd (omega (arith, length-append stem suffix))
      | inr other ↦ rw (other, strip_suffix-append stem suffix)
    ]

-- `format!` over its pieces.
abbrev pub format : List String → String
format [] = ""
format (p ∷ ps) = String.◌++◌ p (format ps)
