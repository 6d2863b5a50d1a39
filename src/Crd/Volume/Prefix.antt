-- ===== src/Crd/Volume/Prefix.antt =====
-- The prefixes of managed volumes: no volume's files lie under another's prefix.
use Prim.Native.String
use text.Mathlib.TextLemmas.{nil-append, append_cancel_left, append_assoc}
use stardelt_operator.Common.{
  ℕ, String, ◌≡◌, refl, sym, ap, subst, ◌∙◌, ◌≢◌, inl, inr, none, List, [], ◌∷◌, arith,
  Option-cases, All, format, ok,
}
use stardelt_operator.Crd.Names.Slash.{HasNoSlash, split_slash, no_slash}
use stardelt_operator.Crd.Names.Shape.{IsLowerDash}
use stardelt_operator.Crd.Names.Resource.{IsResourceName}
use stardelt_operator.Crd.Volume.Valid.{volume_validate_iff}
use stardelt_operator.Crd.Volume.{VolumeSpec, validate, derived_prefix}

lower_no_slash : (bs : List ℕ) → All IsLowerDash bs → All (λ b. b ≢ b'/') bs
lower_no_slash [] h = tt
lower_no_slash (b ∷ bs) (c, h) = (ground arith, lower_no_slash bs h)

IsResourceName-HasNoSlash : (s : String) → IsResourceName s → HasNoSlash s
IsResourceName-HasNoSlash s ((c, cs, e, first, rest, few), dash) =
    no_slash s (subst (All (λ b. b ≢ b'/')) (sym e) (ground arith, lower_no_slash cs rest))

managed_prefix :
    (v : VolumeSpec) (name : String)
    → v.storage.managed ≢ none
    → derived_prefix v name ≡ format ("volumes/" ∷ v.catalog ∷ "/" ∷ name ∷ "/" ∷ [])
unfolding derived_prefix
managed_prefix v name m = elim (Option-cases v.storage.managed) [
  | inl e ↦ absurd (m e)
  | inr (x, e) ↦ rw e refl
]

-- Texts one after the other, and then a rest.
abbrev onto : List String → String → String
onto [] rest = rest
onto (p ∷ ps) rest = String.◌++◌ p (onto ps rest)

format-append : (ps : List String) (rest : String) → String.◌++◌ (format ps) rest ≡ onto ps rest
format-append [] rest = nil-append rest
format-append (p ∷ ps) rest =
    append_assoc p (format ps) rest ∙ ap (λ x. String.◌++◌ p x) (format-append ps rest)

parts :
    (a b c d rest : String)
    → HasNoSlash a
    → HasNoSlash b
    → HasNoSlash c
    → HasNoSlash d
    → format ("volumes/" ∷ c ∷ "/" ∷ d ∷ "/" ∷ [])
      ≡ String.◌++◌ (format ("volumes/" ∷ a ∷ "/" ∷ b ∷ "/" ∷ [])) rest
    → (a ≡ c) × (b ≡ d)
parts a b c d rest p q r s e =
    let cut =
      append_cancel_left "volumes/" _ _
        (e ∙ format-append ("volumes/" ∷ a ∷ "/" ∷ b ∷ "/" ∷ []) rest) in
    let (catalogs, names) =
      split_slash c a (format (d ∷ "/" ∷ [])) (onto (b ∷ "/" ∷ []) rest) r p cut in
    (sym catalogs, sym (split_slash d b (format []) rest s q names).0)

-- No two managed volumes nest: when the prefix of an accepted managed volume starts with that of another one, and the
-- catalogs have resource names, as the schema demands, the two have one catalog and one name.
pub derived_prefix-apart :
    (v w : VolumeSpec) (name other rest : String)
    → validate v name ≡ ok tt
    → validate w other ≡ ok tt
    → IsResourceName v.catalog
    → IsResourceName w.catalog
    → v.storage.managed ≢ none
    → w.storage.managed ≢ none
    → derived_prefix w other ≡ String.◌++◌ (derived_prefix v name) rest
    → (v.catalog ≡ w.catalog) × (name ≡ other)
derived_prefix-apart v w name other rest good fine mine theirs m n e =
    parts v.catalog name w.catalog other rest (IsResourceName-HasNoSlash v.catalog mine)
      (IsResourceName-HasNoSlash name ((volume_validate_iff v name).0 good).0)
      (IsResourceName-HasNoSlash w.catalog theirs)
      (IsResourceName-HasNoSlash other ((volume_validate_iff w other).0 fine).0)
      (sym (managed_prefix w other n) ∙ e ∙ ap (λ x. String.◌++◌ x rest) (managed_prefix v name m))
