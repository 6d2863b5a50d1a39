-- ===== src/Crd/Connection/Paths.antt =====
-- The paths in the secret store that connections read: no two accepted connections share one.
use Prim.Native.Char.{code}
use Prim.Native.String
use text.Mathlib.TextLemmas.{
  cons-append, append_cancel_left, append-nil, head-eq_of_cons-eq, tail-eq_of_cons-eq,
}
use stardelt_operator.Common.{
  ℕ, String, ◌≡◌, refl, sym, ap, subst, ◌∙◌, ◌≢◌, Bool, true, false, not, ◌||◌, Option, none, some,
  List, [], ◌∷◌, arith, nat_beq, nat_eq, string_eq, All, ok,
}
use stardelt_operator.Crd.Names.{}
use stardelt_operator.Crd.Names.Shape.{IsGroupByte, IsGroupName}
use stardelt_operator.Crd.Names.Slash.{HasNoSlash, split_slash, no_slash}
use stardelt_operator.Crd.Connection.{
  ConnectionScope, group, ConnectionSpec, validate, remote_ref_of, derived_remote_ref, managed,
}
use stardelt_operator.Crd.Connection.Valid.{HasScope, connection_validate_iff}

-- Two texts that differ at some common position.
abbrev differs : String → String → Bool
differs String.[] q = false
differs (String.◌∷◌ c p) String.[] = false
differs (String.◌∷◌ c p) (String.◌∷◌ d q) =
    let rest = differs p q in not (nat_beq (code c) (code d)) || rest

differs-append : (p q x y : String) → differs p q ≡ true → String.◌++◌ p x ≢ String.◌++◌ q y
differs-append String.[] q x y d e = cc
differs-append (String.◌∷◌ c p) String.[] x y d e = cc
differs-append (String.◌∷◌ c p) (String.◌∷◌ b q) x y d e =
    let same : String.◌∷◌ c (String.◌++◌ p x) ≡ String.◌∷◌ b (String.◌++◌ q y) =
      sym (cons-append c p x) ∙ e ∙ cons-append b q y in
    let heads = ap (λ z. code z) (head-eq_of_cons-eq same) in
    differs-append p q x y (ground arith) (tail-eq_of_cons-eq same)

group_no_slash : (bs : List ℕ) → All IsGroupByte bs → All (λ b. b ≢ b'/') bs
group_no_slash [] h = tt
group_no_slash (b ∷ bs) (c, h) = (ground arith, group_no_slash bs h)

IsGroupName-HasNoSlash : (g : String) → IsGroupName g → HasNoSlash g
IsGroupName-HasNoSlash g (c, cs, e, first, rest, few) =
    no_slash g (subst (All (λ b. b ≢ b'/')) (sym e) (ground arith, group_no_slash cs rest))

remote_ref_of-injective :
    (c d : ConnectionScope) (g h : Option String) (us vs : List String) (name other : String)
    → HasScope c g us
    → HasScope d h vs
    → remote_ref_of c g name ≡ remote_ref_of d h other
    → (c ≡ d) × (g ≡ h) × (name ≡ other)
remote_ref_of-injective group d none h us vs name other v w e = absurd v
remote_ref_of-injective group group (some g) none us vs name other v w e = absurd w
remote_ref_of-injective managed group g none us vs name other v w e = absurd w
remote_ref_of-injective group group (some g) (some h) us vs name other v w e =
    let tails = append_cancel_left "connections/group/" _ _ e in
    let (same, names) =
      split_slash g h (String.◌++◌ name "") (String.◌++◌ other "") (IsGroupName-HasNoSlash g v.0)
        (IsGroupName-HasNoSlash h w.0) tails in
    (refl, ap some same, sym (append-nil name) ∙ names ∙ append-nil other)
remote_ref_of-injective group managed (some g) h us vs name other v w e =
    absurd (differs-append "connections/group/" "connections/managed/" _ _ refl e)
remote_ref_of-injective managed group g (some h) us vs name other v w e =
    absurd (differs-append "connections/managed/" "connections/group/" _ _ refl e)
remote_ref_of-injective managed managed g h us vs name other v w e =
    let names = append_cancel_left "connections/managed/" _ _ e in
    (refl, v.0 ∙ sym w.0, sym (append-nil name) ∙ names ∙ append-nil other)

-- Accepted connections that read the same path have the same scope, owner and name.
pub derived_remote_ref-injective :
    (c d : ConnectionSpec) (name other : String)
    → validate c name ≡ ok tt
    → validate d other ≡ ok tt
    → derived_remote_ref c name ≡ derived_remote_ref d other
    → (c.scope ≡ d.scope) × (c.owner_group ≡ d.owner_group) × (name ≡ other)
unfolding derived_remote_ref
derived_remote_ref-injective c d name other v w e =
    let (_, (mine, _)) = (connection_validate_iff c name).0 v in
    let (_, (theirs, _)) = (connection_validate_iff d other).0 w in
    remote_ref_of-injective c.scope d.scope c.owner_group d.owner_group c.usable_by d.usable_by name
      other mine theirs e
