-- ===== src/Crd/Principal/Valid.antt =====
-- What an accepted principal is, and that `validate` accepts nothing else.
use stardelt_operator.Common.{
  String, ◌≡◌, refl, sym, ◌≢◌, ◌↔◌, false, ◌||◌, eq_iff, List, [], ◌∷◌, map, string_eq, length,
  is_empty, length-map, Distinct, Distinct-map_back, Distinct-map, repeats_iff, reject_then_iff,
  last_iff, not-false_iff, ok,
}
use stardelt_operator.Crd.Names.{name_ok, group_name_ok}
use stardelt_operator.Crd.Names.Shape.{IsGroupName, group_name_ok_iff}
use stardelt_operator.Crd.Names.Resource.{IsResourceName, name_ok_iff}
use stardelt_operator.Crd.Principal.{
  PrincipalAudience, trino, ServicePrincipalSpec, debug, repeats_audience, validate, lakekeeper,
}

-- One audience, or both in either order.
abbrev pub IsAudienceList : List PrincipalAudience → Type 0
IsAudienceList xs = (xs ≢ []) × Distinct xs

abbrev pub IsValid : ServicePrincipalSpec → String → Type 0
IsValid p name = IsResourceName name × (IsGroupName p.owner_group × IsAudienceList p.audiences)

debug-injective : (a b : PrincipalAudience) → debug a ≡ debug b → a ≡ b
unfolding debug
debug-injective trino trino e = refl
debug-injective lakekeeper lakekeeper e = refl
debug-injective trino lakekeeper e = let h = (eq_iff "Trino" "Lakekeeper").1 e in cc
debug-injective lakekeeper trino e = let h = (eq_iff "Lakekeeper" "Trino").1 e in cc

audiences_iff :
    (xs : List PrincipalAudience)
    → ((is_empty xs || repeats_audience xs) ≡ false) ↔ IsAudienceList xs
unfolding repeats_audience
audiences_iff [] = (λ h. cc, λ h. absurd (h.0 refl))
audiences_iff (x ∷ xs) =
    let all_xs = x ∷ xs in
    let (there, back) =
      repeats_iff (map debug all_xs) (length all_xs) (sym (length-map debug all_xs)) in
    (
      λ h. (λ e. cc, Distinct-map_back debug all_xs (there h)),
      λ h. back (Distinct-map debug debug-injective all_xs h.1),
    )

-- `validate` accepts exactly the principals with a resource name, an owner group that is a group
-- name, and at least one audience, each listed once.
pub principal_validate_iff :
    (p : ServicePrincipalSpec) (name : String) → (validate p name ≡ ok tt) ↔ IsValid p name
unfolding validate
principal_validate_iff p name =
    reject_then_iff _ _ _ (not-false_iff (name_ok name) (name_ok_iff name)) (
      reject_then_iff _ _ _
        (not-false_iff (group_name_ok p.owner_group) (group_name_ok_iff p.owner_group))
        (last_iff _ _ (audiences_iff p.audiences)))
