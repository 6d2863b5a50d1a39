-- ===== src/Planner/Pins.antt =====
-- Which planned charts have a pinned version and a repository.
use stardelt_operator.Common.{
  String, ◌≡◌, refl, subst, Bool, true, false, ◌&&◌, Option, none, some, [], ◌∷◌, arith,
  if◌then◌else◌, ◌==◌, string_eq, is_some, all, Map, get, keys,
}
use stardelt_operator.Planner.{
  ComponentPlan, PlatformInstanceSpec, plan_platform, chart_versions, chart_repos, chart_version,
  chart_repo,
}

branches :
    (b : Bool) (v w : String) (x y : Option String)
    → is_some x ≡ is_some y
    → is_some (if b then some v else x) ≡ is_some (if b then some w else y)
branches true v w x y e = refl
branches false v w x y e = e

get_same_keys :
    (m n : Map String) → keys m ≡ keys n → (k : String) → is_some (get k m) ≡ is_some (get k n)
unfolding get
get_same_keys [] [] e k = refl
get_same_keys [] (p ∷ n) e k = cc
get_same_keys (p ∷ m) [] e k = cc
get_same_keys ((i, v) ∷ m) ((j, w) ∷ n) e k =
    let tails : keys m ≡ keys n = cc in
    let rest = get_same_keys m n tails k in
    let head : i ≡ j = cc in
    subst
      (λ x.
        is_some (if i == k then some v else get k m) ≡ is_some (if x == k then some w else get k n))
      head (branches (i == k) v w (get k m) (get k n) rest)

-- Any chart has a pinned version exactly when it has a repository.
pub pinned_together : (chart : String) → is_some (chart_version chart) ≡ is_some (chart_repo chart)
unfolding chart_version chart_repo
pinned_together chart = get_same_keys chart_versions chart_repos refl chart

-- A component without a chart, or one whose chart has a pinned version and a repository.
abbrev pub is_pinned : ComponentPlan → Bool
is_pinned c = elim c.chart [
  | none ↦ true
  | some chart ↦ is_some (chart_version chart) && is_some (chart_repo chart)
]

-- Every chart of every platform's plan has a pinned version and a repository.
pub platform_is_pinned : (spec : PlatformInstanceSpec) → all is_pinned (plan_platform spec) ≡ true
unfolding plan_platform chart_version chart_repo get
platform_is_pinned spec = ground arith
