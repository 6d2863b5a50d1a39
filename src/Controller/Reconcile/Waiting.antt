-- ===== src/Controller/Reconcile/Waiting.antt =====
-- The releases that wait, and what it says of a run that every reported component is ready.
use stardelt_operator.Crd.Status.{ComponentStatus}
use stardelt_operator.Planner.{ComponentPlan}
use stardelt_operator.Controller.Cluster.{}
use stardelt_operator.Controller.Status.{release_ready}
use stardelt_operator.Controller.Reconcile.{Gates, is_wanted, push_if, waiting}
use stardelt_operator.Common.{
  ◌≡◌, refl, ap, inl, inr, Bool, true, false, not, ◌&&◌, List, [], ◌∷◌, ◌++◌, arith, nat_eq,
  string_eq, keep, All, In, In-append_iff, All-In, In-All,
}

abbrev pub AllReady : List ComponentStatus → Type 0
AllReady cs = All (λ (c : ComponentStatus). c.ready ≡ true) cs

abbrev pub Within : List ComponentStatus → List ComponentStatus → Type 0
Within xs ys = (c : ComponentStatus) → In c xs → In c ys

pub AllReady-Within : (xs ys : List ComponentStatus) → Within xs ys → AllReady ys → AllReady xs
AllReady-Within xs ys sub ready = In-All xs (λ c i. All-In _ c ys ready (sub c i))

pub Within-left : (xs ys : List ComponentStatus) → Within xs (xs ++ ys)
Within-left xs ys c i = (In-append_iff c xs ys).1 (inl i)

pub Within-right : (xs ys : List ComponentStatus) → Within ys (xs ++ ys)
Within-right xs ys c i = (In-append_iff c xs ys).1 (inr i)

-- Statuses that are not ready are pushed only where their condition holds.
pushed_ready :
    (a b c : Bool) (s t u : ComponentStatus)
    → s.ready ≡ false
    → t.ready ≡ false
    → u.ready ≡ false
    → AllReady (push_if a s ++ push_if b t ++ push_if c u)
    → (a ≡ false) × (b ≡ false) × (c ≡ false)
pushed_ready false false false s t u x y z h = (refl, refl, refl)
pushed_ready true b c s t u x y z (is_ready, h) = cc
pushed_ready false true c s t u x y z (is_ready, h) = cc
pushed_ready false false true s t u x y z (is_ready, h) = cc

-- The gates from the three conditions.
gates_open :
    (dry identity trino database openfga : Bool)
    → dry ≡ false
    → (identity ≡ false → trino ≡ true)
    → (not dry && not database) ≡ false
    → (not dry && not openfga) ≡ false
    → (identity && not trino && not dry) ≡ false
    → (database ≡ true) × (openfga ≡ true) × (trino ≡ true)
gates_open dry true trino database openfga wet safe d o t =
    (ground arith, ground arith, ground arith)
gates_open dry false trino database openfga wet safe d o t = (ground arith, ground arith, safe refl)

pub waiting-AllReady :
    (g : Gates)
    → g.dry_run ≡ false
    → (g.identity_contract ≡ false → g.trino_ready ≡ true)
    → AllReady (waiting g)
    → (g.database_ready ≡ true) × (g.openfga_ready ≡ true) × (g.trino_ready ≡ true)
unfolding waiting
waiting-AllReady g wet safe ready =
    let (d, o, t) =
      pushed_ready (not g.dry_run && not g.database_ready) (not g.dry_run && not g.openfga_ready)
        (g.identity_contract && not g.trino_ready && not g.dry_run) _ _ _ refl refl refl ready in
    gates_open g.dry_run g.identity_contract g.trino_ready g.database_ready g.openfga_ready wet safe
      d o t

pub is_wanted_all :
    (g : Gates)
    → (g.database_ready ≡ true) × (g.openfga_ready ≡ true) × (g.trino_ready ≡ true)
    → (c : ComponentPlan) → is_wanted g c ≡ true
unfolding release_ready
is_wanted_all g (d, o, t) c = ground arith

pub keep_all :
    (w : ComponentPlan → Bool) (cs : List ComponentPlan)
    → ((c : ComponentPlan) → w c ≡ true)
    → keep w cs ≡ cs
keep_all w [] f = refl
keep_all w (c ∷ cs) f = rw (f c) (ap (λ xs. c ∷ xs) (keep_all w cs f))
