-- ===== src/Provision/Evidence.antt =====
-- What stands behind a ready status of the parts that the steps share.
use stardelt_operator.Crd.Status.{ComponentStatus}
use stardelt_operator.Secrets.{status}
use stardelt_operator.Provision.{
  Object, Applied, Call, History, Server, Outcome, Run, settled, only_if, ◌>>=◌, return,
  cluster_ready, at_least_one, unready, was_done, done_by, apply_or, database, workload,
  objects_applied, run_job,
}
use stardelt_operator.Provision.Rules.{
  Yields, and_then-Yields, Did, Sometime, IsApplied, IsApplied-grow, apply_or-Yields,
  apply_known-Yields, apply_each-Yields, stop_if-Yields,
}
use stardelt_operator.Common.{
  String, ◌≡◌, refl, ap, ◌∙◌, subst, ◌⊎◌, inl, inr, Bool, true, false, if◌then◌else◌, some, ok, err,
  List, ◌∷◌, All,
}

abbrev pub Proves : (History → Type 0) → ComponentStatus → History → Type 0
Proves E s b = s.ready ≡ true → E b

-- The status that `ready` decides.
pub chosen-Proves :
    (E : History → Type 0) (b : Bool) (h : History) (s u : ComponentStatus)
    → u.ready ≡ false
    → (b ≡ true → E h)
    → Proves E (if b then s else u) h
chosen-Proves E true h s u unready_ proof = λ is_ready. proof refl
chosen-Proves E false h s u unready_ proof = λ is_ready. cc

settled-Proves :
    (E : History → Type 0) (r : Outcome ComponentStatus)
    → Yields (Proves E) r
    → Proves E (settled r).0 (settled r).1
settled-Proves E (ok s, h) y = y
settled-Proves E (err s, h) y = λ is_ready. cc

-- The status that a step reports, where it reports one.
pub only_if-Proves :
    (E : History → Type 0) (wanted : Bool) (m : Run ComponentStatus) (h : History)
    → Yields (Proves E) (m h)
    → (s : ComponentStatus) → (only_if wanted m h).0 ≡ some s
    → Proves E s (only_if wanted m h).1
only_if-Proves E false m h y s e = cc
only_if-Proves E true m h y s e =
    let proved = settled-Proves E (m h) y in
    let same : (settled (m h)).0 ≡ s = cc in
    λ is_ready. proved (ap (λ (c : ComponentStatus). c.ready) same ∙ is_ready)

module _ (k : Server) where
  -- A database is there: no dry run, its cluster was applied and is Ready, and so was its backup.
  abbrev pub HasDatabase : Bool → Object → Object → History → Type 0
  HasDatabase dry_run cluster backup b =
      (dry_run ≡ false)
      × ((a : Applied) × Sometime k (Did k cluster false a) b × (cluster_ready a.document ≡ true))
      × IsApplied k false b backup

  -- A workload is there: no dry run, its objects were applied, and the Deployment has a replica.
  abbrev pub HasWorkload : Bool → List Object → Object → History → Type 0
  HasWorkload dry_run objects deployment b =
      (dry_run ≡ false)
      × All (IsApplied k dry_run b) objects
      × ((a : Applied) × Sometime k (Did k deployment dry_run a) b
          × (at_least_one a.available_replicas ≡ true))

  abbrev pub HasObjects : Bool → List Object → History → Type 0
  HasObjects dry_run objects b = (dry_run ≡ false) × All (IsApplied k dry_run b) objects

  -- A Job is done: an earlier status says so, or it was applied and had succeeded.
  abbrev pub HasJob : String → List ComponentStatus → String → Object → History → Type 0
  HasJob name previous job o b =
      (was_done name job previous ≡ true)
      ⊎ ((a : Applied) × Sometime k (Did k o false a) b × (at_least_one a.succeeded ≡ true))

  pub database-Yields :
      (name : String) (dry_run : Bool) (cluster backup : Object) (planned : String) (h : History)
      → Yields
          (Proves (HasDatabase dry_run cluster backup))
          (database k name dry_run cluster backup planned h)
  unfolding database status
  database-Yields name dry_run cluster backup planned h =
      and_then-Yields (λ a b. Unit {0} × Sometime k (Did k cluster dry_run a) b)
        (Proves (HasDatabase dry_run cluster backup)) _ _
        (apply_known-Yields k (λ b. Unit {0}) (λ c b u. tt) name _ cluster dry_run h tt)
        (λ a b (_, did).
          and_then-Yields
            (λ z b'.
              ((dry_run ≡ false) × Sometime k (Did k cluster dry_run a) b')
              × Sometime k (Did k backup false z) b')
            (Proves (HasDatabase dry_run cluster backup)) _ _
            (and_then-Yields (λ u b'. (dry_run ≡ false) × Sometime k (Did k cluster dry_run a) b')
              (λ z b'.
                ((dry_run ≡ false) × Sometime k (Did k cluster dry_run a) b')
                × Sometime k (Did k backup false z) b')
              _ _
              (stop_if-Yields k (λ b. Sometime k (Did k cluster dry_run a) b) (λ c b x. inr x)
                dry_run (unready name planned) b refl did)
              (λ u b' known.
                apply_or-Yields k (λ b. (dry_run ≡ false) × Sometime k (Did k cluster dry_run a) b)
                  (λ c b (x, y). (x, inr y)) name backup false b' known))
            (λ z b' ((wet, sure), kept).
              chosen-Proves (HasDatabase dry_run cluster backup) (cluster_ready a.document) b' _ _
                refl
                (λ is_ready. (
                  wet,
                  (a, subst (λ d. Sometime k (Did k cluster d a) b') wet sure, is_ready),
                  (z, kept),
                ))))

  -- With what was known before.
  pub workload-Yields :
      (S : History → Type 0) (grow : (c : Call) (b : History) → S b → S (c ∷ b)) (name : String)
      (dry_run : Bool) (objects : List Object) (deployment : Object) (planned : String)
      (h : History)
      → S h
      → Yields
          (Proves (λ b. S b × HasWorkload dry_run objects deployment b))
          (workload k name dry_run objects deployment planned h)
  unfolding workload status
  workload-Yields S grow name dry_run objects deployment planned h x =
      let E : History → Type 0 = λ b. S b × HasWorkload dry_run objects deployment b in
      let F : History → Type 0 = λ b. S b × All (IsApplied k dry_run b) objects in
      let growF : (c : Call) (b : History) → F b → F (c ∷ b) =
        λ c b (y, z). (grow c b y, IsApplied-grow k dry_run objects c b z) in
      and_then-Yields (λ a b. F b × Sometime k (Did k deployment dry_run a) b) (Proves E) _ _
        (and_then-Yields (λ u b. F b) (λ a b. F b × Sometime k (Did k deployment dry_run a) b) _ _
          (apply_each-Yields k S grow name dry_run objects h x)
          (λ u b known. apply_or-Yields k F growF name deployment dry_run b known))
        (λ a b (known, did).
          and_then-Yields
            (λ u b. (dry_run ≡ false) × (F b × Sometime k (Did k deployment dry_run a) b))
            (Proves E) _ _
            (stop_if-Yields k (λ b. F b × Sometime k (Did k deployment dry_run a) b)
              (λ c b (y, z). (growF c b y, inr z)) dry_run (unready name planned) b refl
              (known, did))
            (λ u b' (wet, ((before, all_), sure)).
              chosen-Proves E (at_least_one a.available_replicas) b' _ _ refl
                (λ is_ready. (before, (wet, all_, (a, sure, is_ready))))))

  pub objects_applied-Yields :
      (name : String) (dry_run : Bool) (objects : List Object) (planned message : String)
      (h : History)
      → Yields
          (Proves (HasObjects dry_run objects))
          (objects_applied k name dry_run objects planned message h)
  unfolding objects_applied status
  objects_applied-Yields name dry_run objects planned message h =
      and_then-Yields (λ u b. (dry_run ≡ false) × All (IsApplied k dry_run b) objects)
        (Proves (HasObjects dry_run objects)) _ _
        (and_then-Yields (λ u b. Unit {0} × All (IsApplied k dry_run b) objects)
          (λ u b. (dry_run ≡ false) × All (IsApplied k dry_run b) objects) _ _
          (apply_each-Yields k (λ b. Unit {0}) (λ c b u. tt) name dry_run objects h tt)
          (λ u b (_, all_).
            stop_if-Yields k (λ b. All (IsApplied k dry_run b) objects)
              (IsApplied-grow k dry_run objects) dry_run (unready name planned) b refl all_))
        (λ u b known is_ready. known)

  pub run_job-Yields :
      (name : String) (previous : List ComponentStatus) (job : String) (o : Object)
      (message running : String) (h : History)
      → Yields
          (Proves (HasJob name previous job o))
          (run_job k name previous job o message running h)
  unfolding run_job status
  run_job-Yields name previous job o message running h = decided (was_done name job previous) refl
    where
      decided :
          (known : Bool)
          → was_done name job previous ≡ known
          → Yields (Proves (HasJob name previous job o)) (
              (if known
                  then return (done_by name job message)
                  else (apply_or k name o false >>= λ (applied : Applied). return (
                      if at_least_one applied.succeeded
                      then done_by name job message
                      else unready name running)))
                h)
      decided true e = λ is_ready. inl e
      decided false e =
          and_then-Yields (λ a b. Unit {0} × Sometime k (Did k o false a) b)
            (Proves (HasJob name previous job o)) _ _
            (apply_or-Yields k (λ b. Unit {0}) (λ c b u. tt) name o false h tt)
            (λ a b (_, did).
              chosen-Proves (HasJob name previous job o) (at_least_one a.succeeded) b _ _ refl
                (λ is_ready. inr (a, did, is_ready)))
