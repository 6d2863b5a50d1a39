-- ===== src/Provision/Rules.antt =====
-- What a step of provision.rs establishes: a rule for each of its parts.
use stardelt_operator.Crd.Status.{ComponentStatus}
use stardelt_operator.Encoding.{Text}
use stardelt_operator.Secrets.{status}
use stardelt_operator.Controller.Cluster.{KubeError, api_error, transport_error}
use stardelt_operator.Provision.{
  Object, Applied, Call, apply, read_secret, History, Server, Outcome, Run, and_then, stop_if,
  apply_or, apply_known, apply_each, need_store, or_status, or_missing, or_waiting,
}
use stardelt_operator.Common.{
  String, ◌≡◌, refl, ◌⊎◌, inl, inr, Bool, true, false, Option, none, some, List, [], ◌∷◌, ◌==◌,
  nat_eq, Bool-cases, All, All-map, Map, Result, ok, err,
}

-- A step that goes on has established `P`, and one that stops reports that it is not ready.
abbrev pub Yields : {A : Type 0} → (A → History → Type 0) → Outcome A → Type 0
Yields P (ok a, h) = P a h
Yields P (err s, h) = s.ready ≡ false

pub Yields-map :
    {A : Type 0} (P Q : A → History → Type 0)
    → ((a : A) (h : History) → P a h → Q a h)
    → (r : Outcome A) → Yields P r
    → Yields Q r
Yields-map P Q f (ok a, h) p = f a h p
Yields-map P Q f (err s, h) p = p

pub and_then-Yields :
    {A B : Type 0} (P : A → History → Type 0) (Q : B → History → Type 0) (r : Outcome A)
    (f : A → Run B)
    → Yields P r
    → ((a : A) (h : History) → P a h → Yields Q (f a h))
    → Yields Q (and_then r f)
and_then-Yields P Q (ok a, h) f p next = next a h p
and_then-Yields P Q (err s, h) f p next = p

module _ (k : Server) where
  -- A call that applied an object, with what the API server returned.
  abbrev pub Did : Object → Bool → Applied → Call → History → Type 0
  Did o dry_run a c b = (c ≡ apply o dry_run) × (k.on_apply b o dry_run ≡ ok a)

  abbrev pub Sometime : (Call → History → Type 0) → History → Type 0
  Sometime Q [] = ⊥
  Sometime Q (c ∷ before) = Q c before ⊎ Sometime Q before

  abbrev pub IsApplied : Bool → History → Object → Type 0
  IsApplied dry_run h o = (a : Applied) × Sometime (Did o dry_run a) h

  -- What is known of a trace and stays known.
  module _ (S : History → Type 0) (grow : (c : Call) (b : History) → S b → S (c ∷ b)) where
    pub apply_or-Yields :
        (name : String) (o : Object) (dry_run : Bool) (h : History)
        → S h
        → Yields (λ a b. S b × Sometime (Did o dry_run a) b) (apply_or k name o dry_run h)
    unfolding apply_or status
    apply_or-Yields name o dry_run h s = answered (k.on_apply h o dry_run) refl
      where
        answered :
            (r : Result KubeError Applied)
            → k.on_apply h o dry_run ≡ r
            → Yields
                (λ a b. S b × Sometime (Did o dry_run a) b)
                (or_status k name r, apply o dry_run ∷ h)
        answered (ok a) e = (grow (apply o dry_run) h s, inl (refl, e))
        answered (err e') e = refl

    pub apply_known-Yields :
        (name missing : String) (o : Object) (dry_run : Bool) (h : History)
        → S h
        → Yields
            (λ a b. S b × Sometime (Did o dry_run a) b)
            (apply_known k name missing o dry_run h)
    unfolding apply_known status
    apply_known-Yields name missing o dry_run h s = answered (k.on_apply h o dry_run) refl
      where
        answered :
            (r : Result KubeError Applied)
            → k.on_apply h o dry_run ≡ r
            → Yields
                (λ a b. S b × Sometime (Did o dry_run a) b)
                (or_missing k name missing r, apply o dry_run ∷ h)
        answered (ok a) e = (grow (apply o dry_run) h s, inl (refl, e))
        answered (err (transport_error e')) e = refl
        answered (err (api_error code)) e = elim (Bool-cases (code == 404)) [
          | inl gone ↦ rw gone refl
          | inr other ↦ rw other refl
        ]

    pub need_store-Yields :
        (name : String) (h : History) → S h → Yields (λ secret b. S b) (need_store k name h)
    unfolding need_store status
    need_store-Yields name h s = answered (k.on_secret h "stardelt-s3-creds")
      where
        answered :
            (r : Result KubeError (Option (Map Text)))
            → Yields (λ secret b. S b) (or_waiting k name r, read_secret "stardelt-s3-creds" ∷ h)
        answered (ok (some secret)) = grow (read_secret "stardelt-s3-creds") h s
        answered (ok none) = refl
        answered (err e) = refl

    pub stop_if-Yields :
        (stops : Bool) (s : ComponentStatus) (h : History)
        → s.ready ≡ false
        → S h
        → Yields (λ u b. (stops ≡ false) × S b) (stop_if stops s h)
    stop_if-Yields true s h e t = e
    stop_if-Yields false s h e t = (refl, t)

  pub IsApplied-grow :
      (dry_run : Bool) (os : List Object) (c : Call) (b : History)
      → All (IsApplied dry_run b) os
      → All (IsApplied dry_run (c ∷ b)) os
  IsApplied-grow dry_run os c b known = All-map (λ o (a, did). (a, inr did)) os known

  pub apply_each-Yields :
      (S : History → Type 0) (grow : (c : Call) (b : History) → S b → S (c ∷ b)) (name : String)
      (dry_run : Bool) (os : List Object) (h : History)
      → S h
      → Yields (λ u b. S b × All (IsApplied dry_run b) os) (apply_each k name dry_run os h)
  unfolding apply_each
  apply_each-Yields S grow name dry_run [] h s = (s, tt)
  apply_each-Yields S grow name dry_run (o ∷ os) h s =
      and_then-Yields (λ a b. S b × Sometime (Did o dry_run a) b)
        (λ u b. S b × All (IsApplied dry_run b) (o ∷ os)) (apply_or k name o dry_run h)
        (λ _. apply_each k name dry_run os) (apply_or-Yields S grow name o dry_run h s)
        (λ a b (s', did).
          Yields-map _ (λ u b. S b × All (IsApplied dry_run b) (o ∷ os))
            (λ u b ((x, sure), rest). (x, ((a, sure), rest))) (apply_each k name dry_run os b)
            (apply_each-Yields (λ b. S b × Sometime (Did o dry_run a) b)
              (λ c b (x, y). (grow c b x, inr y)) name dry_run os b (s', did)))
