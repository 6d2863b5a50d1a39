-- ===== src/Connection/Report.antt =====
-- What the status of a connection claims, and what stands behind it.
use stardelt_operator.Values.{Value}
use stardelt_operator.Planner.{SecretsMode}
use stardelt_operator.Crd.Connection.{validate, connection_secret_name}
use stardelt_operator.Connection.Sync.{
  ready_condition_of, value_missing, says_true, sync_state, sync_state-ready,
}
use stardelt_operator.Connection.Sync.{}
use stardelt_operator.Connection.Decision.{plan-apply, plan-no_secret}
use stardelt_operator.Connection.{
  Plan, apply, no_secret, invalid, Resource, Answers, Write, apply_secret, patch_status, mode_of,
  Outcome, synced, unready, applied, carry_out, status_of_report, finish, plan_of, reconcile_mode,
  reconcile_connection,
}
use stardelt_operator.Controller.Deletion.{Action, await_change}
use stardelt_operator.Controller.Cluster.{KubeError, api_error, transport_error}
use stardelt_operator.Common.{
  String, ◌≡◌, refl, sym, subst, ◌⊎◌, inl, inr, true, false, ◌&&◌, eq_iff, Option, none, some, List,
  [], ◌∷◌, ◌++◌, ◌==◌, nat_eq, string_eq, Bool-cases, some-injective, and-true_iff, if_rule, All,
  Map, Result, ok, err,
}

-- The manifest was applied, and External Secrets reports it Ready, and not because the value is gone.
abbrev pub IsSynced : Resource → Answers → SecretsMode → Type 0
IsSynced c k mode =
    (manifest object_ : Value) × (plan_of c mode ≡ apply manifest)
    × (k.on_apply manifest ≡ ok object_)
    × (says_true (ready_condition_of object_) ≡ true)
    × (value_missing (ready_condition_of object_) ≡ false)

-- The connection is valid, and it carries no secret or its secret is synced.
abbrev pub IsJustified : Resource → Answers → SecretsMode → Type 0
IsJustified c k mode =
    (validate c.spec c.name ≡ ok tt) × ((c.spec.secret ≡ none) ⊎ IsSynced c k mode)

ok-injective : {E A : Type 0} {a b : A} → ◌≡◌ {A = Result E A} (ok a) (ok b) → a ≡ b
ok-injective h = cc

module _ (c : Resource) (k : Answers) (mode : SecretsMode) where
  -- What an outcome claims.
  abbrev IsTrue : Outcome → Type 0
  IsTrue r =
      (r.ready ≡ true → IsJustified c k mode)
      × (r.ready ≡ true → r.reason ≡ "Synced" → IsSynced c k mode)

  synced-IsTrue :
      (manifest object_ : Value)
      → plan_of c mode ≡ apply manifest
      → k.on_apply manifest ≡ ok object_
      → IsTrue (synced (sync_state object_))
  unfolding synced
  synced-IsTrue manifest object_ planned answer =
      let evidence = λ (yes : (sync_state object_).ready ≡ true).
        let (says, there) = sync_state-ready object_ yes in
        let e : IsSynced c k mode = (manifest, object_, planned, answer, says, there) in e in
      (
        λ yes.
            let (valid, _) = plan-apply c.spec c.name _ _ mode manifest planned in
            (valid, inr (evidence yes)),
        λ yes named. evidence yes,
      )

  unready-IsTrue : (reason message : String) → IsTrue (unready reason message)
  unready-IsTrue reason message = (λ yes. cc, λ yes named. cc)

  applied-IsTrue :
      (manifest : Value) (answer : Result KubeError Value) (r : Outcome)
      → plan_of c mode ≡ apply manifest
      → k.on_apply manifest ≡ answer
      → applied answer ≡ ok r
      → IsTrue r
  unfolding applied
  applied-IsTrue manifest (ok object_) r planned answer h =
      subst IsTrue (ok-injective h) (synced-IsTrue manifest object_ planned answer)
  applied-IsTrue manifest (err (transport_error e)) r planned answer h = cc
  applied-IsTrue manifest (err (api_error code)) r planned answer h =
      elim (Bool-cases (code == 404)) [
        | inl gone ↦
            let h' : ok (
                  unready "ExternalSecretsNotInstalled"
                    "External Secrets Operator is not installed (make external-secrets)")
                ≡ ok r =
              rw gone at h in
            subst IsTrue (ok-injective h') (
              unready-IsTrue "ExternalSecretsNotInstalled"
                "External Secrets Operator is not installed (make external-secrets)")
        | inr other ↦ let h' : err (api_error code) ≡ ok r = rw other at h in cc
      ]

  carried-IsTrue :
      (p : Plan) (r : Outcome) → plan_of c mode ≡ p → (carry_out k p).0 ≡ ok r → IsTrue r
  unfolding carry_out
  carried-IsTrue (invalid reason message) r planned h =
      subst IsTrue (ok-injective h) (unready-IsTrue reason message)
  carried-IsTrue no_secret r planned h =
      let (valid, nothing) = plan-no_secret c.spec c.name _ _ mode planned in
      subst IsTrue (ok-injective h) (
        λ yes. (valid, inl nothing),
        λ yes named. let h = (eq_iff "NoSecret" "Synced").1 named in cc,
      )
  carried-IsTrue (apply manifest) r planned h =
      applied-IsTrue manifest (k.on_apply manifest) r planned refl h

  -- What a write of the run claims, and that an applied manifest is the one planned.
  abbrev pub IsTrueWrite : Write → Type 0
  IsTrueWrite (apply_secret manifest) = plan_of c mode ≡ apply manifest
  IsTrueWrite (patch_status s) =
      (s.ready ≡ true → IsJustified c k mode)
      × ((name : String)
          → s.secret_name ≡ some name
          → (name ≡ connection_secret_name c.name) × IsSynced c k mode)

  status-IsTrue : (r : Outcome) → IsTrue r → IsTrueWrite (patch_status (status_of_report c k r))
  unfolding status_of_report
  status-IsTrue r (justified, evidence) = (
    justified,
    λ name h. elim (Bool-cases (r.ready && r.reason == "Synced")) [
      | inl both ↦
          let (is_ready, named) = (and-true_iff r.ready (r.reason == "Synced")).0 both in
          let h' : some (connection_secret_name c.name) ≡ some name = rw both at h in
          (sym (some-injective h'), evidence is_ready ((eq_iff r.reason "Synced").0 named))
      | inr not_both ↦ let h' : none ≡ some name = rw not_both at h in cc
    ],
  )

module _ (c : Resource) (k : Answers) where
  -- The mode was read, and the write is as it claims.
  abbrev pub HasEvidence : Write → Type 0
  HasEvidence w =
      (config : Option (Option (Map String))) × (k.on_config ≡ ok config)
      × IsTrueWrite c k (mode_of config) w

  written-HasEvidence :
      (config : Option (Option (Map String))) (p : Plan)
      → k.on_config ≡ ok config
      → plan_of c (mode_of config) ≡ p
      → All HasEvidence (carry_out k p).1
  unfolding carry_out
  written-HasEvidence config (invalid reason message) read planned = tt
  written-HasEvidence config no_secret read planned = tt
  written-HasEvidence config (apply manifest) read planned = ((config, read, planned), tt)

  finish-HasEvidence :
      (p : Result KubeError Outcome × List Write) (mode : Option (Option (Map String)))
      → k.on_config ≡ ok mode
      → All HasEvidence p.1
      → ((r : Outcome)
          → p.0 ≡ ok r
          → IsTrueWrite c k (mode_of mode) (patch_status (status_of_report c k r)))
      → All HasEvidence (finish c k p).1
  unfolding finish
  finish-HasEvidence (err e, writes) mode read before claim = before
  finish-HasEvidence (ok r, writes) mode read before claim =
      All-snoc (patch_status (status_of_report c k r)) writes before (mode, read, claim r refl)
    where
      All-snoc :
          (w : Write) (ws : List Write)
          → All HasEvidence ws
          → HasEvidence w
          → All HasEvidence (ws ++ w ∷ [])
      All-snoc w [] h next = (next, tt)
      All-snoc w (x ∷ ws) (first, h) next = (first, All-snoc w ws h next)

  mode-HasEvidence :
      (answer : Result KubeError (Option (Option (Map String))))
      → k.on_config ≡ answer
      → All HasEvidence (reconcile_mode c k answer).1
  unfolding reconcile_mode
  mode-HasEvidence (err e) read = tt
  mode-HasEvidence (ok config) read =
      let mode = mode_of config in
      finish-HasEvidence (carry_out k (plan_of c mode)) config read
        (written-HasEvidence config (plan_of c mode) read refl)
        (λ r h. status-IsTrue c k mode r (carried-IsTrue c k mode (plan_of c mode) r refl h))

  -- A run writes only after it has read the mode. It applies only the manifest that is planned for the
  -- mode. A status that it writes reports ready only for a valid connection that carries no secret, or
  -- whose manifest was applied and is reported Ready by External Secrets with its value in the store;
  -- and it names a Secret, the connection's own, only in the second case.
  pub reconcile_connection-HasEvidence : All HasEvidence (reconcile_connection c k).1
  unfolding reconcile_connection
  reconcile_connection-HasEvidence =
      if_rule (λ (p : Result KubeError Action × List Write). All HasEvidence p.1) c.is_deleted
        (ok await_change, []) (reconcile_mode c k k.on_config) (λ e. tt)
        (λ e. mode-HasEvidence k.on_config refl)
