-- ===== src/Controller/Reconcile/Protocol.antt =====
-- The protocol of `reconcile_lakehouse` as a state machine on calls, and that each run follows it.
use stardelt_operator.Crd.Status.{ComponentStatus, LakehouseStatus}
use stardelt_operator.Planner.{}
use stardelt_operator.Helm.{}
use stardelt_operator.Controller.Cluster.{
  Request, Call, History, KubeError, Cluster, list_lakehouses, patch_status, patch_finalizers, ask,
}
use stardelt_operator.Controller.Deletion.{
  lakehouse_finalizer, Lakehouse, Action, namespace_of, requeue,
}
use stardelt_operator.Controller.Apply.{Surroundings}
use stardelt_operator.Controller.Apply.Safety.{IsAllowed}
use stardelt_operator.Controller.Status.{Sibling, blocked_by}
use stardelt_operator.Controller.Reconcile.{Provisioner, previous_components, blocked_status}
use stardelt_operator.Controller.Reconcile.Steps.{IsStep}
use stardelt_operator.Common.{
  String, ◌≡◌, Bool, true, false, Option, none, some, List, [], ◌∷◌, ◌++◌, if◌then◌else◌, nat_eq,
  string_eq, all, contains, Result, ok, err,
}

-- Where a run stands: before its first call; the oldest lakehouse, without its finalizer; behind an
-- older one; with the finalizer on; after its status; and after a call that failed.
pub data State : Type 0 where
  idle oldest held : State
  behind : String → State
  told : LakehouseStatus → State
  failed : KubeError → State

module _ {V : Type 0} (k : Cluster) (p : Provisioner)
    (values_for : Bool → Option String → Surroundings V) (lh : Lakehouse) where
  abbrev finalizers_with : List String
  finalizers_with = lh.finalizers ++ lakehouse_finalizer ∷ []

  abbrev listing : Call
  listing = ask (list_lakehouses (namespace_of lh))

  abbrev Answers : History → Option String → Type 0
  Answers b peer =
      (siblings : List Sibling) × (p.on_lakehouses b (namespace_of lh) ≡ ok siblings)
      × (blocked_by lh.name siblings ≡ peer)

  -- A step of the machine, with the calls before it.
  pub data Moves : State → Call → History → State → Type 0 where
    lists_oldest :
        {b : History}
        → Answers b none
        → contains lh.finalizers lakehouse_finalizer ≡ false
        → Moves idle listing b oldest
    lists_held :
        {b : History}
        → Answers b none
        → contains lh.finalizers lakehouse_finalizer ≡ true
        → Moves idle listing b held
    lists_other :
        {b : History} {peer : String} → Answers b (some peer) → Moves idle listing b (behind peer)
    listing_fails :
        {b : History} {e : KubeError}
        → p.on_lakehouses b (namespace_of lh) ≡ err e
        → Moves idle listing b (failed e)
    adds_finalizer :
        {b : History}
        → k.on_patch b finalizers_with ≡ ok tt
        → Moves oldest (patch_finalizers finalizers_with) b held
    patch_fails :
        {b : History} {e : KubeError}
        → k.on_patch b finalizers_with ≡ err e
        → Moves oldest (patch_finalizers finalizers_with) b (failed e)
    provides : {b : History} {r : Request} → IsStep r → Moves held (ask r) b held
    applies :
        {b : History} {c : Call} (identity : Bool) (stamp : Option String)
        → IsAllowed k
            (values_for identity stamp)
            lh.spec.adopt
            (previous_components lh.status)
            lh.spec.dry_run
            c
            b
        → Moves held c b held
    tells :
        {b : History} {s : LakehouseStatus}
        → p.on_status b s ≡ ok tt
        → Moves held (ask (patch_status s)) b (told s)
    tells_blocked :
        {b : History} {peer : String}
        → p.on_status b (blocked_status lh peer (p.now b)) ≡ ok tt
        → Moves
            (behind peer)
            (ask (patch_status (blocked_status lh peer (p.now b))))
            b
            (told (blocked_status lh peer (p.now b)))
    telling_fails :
        {b : History} {s : LakehouseStatus} {e : KubeError}
        → p.on_status b s ≡ err e
        → Moves held (ask (patch_status s)) b (failed e)
    telling_blocked_fails :
        {b : History} {peer : String} {e : KubeError}
        → p.on_status b (blocked_status lh peer (p.now b)) ≡ err e
        → Moves (behind peer) (ask (patch_status (blocked_status lh peer (p.now b)))) b (failed e)

  -- The states that the machine reaches by the calls of a trace.
  pub data Reaches : State → History → Type 0 where
    begins : Reaches idle []
    moves : {s t : State} {c : Call} {b : History} → Reaches s b → Moves s c b t → Reaches t (c ∷ b)

  -- What a run that ends in a state answers.
  abbrev pub Ends : State → Result KubeError Action → Type 0
  Ends (told s) r =
      r ≡ ok (requeue (if all (λ (c : ComponentStatus). c.ready) s.components then 300 else 30))
  Ends (failed e) r = r ≡ err e
  Ends idle r = ⊥
  Ends oldest r = ⊥
  Ends held r = ⊥
  Ends (behind peer) r = ⊥

  abbrev pub Follows : Result KubeError Action × History → Type 0
  Follows r = (s : State) × Reaches s r.1 × Ends s r.0
