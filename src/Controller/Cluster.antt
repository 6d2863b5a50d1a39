-- ===== src/Controller/Cluster.antt =====
-- What the controller asks of the cluster, and the cluster's answers: a trace of the calls, newest
-- first, and for each kind of call a reply that depends on the trace before it. Helm and the
-- Kubernetes API are not part of the operator, so the replies are a parameter.
use stardelt_operator.Crd.Status.{LakehouseStatus}
use stardelt_operator.Common.{ℕ, String, ◌≡◌, refl, Bool, Option, List, [], ◌∷◌, Result, ok, err}

-- The steps of provision.rs that always report a status, and those that may have nothing to report.
-- Discovery is told whether the bootstrap is ready and whether the identity provider is used.
pub data Provision : Type 0 where
  s3_secrets catalog_database openfga_database bootstrap : Provision
  discovery : Bool → Bool → Provision

pub data Extra : Type 0 where
  notebooks_bucket archive network_policy openfga_policy spark : Extra

-- What `reconcile_lakehouse` asks besides.
pub data Request : Type 0 where
  list_lakehouses : String → Request
  read_identity : String → Request
  read_key_material : String → Request
  read_stamp : String → Request
  provide : Provision → String → Request
  provide_extra : Extra → String → Request
  patch_status : LakehouseStatus → Request

pub data Call : Type 0 where
  -- `helm.run(args, stdin)`
  helm : List String → Option String → Call
  -- The persistent volume claims of a namespace with a label.
  list_volumes : String → String → Call
  delete_volume : String → String → Call
  delete_cluster : String → String → Call
  -- `metadata.finalizers` of the resource, replaced.
  patch_finalizers : List String → Call
  count_workloads : String → String → Call
  ask : Request → Call

abbrev pub History : Type 0
History = List Call

-- `kube::Error`: an answer of the API server with its code, or anything else.
pub data KubeError : Type 0 where
  api_error : ℕ → KubeError
  transport_error : String → KubeError

pub record Cluster : Type 0 where
  pub on_helm : History → List String → Option String → Result String String
  pub on_list : History → String → String → Result KubeError (List String)
  pub on_delete_volume : History → String → String → Result KubeError (Unit {0})
  pub on_delete_cluster : History → String → String → Result KubeError (Unit {0})
  pub on_patch : History → List String → Result KubeError (Unit {0})
  pub on_count : History → String → String → Result KubeError (ℕ × ℕ)

-- What holds of every call of a trace, given the calls before it.
abbrev pub Throughout : (Call → History → Type 0) → History → Type 0
Throughout P [] = Unit
Throughout P (c ∷ before) = P c before × Throughout P before

-- An asynchronous function of the controller: it reads the trace and adds its calls.
abbrev pub Run : Type 0 → Type 0
Run A = History → A × History

module _ (k : Cluster) where
  abbrev pub run_helm : List String → Option String → Run (Result String String)
  run_helm args stdin h = (k.on_helm h args stdin, helm args stdin ∷ h)

-- `m?; n`, from the outcome of `m`.
abbrev pub continue :
    {E B : Type 0} → Result E (Unit {0}) × History → Run (Result E B) → Result E B × History
continue (ok _, h) n = n h
continue (err e, h) n = (err e, h)

infixl 5 ◌>>>◌
abbrev pub ◌>>>◌ : {E B : Type 0} → Run (Result E (Unit {0})) → Run (Result E B) → Run (Result E B)
(m >>> n) h = continue (m h) n

-- What a run establishes, from what its first part does.
pub continue_rule :
    {E B : Type 0} (Q : Result E B × History → Type 0) (r : Result E (Unit {0}) × History)
    (n : Run (Result E B))
    → ((r.0 ≡ ok tt) → Q (n r.1))
    → ((e : E) → r.0 ≡ err e → Q (err e, r.1))
    → Q (continue r n)
continue_rule Q (ok u, h) n f g = f refl
continue_rule Q (err e, h) n f g = g e refl
