-- ===== src/Connection/Tests.antt =====
-- A connection with a secret, and what is written for it.
use stardelt_operator.Values.{Value, object, nil}
use stardelt_operator.Crd.Connection.Samples.{crm}
use stardelt_operator.Connection.Manifest.{external_secret}
use stardelt_operator.Connection.Report.{HasEvidence, reconcile_connection-HasEvidence}
use stardelt_operator.Connection.{Resource, Answers, reconcile_connection}
use stardelt_operator.Common.{false, none, some, [], ◌∷◌, nat_eq, string_eq, All, ok}

abbrev manifest : Value
manifest =
    external_secret (crm "15m") "crm-db" "sales" "u1" ("user" ∷ "password" ∷ [])
      ("openbao-sales", "SecretStore", "connections/group/sales/crm-db")

abbrev resource : Resource
resource = record {
  name = "crm-db";
  namespace = some "sales";
  uid = some "u1";
  is_deleted = false;
  generation = none;
  ready_before = none;
  spec = crm "15m";
}

abbrev answers : Answers
answers = record {
  on_config = ok (some (some (("mode", "platform") ∷ [])));
  on_apply = λ v. ok (object nil);
  on_status = λ s. ok tt;
  now = "08:00";
}

reconcile_connection-HasEvidence_example :
    All (HasEvidence resource answers) (reconcile_connection resource answers).1
reconcile_connection-HasEvidence_example = reconcile_connection-HasEvidence resource answers
