-- ===== src/Provision/Lakehouse/Tests.antt =====
-- The archive of a lakehouse, on a server that has done everything.
use stardelt_operator.Crd.Status.{ComponentStatus}
use stardelt_operator.Values.{null}
use stardelt_operator.Planner.{seaweedfs, lakekeeper}
use stardelt_operator.Provision.{Server, apply_or, need_store, at_least_one, was_done, done_by}
use stardelt_operator.Provision.Lakehouse.{
  Target, archive, archive_bucket, ensure_archive, lakehouse_step,
}
use stardelt_operator.Provision.Lakehouse.Jobs.{Evidence}
use stardelt_operator.Provision.Lakehouse.Ready.{lakehouse_step-HasEvidence}
use stardelt_operator.Common.{◌≡◌, refl, true, false, none, some, [], ok, pos}

abbrev server : Server
server = record {
  on_apply = λ h o dry_run.
      ok (record { document = null; succeeded = some (pos 1); available_replicas = some (pos 2) });
  on_secret = λ h name. ok (some []);
  show_error = λ e. "failed";
  is_utf8 = λ text. true;
  hash = λ parts. "0000002a";
}

abbrev lake : Target
lake = record {
  name = "lake";
  namespace = "analytics";
  profile = "demo";
  dry_run = false;
  catalog = lakekeeper;
  storage = seaweedfs;
  bucket_name = none;
  spark_enabled = false;
  previous = [];
}

abbrev archived : ComponentStatus
archived =
    done_by "object-store-archive" "archive-bucket-0000002a"
      "bucket lakehouse-backup exists; archive runs at 03:15"

it_is_archived : (lakehouse_step server lake archive []).0 ≡ some archived
unfolding lakehouse_step ensure_archive need_store archive_bucket was_done apply_or at_least_one
it_is_archived = refl

lakehouse_step-HasEvidence_example :
    Evidence server lake archive (lakehouse_step server lake archive []).1
lakehouse_step-HasEvidence_example =
    lakehouse_step-HasEvidence server lake archive [] archived it_is_archived refl
