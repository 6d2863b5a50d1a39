-- ===== src/Controller/Deletion/Tests.antt =====
-- A deletion on concrete clusters.
use stardelt_operator.Common.{
  ◌≡◌, refl, true, false, none, some, [], ◌∷◌, nat_eq, string_eq, ok, err,
}
use stardelt_operator.Planner.{lakekeeper, byo_s3, delete}
use stardelt_operator.Helm.{owner_marker}
use stardelt_operator.Controller.Cluster.{Cluster, Throughout, api_error}
use stardelt_operator.Controller.Deletion.{
  lakehouse_finalizer, Lakehouse, await_change, ignore_not_found, forget, delete_lakehouse,
}
use stardelt_operator.Controller.Deletion.Facts.{}
use stardelt_operator.Controller.Deletion.Whole.{IsJustified, delete_lakehouse-IsJustified}
use stardelt_operator.Controller.Deletion.Progress.{IsCooperative, deletion_ends}

abbrev lake : Lakehouse
lake = record {
  name = "lake";
  namespace = some "analytics";
  is_deleted = true;
  generation = none;
  status = none;
  finalizers = lakehouse_finalizer ∷ "other" ∷ [];
  spec = record {
    catalog = lakekeeper;
    storage = byo_s3;
    dry_run = false;
    adopt = false;
    deletion_policy = delete;
  };
}

-- Every release is this operator's; nothing is left to delete.
abbrev tidy : Cluster
tidy = record {
  on_helm = λ h args stdin. ok owner_marker;
  on_list = λ h ns label. ok [];
  on_delete_volume = λ h ns name. err (api_error 404);
  on_delete_cluster = λ h ns name. err (api_error 404);
  on_patch = λ h left. ok tt;
  on_count = λ h ns name. ok (0, 0);
}

tidy-IsCooperative : IsCooperative tidy
unfolding forget ignore_not_found
tidy-IsCooperative = record {
  helm_works = λ h r. refl;
  lists = λ h ns label. ([], refl);
  drops_volumes = λ h ns name. refl;
  drops_cluster = λ h ns name. refl;
  patches = λ h left. refl;
}

delete_lakehouse-IsJustified_example :
    Throughout (IsJustified tidy lake) (delete_lakehouse tidy lake []).1
delete_lakehouse-IsJustified_example = delete_lakehouse-IsJustified tidy lake [] tt

deletion_ends_example : (delete_lakehouse tidy lake []).0 ≡ ok await_change
deletion_ends_example = deletion_ends tidy tidy-IsCooperative lake []
