-- ===== src/Controller/Deletion/Over.antt =====
-- What the end of a lakehouse's deletion means, and when it is reached.
use stardelt_operator.Common.{◌≡◌, ◌⊎◌, false, not, ◌==◌, string_eq, keep, contains, ok}
use stardelt_operator.Helm.{}
use stardelt_operator.Controller.Cluster.{Call, History, Cluster, patch_finalizers}
use stardelt_operator.Controller.Deletion.{lakehouse_finalizer, Lakehouse}
use stardelt_operator.Controller.Deletion.Facts.{Sometime}
use stardelt_operator.Controller.Deletion.Whole.{IsDone}

module _ (k : Cluster) (lh : Lakehouse) where
  -- The patch that takes the deletion's finalizer away, where the API server took it.
  abbrev pub Unfinalizes : Call → History → Type 0
  Unfinalizes c b =
      (c ≡ patch_finalizers (keep (λ f. not (f == lakehouse_finalizer)) lh.finalizers))
      × (k.on_patch b (keep (λ f. not (f == lakehouse_finalizer)) lh.finalizers) ≡ ok tt)

  -- What is left when a deletion ends: everything done, and the finalizer absent or removed.
  abbrev pub IsOver : History → Type 0
  IsOver b =
      IsDone k lh b
      × ((contains lh.finalizers lakehouse_finalizer ≡ false) ⊎ Sometime Unfinalizes b)
