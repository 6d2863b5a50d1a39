-- ===== src/Controller.antt =====
-- crates/stardelt-operator/src/controller.rs: the reconcilers of a `Lakehouse`, its deletion and the
-- apply of a plan.
pub mod Cluster
pub mod Deletion
pub mod Apply
pub mod Status
pub mod Resolve
pub mod Component
pub mod Reconcile
