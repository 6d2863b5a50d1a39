-- ===== src/Crd.antt =====
-- The custom resources of crates/stardelt-operator/src/crd.rs: their specs and `validate` methods.
pub mod Names
pub mod Status
pub mod Connection
pub mod Volume
pub mod Warehouse
pub mod Catalog
pub mod Principal
pub mod Stream
pub mod Pipeline
