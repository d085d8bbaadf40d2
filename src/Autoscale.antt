-- ===== src/Autoscale.antt =====
-- The autoscaler: src/autoscale and the parts of src/domain/service.rs that it reads.
pub mod Policy
pub mod Scaler
pub mod Ledger
pub mod Registry
pub mod Lifecycle
pub mod Usage
pub mod Controller
