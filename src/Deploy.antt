-- ===== src/Deploy.antt =====
-- src/deploy, with the repository of deployments and artifacts that it writes.
pub mod Tables
pub mod Step
pub mod Repo
pub mod Sources
pub mod Routing
pub mod Coordinator
pub mod Live
pub mod Promotion
pub mod Keeping
pub mod Finalizing
pub mod Runs
pub mod History
pub mod Rerouting
pub mod Ends
pub mod Wiring
pub mod Endpoints
pub mod Claims
pub mod Stopping
pub mod Catalog
pub mod Managed
pub mod Credentials
