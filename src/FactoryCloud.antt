-- ===== src/FactoryCloud.antt =====
-- factory_cloud: the persistent orchestration of application work.
pub mod Priority
pub mod Capabilities
pub mod Stamp
pub mod Lease
pub mod Adapters
pub mod WorkQueue
pub mod StateStore
pub mod Assurance
pub mod Orchestrator
