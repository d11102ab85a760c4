-- ===== src/Tests.antt =====
-- Concrete licenses, services and registries, and runs of the definitions on them.
mod Charts
mod Samples
mod Services
mod Registries
mod StorageExamples
mod ServerExamples
mod ManagerExamples
mod ViewExamples
mod PermissionExamples
mod StartExamples
mod AddonExamples
mod CommandExamples
mod DeliveryExamples
mod ClaimExamples
mod PromiseExamples
mod CopyExamples
