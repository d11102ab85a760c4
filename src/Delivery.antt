-- ===== src/Delivery.antt =====
-- The parts together: how a license gets from the license server to the hub cluster, from there to a
-- spoke cluster's registry, and to the user who asks for it (pkg/manager/license_acquirer.go,
-- pkg/controllers/secret/license_syncer.go, pkg/storage and
-- pkg/registry/proxyserver/licenserequest/storage.go).
pub mod Answering
pub mod Syncing
pub mod Issuing
pub mod Acquiring
pub mod Claimed
