-- ===== src/Tests.antt =====
-- The theorems applied to small concrete inputs, over simple implementations of the external code.
mod Retries
mod World
mod Peers
mod Requests
mod Values
mod Preheats
mod Registry
mod Images
mod Pools
mod Seeds
mod Builds
