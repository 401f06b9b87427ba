-- ===== src/Tests.antt =====
-- Runs of the library at concrete inputs, over a small store.
mod Store
mod Codecs
mod Fixtures
mod Jobs
mod Works
mod Payments
mod Shares
mod Managers
mod Chains
mod Services
mod Hubs
mod Headers
mod Payouts
mod Wire
mod Messages
mod Clients
mod Sessions
mod Endpoints
mod Migrations
mod Miners
