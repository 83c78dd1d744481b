-- ===== src/Examples.antt =====
-- Concrete hosts and inputs, and the theorems at them.
pub mod Memory
pub mod Daemon
pub mod Snapshot
pub mod BgpInternal
pub mod BgpGateway
pub mod Communities
pub mod Host
pub mod Routes
pub mod Wireguard
pub mod Cluster
pub mod Agents
pub mod Configs
pub mod Managers
pub mod Operators
pub mod Start
mod Tenants
mod Gateways
mod Deletions
pub mod Working
