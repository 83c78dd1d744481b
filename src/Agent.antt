-- ===== src/Agent.antt =====
-- apps/agent: the program that runs on gateway nodes and on internal nodes.
pub mod Backends
pub mod Bgp
pub mod Cluster
pub mod Firewall
pub mod Main
pub mod Manager
pub mod Routes
pub mod RoutesUpdater
pub mod Wireguard
