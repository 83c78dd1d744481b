-- ===== src/Operator.antt =====
-- apps/operator: the controller of the NetworkOverlay resource.
pub mod Community
pub mod Cluster
pub mod Edges
pub mod Gateways
pub mod Workloads
pub mod Kept
pub mod Controller
pub mod Main
