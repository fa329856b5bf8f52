-- ===== src/Control.antt =====
-- comm_network/control: the control plane over gRPC.
pub mod Server
pub mod Client
pub mod Service
pub mod Cluster
