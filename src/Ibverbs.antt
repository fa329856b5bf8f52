-- ===== src/Ibverbs.antt =====
-- comm_network/ibverbs: the transport over RDMA.
pub mod Verbs
pub mod MemDesc
pub mod MsgMr
pub mod Port
pub mod Chunk
pub mod WriteHelper
pub mod ReadHelper
pub mod Transfer
pub mod Qp
pub mod CommNet
pub mod Connection
pub mod Queues
pub mod Teardown
pub mod Poller
