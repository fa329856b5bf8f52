-- ===== src/Ibverbs/Transfer.antt =====
-- One chunk of a read, from the memory of the machine that holds the data to the memory of the one
-- that asked: `DoCurWrite` of comm_network/ibverbs/ibverbs_write_helper.cpp, the writes that
-- `PostWriteRequest` of ibverbs_qp.cpp posts, and `SyncRead` of ibverbs_read_helper.cpp.
-- What the network does with a request is a parameter, `rdma_write`: from the request, the memory
-- of the sender and that of the receiver, the receiver's memory afterwards.
pub mod Arrival
pub mod Setup
pub mod Whole
mod Tests
mod EdgeTests
use comm_network.Prelude.{ℕ, ◌+◌, ◌-◌, ◌≡◌, List, [], ◌∷◌, ◌&&◌, leb, ltb, if◌then◌else◌}
use comm_network.Ibverbs.Verbs.{Memory, SendWr}

-- The bytes from `dst` on replaced by those of another memory from `src` on.
abbrev pub splice : ℕ → ℕ → ℕ → Memory → Memory → Memory
splice dst src n from to a = if leb dst a && ltb a (dst + n) then from (src + (a - dst)) else to a

-- What an RDMA write is documented to do.
abbrev pub IsRdmaWrite : (SendWr → Memory → Memory → Memory) → Type 0
IsRdmaWrite rdma_write =
    (w : SendWr) (from to : Memory)
    → rdma_write w from to ≡ splice w.remote_addr w.sge.addr w.sge.length from to

-- A reliable connection carries out the requests in the order of the queue.
unfoldable pub deliver :
    (SendWr → Memory → Memory → Memory) → List SendWr → Memory → Memory → Memory
deliver rdma_write [] from to = to
deliver rdma_write (w ∷ ws) from to = deliver rdma_write ws from (rdma_write w from to)
