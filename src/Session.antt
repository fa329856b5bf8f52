-- ===== src/Session.antt =====
-- comm_network/comm_network.cpp: `SetUpCommNet`, on the singletons of common/global.h. What the
-- constructors do is modelled in Config, Control and Ibverbs.
mod Repeats
use comm_network.Prelude.{Bool, true, false, Option, Result, ok, if◌then◌else◌, ◌>>=◌}
use comm_network.Common.Globals.{
  Globals, no_globals, void_kind, get_global, set_allocated, new_global,
}

-- The singletons, by their types.
pub record Session : Type 0 where
  pub config_desc : Globals
  pub ctrl_server : Globals
  pub ctrl_client : Globals
  pub ibverbs_comm_net : Globals
  pub epoll_comm_net : Globals
  pub comm_net : Globals

-- The branch that makes the network, and `Global<CommNet>` the same object.
unfoldable pub new_comm_net : Bool → Session → Result Session
unfolding get_global set_allocated new_global
new_comm_net true s = do
  ibverbs ← new_global void_kind s.ibverbs_comm_net
  val ← get_global void_kind ibverbs
  comm_net ← set_allocated void_kind val s.comm_net
  ok (record s { ibverbs_comm_net = ibverbs; comm_net = comm_net })
new_comm_net false s = do
  epoll ← new_global void_kind s.epoll_comm_net
  val ← get_global void_kind epoll
  comm_net ← set_allocated void_kind val s.comm_net
  ok (record s { epoll_comm_net = epoll; comm_net = comm_net })

unfoldable pub set_up_comm_net : Bool → Session → Result Session
unfolding new_comm_net new_global
set_up_comm_net use_rdma s = do
  config_desc ← new_global void_kind s.config_desc
  ctrl_server ← new_global void_kind s.ctrl_server
  ctrl_client ← new_global void_kind s.ctrl_client
  new_comm_net use_rdma
      (record s { config_desc = config_desc; ctrl_server = ctrl_server; ctrl_client = ctrl_client })
