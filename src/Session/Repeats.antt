-- ===== src/Session/Repeats.antt =====
-- comm_network/comm_network.cpp: what a call of `SetUpCommNet` leaves for the next.
use comm_network.Prelude.{
  suc, ◌∷◌, ◌≡◌, refl, Bool, true, false, none, some, ok, abort, check_failed, if◌then◌else◌,
}
use comm_network.Common.Globals.{Globals, get_global, set_allocated, new_global}
use comm_network.Session.{Session, new_comm_net, set_up_comm_net}

-- After `New`.
abbrev fresh : Globals → Globals
fresh g = record g { plain = some g.next; alive = g.next ∷ g.alive; next = suc g.next }

abbrev begun : Session → Session
begun s = record s {
  config_desc = fresh s.config_desc;
  ctrl_server = fresh s.ctrl_server;
  ctrl_client = fresh s.ctrl_client;
}

-- From singletons that are not in use, the call makes the network that the configuration asks for,
-- and `Global<CommNet>` is that same object; a call after it stops at the first CHECK.
set_up_comm_net_lem :
    (use_rdma again : Bool) (s : Session)
    → s.config_desc.plain ≡ none
    → s.ctrl_server.plain ≡ none
    → s.ctrl_client.plain ≡ none
    → s.ibverbs_comm_net.plain ≡ none
    → s.epoll_comm_net.plain ≡ none
    → (s' : Session) × (set_up_comm_net use_rdma s ≡ ok s')
      × (s'.comm_net.plain
          ≡ (if use_rdma then s'.ibverbs_comm_net.plain else s'.epoll_comm_net.plain))
      × (set_up_comm_net again s' ≡ abort check_failed)
unfolding set_up_comm_net new_comm_net new_global get_global set_allocated
set_up_comm_net_lem true again s c1 c2 c3 c4 c5 =
    let net : Globals = fresh s.ibverbs_comm_net in
    let made : Session = record (begun s) {
      ibverbs_comm_net = net;
      comm_net = record (s.comm_net) { plain = net.plain };
    } in
    (made, rw (c1, c2, c3, c4) refl, refl, refl)
set_up_comm_net_lem false again s c1 c2 c3 c4 c5 =
    let net : Globals = fresh s.epoll_comm_net in
    let made : Session = record (begun s) {
      epoll_comm_net = net;
      comm_net = record (s.comm_net) { plain = net.plain };
    } in
    (made, rw (c1, c2, c3, c5) refl, refl, refl)
