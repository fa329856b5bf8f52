-- ===== src/Control/Cluster.antt =====
-- comm_network/control: the clients and the servers of all machines together. A call of a client
-- goes to the server at the address of its stub, which handles it (`CallMethod`); a server that is
-- not there fails the `GRPC_CHECK`. The servers are kept by their addresses.
pub mod Meeting
mod Tests
use Prim.Native.String.{String}
use comm_network.Prelude.{
  ℕ, List, [], ◌∷◌, map, Option, Result, ok, abort, check_failed, or_abort, ◌>>=◌,
}
use comm_network.Prelude.Assoc.{lookup, assign}
use comm_network.Control.Server.{CtrlServer, CtrlRequest, handle}

abbrev pub Cluster : Type 0
Cluster = List (String × CtrlServer)

-- `ClientCall::operator()`
unfoldable pub client_call : ℕ → String × CtrlRequest → Cluster → Result Cluster
client_call call (stub, r) cluster = do
  server ← or_abort check_failed (lookup stub cluster)
  server' ← handle call r server
  ok (assign stub server' cluster)

-- Calls of any clients, in the order in which they arrive; the functions of a client give the stub
-- and the request, or stop.
unfoldable pub run_calls : List (ℕ × Result (String × CtrlRequest)) → Cluster → Result Cluster
unfolding client_call
run_calls [] cluster = ok cluster
run_calls ((call, c) ∷ calls) cluster =
    c >>= λ r. client_call call r cluster >>= λ cluster'. run_calls calls cluster'
