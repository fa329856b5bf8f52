-- ===== src/Control/Server/Rpcs/Tests.antt =====
-- Tests of `HandleRpcs`.
use comm_network.Prelude.{◌≡◌, ◌≢◌, refl, none, true, Result, ok, leb}
use comm_network.Control.Server.{pull_kv_request, push_kv_request, handle}
use comm_network.Prelude.Assoc.{lookup, assign, erase}
use comm_network.Control.Server.Answers.{count}
use comm_network.Control.Server.Rpcs.{
  Rpcs, completed, alarm, find_call, enqueue_requests, handle_rpc,
}
use comm_network.Control.Server.Rpcs.Ownership.{
  HasOneHolder, Reached, started, served, Reached-HasOneHolder,
}

abbrev or_start : Result Rpcs → Rpcs
or_start (ok s) = s
or_start _ = enqueue_requests

-- A pull waits, a push answers it, and the queue is shut down.
pulled : Rpcs
unfolding handle_rpc handle lookup assign erase
pulled = or_start (handle_rpc (completed 4 (pull_kv_request "k")) enqueue_requests)

pushed : Rpcs
unfolding handle_rpc handle lookup assign erase pulled
pushed = or_start (handle_rpc (completed 2 (push_kv_request "k" "v")) pulled)

closed : Rpcs
unfolding handle_rpc handle lookup assign erase pushed
closed = or_start (handle_rpc alarm pushed)

closed-Reached : Reached closed
unfolding handle_rpc handle lookup assign erase pulled pushed closed
closed-Reached =
    served alarm
      (served (completed 2 (push_kv_request "k" "v"))
        (served (completed 4 (pull_kv_request "k")) started refl refl) refl refl)
      tt refl

Reached-HasOneHolder_example :
    HasOneHolder 4 closed × (leb 1 (count 4 closed.owed) ≡ true → find_call 4 closed.calls ≢ none)
Reached-HasOneHolder_example = Reached-HasOneHolder closed-Reached 4
