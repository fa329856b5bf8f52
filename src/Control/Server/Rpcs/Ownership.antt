-- ===== src/Control/Server/Rpcs/Ownership.antt =====
-- comm_network/control/ctrl_server.cpp: who holds each call object of `HandleRpcs`.
use comm_network.Prelude.{
  ℕ, ◌+◌, ◌≡◌, ◌≢◌, refl, [], ◌++◌, Option, none, some, true, ok, not, check, leb, subst,
  ok-injective, arith, >>=-eq-ok,
}
use comm_network.Control.Server.{CtrlRequest, handle}
use comm_network.Control.Server.Answers.{count, AreMaps, handle-Holds}
use comm_network.Control.Server.Rpcs.Counts.{
  live, unanswered, waiting, live-mark, unanswered-mark, live-delete_call, unanswered-delete_call,
  count-take_tag, count-tags_of, unanswered-live, live-find_call, unanswered-find_call,
}
use comm_network.Control.Server.Rpcs.{
  Status, before_handle_request, before_delete, Rpcs, RpcEvent, completed, failed, alarm,
  alarm_failed, find_call, delete_call, mark, take_tag, tags_of, arm, enqueue_requests, serve,
  process, handle_rpc,
}

-- Each object has one holder, the queue or the server; a number stands for one object at most; a
-- call that the server keeps is still to be answered; and the next number is a new one.
abbrev pub HasOneHolder : ℕ → Rpcs → Type 0
HasOneHolder c s =
    (count c s.owed + waiting c s.server ≡ live c s.calls)
    × (leb (live c s.calls) 1 ≡ true)
    × (leb (waiting c s.server) (unanswered c s.calls) ≡ true)

abbrev IsSound : Rpcs → Type 0
IsSound s =
    AreMaps s.server × ((c : ℕ) → HasOneHolder c s × (leb s.next c ≡ true → live c s.calls ≡ 0))

-- The queue owes the tag of the event.
abbrev pub IsOwed : RpcEvent → Rpcs → Type 0
IsOwed (completed call r) s = leb 1 (count call s.owed) ≡ true
IsOwed (failed call) s = leb 1 (count call s.owed) ≡ true
IsOwed alarm s = Unit
IsOwed alarm_failed s = Unit

-- A result carries what holds of the state in it.
ok-IsSound : {s s' : Rpcs} → IsSound s → ok s ≡ ok s' → IsSound s'
ok-IsSound {s} {s'} h e = subst IsSound (ok-injective s s' e) h

enqueue_requests-IsSound : IsSound enqueue_requests
enqueue_requests-IsSound = ((tt, tt), λ c. ground arith)

drop_call-IsSound :
    (call : ℕ) (s : Rpcs)
    → IsSound s
    → leb 1 (count call s.owed) ≡ true
    → IsSound (record s { calls = delete_call call s.calls; owed = take_tag call s.owed })
drop_call-IsSound call s (maps, h) owed = (
  maps,
  λ c. ground (
    arith,
    h c,
    live-delete_call c call s.calls,
    unanswered-delete_call c call s.calls,
    count-take_tag c call s.owed,
  ),
)

serve-IsSound :
    (call : ℕ) (r : CtrlRequest) (s : Rpcs) {s' : Rpcs}
    → IsSound s
    → leb 1 (count call s.owed) ≡ true
    → find_call call s.calls ≡ some before_handle_request
    → serve call r (record s { owed = take_tag call s.owed }) ≡ ok s'
    → IsSound s'
unfolding serve
serve-IsSound call r s (maps, h) owed there e =
    let (server', e1, e2) = >>=-eq-ok (handle call r (record s.server { responses = [] })) _ e in
    let (maps', more) = handle-Holds call r (record s.server { responses = [] }) maps e1 in
    let result : IsSound (
        arm (record s {
          server = server';
          calls = mark server'.responses s.calls;
          owed = tags_of server'.responses ++ take_tag call s.owed;
        })) =
      (
        maps',
        λ c. ground (
          arith,
          h c,
          h call,
          more c,
          live-mark c server'.responses s.calls,
          unanswered-mark c server'.responses s.calls,
          unanswered-live c s.calls,
          count-take_tag c call s.owed,
          count-tags_of c server'.responses (take_tag call s.owed),
          unanswered-find_call call s.calls there,
        ),
      ) in
    ok-IsSound result e2

process-IsSound :
    (call : ℕ) (r : CtrlRequest) (s : Rpcs) {s' : Rpcs}
    → IsSound s
    → leb 1 (count call s.owed) ≡ true
    → (o : Option Status) → find_call call s.calls ≡ o
    → process o call r (record s { owed = take_tag call s.owed }) ≡ ok s'
    → IsSound s'
unfolding process
process-IsSound call r s h owed none there e = cc
process-IsSound call r s h owed (some before_handle_request) there e =
    serve-IsSound call r s h owed there e
process-IsSound call r s h owed (some before_delete) there e =
    ok-IsSound (drop_call-IsSound call s h owed) e

handle_rpc-IsSound :
    (event : RpcEvent) (s : Rpcs) {s' : Rpcs}
    → IsSound s
    → IsOwed event s
    → handle_rpc event s ≡ ok s'
    → IsSound s'
unfolding handle_rpc
handle_rpc-IsSound (completed call r) s h owed e =
    process-IsSound call r s h owed (find_call call s.calls) refl e
handle_rpc-IsSound (failed call) s h owed e =
    let (u, e1, e2) = >>=-eq-ok (check s.is_shutdown) _ e in
    ok-IsSound (drop_call-IsSound call s h owed) e2
handle_rpc-IsSound alarm s h owed e =
    let (u, e1, e2) = >>=-eq-ok (check (not s.is_shutdown)) _ e in
    let result : IsSound (record s { is_shutdown = true }) = h in ok-IsSound result e2
handle_rpc-IsSound alarm_failed s h owed e =
    let (u, e1, e2) = >>=-eq-ok (check s.is_shutdown) _ e in cc

-- The states that `HandleRpcs` reaches.
pub data Reached : Rpcs → Type 0 where
  started : Reached enqueue_requests
  served :
      (event : RpcEvent) {s s' : Rpcs}
      → Reached s
      → IsOwed event s
      → handle_rpc event s ≡ ok s'
      → Reached s'

Reached-IsSound : {s : Rpcs} → Reached s → IsSound s
Reached-IsSound started = enqueue_requests-IsSound
Reached-IsSound (served event {s} before owed e) =
    handle_rpc-IsSound event s (Reached-IsSound before) owed e

-- The queue returns each tag as often as it owes it. Then, in every state that `HandleRpcs` reaches,
-- before and after the shutdown: for each number, the objects allocated under it are as many as the
-- tags that the queue still owes for it and the places where the server keeps it together, and at
-- most one; a call that the server keeps is an object still to be answered; and a tag that is owed
-- finds its object.
pub Reached-HasOneHolder :
    {s : Rpcs}
    → Reached s
    → (c : ℕ) → HasOneHolder c s × (leb 1 (count c s.owed) ≡ true → find_call c s.calls ≢ none)
Reached-HasOneHolder {s} reached c =
    let (one, _) = (Reached-IsSound reached).1 c in
    (one, λ owed gone. ground (arith, one, live-find_call c s.calls gone))
