-- ===== src/Control/Server/Rpcs.antt =====
-- comm_network/control/ctrl_server.cpp and ctrl_call.h: `HandleRpcs` and the life of a call object.
-- `calls` holds the objects that are allocated, under the numbers that stand for their addresses,
-- and `owed` the tags that the completion queue has still to return, one for each
-- `RequestAsyncUnary` and each `Finish`. A handler that arms a method after the queue was shut down
-- is outside this model.
pub mod Counts
pub mod Ownership
mod Tests
use comm_network.Prelude.{
  ℕ, suc, List, [], ◌∷◌, Option, none, some, Bool, true, false, not, Result, ok, abort,
  null_pointer, check_failed, check, map, ◌++◌, ◌==◌, if◌then◌else◌, ◌>>=◌, ◌>>◌,
}
use comm_network.Control.Server.{
  CtrlServer, CtrlRequest, CtrlResponse, load_server, barrier, push_kv, clear_kv, pull_kv, new,
  handle, enqueue_request,
}
use comm_network.Control.Server.Answers.{answered}

pub data Status : Type 0 where
  before_handle_request before_delete : Status

pub record Rpcs : Type 0 where
  pub server : CtrlServer
  pub calls : List (ℕ × Status)
  pub owed : List ℕ
  pub next : ℕ
  pub is_shutdown : Bool

-- What `Next` returns: a call with `ok`, with the request that gRPC has read into it if it is new,
-- a call without `ok`, or the null tag of the alarm, with
-- `ok` or without.
pub data RpcEvent : Type 0 where
  completed : (call : ℕ) → CtrlRequest → RpcEvent
  failed : (call : ℕ) → RpcEvent
  alarm alarm_failed : RpcEvent

abbrev pub find_call : ℕ → List (ℕ × Status) → Option Status
find_call c [] = none
find_call c ((call, st) ∷ calls) = if call == c then some st else find_call c calls

-- `delete`
abbrev pub delete_call : ℕ → List (ℕ × Status) → List (ℕ × Status)
delete_call c [] = []
delete_call c ((call, st) ∷ calls) =
    let rest = delete_call c calls in if call == c then rest else (call, st) ∷ rest

-- `SendResponse` moves the call it answers on to `kBeforeDelete`.
abbrev pub mark : List (ℕ × CtrlResponse) → List (ℕ × Status) → List (ℕ × Status)
mark rs [] = []
mark rs ((call, st) ∷ calls) =
    (call, if answered call rs == 0 then st else before_delete) ∷ mark rs calls

-- The queue returns a tag.
abbrev pub take_tag : ℕ → List ℕ → List ℕ
take_tag c [] = []
take_tag c (call ∷ tags) = let rest = take_tag c tags in if call == c then rest else call ∷ rest

-- The tags of the calls that were answered.
abbrev pub tags_of : List (ℕ × CtrlResponse) → List ℕ
tags_of rs = map (λ x. x.0) rs

-- `EnqueueRequest` allocates a call and asks for a request to it.
abbrev pub arm : Rpcs → Rpcs
arm s = record s {
  calls = (s.next, before_handle_request) ∷ s.calls;
  owed = s.next ∷ s.owed;
  next = suc s.next;
}

-- What `EnqueueRequests` leaves.
abbrev pub enqueue_requests : Rpcs
enqueue_requests = arm (
    arm (
      arm (
        arm (
          arm (record {
            server = record new {
              requested = load_server ∷ barrier ∷ push_kv ∷ clear_kv ∷ pull_kv ∷ [];
            };
            calls = [];
            owed = [];
            next = 0;
            is_shutdown = false;
          })))))

-- The handler of the call; each of its calls of `SendResponse` finishes a call.
unfoldable pub serve : ℕ → CtrlRequest → Rpcs → Result Rpcs
serve call r s = do
  server' ← handle call r (record s.server { responses = [] })
  ok (
      arm (record s {
        server = server';
        calls = mark server'.responses s.calls;
        owed = tags_of server'.responses ++ s.owed;
      }))

-- `CtrlCall::Process`; an address without an object, which is freed memory, counts as a
-- `null_pointer`.
unfoldable pub process : Option Status → ℕ → CtrlRequest → Rpcs → Result Rpcs
unfolding serve
process none call r s = abort null_pointer
process (some before_handle_request) call r s = serve call r s
process (some before_delete) call r s = ok (record s { calls = delete_call call s.calls })

-- One round of the loop.
unfoldable pub handle_rpc : RpcEvent → Rpcs → Result Rpcs
unfolding process
handle_rpc (completed call r) s =
    process (find_call call s.calls) call r (record s { owed = take_tag call s.owed })
handle_rpc (failed call) s =
    check s.is_shutdown
    >> ok (record s { calls = delete_call call s.calls; owed = take_tag call s.owed })
handle_rpc alarm s = check (not s.is_shutdown) >> ok (record s { is_shutdown = true })
handle_rpc alarm_failed s = check s.is_shutdown >> abort check_failed
