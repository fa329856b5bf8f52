-- ===== src/Ibverbs/CommNet/Receiving.antt =====
-- comm_network/ibverbs: what a queue pair's completions do to the machine, from the runs of their
-- parts.
use comm_network.Prelude.{
  ℕ, suc, ◌≡◌, ◌≢◌, ap, ◌∙◌, List, [], ◌∷◌, ◌++◌, some, false, Result, ok, ◌==◌, ◌>>=◌, arith,
}
use comm_network.Prelude.Int.{ℤ, pos, negsuc, ◌+ℤ◌, ltb_ℤ}
use comm_network.Message.{num_type}
use comm_network.Ibverbs.Port.{
  WorkRequestId, find_id, erase_id, delete_work_request_id, new_work_request_id,
}
use comm_network.Ibverbs.Qp.{
  Env, MsgBuf, Called, called_handler, Endpoint, post_recv_request, msg_of, delete_id, recycle,
}
use comm_network.Ibverbs.Qp.Sending.{msg_id}
use comm_network.Ibverbs.CommNet.{
  Net, endpoint, put_endpoint, with_qp, find_handler, get_msg_handler, call, user_received,
  deal_msg, recv_done,
}

abbrev pub AcceptsRecv : Env → Type 0
AcceptsRecv env = (l : List ℕ) (w : ℕ) → env.ibv_post_recv l w ≡ 0

pub with_qp_lem :
    (peer : ℤ) (f : Endpoint → Result Endpoint) (net : Net) {e e' : Endpoint}
    → endpoint peer net ≡ ok e
    → f e ≡ ok e'
    → with_qp peer f net ≡ ok (put_endpoint peer e' net)
unfolding with_qp
with_qp_lem peer f net at_peer run = rw (at_peer, run)

-- A completion whose id leads to buffer b: the id names it and is not the next one.
pub record Completes (env : Env) (k : ℕ) (e : Endpoint) (b : ℕ) (buf : MsgBuf) : Type 0 where
  pub found : msg_of env k e ≡ ok (b, buf)
  pub id : WorkRequestId
  pub live : find_id k e.port.live ≡ some id
  pub fresh : e.port.next_id ≢ k

-- The buffer is posted again under a new id, and the old id is gone.
abbrev pub recycled : ℕ → ℕ → Endpoint → Endpoint
recycled k b e = record e {
  port = record (e.port) {
    live = (e.port.next_id, msg_id b) ∷ erase_id k e.port.live;
    next_id = suc e.port.next_id;
  };
  qp = record (e.qp) { recv_posted = e.qp.recv_posted ++ e.port.next_id ∷ [] };
}

pub recycle_lem :
    (env : Env) (k b : ℕ) (e : Endpoint) {w : WorkRequestId}
    → find_id k e.port.live ≡ some w
    → e.port.next_id ≢ k
    → AcceptsRecv env
    → recycle env k b e ≡ ok (recycled k b e)
unfolding recycle post_recv_request new_work_request_id delete_id delete_work_request_id find_id
    erase_id
recycle_lem env k b e live fresh room =
    let other : (e.port.next_id == k) ≡ false = ground (arith, fresh) in
    rw (room e.qp.recv_posted e.port.next_id, other, live)

-- `RecvDone` from what it does with the message.
pub recv_done_run :
    (env : Env) (peer : ℤ) (k : ℕ) (key : ℤ) (net : Net) {e : Endpoint} {b : ℕ} {buf : MsgBuf}
    → endpoint peer net ≡ ok e
    → msg_of env k e ≡ ok (b, buf)
    → recv_done env peer k key net
      ≡ (deal_msg env peer buf.payload key net >>= with_qp peer (recycle env k b))
unfolding recv_done
recv_done_run env peer k key net at_peer found = rw (at_peer, found)

endpoint-call :
    (peer : ℤ) (c : Called) (net : Net) {e : Endpoint}
    → endpoint peer net ≡ ok e
    → endpoint peer (call c net) ≡ ok (record e { called = e.called ++ c ∷ [] })
unfolding endpoint
endpoint-call peer c net {e} at_peer = ground (arith, at_peer)

user_received_lem :
    (env : Env) (peer : ℤ) (payload : List ℕ) (key t : ℤ) (h : ℕ) (net : Net)
    → ltb_ℤ key num_type ≡ false
    → (key +ℤ negsuc 2) ≡ t
    → find_handler t net.msg_handlers ≡ some (some h)
    → deal_msg env peer payload key net ≡ ok (call (called_handler h payload) net)
unfolding deal_msg user_received get_msg_handler
user_received_lem env peer payload key t h net user is_t found = rw (user, is_t, found)

-- A user message of type t, t not negative, that fills the buffer of a completion, on a receive
-- queue with room and where t has a handler: `RecvDone` calls that handler with the message, once,
-- and posts the buffer again under a new id.
pub recv_done_lem :
    (env : Env) (peer : ℤ) (k t h : ℕ) (net : Net) {e : Endpoint} {b : ℕ} {buf : MsgBuf}
    → endpoint peer net ≡ ok e
    → Completes env k e b buf
    → AcceptsRecv env
    → find_handler (pos t) net.msg_handlers ≡ some (some h)
    → recv_done env peer k (num_type +ℤ pos t) net
      ≡ ok (
          put_endpoint peer
            (recycled k b (record e { called = e.called ++ called_handler h buf.payload ∷ [] }))
            (call (called_handler h buf.payload) net))
recv_done_lem env peer k t h net {e} {b} {buf} at_peer done room found =
    recv_done_run env peer k (num_type +ℤ pos t) net at_peer done.found
    ∙ ap (λ r. r >>= with_qp peer (recycle env k b))
        (user_received_lem env peer buf.payload (num_type +ℤ pos t) (pos t) h net (ground arith)
          (ground arith) found)
    ∙ with_qp_lem peer (recycle env k b) (call (called_handler h buf.payload) net)
        (endpoint-call peer (called_handler h buf.payload) net at_peer)
        (recycle_lem env k b (record e { called = e.called ++ called_handler h buf.payload ∷ [] })
          done.live done.fresh room)
