-- ===== src/Ibverbs/CommNet/Exchange.antt =====
-- comm_network/ibverbs: a message from the call that sends it to what the other machine does with it.
-- The network brings a message into the buffer that the receiver has posted; that its bytes are
-- those sent is a hypothesis.
use comm_network.Prelude.{
  ℕ, ◌≤◌, ◌<◌, ◌≡◌, ◌≢◌, ap, sym, subst, ◌+◌, arith, ◌∙◌, List, [], ◌∷◌, ◌++◌, Option, some, ok,
}
use comm_network.Prelude.Int.{ℤ, pos, ◌+ℤ◌}
use comm_network.Prelude.Words.{sub64, wrap_int32, IsInt32, int_max}
use comm_network.Config.{max_msg_size}
use comm_network.Message.{UserMsg, user_message, num_type}
use comm_network.Ibverbs.Qp.{Env, MsgBuf, called_handler, Endpoint, read_bytes, post_send_request}
use comm_network.Ibverbs.Qp.Sending.{Ready, sending, send_done-post_send_request}
use comm_network.Ibverbs.CommNet.{
  Net, endpoint, put_endpoint, find_handler, call, recv_done, send_msg,
}
use comm_network.Ibverbs.CommNet.Receiving.{
  AcceptsRecv, Completes, recycled, with_qp_lem, recv_done_lem,
}

sums : (t : ℕ) → t + 3 ≤ int_max → wrap_int32 (num_type +ℤ pos t) ≡ num_type +ℤ pos t
sums t small = ground (arith, small)

-- A message of `SendMsg` of type t, t not negative and at most INT_MAX - 3, that fits a message buffer, sent where one is
-- free and the send queue accepts, and received in a buffer on a receive queue with room: `SendMsg`
-- posts it, and `RecvDone` of the machine that gets it calls the handler that is registered for t,
-- with the bytes that stood in the sender's memory at the call, and posts the buffer again.
pub recv_done-send_msg :
    (env : Env) (dst src : ℤ) (u : UserMsg) (cb : Option ℕ) (from to : Net) (t h k b : ℕ)
    (rest : List ℕ) (buf : MsgBuf) (e : Endpoint) {e' : Endpoint} {b' : ℕ} {buf' : MsgBuf}
    → endpoint dst from ≡ ok e
    → Ready env e b rest buf
    → u.msg_type ≡ pos t
    → t + 3 ≤ int_max
    → u.ptr ≢ 0
    → 0 < u.bytes
    → u.bytes ≤ sub64 (max_msg_size env.config) 8
    → endpoint src to ≡ ok e'
    → Completes env k e' b' buf'
    → buf'.payload ≡ read_bytes u.ptr u.bytes from.machine.memory
    → AcceptsRecv env
    → find_handler (pos t) to.msg_handlers ≡ some (some h)
    → let payload = read_bytes u.ptr u.bytes from.machine.memory in
      let key = wrap_int32 (num_type +ℤ u.msg_type) in
      (send_msg env dst u cb from
        ≡ ok (put_endpoint dst (sending key payload cb b rest buf e) from))
      × (recv_done env src k key to
          ≡ ok (
              put_endpoint src
                (recycled k b' (record e' { called = e'.called ++ called_handler h payload ∷ [] }))
                (call (called_handler h payload) to)))
unfolding send_msg
recv_done-send_msg env dst src u cb from to t h k b rest buf e {e'} {b'} {buf'} at_dst ready is_t
      small ptr some_bytes fits at_src done carried room found =
    let payload : List ℕ = read_bytes u.ptr u.bytes from.machine.memory in
    let posted =
      send_done-post_send_request env from.machine.memory u cb e b rest buf ready
        (subst IsInt32 (sym is_t) (omega (arith, small))) ptr some_bytes fits in
    let key : wrap_int32 (num_type +ℤ u.msg_type) ≡ num_type +ℤ pos t =
      ap (λ ty. wrap_int32 (num_type +ℤ ty)) is_t ∙ sums t small in
    (
      with_qp_lem dst (post_send_request env from.machine.memory (user_message u cb)) from at_dst
          (posted.0),
      ap (λ ty. recv_done env src k ty to) key
          ∙ recv_done_lem env src k t h to at_src done room found
          ∙ ap
              (λ (l : List ℕ). ok (
                put_endpoint src
                  (recycled k b' (record e' { called = e'.called ++ called_handler h l ∷ [] }))
                  (call (called_handler h l) to)))
              carried,
    )
