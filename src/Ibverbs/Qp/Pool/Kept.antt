-- ===== src/Ibverbs/Qp/Pool/Kept.antt =====
-- comm_network/ibverbs/ibverbs_qp.cpp: no message buffer is lost or used twice.
use comm_network.Prelude.{
  ℕ, ◌≡◌, refl, List, [], ◌∷◌, ◌++◌, Option, some, ok, ◌==◌, if◌then◌else◌, arith, or_abort,
  out_of_range, null_pointer, get_elem?, >>=-eq-ok, Bool-cases, inl, inr,
}
use comm_network.Prelude.Int.{ℤ, pos}
use comm_network.Ibverbs.Port.{WorkRequestId, find_id, new_work_request_id, post_send}
use comm_network.Ibverbs.Qp.{
  Env, MsgBuf, is_user_msg, call_cb, Endpoint, read_msg, get_one_send_msg_mr_from_buf, set_msg_buf,
  post_msg, post_send_request, post_recv_request, msg_of, delete_id, send_done, recycle,
}
use comm_network.Ibverbs.Qp.Pool.{KeepsBuffers, MsgOp, posts, sent, received, run_op, run_ops}
use comm_network.Ibverbs.Qp.Pool.Steps.{
  delete_id-holders, post_recv_request-holders, get_one_send_msg_mr_from_buf-holders,
  set_msg_buf-holders, read_msg-holders, count-snoc,
}

post_msg-KeepsBuffers :
    (env : Env) (key : ℤ) (payload : List ℕ) (cb : Option ℕ) (e : Endpoint) {e' : Endpoint}
    → KeepsBuffers e
    → post_msg env key payload cb e ≡ ok e'
    → KeepsBuffers e'
unfolding post_msg new_work_request_id post_send
post_msg-KeepsBuffers env key payload cb e {e'} kept q b =
    let (taken, get, q1) = >>=-eq-ok (get_one_send_msg_mr_from_buf env e.qp) _ q in
    let (qp, put, q2) = >>=-eq-ok (set_msg_buf env (taken.0) key payload cb (taken.1)) _ q1 in
    ground (
      arith,
      kept b,
      get_one_send_msg_mr_from_buf-holders env b e.qp {r = taken} get,
      set_msg_buf-holders env (taken.0) key payload cb (taken.1) {q' = qp} put,
    )

msg_of-holders :
    (env : Env) (k : ℕ) (e : Endpoint) {r : ℕ × MsgBuf}
    → msg_of env k e ≡ ok r
    → (w : WorkRequestId) × (find_id k e.port.live ≡ some w) × (w.msg_mr ≡ some (r.0))
unfolding msg_of
msg_of-holders env k e {r} q =
    let (w, live, q1) = >>=-eq-ok (or_abort null_pointer (find_id k e.port.live)) _ q in
    let (b, of, q2) = >>=-eq-ok (or_abort null_pointer w.msg_mr) _ q1 in
    let (buf, there, q3) = >>=-eq-ok (or_abort out_of_range (get_elem? e.qp.msg_mrs b)) _ q2 in
    (w, ground (arith, live), ground (arith, of, q3))

-- The buffer of an id goes back to the pool.
release-KeepsBuffers :
    (env : Env) (k c : ℕ) (e : Endpoint) {w : WorkRequestId} {e' : Endpoint}
    → KeepsBuffers e
    → find_id k e.port.live ≡ some w
    → w.msg_mr ≡ some c
    → delete_id env k
        (record e { qp = record (e.qp) { send_msg_buf = e.qp.send_msg_buf ++ c ∷ [] } })
      ≡ ok e'
    → KeepsBuffers e'
release-KeepsBuffers env k c e {w} {e'} kept live of q b = ground (
  arith,
  kept b,
  of,
  count-snoc b c e.qp.send_msg_buf,
  delete_id-holders env b k
      (record e { qp = record (e.qp) { send_msg_buf = e.qp.send_msg_buf ++ c ∷ [] } }) {w = w}
      {e' = e'} live q,
)

-- The new id names the buffer of the old one, so either gives it up.
post_recv_request-names :
    (env : Env) (k c : ℕ) (e : Endpoint) {w : WorkRequestId} {e' : Endpoint}
    → find_id k e.port.live ≡ some w
    → w.msg_mr ≡ some c
    → post_recv_request env c e ≡ ok e'
    → (v : WorkRequestId) × (find_id k e'.port.live ≡ some v) × (v.msg_mr ≡ some c)
unfolding post_recv_request new_work_request_id find_id
post_recv_request-names env k c e {w} {e'} live of q = elim (Bool-cases (e.port.next_id == k)) [
  | inl y ↦ (record { outstanding_sge_cnt = pos 0; msg_mr = some c }, ground (arith, y, q), refl)
  | inr n ↦ (w, ground (arith, n, q, live), of)
]

recycle-KeepsBuffers :
    (env : Env) (k c : ℕ) (e : Endpoint) {w : WorkRequestId} {e' : Endpoint}
    → KeepsBuffers e
    → find_id k e.port.live ≡ some w
    → w.msg_mr ≡ some c
    → recycle env k c e ≡ ok e'
    → KeepsBuffers e'
unfolding recycle
recycle-KeepsBuffers env k c e {w} {e'} kept live of q b =
    let (e1, posted, q1) = >>=-eq-ok (post_recv_request env c e) _ q in
    let (v, live', of') = post_recv_request-names env k c e {w = w} {e' = e1} live of posted in
    ground (
      arith,
      kept b,
      of',
      post_recv_request-holders env b c e {e' = e1} posted,
      delete_id-holders env b k e1 {w = v} {e' = e'} live' q1,
    )

called-holders :
    (env : Env) (buf : MsgBuf) (e : Endpoint)
    → let e1 = if is_user_msg env buf then call_cb buf.cb e else e in
      (e1.qp ≡ e.qp) × (e1.port ≡ e.port)
called-holders env buf e = ground arith

run_op-KeepsBuffers :
    (env : Env) (o : MsgOp) (e : Endpoint) {e' : Endpoint}
    → KeepsBuffers e
    → run_op env o e ≡ ok e'
    → KeepsBuffers e'
unfolding run_op post_send_request send_done recycle msg_of
run_op-KeepsBuffers env (posts m msg) e {e'} kept q =
    let (r, get, q1) = >>=-eq-ok (read_msg env m msg e) _ q in
    let (same, ids) = read_msg-holders env m msg e {r = r} get in
    post_msg-KeepsBuffers env (r.0) (r.1) (r.2) (r.3) {e' = e'}
      (λ b. ground (arith, kept b, same, ids)) q1
run_op-KeepsBuffers env (sent k) e {e'} kept q =
    let (found, get, q1) = >>=-eq-ok (msg_of env k e) _ q in
    let (w, live, of) = msg_of-holders env k e {r = found} get in
    let e1 = if is_user_msg env (found.1) then call_cb (found.1.cb) e else e in
    let (same, ids) = called-holders env (found.1) e in
    release-KeepsBuffers env k (found.0) e1 {w = w} {e' = e'}
      (λ b. ground (arith, kept b, same, ids)) (ground (arith, ids, live)) of q1
run_op-KeepsBuffers env (received k) e {e'} kept q =
    let (found, get, q1) = >>=-eq-ok (msg_of env k e) _ q in
    let (w, live, of) = msg_of-holders env k e {r = found} get in
    recycle-KeepsBuffers env k (found.0) e {w = w} {e' = e'} kept live of q1

-- If each message buffer that exists is in the pool of send buffers or named by a work request id,
-- and that once, then so it is after any calls that move one, in any order, unless one of them
-- stops: none is lost and none used twice.
pub run_ops-KeepsBuffers :
    (env : Env) (os : List MsgOp) (e : Endpoint) {e' : Endpoint}
    → KeepsBuffers e
    → run_ops env os e ≡ ok e'
    → KeepsBuffers e'
unfolding run_ops
run_ops-KeepsBuffers env [] e {e'} kept q b = ground (arith, q, kept b)
run_ops-KeepsBuffers env (o ∷ os) e {e'} kept q b =
    let (e1, first, rest) = >>=-eq-ok (run_op env o e) _ q in
    run_ops-KeepsBuffers env os e1 (run_op-KeepsBuffers env o e kept first) rest b
