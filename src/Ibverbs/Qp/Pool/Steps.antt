-- ===== src/Ibverbs/Qp/Pool/Steps.antt =====
-- comm_network/ibverbs/ibverbs_qp.cpp: what each step of a message does to the places of a buffer.
use comm_network.Prelude.{
  ℕ, ◌+◌, ◌≡◌, refl, List, [], ◌∷◌, ◌++◌, Option, none, some, ok, length, length-set, length-append,
  ◌==◌, ltb, if◌then◌else◌, arith, check, or_abort, out_of_range, get_elem?, leb, >>=-eq-ok,
  Bool-cases, inl, inr,
}
use comm_network.Prelude.Int.{ℤ, pos}
use comm_network.Message.{Msg, user_message, please_write_message, free_buffer_message}
use comm_network.Config.{max_msg_size}
use comm_network.Ibverbs.Verbs.{Memory, at}
use comm_network.Prelude.Words.{sub64}
use comm_network.Ibverbs.MemDesc.{new_mem_desc}
use comm_network.Ibverbs.Port.{
  WorkRequestId, find_id, erase_id, delete_work_request_id, new_work_request_id,
}
use comm_network.Ibverbs.Qp.{
  Env, Qp, Endpoint, pop_read, read_msg, new_msg_mr, get_one_send_msg_mr_from_buf, set_msg_buf,
  post_recv_request, delete_id,
}
use comm_network.Ibverbs.Qp.Pool.{count, names, count_ids}

pub count-snoc :
    (b c : ℕ) (l : List ℕ) → count b (l ++ c ∷ []) ≡ count b l + (if c == b then 1 else 0)
count-snoc b c [] = omega arith
count-snoc b c (d ∷ l) = omega (arith, count-snoc b c l)

-- An id that is deleted gives up the buffer that it names.
pub count_ids-erase_id :
    (b k : ℕ) (l : List (ℕ × WorkRequestId)) {w : WorkRequestId}
    → find_id k l ≡ some w
    → count_ids b l ≡ names b w + count_ids b (erase_id k l)
unfolding find_id erase_id
count_ids-erase_id b k [] e = ground arith
count_ids-erase_id b k ((j, v) ∷ l) {w} e = elim (Bool-cases (j == k)) [
  | inl y ↦ let same : v ≡ w = ground (arith, y, e) in rw (y, same) refl
  | inr n ↦
      let rest = count_ids-erase_id b k l {w = w} (ground (arith, n, e)) in
      rw n (omega (arith, rest))
]

-- What a step adds to the holders of b.
pub new_msg_mr-holders :
    (env : Env) (b : ℕ) (q : Qp) {r : ℕ × Qp}
    → new_msg_mr env q ≡ ok r
    → (r.0 ≡ length q.msg_mrs)
      × (r.1.send_msg_buf ≡ q.send_msg_buf)
      × (length r.1.msg_mrs ≡ length q.msg_mrs + 1)
unfolding new_msg_mr
new_msg_mr-holders env b q {r} e =
    let (d, made, e1) =
      >>=-eq-ok
        (new_mem_desc env.ibv_reg_mr env.config (env.malloc (length q.msg_mrs))
          (max_msg_size env.config))
        _ e in
    let (u, one, e2) = >>=-eq-ok (check (length d.sge_vec == 1)) _ e1 in
    let (sge, first, e3) = >>=-eq-ok (at d.sge_vec (pos 0)) _ e2 in
    ground (
      arith,
      length-append q.msg_mrs
          (record { sge = sge; msg_type_key = pos 0; payload = []; cb = none } ∷ []),
    )

pub delete_id-holders :
    (env : Env) (b k : ℕ) (e : Endpoint) {w : WorkRequestId} {e' : Endpoint}
    → find_id k e.port.live ≡ some w
    → delete_id env k e ≡ ok e'
    → (count_ids b e.port.live ≡ names b w + count_ids b e'.port.live) × (e'.qp ≡ e.qp)
unfolding delete_id delete_work_request_id
delete_id-holders env b k e found q = ground (arith, count_ids-erase_id b k e.port.live found)

pub post_recv_request-holders :
    (env : Env) (b c : ℕ) (e : Endpoint) {e' : Endpoint}
    → post_recv_request env c e ≡ ok e'
    → (count_ids b e'.port.live ≡ (if c == b then 1 else 0) + count_ids b e.port.live)
      × (e'.qp.send_msg_buf ≡ e.qp.send_msg_buf)
      × (e'.qp.msg_mrs ≡ e.qp.msg_mrs)
unfolding post_recv_request new_work_request_id
post_recv_request-holders env b c e q = ground arith

pub get_one_send_msg_mr_from_buf-holders :
    (env : Env) (b : ℕ) (q : Qp) {r : ℕ × Qp}
    → get_one_send_msg_mr_from_buf env q ≡ ok r
    → (count b r.1.send_msg_buf + (if r.0 == b then 1 else 0))
        + (if ltb b (length q.msg_mrs) then 1 else 0)
      ≡ count b q.send_msg_buf + (if ltb b (length r.1.msg_mrs) then 1 else 0)
unfolding get_one_send_msg_mr_from_buf
get_one_send_msg_mr_from_buf-holders env b q {r} e =
    ground (arith, new_msg_mr-holders env b q {r = r})

pub set_msg_buf-holders :
    (env : Env) (b : ℕ) (key : ℤ) (payload : List ℕ) (cb : Option ℕ) (q : Qp) {q' : Qp}
    → set_msg_buf env b key payload cb q ≡ ok q'
    → (q'.send_msg_buf ≡ q.send_msg_buf) × (length q'.msg_mrs ≡ length q.msg_mrs)
unfolding set_msg_buf
set_msg_buf-holders env b key payload cb q {q'} e =
    let (buf, there, e1) = >>=-eq-ok (or_abort out_of_range (get_elem? q.msg_mrs b)) _ e in
    let (u, fits, e2) =
      >>=-eq-ok (check (leb (length payload) (sub64 (max_msg_size env.config) 8))) _ e1 in
    ground (
      arith,
      length-set q.msg_mrs b (record buf { msg_type_key = key; payload = payload; cb = cb }),
    )

pub read_msg-holders :
    (env : Env) (m : Memory) (msg : Msg) (e : Endpoint) {r : ℤ × List ℕ × Option ℕ × Endpoint}
    → read_msg env m msg e ≡ ok r
    → (r.3.qp ≡ e.qp) × (r.3.port.live ≡ e.port.live)
unfolding read_msg pop_read
read_msg-holders env m (user_message u cb) e q = ground arith
read_msg-holders env m (please_write_message p) e q = ground arith
read_msg-holders env m (free_buffer_message f) e q = ground arith
