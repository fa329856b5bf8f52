-- ===== src/Ibverbs/Qp/Pool.antt =====
-- comm_network/ibverbs/ibverbs_qp.cpp: where the message buffers of a queue pair are.
pub mod Steps
pub mod Kept
use comm_network.Prelude.{
  ℕ, zero, suc, ◌+◌, ◌<◌, ◌≡◌, refl, sym, ap, ◌∙◌, List, [], ◌∷◌, ◌++◌, Option, none, some, Bool,
  true, false, Result, ok, length, set, length-set, length-append, ◌==◌, ltb, if◌then◌else◌, ◌>>=◌,
  arith, check, subst, or_abort, out_of_range, null_pointer, get_elem?, leb, not, >>=-eq-ok,
  Bool-cases, inl, inr,
}
use comm_network.Prelude.Int.{ℤ, pos}
use comm_network.Message.{Msg, user_message, please_write_message, free_buffer_message}
use comm_network.Config.{max_msg_size}
use comm_network.Ibverbs.Verbs.{Memory, at}
use comm_network.Prelude.Words.{sub64}
use comm_network.Ibverbs.MemDesc.{new_mem_desc}
use comm_network.Ibverbs.Port.{
  WorkRequestId, Port, find_id, erase_id, delete_work_request_id, new_work_request_id, post_send,
}
use comm_network.Ibverbs.Qp.{
  Env, Qp, MsgBuf, is_user_msg, call_cb, Endpoint, pop_read, read_msg, new_msg_mr,
  get_one_send_msg_mr_from_buf, set_msg_buf, post_msg, post_send_request, post_recv_request, msg_of,
  delete_id, send_done, recycle,
}

-- How often a buffer stands in a list.
abbrev pub count : ℕ → List ℕ → ℕ
count b [] = 0
count b (c ∷ l) = (if c == b then 1 else 0) + count b l

abbrev pub names : ℕ → WorkRequestId → ℕ
names b w = elim w.msg_mr [ none ↦ 0 | some c ↦ if c == b then 1 else 0 ]

-- How many of the work request ids name it.
abbrev pub count_ids : ℕ → List (ℕ × WorkRequestId) → ℕ
count_ids b [] = 0
count_ids b ((k, w) ∷ l) = names b w + count_ids b l

abbrev pub holders : ℕ → Endpoint → ℕ
holders b e = count b e.qp.send_msg_buf + count_ids b e.port.live

-- Each message buffer that exists is in the pool of send buffers, or named by a work request id,
-- and that once.
abbrev pub KeepsBuffers : Endpoint → Type 0
KeepsBuffers e = (b : ℕ) → holders b e ≡ (if ltb b (length e.qp.msg_mrs) then 1 else 0)

-- The calls that move a message buffer: `PostSendRequest`, `SendDone`, and the end of `RecvDone` and
-- of `RDMARecvDone`.
pub data MsgOp : Type 0 where
  posts : Memory → Msg → MsgOp
  sent received : ℕ → MsgOp

unfoldable pub run_op : Env → MsgOp → Endpoint → Result Endpoint
unfolding post_send_request send_done msg_of recycle
run_op env (posts m msg) e = post_send_request env m msg e
run_op env (sent wr_id) e = send_done env wr_id e
run_op env (received wr_id) e = msg_of env wr_id e >>= λ found. recycle env wr_id (found.0) e

unfoldable pub run_ops : Env → List MsgOp → Endpoint → Result Endpoint
unfolding run_op
run_ops env [] e = ok e
run_ops env (o ∷ os) e = run_op env o e >>= λ e'. run_ops env os e'
