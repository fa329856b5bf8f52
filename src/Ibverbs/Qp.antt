-- ===== src/Ibverbs/Qp.antt =====
-- comm_network/ibverbs/ibverbs_qp.{h,cpp}: what an `IBVerbsQP` keeps beside its `Port`, and the
-- operations that touch this queue pair alone: the message path, its buffers and its callbacks.
-- The user's callbacks are numbers; `called` is which have been called, in order. Calls that a
-- callback makes itself are calls of their own, after it.
-- `Env` holds what is not the program's: the verbs library, the allocator and the layout of
-- structures. A message buffer is kept by its content; the memory under it is `MsgMr`'s matter.
pub mod Pool
pub mod Sending
pub mod Crossing
mod Tests
use comm_network.Prelude.{
  ℕ, zero, suc, ◌+◌, ◌<◌, List, [], ◌∷◌, ◌++◌, Option, none, some, Bool, true, false, not, Result,
  ok, abort, check, or_abort, null_pointer, empty_queue, out_of_range, length, get_elem?, set, ◌==◌,
  leb, ltb, if◌then◌else◌, ◌>>=◌, ◌>>◌,
}
use comm_network.Prelude.Int.{ℤ, pos, ◌+ℤ◌, ltb_ℤ}
use comm_network.Prelude.Words.{sub64, wrap_int32}
use comm_network.Config.{CommNetConfig, max_msg_size}
use comm_network.Message.{
  WorkRecord, UserMsg, PleaseWrite, FreeBufferPair, Msg, user_message, please_write_message,
  free_buffer_message, num_type, please_write_key, free_buffer_key, Layout,
}
use comm_network.Ibverbs.Verbs.{Memory, Sge, Mr, SendWr, send_with_imm, at}
use comm_network.Ibverbs.MemDesc.{MemDesc, MemDescProto, new_mem_desc}
use comm_network.Ibverbs.Port.{
  WorkRequestId, Port, find_id, post_send, new_work_request_id, delete_work_request_id,
}
use comm_network.Ibverbs.WriteHelper.{WriteHelper}

pub record Env : Type 0 where
  pub config : CommNetConfig
  pub ibv_post_send : List SendWr → SendWr → ℕ
  pub ibv_post_recv : List ℕ → ℕ → ℕ
  pub ibv_reg_mr : ℕ → ℕ → Option Mr
  -- The address of the n-th message buffer.
  pub malloc : ℕ → ℕ
  pub layout : Layout

-- The content of a `MsgMR`.
pub record MsgBuf : Type 0 where
  pub sge : Sge
  pub msg_type_key : ℤ
  pub payload : List ℕ
  pub cb : Option ℕ

pub data Called : Type 0 where
  called_cb : ℕ → Called
  called_handler : ℕ → List ℕ → Called

-- `msg_mrs` are the message buffers that exist, and everywhere else a buffer is its number there;
-- `recv_posted` is what `ibv_post_recv` has taken.
pub record Qp : Type 0 where
  pub this_machine_id : ℤ
  pub peer_machine_id : ℤ
  pub helper : WriteHelper
  pub mem_desc : List (MemDesc × MemDesc)
  pub msg_mrs : List MsgBuf
  pub recv_msg_buf : List ℕ
  pub send_msg_buf : List ℕ
  pub recv_posted : List ℕ
  pub read_done_cbs : List (Option ℕ)

pub record Endpoint : Type 0 where
  pub port : Port
  pub qp : Qp
  pub called : List Called

-- The n bytes from an address on.
unfoldable pub read_bytes : ℕ → ℕ → Memory → List ℕ
read_bytes a zero m = []
read_bytes a (suc n) m = m a ∷ read_bytes (a + 1) n m

-- `if (cb) { cb(); }`
abbrev pub call_cb : Option ℕ → Endpoint → Endpoint
call_cb none e = e
call_cb (some cb) e = record e { called = e.called ++ called_cb cb ∷ [] }

-- `read_queue_.pop()`
unfoldable pub pop_read : Endpoint → Result (WorkRecord × Endpoint)
pop_read e = elim e.port.read_queue [
  | [] ↦ abort empty_queue
  | r ∷ rest ↦ ok (r, record e { port = record (e.port) { read_queue = rest } })
]

module _ (env : Env) where
  -- The switch of `PostSendRequest`: the key, the payload and the callback of the message.
  unfoldable pub read_msg : Memory → Msg → Endpoint → Result (ℤ × List ℕ × Option ℕ × Endpoint)
  unfolding read_bytes pop_read
  read_msg m (user_message u cb) e = do
    check (not (u.ptr == 0))
    check (ltb 0 u.bytes)
    ok (wrap_int32 (num_type +ℤ u.msg_type), read_bytes u.ptr u.bytes m, cb, e)
  read_msg m (please_write_message p) e =
      ok (please_write_key, env.layout.put_please_write p, none, e)
  read_msg m (free_buffer_message f) e =
      if f.last_piece
      then (pop_read e >>= λ r.
          ok (free_buffer_key, env.layout.put_free_buffer f, none, call_cb r.0.cb r.1))
      else ok (free_buffer_key, env.layout.put_free_buffer f, none, e)

  -- `new MsgMR(pd_)`, which is numbered after those that exist.
  unfoldable pub new_msg_mr : Qp → Result (ℕ × Qp)
  new_msg_mr q = do
    let n = length q.msg_mrs
    d ← new_mem_desc env.ibv_reg_mr env.config (env.malloc n) (max_msg_size env.config)
    check (length d.sge_vec == 1)
    sge ← at d.sge_vec (pos 0)
    ok (
      n,
      record q {
        msg_mrs =
            q.msg_mrs ++ record { sge = sge; msg_type_key = pos 0; payload = []; cb = none } ∷ [];
      },
    )

  unfoldable pub get_one_send_msg_mr_from_buf : Qp → Result (ℕ × Qp)
  unfolding new_msg_mr
  get_one_send_msg_mr_from_buf q = elim q.send_msg_buf [
    | [] ↦ new_msg_mr q
    | b ∷ rest ↦ ok (b, record q { send_msg_buf = rest })
  ]

  -- `set_msg`
  unfoldable pub set_msg_buf : ℕ → ℤ → List ℕ → Option ℕ → Qp → Result Qp
  set_msg_buf b key payload cb q = do
    buf ← or_abort out_of_range (get_elem? q.msg_mrs b)
    check (leb (length payload) (sub64 (max_msg_size env.config) 8))
    ok (record q {
      msg_mrs = set q.msg_mrs b (record buf { msg_type_key = key; payload = payload; cb = cb });
    })

  -- The rest of `PostSendRequest`.
  unfoldable pub post_msg : ℤ → List ℕ → Option ℕ → Endpoint → Result Endpoint
  unfolding get_one_send_msg_mr_from_buf set_msg_buf new_work_request_id post_send
  post_msg key payload cb e = do
    taken ← get_one_send_msg_mr_from_buf e.qp
    let b = taken.0
    qp ← set_msg_buf b key payload cb taken.1
    buf ← or_abort out_of_range (get_elem? qp.msg_mrs b)
    let made = new_work_request_id (record { outstanding_sge_cnt = pos 0; msg_mr = some b }) e.port
    port ←
        post_send env.ibv_post_send
          (record {
            wr_id = made.0;
            sge = buf.sge;
            opcode = send_with_imm;
            imm_data = key;
            remote_addr = 0;
            rkey = 0;
          })
          made.1
    ok (record e { port = port; qp = qp })

  unfoldable pub post_send_request : Memory → Msg → Endpoint → Result Endpoint
  unfolding read_msg post_msg
  post_send_request m msg e = do r ← read_msg m msg e; post_msg r.0 r.1 r.2 r.3

  unfoldable pub post_recv_request : ℕ → Endpoint → Result Endpoint
  unfolding new_work_request_id
  post_recv_request b e = do
    let made = new_work_request_id (record { outstanding_sge_cnt = pos 0; msg_mr = some b }) e.port
    check (env.ibv_post_recv e.qp.recv_posted made.0 == 0)
    ok (record e {
      port = made.1;
      qp = record (e.qp) { recv_posted = e.qp.recv_posted ++ made.0 ∷ [] };
    })

  unfoldable pub post_all : List ℕ → Endpoint → Result Endpoint
  unfolding post_recv_request
  post_all [] e = ok e
  post_all (b ∷ bs) e = post_recv_request b e >>= λ e'. post_all bs e'

  -- `PostAllRecvRequest`
  unfoldable pub post_all_recv_request : Endpoint → Result Endpoint
  unfolding post_all
  post_all_recv_request e = post_all e.qp.recv_msg_buf e

  -- `wr_id->msg_mr`, and its content.
  unfoldable pub msg_of : ℕ → Endpoint → Result (ℕ × MsgBuf)
  msg_of wr_id e = do
    w ← or_abort null_pointer (find_id wr_id e.port.live)
    b ← or_abort null_pointer w.msg_mr
    buf ← or_abort out_of_range (get_elem? e.qp.msg_mrs b)
    ok (b, buf)

  unfoldable pub delete_id : ℕ → Endpoint → Result Endpoint
  unfolding delete_work_request_id
  delete_id wr_id e = delete_work_request_id wr_id e.port >>= λ port. ok (record e { port = port })

  -- `user_msg()`
  abbrev pub is_user_msg : MsgBuf → Bool
  is_user_msg buf = not (ltb_ℤ buf.msg_type_key num_type)

  unfoldable pub send_done : ℕ → Endpoint → Result Endpoint
  unfolding msg_of delete_id
  send_done wr_id e = do
    found ← msg_of wr_id e
    let e' = if is_user_msg found.1 then call_cb found.1.cb e else e
    delete_id wr_id
        (record e' { qp = record (e'.qp) { send_msg_buf = e'.qp.send_msg_buf ++ found.0 ∷ [] } })

  -- What `RecvDone` and `RDMARecvDone` end with: the buffer is posted again, and the id deleted.
  unfoldable pub recycle : ℕ → ℕ → Endpoint → Result Endpoint
  unfolding post_recv_request delete_id
  recycle wr_id b e = post_recv_request b e >>= λ e'. delete_id wr_id e'

-- `RegisterReadDoneCb`
unfoldable pub register_read_done_cb : Option ℕ → Endpoint → Endpoint
register_read_done_cb cb e = record e {
  qp = record (e.qp) { read_done_cbs = e.qp.read_done_cbs ++ cb ∷ [] };
}

-- The two steps of `DealWorkRecord`, between which the lock is given back.
pub data ReadStep : Type 0 where
  notes : WorkRecord → ReadStep
  asks : WorkRecord → (src_addr : ℕ) → ReadStep

unfoldable pub note_read : WorkRecord → Endpoint → Endpoint
note_read record_ e = record e {
  port = record (e.port) { read_queue = e.port.read_queue ++ record_ ∷ [] };
}

unfoldable pub ask_peer : Env → Memory → WorkRecord → ℕ → Endpoint → Result Endpoint
unfolding post_send_request
ask_peer env m record_ src_addr e =
    post_send_request env m
      (please_write_message (record {
        dst_machine_id = e.qp.this_machine_id;
        src_addr = src_addr;
        bytes = record_.bytes;
      }))
      e

unfoldable pub run_step : Env → Memory → ReadStep → Endpoint → Result Endpoint
unfolding note_read ask_peer
run_step env m (notes record_) e = ok (note_read record_ e)
run_step env m (asks record_ src_addr) e = ask_peer env m record_ src_addr e

unfoldable pub run_steps : Env → Memory → List ReadStep → Endpoint → Result Endpoint
unfolding run_step
run_steps env m [] e = ok e
run_steps env m (step ∷ steps) e = run_step env m step e >>= λ e'. run_steps env m steps e'

-- What a thread does in a call: it notes the read under the lock, and asks for it after.
unfoldable pub read_steps : WorkRecord → ℕ → List ReadStep
read_steps record_ src_addr = notes record_ ∷ asks record_ src_addr ∷ []

-- The call, with no other thread in between.
unfoldable pub deal_work_record : Env → Memory → WorkRecord → ℕ → Endpoint → Result Endpoint
unfolding run_steps read_steps
deal_work_record env m record_ src_addr e = run_steps env m (read_steps record_ src_addr) e
