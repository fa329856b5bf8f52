-- ===== src/Ibverbs/CommNet.antt =====
-- comm_network/ibverbs/ibverbs_comm_network.cpp and comm_network.cpp: one machine of the network,
-- with `RecvDone` and `RDMARecvDone` of ibverbs_qp.cpp, which go through the whole of it, and the
-- dispatch of `PollCQ` in ibverbs_poller.cpp.
-- A queue pair is reached by the machine id of its peer; its `Port` and its `Qp` stand at that
-- index of two vectors. A message handler is a number.
pub mod Receiving
pub mod Exchange
pub mod Handled
pub mod Reading
pub mod Finishing
pub mod Setup
mod Tests
use comm_network.Prelude.{
  ℕ, zero, suc, List, [], ◌∷◌, ◌++◌, Option, none, some, Bool, true, false, not, Result, ok, abort,
  check, check_failed, log_fatal, or_abort, null_pointer, empty_queue, length, set, ◌==◌,
  if◌then◌else◌, ◌>>=◌, ◌>>◌,
}
use comm_network.Prelude.Int.{ℤ, pos, negsuc, ◌+ℤ◌, ltb_ℤ, eqb_ℤ, pos_part}
use comm_network.Prelude.Words.{int_max}
use comm_network.Message.{
  WorkRecord, UserMsg, PleaseWrite, FreeBufferPair, Msg, user_message, free_buffer_message,
  num_type, please_write_key, free_buffer_key,
}
use comm_network.Ibverbs.Verbs.{at}
use comm_network.Ibverbs.Port.{Port, rdma_write_done}
use comm_network.Ibverbs.WriteHelper.{Machine, State, async_write, free_buffer}
use comm_network.Ibverbs.ReadHelper.{sync_read}
use comm_network.Ibverbs.Qp.{
  Env, Called, called_cb, called_handler, Qp, Endpoint, register_read_done_cb, deal_work_record,
  post_send_request, msg_of, send_done, recycle,
}

pub record Net : Type 0 where
  pub machine : Machine
  pub qps : List (Option Qp)
  pub msg_handlers : List (ℤ × Option ℕ)
  pub called : List Called

-- `qp_vec_.at(peer)`, with a null pointer as a stop.
unfoldable pub endpoint : ℤ → Net → Result Endpoint
endpoint peer net = do
  entry ← at net.machine.qp_vec peer
  port ← or_abort null_pointer entry
  entry' ← at net.qps peer
  qp ← or_abort null_pointer entry'
  ok (record { port = port; qp = qp; called = net.called })

abbrev pub put_endpoint : ℤ → Endpoint → Net → Net
put_endpoint peer e net = record net {
  machine = record (net.machine) { qp_vec = set net.machine.qp_vec (pos_part peer) (some e.port) };
  qps = set net.qps (pos_part peer) (some e.qp);
  called = e.called;
}

unfoldable pub with_qp : ℤ → (Endpoint → Result Endpoint) → Net → Result Net
unfolding endpoint
with_qp peer f net = endpoint peer net >>= λ e. f e >>= λ e'. ok (put_endpoint peer e' net)

-- A call of `helper_`.
unfoldable pub with_helper : ℤ → (State → Result State) → Net → Result Net
unfolding endpoint
with_helper peer f net = endpoint peer net >>= λ e.
    f (record { helper = e.qp.helper; machine = net.machine }) >>= λ s. ok (record net {
      machine = s.machine;
      qps = set net.qps (pos_part peer) (some (record (e.qp) { helper = s.helper }));
    })

unfoldable pub find_handler : ℤ → List (ℤ × Option ℕ) → Option (Option ℕ)
find_handler k [] = none
find_handler k ((j, h) ∷ l) = if eqb_ℤ j k then some h else find_handler k l

-- `RegisterMsgHandler` before its barrier; `emplace` keeps a handler that is there.
unfoldable pub register_msg_handler : ℤ → Option ℕ → Net → Net
unfolding find_handler
register_msg_handler k h net = elim (find_handler k net.msg_handlers) [
  | none ↦ record net { msg_handlers = (k, h) ∷ net.msg_handlers }
  | some _ ↦ net
]

unfoldable pub get_msg_handler : ℤ → Net → Result (Option ℕ)
unfolding find_handler
get_msg_handler k net = or_abort check_failed (find_handler k net.msg_handlers)

abbrev pub call : Called → Net → Net
call c net = record net { called = net.called ++ c ∷ [] }

-- `read_done_cbs_.front()` and `pop()`, then `CHECK(cb)` and the call.
unfoldable pub call_read_done : Endpoint → Result Endpoint
call_read_done e = elim e.qp.read_done_cbs [
  | [] ↦ abort empty_queue
  | cb ∷ rest ↦ or_abort check_failed cb >>= λ c. ok (record e {
    qp = record (e.qp) { read_done_cbs = rest };
    called = e.called ++ called_cb c ∷ [];
  })
]

-- The peers of `Init`.
unfoldable pub peers_from : ℕ → ℕ → ℤ → List ℤ
peers_from i zero this_machine_id = []
peers_from i (suc n) this_machine_id =
    let rest = peers_from (suc i) n this_machine_id in
    if eqb_ℤ (pos i) this_machine_id then rest else pos i ∷ rest

pub data WcOpcode : Type 0 where
  wc_send wc_rdma_write wc_recv_rdma_with_imm wc_recv wc_other : WcOpcode

-- `ibv_wc`; `peer` is that of `wr_id->qp`.
pub record Wc : Type 0 where
  pub is_success : Bool
  pub opcode : WcOpcode
  pub peer : ℤ
  pub wr_id : ℕ
  pub imm_data : ℤ

module _ (env : Env) where
  unfoldable pub send_msg : ℤ → UserMsg → Option ℕ → Net → Result Net
  unfolding with_qp post_send_request
  send_msg dst u cb net =
      with_qp dst (post_send_request env net.machine.memory (user_message u cb)) net

  unfoldable pub do_read : ℤ → ℕ → ℕ → ℕ → Option ℕ → Net → Result Net
  unfolding with_qp deal_work_record
  do_read src src_addr bytes dst_addr cb net =
      with_qp src
        (deal_work_record env net.machine.memory
          (record { machine_id = src; begin_addr = dst_addr; bytes = bytes; offset = 0; cb = cb })
          src_addr)
        net

  unfoldable pub register2_normal_done : FreeBufferPair → Net → Result Net
  unfolding with_qp post_send_request
  register2_normal_done f net =
      with_qp f.src_machine_id (post_send_request env net.machine.memory (free_buffer_message f))
        net

  -- The cases of `RecvDone`.
  unfoldable pub please_write_received : ℤ → List ℕ → Net → Result Net
  unfolding with_helper
  please_write_received peer payload net = do
    check (length payload == env.layout.please_write_size)
    let p = env.layout.get_please_write payload
    with_helper peer
        (async_write env.config env.ibv_post_send (record {
          machine_id = p.dst_machine_id;
          begin_addr = p.src_addr;
          bytes = p.bytes;
          offset = 0;
          cb = none;
        }))
        net

  unfoldable pub free_buffer_received : ℤ → List ℕ → Net → Result Net
  unfolding with_helper with_qp call_read_done
  free_buffer_received peer payload net = do
    check (length payload == env.layout.free_buffer_size)
    let f = env.layout.get_free_buffer payload
    net' ← with_helper peer (free_buffer env.config env.ibv_post_send f.buffer_id) net
    if f.last_piece then with_qp peer call_read_done net' else ok net'

  unfoldable pub user_received : List ℕ → ℤ → Net → Result Net
  unfolding get_msg_handler
  user_received payload key net = do
    handler ← get_msg_handler (key +ℤ negsuc 2) net
    h ← or_abort check_failed handler
    ok (call (called_handler h payload) net)

  unfoldable pub deal_msg : ℤ → List ℕ → ℤ → Net → Result Net
  unfolding please_write_received free_buffer_received user_received
  deal_msg peer payload key net =
      if ltb_ℤ key num_type
      then (if eqb_ℤ key please_write_key
          then please_write_received peer payload net
          else (if eqb_ℤ key free_buffer_key
              then free_buffer_received peer payload net
              else ok net))
      else user_received payload key net

  unfoldable pub recv_done : ℤ → ℕ → ℤ → Net → Result Net
  unfolding endpoint msg_of deal_msg with_qp recycle
  recv_done peer wr_id key net = do
    e ← endpoint peer net
    found ← msg_of env wr_id e
    net' ← deal_msg peer (found.1.payload) key net
    with_qp peer (recycle env wr_id found.0) net'

  -- `SyncRead` with the message that it ends with.
  unfoldable pub read_chunk : ℤ → ℤ → Net → Result Net
  unfolding endpoint register2_normal_done
  read_chunk peer buffer_id net = do
    e ← endpoint peer net
    recv_mem_desc ← at e.qp.mem_desc buffer_id
    r ← sync_read env.config peer buffer_id recv_mem_desc.1 net.machine
    register2_normal_done r.1 (record net { machine = r.0 })

  unfoldable pub rdma_recv_done : ℤ → ℕ → ℤ → Net → Result Net
  unfolding read_chunk endpoint msg_of with_qp recycle
  rdma_recv_done peer wr_id imm_data net = do
    net' ← if eqb_ℤ imm_data (pos int_max) then ok net else read_chunk peer imm_data net
    e ← endpoint peer net'
    found ← msg_of env wr_id e
    with_qp peer (recycle env wr_id found.0) net'

  -- The switch of `PollCQ`.
  unfoldable pub dispatch : WcOpcode → Wc → Net → Result Net
  unfolding with_qp send_done recv_done rdma_recv_done rdma_write_done
  dispatch wc_send wc net = with_qp wc.peer (send_done env wc.wr_id) net
  dispatch wc_rdma_write wc net =
      with_qp wc.peer
        (λ e. rdma_write_done wc.wr_id e.port >>= λ port. ok (record e { port = port })) net
  dispatch wc_recv_rdma_with_imm wc net = rdma_recv_done wc.peer wc.wr_id wc.imm_data net
  dispatch wc_recv wc net = recv_done wc.peer wc.wr_id wc.imm_data net
  dispatch wc_other wc net = abort log_fatal

  -- The loop over the completions that one poll has found.
  unfoldable pub deal_completions : List Wc → Net → Result Net
  unfolding dispatch
  deal_completions [] net = ok net
  deal_completions (wc ∷ wcs) net =
      check wc.is_success >> (dispatch wc.opcode wc net >>= λ net'. deal_completions wcs net')
