-- ===== src/Ibverbs/WriteHelper.antt =====
-- comm_network/ibverbs/ibverbs_write_helper.{h,cpp}: `IBVerbsWriteHelper`, the state machine that
-- cuts the records of a peer's reads into chunks, copies each chunk into an idle registered buffer
-- and has it written to the peer. The two queues behind pointers are two lists, which `std::swap`
-- exchanges; `cur_write_handle_` is one of three values. A helper's methods run on the one poller
-- thread of its completion queue.
-- The parameters are the configuration and `ibv_post_send`.
pub mod Ids
pub mod OneBuffer
pub mod Starts
pub mod Quiet
pub mod Sends
pub mod Shortfall
pub mod Empty
use comm_network.Prelude.{
  ℕ, zero, suc, ◌+◌, ◌*◌, min, List, [], ◌∷◌, ◌++◌, Option, none, some, Bool, true, false, Result,
  ok, abort, check, or_abort, null_pointer, out_of_fuel, empty_queue, is_empty, length, set,
  range_from, map, ltb, if◌then◌else◌, ◌>>=◌, ◌>>◌,
}
use comm_network.Prelude.Int.{ℤ, pos, negsuc, min_ℤ, pos_part}
use comm_network.Prelude.Words.{add64, sub64, div64, to_int32}
use comm_network.Config.{CommNetConfig, buffer_bytes, sge_bytes}
use comm_network.Message.{WorkRecord}
use comm_network.Ibverbs.Verbs.{Memory, SendWr, at}
use comm_network.Ibverbs.MemDesc.{MemDesc, MemDescProto}
use comm_network.Ibverbs.Chunk.{chunk_bytes, sge_count, copy_to_sges}
use comm_network.Ibverbs.Port.{Port, post_write_request}

pub data WriteHandle : Type 0 where
  init_write_handle request_buffer do_cur_write : WriteHandle

pub record WriteHelper : Type 0 where
  pub buffer_id : ℤ
  pub pending_record_queue : List WorkRecord
  pub cur_record_queue : List WorkRecord
  pub idle_buffer_queue : List ℤ
  pub cur_record : WorkRecord
  pub cur_write_handle : WriteHandle
  pub send_recv_pair : List (MemDesc × MemDescProto)

-- What a helper acts on: main memory, and the queue pairs of `IBVerbsCommNet`, by machine.
pub record Machine : Type 0 where
  pub memory : Memory
  pub qp_vec : List (Option Port)

pub record State : Type 0 where
  pub helper : WriteHelper
  pub open helper use *
  pub machine : Machine

take_record : State → List WorkRecord → List WorkRecord → Bool × State
take_record s [] pending = (
  false,
  record s { helper = record (s.helper) { cur_record_queue = []; pending_record_queue = pending } },
)
take_record s (r ∷ rest) pending = (
  true,
  record s {
    helper = record (s.helper) {
      cur_record = r;
      cur_record_queue = rest;
      pending_record_queue = pending;
      cur_write_handle = request_buffer;
    };
  },
)

-- `InitWriteHandle`: an empty current queue is swapped with the pending one first.
pub init_write : State → Bool × State
unfolding take_record
init_write s =
    if is_empty s.cur_record_queue
    then take_record s s.pending_record_queue s.cur_record_queue
    else take_record s s.cur_record_queue s.pending_record_queue

-- `RequestBuffer`
take_buffer : State → List ℤ → Bool × State
take_buffer s [] = (false, s)
take_buffer s (b ∷ rest) = (
  true,
  record s {
    helper = record (s.helper) {
      buffer_id = b;
      idle_buffer_queue = rest;
      cur_write_handle = do_cur_write;
    };
  },
)

-- The end of `DoCurWrite`: the record is advanced, and the next handle chosen.
abbrev pub after_chunk : ℕ → State → Machine → State
after_chunk transfer_bytes s machine =
    let r = s.cur_record in
    let offset = add64 r.offset transfer_bytes in
    record {
      helper = record (s.helper) {
        cur_record = record r { offset = offset };
        cur_write_handle = if ltb offset r.bytes then request_buffer else init_write_handle;
      };
      machine = machine;
    }

abbrev pub push_record : WorkRecord → State → State
push_record r s = record s {
  helper = record (s.helper) { pending_record_queue = s.pending_record_queue ++ r ∷ [] };
}

abbrev pub push_buffer : ℤ → State → State
push_buffer b s = record s {
  helper = record (s.helper) { idle_buffer_queue = s.idle_buffer_queue ++ b ∷ [] };
}

-- What the poller thread asks of a helper: `PleaseWrite` and `FreeBufferPair` messages.
pub data Event : Type 0 where
  please_write : WorkRecord → Event
  buffer_freed : ℤ → Event

module _ (config : CommNetConfig) (ibv_post_send : List SendWr → SendWr → ℕ) where
  -- The constructor. `buffer_id_` and `cur_record_` are left uninitialised: any values.
  pub new : ℤ → WorkRecord → List (MemDesc × MemDescProto) → WriteHelper
  new any_id any_record pairs = record {
    buffer_id = any_id;
    pending_record_queue = [];
    cur_record_queue = [];
    idle_buffer_queue = map pos (range_from 0 (pos_part config.register_buffer_num));
    cur_record = any_record;
    cur_write_handle = init_write_handle;
    send_recv_pair = pairs;
  }

  -- `IBVerbsCommNet::Normal2RegisterDone`
  pub normal2register_done :
      ℤ → MemDesc → MemDescProto → ℤ → ℤ → List (Option Port) → Result (List (Option Port))
  normal2register_done dst local remote buffer_id sge_num qps = do
    entry ← at qps dst
    qp ← or_abort null_pointer entry
    qp' ← post_write_request ibv_post_send remote local buffer_id sge_num qp
    ok (set qps (pos_part dst) (some qp'))

  -- `DoCurWrite`
  pub write_chunk : State → Result (Bool × State)
  write_chunk s = do
    (local, remote) ← at s.send_recv_pair s.buffer_id
    let r = s.cur_record
    let transfer_bytes = chunk_bytes config r
    block ← sge_bytes config
    sge_num ← sge_count config transfer_bytes
    memory ←
        copy_to_sges (pos_part sge_num) 0 local.sge_vec block transfer_bytes
          (r.begin_addr + r.offset) 0 s.machine.memory
    qps ← normal2register_done r.machine_id local remote s.buffer_id sge_num s.machine.qp_vec
    ok (true, after_chunk transfer_bytes s (record { memory = memory; qp_vec = qps }))

  -- `(this->*cur_write_handle_)()`
  pub run_handle : WriteHandle → State → Result (Bool × State)
  unfolding init_write take_buffer write_chunk
  run_handle init_write_handle s = ok (init_write s)
  run_handle request_buffer s = ok (take_buffer s s.idle_buffer_queue)
  run_handle do_cur_write s = write_chunk s

  -- `WriteUntilQueueEmptyOrNoBuffer`, in at most `fuel` rounds
  pub loop : ℕ → State → Result State
  unfolding run_handle
  loop zero s = abort out_of_fuel
  loop (suc fuel) s =
      run_handle s.cur_write_handle s >>= λ r. elim r.0 [ true ↦ loop fuel r.1 | false ↦ ok r.1 ]

  -- A round that goes on, three at most, takes a buffer out of the idle queue, and none is added.
  pub notify_me_to_write : State → Result State
  unfolding loop
  notify_me_to_write s = loop (3 * length s.idle_buffer_queue + 4) s

  -- `AsyncWrite`: only a record that finds the pending queue empty wakes the machine.
  pub async_write : WorkRecord → State → Result State
  async_write r s =
      let need_send_reminder = is_empty s.pending_record_queue in
      if need_send_reminder then notify_me_to_write (push_record r s) else ok (push_record r s)

  -- `FreeBuffer`
  pub free_buffer : ℤ → State → Result State
  free_buffer b s = notify_me_to_write (push_buffer b s)

  pub handle_event : Event → State → Result State
  unfolding async_write free_buffer
  handle_event (please_write r) s = async_write r s
  handle_event (buffer_freed b) s = free_buffer b s

  pub handle_events : List Event → State → Result State
  unfolding handle_event
  handle_events [] s = ok s
  handle_events (e ∷ es) s = handle_event e s >>= λ t. handle_events es t
