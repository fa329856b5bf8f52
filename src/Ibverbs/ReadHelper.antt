-- ===== src/Ibverbs/ReadHelper.antt =====
-- comm_network/ibverbs/ibverbs_read_helper.{h,cpp}: `SyncRead`, which takes a chunk out of a
-- registered buffer into the memory that the first record of the read queue names. The record is
-- fetched and its offset set through `IBVerbsCommNet`, by the peer's machine id; the message with
-- which the buffer goes back is handed to the caller.
pub mod Takes
use comm_network.Prelude.{
  ℕ, ◌+◌, List, Option, none, some, Bool, true, false, Result, ok, or_abort, null_pointer,
  empty_queue, set, ltb, if◌then◌else◌, ◌>>=◌, [], ◌∷◌,
}
use comm_network.Prelude.Int.{ℤ, pos_part}
use comm_network.Prelude.Words.{add64}
use comm_network.Config.{CommNetConfig, sge_bytes}
use comm_network.Message.{WorkRecord, FreeBufferPair}
use comm_network.Ibverbs.Verbs.{Memory, at}
use comm_network.Ibverbs.MemDesc.{MemDesc}
use comm_network.Ibverbs.Chunk.{chunk_bytes, sge_count, copy_from_sges}
use comm_network.Ibverbs.Port.{Port, front_record, set_front_offset}
use comm_network.Ibverbs.WriteHelper.{Machine}

-- `IBVerbsCommNet::GetWorkRecord`
unfoldable pub get_work_record : ℤ → List (Option Port) → Result WorkRecord
get_work_record machine_id qps = do
  entry ← at qps machine_id
  qp ← or_abort null_pointer entry
  front_record qp

-- `IBVerbsCommNet::SetWorkRecordOffset`
unfoldable pub set_work_record_offset : ℤ → ℕ → List (Option Port) → Result (List (Option Port))
set_work_record_offset machine_id offset qps = do
  entry ← at qps machine_id
  qp ← or_abort null_pointer entry
  qp' ← set_front_offset offset qp
  ok (set qps (pos_part machine_id) (some qp'))

-- `SyncRead`, up to the message that `Register2NormalDone` sends.
unfoldable pub sync_read :
    CommNetConfig → ℤ → ℤ → MemDesc → Machine → Result (Machine × FreeBufferPair)
sync_read config src_machine_id buffer_id recv_mem_desc s = do
  cur_msg ← get_work_record src_machine_id s.qp_vec
  let transfer_bytes = chunk_bytes config cur_msg
  block ← sge_bytes config
  sge_num ← sge_count config transfer_bytes
  memory ←
      copy_from_sges (pos_part sge_num) 0 recv_mem_desc.sge_vec block transfer_bytes
        (cur_msg.begin_addr + cur_msg.offset) 0 s.memory
  let offset = add64 cur_msg.offset transfer_bytes
  qps ← set_work_record_offset src_machine_id offset s.qp_vec
  let is_last = if ltb offset cur_msg.bytes then false else true
  ok (
    record { memory = memory; qp_vec = qps },
    record { src_machine_id = src_machine_id; buffer_id = buffer_id; last_piece = is_last },
  )
