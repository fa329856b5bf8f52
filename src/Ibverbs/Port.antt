-- ===== src/Ibverbs/Port.antt =====
-- comm_network/ibverbs/ibverbs_qp.{h,cpp}: the part of an `IBVerbsQP` that its requests go
-- through, which is the queue of `qp_` and the work request ids that it has allocated.
-- `helper_` is kept apart from the rest.
-- `ibv_post_send` is a parameter: from what the queue has taken and the new request, its status.
pub mod Writes
pub mod Lifetime
mod Tests
use comm_network.Prelude.{
  ℕ, zero, suc, ◌+◌, List, [], ◌∷◌, ◌++◌, Option, none, some, Bool, Result, ok, abort, check,
  or_abort, null_pointer, empty_queue, length, ◌==◌, if◌then◌else◌, ◌>>=◌, ◌>>◌,
}
use comm_network.Prelude.Int.{ℤ, pos, negsuc, ◌+ℤ◌, eqb_ℤ}
use comm_network.Prelude.Words.{to_size, int_max}
use comm_network.Message.{WorkRecord}
use comm_network.Ibverbs.Verbs.{Sge, SendWr, rdma_write_with_imm, at}
use comm_network.Ibverbs.MemDesc.{MemDesc, MemDescProto}

-- The `qp` pointer of the structure is the port that holds it; `msg_mr` is the number of a
-- message buffer.
pub record WorkRequestId : Type 0 where
  pub outstanding_sge_cnt : ℤ
  pub msg_mr : Option ℕ

-- A pointer to a `WorkRequestId` is a number; `live` holds those that are allocated.
pub record Port : Type 0 where
  pub live : List (ℕ × WorkRequestId)
  pub next_id : ℕ
  pub posted : List SendWr
  pub read_queue : List WorkRecord

-- `GetWorkRecord` and `SetWorkRecordOffset`; the front of an empty queue is a stop.
unfoldable pub front_record : Port → Result WorkRecord
front_record p = elim p.read_queue [ [] ↦ abort empty_queue | r ∷ _ ↦ ok r ]

unfoldable pub set_front_offset : ℕ → Port → Result Port
set_front_offset offset p = elim p.read_queue [
  | [] ↦ abort empty_queue
  | r ∷ rest ↦ ok (record p { read_queue = record r { offset = offset } ∷ rest })
]

unfoldable pub find_id : ℕ → List (ℕ × WorkRequestId) → Option WorkRequestId
find_id k [] = none
find_id k ((j, w) ∷ l) = if j == k then some w else find_id k l

unfoldable pub erase_id : ℕ → List (ℕ × WorkRequestId) → List (ℕ × WorkRequestId)
erase_id k [] = []
erase_id k ((j, w) ∷ l) = if j == k then l else (j, w) ∷ erase_id k l

pub store_id : ℕ → WorkRequestId → List (ℕ × WorkRequestId) → List (ℕ × WorkRequestId)
store_id k w [] = []
store_id k w ((j, v) ∷ l) = if j == k then (j, w) ∷ l else (j, v) ∷ store_id k w l

-- `NewWorkRequestId`, with the fields that the caller sets before it uses the pointer.
unfoldable pub new_work_request_id : WorkRequestId → Port → ℕ × Port
new_work_request_id w p =
    (p.next_id, record p { live = (p.next_id, w) ∷ p.live; next_id = suc p.next_id })

-- `DeleteWorkRequestId`; deleting twice is a stop.
unfoldable pub delete_work_request_id : ℕ → Port → Result Port
unfolding find_id erase_id
delete_work_request_id k p =
    or_abort null_pointer (find_id k p.live) >>= λ _. ok (record p { live = erase_id k p.live })

-- `RDMAWriteDone`
unfoldable pub rdma_write_done : ℕ → Port → Result Port
unfolding find_id store_id delete_work_request_id
rdma_write_done k p = do
  w ← or_abort null_pointer (find_id k p.live)
  let left = w.outstanding_sge_cnt +ℤ negsuc 0
  let p' = record p { live = store_id k (record w { outstanding_sge_cnt = left }) p.live }
  if eqb_ℤ left (pos 0) then delete_work_request_id k p' else ok p'

module _ (ibv_post_send : List SendWr → SendWr → ℕ) where
  -- `CHECK_EQ(ibv_post_send(qp_, &wr, &bad_wr), 0)`
  unfoldable pub post_send : SendWr → Port → Result Port
  post_send wr p =
      check (ibv_post_send p.posted wr == 0) >> ok (record p { posted = p.posted ++ wr ∷ [] })

  -- The immediate of the i-th write: the buffer only on the last.
  abbrev pub write_imm : ℤ → ℤ → ℕ → ℤ
  write_imm buffer_id sge_num i =
      if i == to_size (sge_num +ℤ negsuc 0) then buffer_id else pos int_max

  -- The loop of `PostWriteRequest`, `n` rounds from the i-th.
  unfoldable pub post_writes : ℕ → ℕ → ℕ → MemDescProto → MemDesc → ℤ → ℤ → Port → Result Port
  unfolding post_send
  post_writes zero i wr_id remote local buffer_id sge_num p = ok p
  post_writes (suc n) i wr_id remote local buffer_id sge_num p = at local.sge_vec (pos i) >>= λ sge.
      at remote.mem_ptr (pos i) >>= λ ptr. at remote.mr_rkey (pos i) >>= λ key.
      post_send
        (record {
          wr_id = wr_id;
          sge = sge;
          opcode = rdma_write_with_imm;
          imm_data = write_imm buffer_id sge_num i;
          remote_addr = ptr;
          rkey = key;
        })
        p
      >>= λ p'. post_writes n (i + 1) wr_id remote local buffer_id sge_num p'

  unfoldable pub post_write_request : MemDescProto → MemDesc → ℤ → ℤ → Port → Result Port
  unfolding new_work_request_id post_writes
  post_write_request remote local buffer_id sge_num p =
      let (wr_id, p') =
        new_work_request_id (record { outstanding_sge_cnt = sge_num; msg_mr = none }) p in
      post_writes (to_size sge_num) 0 wr_id remote local buffer_id sge_num p'
