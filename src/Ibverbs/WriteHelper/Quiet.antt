-- ===== src/Ibverbs/WriteHelper/Quiet.antt =====
-- comm_network/ibverbs/ibverbs_write_helper.cpp: the loop `WriteUntilQueueEmptyOrNoBuffer`, and the
-- calls that wake it.
use comm_network.Prelude.{
  ℕ, zero, suc, ◌+◌, ◌*◌, ◌<◌, ◌≡◌, refl, ◌⊎◌, inl, inr, List, [], ◌∷◌, Option, none, Bool, true,
  false, Result, ok, is_empty, length, get_elem?, arith, ◌==◌, Bool-cases, Ends, ended, stopped,
  Ends-bind, Any, Ends-or_abort, Ends-check, null_pointer, out_of_range,
}
use comm_network.Prelude.Int.{ℤ, pos, negsuc, pos_part}
use comm_network.Prelude.Words.{Ends-div64, to_size}
use comm_network.Config.{CommNetConfig, buffer_bytes}
use comm_network.Ibverbs.Verbs.{Memory, Sge, SendWr, at}
use comm_network.Ibverbs.MemDesc.{MemDesc, MemDescProto}
use comm_network.Message.{WorkRecord}
use comm_network.Ibverbs.Chunk.{chunk_bytes, sge_count, copy_to_sges}
use comm_network.Ibverbs.Port.{
  Port, new_work_request_id, post_writes, post_write_request, post_send,
}
use comm_network.Ibverbs.WriteHelper.{
  WriteHandle, init_write_handle, request_buffer, do_cur_write, Machine, State, take_record,
  init_write, take_buffer, normal2register_done, write_chunk, run_handle, after_chunk, push_record,
  push_buffer, loop, notify_me_to_write, async_write, free_buffer, Event, please_write,
  buffer_freed, handle_event, handle_events,
}

-- Nothing is left to write, or there is no buffer to write with.
abbrev pub IsQuiet : State → Type 0
IsQuiet s =
    ((s.cur_write_handle ≡ init_write_handle)
      × (s.cur_record_queue ≡ [])
      × (s.pending_record_queue ≡ []))
    ⊎ ((s.cur_write_handle ≡ request_buffer) × (s.idle_buffer_queue ≡ []))

abbrev weight : WriteHandle → ℕ
weight init_write_handle = 2
weight request_buffer = 1
weight do_cur_write = 3

abbrev measure : State → ℕ
measure s = 3 * length s.idle_buffer_queue + weight s.cur_write_handle

-- A round that goes on lowers the measure; one that stops leaves a quiet machine.
abbrev Progress : State → Bool × State → Type 0
Progress s r = elim r.0 [ true ↦ measure r.1 < measure s | false ↦ IsQuiet r.1 ]

Ends-at {ℓ} : {A : Type ℓ} (l : List A) (i : ℤ) → Ends Any (at l i)
Ends-at l (pos i) = Ends-or_abort out_of_range (get_elem? l i) (λ e. cc)
Ends-at l (negsuc i) = stopped (λ e. cc)

module _ (config : CommNetConfig) (ibv_post_send : List SendWr → SendWr → ℕ) where
  post_send-Any : (wr : SendWr) (p : Port) → Ends Any (post_send ibv_post_send wr p)
  unfolding post_send
  post_send-Any wr p = Ends-bind (Ends-check (ibv_post_send p.posted wr == 0)) (λ _ _. ended tt)

  post_writes-Any :
      (n i wr_id : ℕ) (remote : MemDescProto) (local : MemDesc) (buffer_id sge_num : ℤ) (p : Port)
      → Ends Any (post_writes ibv_post_send n i wr_id remote local buffer_id sge_num p)
  unfolding post_writes
  post_writes-Any zero i wr_id remote local buffer_id sge_num p = ended tt
  post_writes-Any (suc n) i wr_id remote local buffer_id sge_num p =
      Ends-bind (Ends-at local.sge_vec (pos i)) λ sge _.
        Ends-bind (Ends-at remote.mem_ptr (pos i)) λ ptr _.
          Ends-bind (Ends-at remote.mr_rkey (pos i)) λ key _.
            Ends-bind (post_send-Any _ p)
              λ p' _. post_writes-Any n (i + 1) wr_id remote local buffer_id sge_num p'

  post_write_request-Any :
      (remote : MemDescProto) (local : MemDesc) (buffer_id sge_num : ℤ) (p : Port)
      → Ends Any (post_write_request ibv_post_send remote local buffer_id sge_num p)
  unfolding post_write_request
  post_write_request-Any remote local buffer_id sge_num p =
      post_writes-Any (to_size sge_num) 0 p.next_id remote local buffer_id sge_num
        (new_work_request_id (record { outstanding_sge_cnt = sge_num; msg_mr = none }) p).1

  normal2register_done-Any :
      (dst : ℤ) (local : MemDesc) (remote : MemDescProto) (buffer_id sge_num : ℤ)
      (qps : List (Option Port))
      → Ends Any (normal2register_done config ibv_post_send dst local remote buffer_id sge_num qps)
  unfolding normal2register_done
  normal2register_done-Any dst local remote buffer_id sge_num qps =
      Ends-bind (Ends-at qps dst) λ entry _.
        Ends-bind (Ends-or_abort null_pointer entry (λ e. cc)) λ qp _.
          Ends-bind (post_write_request-Any remote local buffer_id sge_num qp) λ _ _. ended tt

  copy_to_sges-Any :
      (n i : ℕ) (sges : List Sge) (block transfer src done : ℕ) (m : Memory)
      → Ends Any (copy_to_sges n i sges block transfer src done m)
  unfolding copy_to_sges
  copy_to_sges-Any zero i sges block transfer src done m = ended tt
  copy_to_sges-Any (suc n) i sges block transfer src done m =
      Ends-bind (Ends-at sges (pos i)) λ sge _. copy_to_sges-Any n (i + 1) sges block transfer _ _ _

  sge_count-Any : (transfer : ℕ) → Ends Any (sge_count config transfer)
  unfolding sge_count
  sge_count-Any transfer =
      Ends-bind (Ends-div64 _ _) λ block _. Ends-bind (Ends-div64 _ block) λ q _. ended tt

  chunk-measure :
      (s : State) (m : Machine)
      → s.cur_write_handle ≡ do_cur_write
      → measure (after_chunk (chunk_bytes config s.cur_record) s m) < measure s
  chunk-measure s m e = ground arith

  write_chunk-Progress :
      (s : State)
      → s.cur_write_handle ≡ do_cur_write
      → Ends (Progress s) (write_chunk config ibv_post_send s)
  unfolding write_chunk
  write_chunk-Progress s e = Ends-bind (Ends-at s.send_recv_pair s.buffer_id) λ pair _.
      Ends-bind (Ends-div64 (buffer_bytes config) (to_size config.sge_num)) λ block _.
        Ends-bind (sge_count-Any (chunk_bytes config s.cur_record)) λ sge_num _.
          Ends-bind
            (copy_to_sges-Any (pos_part sge_num) 0 pair.0.sge_vec block
              (chunk_bytes config s.cur_record) (s.cur_record.begin_addr + s.cur_record.offset) 0
              s.machine.memory)
            λ memory _.
              Ends-bind
                (normal2register_done-Any s.cur_record.machine_id pair.0 pair.1 s.buffer_id sge_num
                  s.machine.qp_vec)
                λ qps _. ended (chunk-measure s (record { memory = memory; qp_vec = qps }) e)

  run_handle-Progress :
      (h : WriteHandle) (s : State)
      → s.cur_write_handle ≡ h
      → Ends (Progress s) (run_handle config ibv_post_send h s)
  unfolding run_handle init_write take_record take_buffer
  run_handle-Progress init_write_handle s e = ended (ground arith)
  run_handle-Progress request_buffer s e = ended (ground arith)
  run_handle-Progress do_cur_write s e = write_chunk-Progress s e

  after_round :
      (fuel : ℕ) (s : State) (r : Bool × State)
      → measure s < suc fuel
      → Progress s r
      → ((t : State) → measure t < fuel → Ends IsQuiet (loop config ibv_post_send fuel t))
      → Ends IsQuiet (elim r.0 [ true ↦ loop config ibv_post_send fuel r.1 | false ↦ ok r.1 ])
  after_round fuel s (true, t) h p rest = rest t (omega arith)
  after_round fuel s (false, t) h p rest = ended p

  loop-IsQuiet :
      (fuel : ℕ) (s : State) → measure s < fuel → Ends IsQuiet (loop config ibv_post_send fuel s)
  unfolding loop
  loop-IsQuiet zero s h = elim h [ ]
  loop-IsQuiet (suc fuel) s h =
      Ends-bind (run_handle-Progress s.cur_write_handle s refl)
        λ r p. after_round fuel s r h p (loop-IsQuiet fuel)

  -- The loop ends whatever the state, and a helper that it leaves has nothing to write or no
  -- buffer to write with. (It may also end at one of the program's own checks.)
  pub notify_me_to_write-IsQuiet :
      (s : State) → Ends IsQuiet (notify_me_to_write config ibv_post_send s)
  unfolding notify_me_to_write
  notify_me_to_write-IsQuiet s = loop-IsQuiet _ s (weight-bound s.cur_write_handle)
    where
      weight-bound :
          (h : WriteHandle)
          → 3 * length s.idle_buffer_queue + weight h < 3 * length s.idle_buffer_queue + 4
      weight-bound init_write_handle = omega arith
      weight-bound request_buffer = omega arith
      weight-bound do_cur_write = omega arith

  -- `AsyncWrite` on a quiet helper leaves it quiet, also where it wakes nobody.
  async_write-IsQuiet :
      (r : WorkRecord) (s : State) → IsQuiet s → Ends IsQuiet (async_write config ibv_post_send r s)
  unfolding async_write
  async_write-IsQuiet r s (inl (h, c, p)) =
      let e : is_empty s.pending_record_queue ≡ true = ground arith in
      rw e (notify_me_to_write-IsQuiet (push_record r s))
  async_write-IsQuiet r s (inr (h, i)) = elim (Bool-cases (is_empty s.pending_record_queue)) [
    | inl e ↦ rw e (notify_me_to_write-IsQuiet (push_record r s))
    | inr e ↦ rw e (ended (inr (h, i)))
  ]

  -- `FreeBuffer` leaves the helper quiet, whatever it was.
  pub free_buffer-IsQuiet :
      (b : ℤ) (s : State) → Ends IsQuiet (free_buffer config ibv_post_send b s)
  unfolding free_buffer
  free_buffer-IsQuiet b s = notify_me_to_write-IsQuiet (push_buffer b s)

  -- Any records and freed buffers in any order, from a quiet helper on: the loop ends each time, at a
  -- stop of the program or, if no check stops it, with a helper that has nothing left to write or
  -- no idle buffer to write with.
  pub handle_events-IsQuiet :
      (es : List Event) (s : State)
      → IsQuiet s
      → Ends IsQuiet (handle_events config ibv_post_send es s)
  unfolding handle_events handle_event
  handle_events-IsQuiet [] s q = ended q
  handle_events-IsQuiet (please_write r ∷ es) s q =
      Ends-bind (async_write-IsQuiet r s q) (handle_events-IsQuiet es)
  handle_events-IsQuiet (buffer_freed b ∷ es) s q =
      Ends-bind (free_buffer-IsQuiet b s) (handle_events-IsQuiet es)

Ends-forget : {P : State → Type 0} {r : Result State} → Ends P r → Ends Any r
Ends-forget (ended h) = ended tt
Ends-forget (stopped own) = stopped own

-- A record that comes in.
pub async_write-Ends :
    (config : CommNetConfig) (ibv_post_send : List SendWr → SendWr → ℕ) (r : WorkRecord) (s : State)
    → Ends Any (async_write config ibv_post_send r s)
unfolding async_write
async_write-Ends config ibv_post_send r s = elim (Bool-cases (is_empty s.pending_record_queue)) [
  | inl first ↦
      rw first (Ends-forget (notify_me_to_write-IsQuiet config ibv_post_send (push_record r s)))
  | inr later ↦ rw later (ended tt)
]
