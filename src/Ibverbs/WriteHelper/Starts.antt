-- ===== src/Ibverbs/WriteHelper/Starts.antt =====
-- comm_network/ibverbs/ibverbs_write_helper.cpp: what a record that comes in, or a buffer that comes
-- back, sets going.
use comm_network.Prelude.{
  ℕ, suc, ◌+◌, ◌*◌, ◌≡◌, refl, ap, ◌∙◌, List, [], ◌∷◌, ◌++◌, true, false, Result, ok, length, ◌>>=◌,
  arith,
}
use comm_network.Prelude.Int.{ℤ}
use comm_network.Config.{CommNetConfig}
use comm_network.Message.{WorkRecord}
use comm_network.Ibverbs.Verbs.{SendWr}
use comm_network.Ibverbs.WriteHelper.{
  State, WriteHandle, init_write_handle, request_buffer, do_cur_write, take_record, init_write,
  take_buffer, write_chunk, run_handle, loop, notify_me_to_write, push_record, push_buffer,
  async_write, free_buffer,
}
use comm_network.Ibverbs.WriteHelper.OneBuffer.{got, go_on, stop_here, no_buffer}

-- The record is the current one, and waits for a buffer.
abbrev pub begun : WorkRecord → State → State
begun r s = record s {
  helper = record (s.helper) {
    cur_record = r;
    cur_record_queue = [];
    pending_record_queue = [];
    cur_write_handle = request_buffer;
  };
}

-- It has the first of the idle buffers.
abbrev pub picked : ℤ → List ℤ → State → State
picked b idle s = record s {
  helper = record (s.helper) {
    buffer_id = b;
    idle_buffer_queue = idle;
    cur_write_handle = do_cur_write;
  };
}

module _ (config : CommNetConfig) (ibv_post_send : List SendWr → SendWr → ℕ) where
  -- The chunk is written, and then what else there is to write.
  abbrev pub chunk_first : ℕ → State → Result State
  chunk_first fuel s = write_chunk config ibv_post_send s >>= λ r. elim r.0 [
    | true ↦ loop config ibv_post_send fuel r.1
    | false ↦ ok r.1
  ]

  -- What `AsyncWrite` of r leads to, by the helper's pending queue, its handle, its current queue and
  -- its idle buffers: behind a record that is pending, r waits; of a helper with nothing to do, r is
  -- the current record, and its first chunk is written if there is a buffer; and a helper at work
  -- goes on with r behind.
  abbrev pub Starts :
      WorkRecord
      → State
      → Result State
      → List WorkRecord
      → WriteHandle
      → List WorkRecord
      → List ℤ
      → Type 0
  Starts r s out (_ ∷ _) h cur idle = out ≡ ok (push_record r s)
  Starts r s out [] init_write_handle [] [] = out ≡ ok (begun r s)
  Starts r s out [] init_write_handle [] (b ∷ idle) =
      out ≡ chunk_first (3 * length idle + 4) (picked b idle (begun r s))
  Starts r s out [] init_write_handle (_ ∷ _) idle =
      out ≡ notify_me_to_write config ibv_post_send (push_record r s)
  Starts r s out [] request_buffer cur idle =
      out ≡ notify_me_to_write config ibv_post_send (push_record r s)
  Starts r s out [] do_cur_write cur idle =
      out ≡ notify_me_to_write config ibv_post_send (push_record r s)

  -- The same of `FreeBuffer` of b: a record that waits has its next chunk written with b, and a helper
  -- with nothing to do has b among its idle buffers.
  abbrev pub Frees :
      ℤ → State → Result State → List WorkRecord → WriteHandle → List WorkRecord → List ℤ → Type 0
  Frees b s out pending request_buffer cur [] = out ≡ chunk_first 5 (got b s)
  Frees b s out pending request_buffer cur (_ ∷ _) =
      out ≡ notify_me_to_write config ibv_post_send (push_buffer b s)
  Frees b s out [] init_write_handle [] idle = out ≡ ok (push_buffer b s)
  Frees b s out (_ ∷ _) init_write_handle cur idle =
      out ≡ notify_me_to_write config ibv_post_send (push_buffer b s)
  Frees b s out [] init_write_handle (_ ∷ _) idle =
      out ≡ notify_me_to_write config ibv_post_send (push_buffer b s)
  Frees b s out pending do_cur_write cur idle =
      out ≡ notify_me_to_write config ibv_post_send (push_buffer b s)

  chunk_now :
      (fuel : ℕ) (s : State)
      → s.cur_write_handle ≡ do_cur_write
      → loop config ibv_post_send (suc fuel) s ≡ chunk_first fuel s
  unfolding loop run_handle
  chunk_now fuel s here =
      ap
        (λ h. run_handle config ibv_post_send h s >>= λ r. elim r.0 [
          | true ↦ loop config ibv_post_send fuel r.1
          | false ↦ ok r.1
        ])
        here

  take_now :
      (fuel : ℕ) (b : ℤ) (idle : List ℤ) (s : State)
      → s.cur_write_handle ≡ request_buffer
      → s.idle_buffer_queue ≡ b ∷ idle
      → loop config ibv_post_send (suc (suc fuel)) s ≡ chunk_first fuel (picked b idle s)
  unfolding run_handle take_buffer
  take_now fuel b idle s here has =
      go_on config ibv_post_send (suc fuel) request_buffer s (picked b idle s) here
        (ap (λ l. ok (take_buffer s l)) has)
      ∙ chunk_now fuel (picked b idle s) refl

  begin_now :
      (fuel : ℕ) (r : WorkRecord) (s : State)
      → s.cur_write_handle ≡ init_write_handle
      → s.cur_record_queue ≡ []
      → s.pending_record_queue ≡ []
      → loop config ibv_post_send (suc fuel) (push_record r s)
        ≡ loop config ibv_post_send fuel (begun r s)
  unfolding run_handle init_write take_record
  begin_now fuel r s here cur pending =
      go_on config ibv_post_send fuel init_write_handle (push_record r s) (begun r s) here
        (rw (cur, pending) refl)

  woken :
      (r : WorkRecord) (s : State)
      → s.pending_record_queue ≡ []
      → async_write config ibv_post_send r s
        ≡ notify_me_to_write config ibv_post_send (push_record r s)
  unfolding async_write
  woken r s pending = simp pending

  from_idle :
      (r : WorkRecord) (s : State) {idle : List ℤ}
      → s.pending_record_queue ≡ []
      → s.cur_write_handle ≡ init_write_handle
      → s.cur_record_queue ≡ []
      → s.idle_buffer_queue ≡ idle
      → async_write config ibv_post_send r s
        ≡ loop config ibv_post_send (3 * length idle + 3) (begun r s)
  unfolding notify_me_to_write
  from_idle r s {idle} pending here cur has =
      woken r s pending
      ∙ ap (λ (l : List ℤ). loop config ibv_post_send (3 * length l + 4) (push_record r s)) has
      ∙ ap (λ n. loop config ibv_post_send n (push_record r s)) {y = suc (3 * length idle + 3)}
          (omega arith)
      ∙ begin_now (3 * length idle + 3) r s here cur pending

  pub Starts-async_write :
      (pending : List WorkRecord) (h : WriteHandle) (cur : List WorkRecord) (idle : List ℤ)
      (r : WorkRecord) (s : State)
      → s.pending_record_queue ≡ pending
      → s.cur_write_handle ≡ h
      → s.cur_record_queue ≡ cur
      → s.idle_buffer_queue ≡ idle
      → Starts r s (async_write config ibv_post_send r s) pending h cur idle
  unfolding async_write
  Starts-async_write (x ∷ pending) h cur idle r s ep eh ec ei = simp ep
  Starts-async_write [] init_write_handle [] [] r s ep eh ec ei =
      from_idle r s ep eh ec ei ∙ no_buffer config ibv_post_send 2 (begun r s) refl ei
  Starts-async_write [] init_write_handle [] (b ∷ idle) r s ep eh ec ei =
      from_idle r s ep eh ec ei
      ∙ ap (λ n. loop config ibv_post_send n (begun r s)) {y = suc (suc (3 * length idle + 4))}
          (omega arith)
      ∙ take_now (3 * length idle + 4) b idle (begun r s) refl ei
  Starts-async_write [] init_write_handle (c ∷ cur) idle r s ep eh ec ei = woken r s ep
  Starts-async_write [] request_buffer cur idle r s ep eh ec ei = woken r s ep
  Starts-async_write [] do_cur_write cur idle r s ep eh ec ei = woken r s ep

  back_in_pool :
      (fuel : ℕ) (b : ℤ) (s : State)
      → s.pending_record_queue ≡ []
      → s.cur_write_handle ≡ init_write_handle
      → s.cur_record_queue ≡ []
      → loop config ibv_post_send (suc fuel) (push_buffer b s) ≡ ok (push_buffer b s)
  unfolding run_handle init_write take_record
  back_in_pool fuel b s pending here cur =
      stop_here config ibv_post_send fuel init_write_handle (push_buffer b s) (push_buffer b s) here
        (rw (cur, pending) refl)

  pub Frees-free_buffer :
      (pending : List WorkRecord) (h : WriteHandle) (cur : List WorkRecord) (idle : List ℤ) (b : ℤ)
      (s : State)
      → s.pending_record_queue ≡ pending
      → s.cur_write_handle ≡ h
      → s.cur_record_queue ≡ cur
      → s.idle_buffer_queue ≡ idle
      → Frees b s (free_buffer config ibv_post_send b s) pending h cur idle
  unfolding free_buffer notify_me_to_write
  Frees-free_buffer pending request_buffer cur [] b s ep eh ec ei =
      let one : (push_buffer b s).idle_buffer_queue ≡ b ∷ [] = ap (λ l. l ++ b ∷ []) ei in
      ap (λ (l : List ℤ). loop config ibv_post_send (3 * length l + 4) (push_buffer b s)) one
      ∙ take_now 5 b [] (push_buffer b s) eh one
  Frees-free_buffer pending request_buffer cur (c ∷ idle) b s ep eh ec ei = refl
  Frees-free_buffer [] init_write_handle [] idle b s ep eh ec ei =
      ap (λ n. loop config ibv_post_send n (push_buffer b s))
        {y = suc (3 * length (push_buffer b s).idle_buffer_queue + 3)} (omega arith)
      ∙ back_in_pool (3 * length (push_buffer b s).idle_buffer_queue + 3) b s ep eh ec
  Frees-free_buffer (x ∷ pending) init_write_handle cur idle b s ep eh ec ei = refl
  Frees-free_buffer [] init_write_handle (c ∷ cur) idle b s ep eh ec ei = refl
  Frees-free_buffer pending do_cur_write cur idle b s ep eh ec ei = refl
