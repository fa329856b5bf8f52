-- ===== src/Ibverbs/WriteHelper/OneBuffer.antt =====
-- comm_network/ibverbs/ibverbs_write_helper.cpp: `FreeBuffer` of a helper that has waited for a
-- buffer and has no other.
use comm_network.Prelude.{
  ℕ, suc, ◌+◌, ◌*◌, ◌≡◌, refl, ap, ◌∙◌, List, [], ◌∷◌, ◌++◌, true, false, ok, ltb, length,
  if◌then◌else◌,
}
use comm_network.Prelude.Int.{ℤ}
use comm_network.Prelude.Words.{add64}
use comm_network.Config.{CommNetConfig}
use comm_network.Message.{WorkRecord}
use comm_network.Ibverbs.Verbs.{SendWr}
use comm_network.Ibverbs.WriteHelper.{
  State, Machine, WriteHandle, init_write_handle, request_buffer, do_cur_write, take_record,
  init_write, take_buffer, write_chunk, run_handle, loop, notify_me_to_write, push_buffer,
  free_buffer, after_chunk,
}

-- With the buffer in its hands.
abbrev pub got : ℤ → State → State
got b s = record s {
  helper = record (s.helper) {
    buffer_id = b;
    idle_buffer_queue = [];
    cur_write_handle = do_cur_write;
  };
}

-- A record waits for a buffer.
pub record IsWaiting (s : State) : Type 0 where
  pub waits : s.cur_write_handle ≡ request_buffer
  pub no_idle : s.idle_buffer_queue ≡ []

module _ (config : CommNetConfig) (ibv_post_send : List SendWr → SendWr → ℕ) where
  pub go_on :
      (fuel : ℕ) (h : WriteHandle) (s s' : State)
      → s.cur_write_handle ≡ h
      → run_handle config ibv_post_send h s ≡ ok (true, s')
      → loop config ibv_post_send (suc fuel) s ≡ loop config ibv_post_send fuel s'
  unfolding loop
  go_on fuel h s s' here e = simp (here, e)

  pub stop_here :
      (fuel : ℕ) (h : WriteHandle) (s s' : State)
      → s.cur_write_handle ≡ h
      → run_handle config ibv_post_send h s ≡ ok (false, s')
      → loop config ibv_post_send (suc fuel) s ≡ ok s'
  unfolding loop
  stop_here fuel h s s' here e = simp (here, e)

  pub no_buffer :
      (fuel : ℕ) (s : State)
      → s.cur_write_handle ≡ request_buffer
      → s.idle_buffer_queue ≡ []
      → loop config ibv_post_send (suc fuel) s ≡ ok s
  unfolding run_handle take_buffer
  no_buffer fuel s here none_idle =
      stop_here fuel request_buffer s s here (ap (λ l. ok (take_buffer s l)) none_idle)

  -- Of the records that are queued it may take the next, but it writes nothing of it.
  take_lem :
      (cur pending : List WorkRecord) (fuel : ℕ) (s : State)
      → s.cur_write_handle ≡ init_write_handle
      → s.idle_buffer_queue ≡ []
      → run_handle config ibv_post_send init_write_handle s ≡ ok (take_record s cur pending)
      → (s' : State) × (loop config ibv_post_send (suc (suc fuel)) s ≡ ok s')
        × (s'.machine ≡ s.machine)
  unfolding take_record
  take_lem [] pending fuel s here none_idle e =
      (_, stop_here (suc fuel) init_write_handle s _ here e, refl)
  take_lem (r ∷ cur) pending fuel s here none_idle e =
      (_, go_on (suc fuel) init_write_handle s _ here e ∙ no_buffer fuel _ refl none_idle, refl)

  next_record :
      (cur : List WorkRecord) (fuel : ℕ) (s : State)
      → s.cur_record_queue ≡ cur
      → s.cur_write_handle ≡ init_write_handle
      → s.idle_buffer_queue ≡ []
      → (s' : State) × (loop config ibv_post_send (suc (suc fuel)) s ≡ ok s')
        × (s'.machine ≡ s.machine)
  unfolding run_handle init_write
  next_record [] fuel s is here none_idle =
      take_lem s.pending_record_queue s.cur_record_queue fuel s here none_idle (rw is refl)
  next_record (r ∷ cur) fuel s is here none_idle =
      take_lem s.cur_record_queue s.pending_record_queue fuel s here none_idle (rw is refl)

  module _ (b : ℤ) (s : State) (t : ℕ) (m : Machine) (w : IsWaiting s)
      (written : write_chunk config ibv_post_send (got b s)
        ≡ ok (true, after_chunk t (got b s) m)) where
    one_chunk :
        free_buffer config ibv_post_send b s
        ≡ loop config ibv_post_send 5 (after_chunk t (got b s) m)
    unfolding free_buffer notify_me_to_write run_handle take_buffer
    one_chunk =
        let one : (push_buffer b s).idle_buffer_queue ≡ b ∷ [] = ap (λ l. l ++ b ∷ []) w.no_idle in
        ap (λ l. loop config ibv_post_send (3 * length l + 4) (push_buffer b s)) one
        ∙ go_on 6 request_buffer (push_buffer b s) (got b s) w.waits
            (ap (λ l. ok (take_buffer (push_buffer b s) l)) one)
        ∙ go_on 5 do_cur_write (got b s) _ refl written

    -- It writes one chunk with the buffer, and waits again if the record is not finished.
    pub free_buffer-again :
        ltb (add64 s.cur_record.offset t) s.cur_record.bytes ≡ true
        → free_buffer config ibv_post_send b s ≡ ok (after_chunk t (got b s) m)
    free_buffer-again e =
        one_chunk
        ∙ no_buffer 4 (after_chunk t (got b s) m)
            (ap (λ c. if c then request_buffer else init_write_handle) e) refl

    pub free_buffer-last :
        ltb (add64 s.cur_record.offset t) s.cur_record.bytes ≡ false
        → (s' : State) × (free_buffer config ibv_post_send b s ≡ ok s') × (s'.machine ≡ m)
    free_buffer-last e =
        let (s', run, there) =
          next_record _ 3 (after_chunk t (got b s) m) refl
            (ap (λ c. if c then request_buffer else init_write_handle) e) refl in
        (s', one_chunk ∙ run, there)
