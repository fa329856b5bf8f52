-- ===== src/Ibverbs/CommNet/Finishing.antt =====
-- comm_network/ibverbs: the message with which a registered buffer goes back, and the end of a read
-- on both machines.
use comm_network.Prelude.{
  ℕ, ◌≡◌, refl, ap, ◌∙◌, sym, List, ◌∷◌, ◌++◌, Option, none, some, Bool, true, false, Result, ok,
  length, leb, if◌then◌else◌, ◌>>=◌, eqb_self, Ends, subst, ◌<◌, append-nil, Bool-cases, inl, inr,
}
use comm_network.Prelude.Int.{ℤ}
use comm_network.Prelude.Words.{sub64}
use comm_network.Config.{max_msg_size}
use comm_network.Message.{
  WorkRecord, FreeBufferPair, free_buffer_message, free_buffer_key, IsLayout,
}
use comm_network.Ibverbs.Verbs.{Memory}
use comm_network.Ibverbs.WriteHelper.{State, free_buffer}
use comm_network.Ibverbs.Qp.{
  Env, MsgBuf, Called, call_cb, Endpoint, read_msg, pop_read, post_msg, post_send_request, recycle,
}
use comm_network.Ibverbs.Qp.Sending.{Ready, sending, calls_of, post_msg_lem}
use comm_network.Ibverbs.CommNet.{
  Net, endpoint, put_endpoint, with_qp, with_helper, call_read_done, deal_msg, free_buffer_received,
  recv_done, register2_normal_done,
}
use comm_network.Ibverbs.CommNet.Receiving.{AcceptsRecv, Completes, with_qp_lem, recv_done_run}
use comm_network.Ibverbs.CommNet.Handled.{
  helped, helper_state, read_done, Follows, recycle_after_read, with_helper_run, port_before,
}
use comm_network.Ibverbs.WriteHelper.Quiet.{IsQuiet, free_buffer-IsQuiet}
use comm_network.Ibverbs.WriteHelper.Starts.{Frees, Frees-free_buffer}
use comm_network.Ibverbs.WriteHelper.Ids.{free_buffer-Held}

-- The first record of the read queue is gone, and its callback called.
abbrev pub finished : WorkRecord → List WorkRecord → Endpoint → Endpoint
finished r records e = record e {
  port = record (e.port) { read_queue = records };
  called = e.called ++ calls_of r.cb;
}

call_cb_lem :
    (cb : Option ℕ) (e : Endpoint) → call_cb cb e ≡ record e { called = e.called ++ calls_of cb }
call_cb_lem none e = ap (λ (l : List Called). record e { called = l }) (sym (append-nil e.called))
call_cb_lem (some c) e = refl

pop_read_lem :
    (e : Endpoint) (r : WorkRecord) (records : List WorkRecord)
    → e.port.read_queue ≡ r ∷ records
    → pop_read e ≡ ok (r, record e { port = record (e.port) { read_queue = records } })
unfolding pop_read
pop_read_lem e r records first = rw first

-- What the message does to the queue pair that sends it, before it is posted.
abbrev pub before_free : Bool → WorkRecord → List WorkRecord → Endpoint → Endpoint
before_free last_piece r records e = if last_piece then finished r records e else e

read_msg_lem :
    (env : Env) (m : Memory) (f : FreeBufferPair) (e : Endpoint) (r : WorkRecord)
    (records : List WorkRecord)
    → e.port.read_queue ≡ r ∷ records
    → read_msg env m (free_buffer_message f) e
      ≡ ok (
        free_buffer_key,
        env.layout.put_free_buffer f,
        none,
        before_free f.last_piece r records e,
      )
unfolding read_msg
read_msg_lem env m f e r records first =
    let popped = record e { port = record (e.port) { read_queue = records } } in
    elim (Bool-cases f.last_piece) [
      | inl y ↦ rw (y, pop_read_lem e r records first, call_cb_lem r.cb popped) refl
      | inr n ↦ rw n refl
    ]

before_free-Ready :
    (env : Env) (t : Bool) (r : WorkRecord) (records : List WorkRecord) (e : Endpoint) (b : ℕ)
    (rest : List ℕ) (buf : MsgBuf)
    → Ready env e b rest buf
    → Ready env (before_free t r records e) b rest buf
before_free-Ready env true r records e b rest buf ready = record {
  pool = ready.pool;
  there = ready.there;
  room = ready.room;
}
before_free-Ready env false r records e b rest buf ready = ready

free_buffer_received_lem :
    (env : Env) (peer : ℤ) (f : FreeBufferPair) (net : Net)
    → IsLayout env.layout
    → deal_msg env peer (env.layout.put_free_buffer f) free_buffer_key net ≡ (
        with_helper peer (free_buffer env.config env.ibv_post_send f.buffer_id) net >>= λ net'.
        if f.last_piece then with_qp peer call_read_done net' else ok net')
unfolding deal_msg free_buffer_received
free_buffer_received_lem env peer f net layout = rw (
  layout.length-put_free_buffer f,
  layout.get-put_free_buffer f,
  eqb_self env.layout.free_buffer_size,
)

-- `Register2NormalDone` where a read is noted, a message buffer is free, the message fits it and the
-- send queue accepts: it posts the message that frees the registered buffer; if that was the last
-- piece, the read leaves the queue first and its callback is called, and otherwise neither happens.
-- `RecvDone` of the machine that gets the message, in a buffer whose id is in use and older than the
-- next, on a receive queue with room and with a callback registered, gives that buffer to the write
-- helper: a record that waits has its next chunk written with it, a helper with nothing to do keeps
-- it idle, and one at work goes on. That comes to an end; and unless that stops the program, it then takes the first
-- read-done callback and calls it, exactly if it was the last piece, posts the message buffer again
-- under a new id and deletes the old id.
pub recv_done-register2_normal_done :
    (env : Env) (peer : ℤ) (f : FreeBufferPair) (from to : Net) (r : WorkRecord)
    (records : List WorkRecord) (k b : ℕ) (rest : List ℕ) (buf : MsgBuf) (e : Endpoint)
    {e' : Endpoint} {b' : ℕ} {buf' : MsgBuf} {done_cb : ℕ} {cbs : List (Option ℕ)}
    → IsLayout env.layout
    → endpoint f.src_machine_id from ≡ ok e
    → e.port.read_queue ≡ r ∷ records
    → Ready env e b rest buf
    → leb env.layout.free_buffer_size (sub64 (max_msg_size env.config) 8) ≡ true
    → endpoint peer to ≡ ok e'
    → Completes env k e' b' buf'
    → k < e'.port.next_id
    → AcceptsRecv env
    → e'.qp.read_done_cbs ≡ some done_cb ∷ cbs
    → buf'.payload ≡ env.layout.put_free_buffer f
    → (register2_normal_done env f from
        ≡ ok (
            put_endpoint f.src_machine_id
              (sending free_buffer_key
                (env.layout.put_free_buffer f)
                none
                b
                rest
                buf
                (before_free f.last_piece r records e))
              from))
      × (let freed = free_buffer env.config env.ibv_post_send f.buffer_id (helper_state e' to) in
          Frees env.config env.ibv_post_send f.buffer_id
            (helper_state e' to)
            freed
            e'.qp.helper.pending_record_queue
            e'.qp.helper.cur_write_handle
            e'.qp.helper.cur_record_queue
            e'.qp.helper.idle_buffer_queue
          × Ends IsQuiet freed
          × Follows peer k b' e' to
              (read_done f.last_piece done_cb cbs)
              freed
              (recv_done env peer k free_buffer_key to))
unfolding register2_normal_done post_send_request
recv_done-register2_normal_done env peer f from to r records k b rest buf e {e'} {b'} {buf'}
      {done_cb} {cbs} layout at_src first ready fits at_peer done older accepts cb_first carried =
    let last = before_free f.last_piece r records e in
    let room : leb (length (env.layout.put_free_buffer f)) (sub64 (max_msg_size env.config) 8)
        ≡ true =
      ap (λ (n : ℕ). leb n (sub64 (max_msg_size env.config) 8)) (layout.length-put_free_buffer f)
      ∙ fits in
    let free : State → Result State = free_buffer env.config env.ibv_post_send f.buffer_id in
    let s : State = helper_state e' to in
    let call_done : Net → Result Net =
      λ net. if f.last_piece then with_qp peer call_read_done net else ok net in
    let dealt : recv_done env peer k free_buffer_key to ≡ (
        free s
        >>= (λ s'. ok (helped peer e' s' to))
        >>= call_done
        >>= with_qp peer (recycle env k b')) =
      recv_done_run env peer k free_buffer_key to at_peer done.found
      ∙ ap
          (λ (l : List ℕ).
            deal_msg env peer l free_buffer_key to >>= with_qp peer (recycle env k b'))
          carried
      ∙ ap (λ (x : Result Net). x >>= with_qp peer (recycle env k b'))
          (free_buffer_received_lem env peer f to layout)
      ∙ ap (λ (x : Result Net). x >>= call_done >>= with_qp peer (recycle env k b'))
          (with_helper_run env peer k b' done.id e' to at_peer accepts free) in
    (
      with_qp_lem f.src_machine_id _ from at_src (
          ap (λ x. x >>= λ y. post_msg env (y.0) (y.1) (y.2) (y.3))
            (read_msg_lem env from.machine.memory f e r records first)
          ∙ post_msg_lem env free_buffer_key (env.layout.put_free_buffer f) none b rest buf last
              (before_free-Ready env f.last_piece r records e b rest buf ready) room),
      (
        Frees-free_buffer env.config env.ibv_post_send _ _ _ _ f.buffer_id s refl refl refl refl,
        free_buffer-IsQuiet env.config env.ibv_post_send f.buffer_id s,
        subst (Follows peer k b' e' to (read_done f.last_piece done_cb cbs) (free s)) (sym dealt) (
            recycle_after_read env peer k b' done.id e' to at_peer accepts f.last_piece done_cb cbs
              (free s) cb_first
              (free_buffer-Held peer k done.id env.config env.ibv_post_send f.buffer_id s
                (port_before env peer k b' done.id e' to at_peer accepts (done.live, older)))),
      ),
    )
