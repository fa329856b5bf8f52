-- ===== src/Ibverbs/CommNet/Reading.antt =====
-- comm_network/ibverbs: `DoRead`, and what the machine that holds the data makes of its request.
use comm_network.Prelude.{
  ℕ, refl, ◌≡◌, ap, ◌∙◌, List, [], ◌∷◌, ◌++◌, Option, none, true, Result, ok, Ends, Any, sym, subst,
  ◌<◌, leb, ◌>>=◌, eqb_self,
}
use comm_network.Prelude.Int.{ℤ}
use comm_network.Prelude.Words.{sub64}
use comm_network.Config.{max_msg_size}
use comm_network.Message.{WorkRecord, PleaseWrite, please_write_key, IsLayout}
use comm_network.Ibverbs.Verbs.{Memory}
use comm_network.Ibverbs.WriteHelper.{async_write}
use comm_network.Ibverbs.Qp.{
  Env, MsgBuf, Endpoint, read_msg, post_send_request, deal_work_record, recycle,
}
use comm_network.Ibverbs.Qp.Sending.{Ready, sending, post_msg_lem}
use comm_network.Ibverbs.CommNet.{
  Net, endpoint, put_endpoint, with_qp, with_helper, deal_msg, please_write_received, recv_done,
  do_read,
}
use comm_network.Ibverbs.CommNet.Receiving.{AcceptsRecv, Completes, with_qp_lem, recv_done_run}
use comm_network.Ibverbs.CommNet.Handled.{
  helped, helper_state, Follows, recycle_after, with_helper_run, port_before,
}
use comm_network.Ibverbs.WriteHelper.Quiet.{async_write-Ends}
use comm_network.Ibverbs.WriteHelper.Starts.{Starts, Starts-async_write}
use comm_network.Ibverbs.WriteHelper.Ids.{async_write-Held}
use comm_network.Ibverbs.WriteHelper.{State}

-- The request that `DoRead` sends, the queue pair once the read is noted, and the record that the
-- machine with the data makes of it.
abbrev pub request_of : ℕ → ℕ → Endpoint → PleaseWrite
request_of src_addr bytes e = record {
  dst_machine_id = e.qp.this_machine_id;
  src_addr = src_addr;
  bytes = bytes;
}

abbrev pub noted : WorkRecord → Endpoint → Endpoint
noted r e = record e { port = record (e.port) { read_queue = e.port.read_queue ++ r ∷ [] } }

abbrev pub write_record : PleaseWrite → WorkRecord
write_record p = record {
  machine_id = p.dst_machine_id;
  begin_addr = p.src_addr;
  bytes = p.bytes;
  offset = 0;
  cb = none;
}

deal_work_record_lem :
    (env : Env) (m : Memory) (r : WorkRecord) (src_addr : ℕ) (b : ℕ) (rest : List ℕ) (buf : MsgBuf)
    (e : Endpoint)
    → IsLayout env.layout
    → Ready env e b rest buf
    → leb env.layout.please_write_size (sub64 (max_msg_size env.config) 8) ≡ true
    → deal_work_record env m r src_addr e
      ≡ ok (
          sending please_write_key
            (env.layout.put_please_write (request_of src_addr r.bytes e))
            none
            b
            rest
            buf
            (noted r e))
unfolding deal_work_record post_send_request read_msg
deal_work_record_lem env m r src_addr b rest buf e layout ready fits =
    ap (λ (x : Result Endpoint). x >>= λ e'. ok e')
      (post_msg_lem env please_write_key
        (env.layout.put_please_write (request_of src_addr r.bytes e)) none b rest buf (noted r e)
        (record { pool = ready.pool; there = ready.there; room = ready.room })
        (ap (λ (n : ℕ). leb n (sub64 (max_msg_size env.config) 8))
            (layout.length-put_please_write (request_of src_addr r.bytes e))
          ∙ fits))

please_write_received_lem :
    (env : Env) (peer : ℤ) (p : PleaseWrite) (net : Net)
    → IsLayout env.layout
    → deal_msg env peer (env.layout.put_please_write p) please_write_key net
      ≡ with_helper peer (async_write env.config env.ibv_post_send (write_record p)) net
unfolding deal_msg please_write_received
please_write_received_lem env peer p net layout = rw (
  layout.length-put_please_write p,
  layout.get-put_please_write p,
  eqb_self env.layout.please_write_size,
)

-- `DoRead` where a message buffer is free, the request fits it and the send queue accepts: the
-- record of the read goes to the end of the read queue and one request is posted. `RecvDone` of the
-- machine that gets it, in a buffer whose id is in use and older than the next, on a receive queue
-- with room, hands the write of exactly those bytes to the reader to the write helper: behind a record
-- that is pending it waits, a helper with nothing to do begins it, with its first chunk if a buffer is
-- idle, and a helper at work goes on. That comes to an end; and unless it stops the program, the
-- buffer is then posted again under a new id and the old id deleted.
pub recv_done-do_read :
    (env : Env) (src peer : ℤ) (src_addr bytes dst_addr : ℕ) (cb : Option ℕ) (from to : Net)
    (k b : ℕ) (rest : List ℕ) (buf : MsgBuf) (e : Endpoint) {e' : Endpoint} {b' : ℕ} {buf' : MsgBuf}
    → IsLayout env.layout
    → endpoint src from ≡ ok e
    → Ready env e b rest buf
    → leb env.layout.please_write_size (sub64 (max_msg_size env.config) 8) ≡ true
    → endpoint peer to ≡ ok e'
    → Completes env k e' b' buf'
    → k < e'.port.next_id
    → AcceptsRecv env
    → buf'.payload ≡ env.layout.put_please_write (request_of src_addr bytes e)
    → let r : WorkRecord = record {
      machine_id = src;
      begin_addr = dst_addr;
      bytes = bytes;
      offset = 0;
      cb = cb;
    } in
      let p = request_of src_addr bytes e in
      (do_read env src src_addr bytes dst_addr cb from
        ≡ ok (
            put_endpoint src
              (sending please_write_key (env.layout.put_please_write p) none b rest buf (noted r e))
              from))
      × (let started =
            async_write env.config env.ibv_post_send (write_record p) (helper_state e' to) in
          Starts env.config env.ibv_post_send
            (write_record p)
            (helper_state e' to)
            started
            e'.qp.helper.pending_record_queue
            e'.qp.helper.cur_write_handle
            e'.qp.helper.cur_record_queue
            e'.qp.helper.idle_buffer_queue
          × Ends Any started
          × Follows peer k b' e' to (λ e1. e1) started (recv_done env peer k please_write_key to))
unfolding do_read
recv_done-do_read env src peer src_addr bytes dst_addr cb from to k b rest buf e {e'} {b'} {buf'}
      layout at_src ready fits at_peer done older room carried =
    let p = request_of src_addr bytes e in
    let f : State → Result State = async_write env.config env.ibv_post_send (write_record p) in
    let s : State = helper_state e' to in
    let dealt : recv_done env peer k please_write_key to
        ≡ (f s >>= (λ s'. ok (helped peer e' s' to)) >>= with_qp peer (recycle env k b')) =
      recv_done_run env peer k please_write_key to at_peer done.found
      ∙ ap
          (λ (l : List ℕ).
            deal_msg env peer l please_write_key to >>= with_qp peer (recycle env k b'))
          carried
      ∙ ap (λ (x : Result Net). x >>= with_qp peer (recycle env k b'))
          (please_write_received_lem env peer p to layout
            ∙ with_helper_run env peer k b' done.id e' to at_peer room f) in
    (
      with_qp_lem src _ from at_src
          (deal_work_record_lem env from.machine.memory _ src_addr b rest buf e layout ready fits),
      (
        Starts-async_write env.config env.ibv_post_send _ _ _ _ (write_record p) s refl refl refl
            refl,
        async_write-Ends env.config env.ibv_post_send (write_record p) s,
        subst (Follows peer k b' e' to (λ e1. e1) (f s)) (sym dealt) (
            recycle_after env peer k b' done.id e' to at_peer room (f s) (
              async_write-Held peer k done.id env.config env.ibv_post_send (write_record p) s
                (port_before env peer k b' done.id e' to at_peer room (done.live, older)))),
      ),
    )
