-- ===== src/Ibverbs/WriteHelper/Ids.antt =====
-- comm_network/ibverbs/ibverbs_write_helper.cpp: the writes of a helper take new work request ids, and
-- leave those that are in use.
use comm_network.Prelude.{
  ℕ, zero, suc, ◌+◌, ◌<◌, ◌≡◌, ap, ◌∙◌, sym, subst, List, [], ◌∷◌, Option, none, some, Bool, true,
  false, Bool-cases, inl, inr, Result, ok, check, or_abort, null_pointer, is_empty, length, set,
  get_elem?-set_other, ◌==◌, ◌>>=◌, WhenOk, leaves, stops, abort, WhenOk-then, WhenOk-bind, ◌*◌,
  arith, out_of_range,
}
use comm_network.Prelude.Int.{ℤ, pos, negsuc, pos_part}
use comm_network.Prelude.Words.{to_size}
use comm_network.Config.{CommNetConfig, sge_bytes}
use comm_network.Ibverbs.Chunk.{chunk_bytes, sge_count, copy_to_sges}
use comm_network.Message.{WorkRecord}
use comm_network.Ibverbs.Verbs.{SendWr, at, at-set}
use comm_network.Ibverbs.MemDesc.{MemDesc, MemDescProto}
use comm_network.Ibverbs.Port.{
  WorkRequestId, Port, find_id, post_send, new_work_request_id, post_writes, post_write_request,
}
use comm_network.Ibverbs.WriteHelper.{
  WriteHandle, init_write_handle, request_buffer, do_cur_write, State, take_record, init_write,
  take_buffer, normal2register_done, write_chunk, run_handle, push_record, push_buffer, loop,
  notify_me_to_write, async_write, free_buffer,
}

-- An id in use, which will not be given out again.
abbrev pub IsLive : ℕ → WorkRequestId → Port → Type 0
IsLive k w p = (find_id k p.live ≡ some w) × (k < p.next_id)

-- The same of the queue pair to a peer.
pub record Held (peer : ℤ) (k : ℕ) (w : WorkRequestId) (qps : List (Option Port)) : Type 0 where
  pub port : Port
  pub there : at qps peer ≡ ok (some port)
  pub live : IsLive k w port

some-ok : {A : Type 0} {a b : A} → ◌≡◌ {A = Result (Option A)} (ok (some a)) (ok (some b)) → a ≡ b
some-ok e = cc

not_null : (entry : Option Port) {p : Port} → or_abort null_pointer entry ≡ ok p → entry ≡ some p
not_null none e = cc
not_null (some q) e = cc

pub what_is_left {ℓ} : {A : Type ℓ} {P : A → Type 0} {a : A} → WhenOk P (ok a) → P a
what_is_left (leaves h) = h

-- Under a hypothesis that does not depend on the run.
WhenOk-later :
    {A H : Type 0} {P : A → Type 0} (m : Result A) → (H → WhenOk P m) → WhenOk (λ a. H → P a) m
WhenOk-later (ok a) f = leaves (λ h. what_is_left (f h))
WhenOk-later (abort _) f = stops

set-other :
    (qps : List (Option Port)) (dst peer : ℤ) (p : Option Port) {x y : Option Port}
    → at qps dst ≡ ok x
    → at qps peer ≡ ok y
    → (pos_part dst == pos_part peer) ≡ false
    → at (set qps (pos_part dst) p) peer ≡ ok y
set-other qps (pos i) (pos j) p e e' apart =
    ap (or_abort out_of_range) (get_elem?-set_other qps i j p (ground (arith, apart))) ∙ e'
set-other qps (negsuc i) peer p e e' apart = cc
set-other qps (pos i) (negsuc j) p e e' apart = cc

same-index :
    (qps : List (Option Port)) (dst peer : ℤ) {x y : Option Port}
    → at qps dst ≡ ok x
    → at qps peer ≡ ok y
    → (pos_part dst == pos_part peer) ≡ true
    → dst ≡ peer
same-index qps (pos i) (pos j) e e' same = ap pos (ground (arith, same))
same-index qps (negsuc i) peer e e' same = cc
same-index qps (pos i) (negsuc j) e e' same = cc

module _ (peer : ℤ) (k : ℕ) (w : WorkRequestId) where
  set-Held :
      (qps : List (Option Port)) (dst : ℤ) (p p' : Port)
      → Held peer k w qps
      → at qps dst ≡ ok (some p)
      → (IsLive k w p → IsLive k w p')
      → Held peer k w (set qps (pos_part dst) (some p'))
  set-Held qps dst p p' h at_dst grows = elim (Bool-cases (pos_part dst == pos_part peer)) [
    | inl same ↦
        let e : dst ≡ peer = same-index qps dst peer at_dst h.there same in
        let one : h.port ≡ p = some-ok (sym h.there ∙ ap (at qps) (sym e) ∙ at_dst) in
        record {
          port = p';
          there =
              ap (at (set qps (pos_part dst) (some p'))) (sym e) ∙ at-set qps dst (some p') at_dst;
          live = grows (subst (IsLive k w) one h.live);
        }
    | inr apart ↦ record {
      port = h.port;
      there = set-other qps dst peer (some p') at_dst h.there apart;
      live = h.live;
    }
  ]

  module _ (config : CommNetConfig) (ibv_post_send : List SendWr → SendWr → ℕ) where
    post_send-IsLive :
        (wr : SendWr) (p : Port) → IsLive k w p → WhenOk (IsLive k w) (post_send ibv_post_send wr p)
    unfolding post_send
    post_send-IsLive wr p h = WhenOk-then (check (ibv_post_send p.posted wr == 0)) (λ _ _. leaves h)

    post_writes-IsLive :
        (n i wr_id : ℕ) (remote : MemDescProto) (local : MemDesc) (buffer_id sge_num : ℤ) (p : Port)
        → IsLive k w p
        → WhenOk (IsLive k w) (post_writes ibv_post_send n i wr_id remote local buffer_id sge_num p)
    unfolding post_writes post_send
    post_writes-IsLive zero i wr_id remote local buffer_id sge_num p h = leaves h
    post_writes-IsLive (suc n) i wr_id remote local buffer_id sge_num p h =
        WhenOk-then (at local.sge_vec (pos i)) λ sge _.
          WhenOk-then (at remote.mem_ptr (pos i)) λ ptr _.
            WhenOk-then (at remote.mr_rkey (pos i)) λ key _.
              WhenOk-bind {P = IsLive k w} (post_send-IsLive _ p h)
                λ p' h'. post_writes-IsLive n (i + 1) wr_id remote local buffer_id sge_num p' h'

    post_write_request-IsLive :
        (remote : MemDescProto) (local : MemDesc) (buffer_id sge_num : ℤ) (p : Port)
        → IsLive k w p
        → WhenOk (IsLive k w) (post_write_request ibv_post_send remote local buffer_id sge_num p)
    unfolding post_write_request new_work_request_id find_id
    post_write_request-IsLive remote local buffer_id sge_num p (found, older) =
        let other : (p.next_id == k) ≡ false = ground (arith, older) in
        post_writes-IsLive (to_size sge_num) 0 p.next_id remote local buffer_id sge_num
          (new_work_request_id (record { outstanding_sge_cnt = sge_num; msg_mr = none }) p).1
          (rw other found, omega (arith, older))

    post_write_request-Held :
        (dst : ℤ) (remote : MemDescProto) (local : MemDesc) (buffer_id sge_num : ℤ)
        (qps : List (Option Port)) (p : Port)
        → Held peer k w qps
        → at qps dst ≡ ok (some p)
        → WhenOk (Held peer k w) (
            post_write_request ibv_post_send remote local buffer_id sge_num p >>= λ p'.
            ok (set qps (pos_part dst) (some p')))
    post_write_request-Held dst remote local buffer_id sge_num qps p h at_dst =
        WhenOk-bind {P = λ p'. IsLive k w p → IsLive k w p'}
          (WhenOk-later (post_write_request ibv_post_send remote local buffer_id sge_num p)
            (post_write_request-IsLive remote local buffer_id sge_num p))
          λ p' grows. leaves (set-Held qps dst p p' h at_dst grows)

    normal2register_done-Held :
        (dst : ℤ) (local : MemDesc) (remote : MemDescProto) (buffer_id sge_num : ℤ)
        (qps : List (Option Port))
        → Held peer k w qps
        → WhenOk
            (Held peer k w)
            (normal2register_done config ibv_post_send dst local remote buffer_id sge_num qps)
    unfolding normal2register_done
    normal2register_done-Held dst local remote buffer_id sge_num qps h =
        WhenOk-then (at qps dst) λ entry at_dst.
          WhenOk-then (or_abort null_pointer entry) λ p there.
            post_write_request-Held dst remote local buffer_id sge_num qps p h
              (at_dst ∙ ap ok (not_null entry there))

    write_chunk-Held :
        (s : State)
        → Held peer k w s.machine.qp_vec
        → WhenOk (λ r. Held peer k w r.1.machine.qp_vec) (write_chunk config ibv_post_send s)
    unfolding write_chunk
    write_chunk-Held s h = WhenOk-then (at s.send_recv_pair s.buffer_id) λ pair _.
        WhenOk-then (sge_bytes config) λ block _.
          WhenOk-then (sge_count config (chunk_bytes config s.cur_record)) λ sge_num _.
            WhenOk-then
              (copy_to_sges (pos_part sge_num) 0 pair.0.sge_vec block
                (chunk_bytes config s.cur_record) (s.cur_record.begin_addr + s.cur_record.offset) 0
                s.machine.memory)
              λ memory _.
                WhenOk-bind {P = Held peer k w}
                  (normal2register_done-Held s.cur_record.machine_id pair.0 pair.1 s.buffer_id
                    sge_num s.machine.qp_vec h)
                  λ qps h'. leaves h'

    take_record-Held :
        (s : State) (cur pending : List WorkRecord)
        → Held peer k w s.machine.qp_vec
        → Held peer k w (take_record s cur pending).1.machine.qp_vec
    unfolding take_record
    take_record-Held s [] pending h = h
    take_record-Held s (r ∷ rest) pending h = h

    take_buffer-Held :
        (s : State) (buffers : List ℤ)
        → Held peer k w s.machine.qp_vec
        → Held peer k w (take_buffer s buffers).1.machine.qp_vec
    unfolding take_buffer
    take_buffer-Held s [] h = h
    take_buffer-Held s (b ∷ rest) h = h

    init_write-Held :
        (s : State) → Held peer k w s.machine.qp_vec → Held peer k w (init_write s).1.machine.qp_vec
    unfolding init_write
    init_write-Held s h = elim (Bool-cases (is_empty s.cur_record_queue)) [
      | inl none_left ↦
          rw none_left (take_record-Held s s.pending_record_queue s.cur_record_queue h)
      | inr some_left ↦
          rw some_left (take_record-Held s s.cur_record_queue s.pending_record_queue h)
    ]

    run_handle-Held :
        (handle : WriteHandle) (s : State)
        → Held peer k w s.machine.qp_vec
        → WhenOk (λ r. Held peer k w r.1.machine.qp_vec) (run_handle config ibv_post_send handle s)
    unfolding run_handle
    run_handle-Held init_write_handle s h = leaves (init_write-Held s h)
    run_handle-Held request_buffer s h = leaves (take_buffer-Held s s.idle_buffer_queue h)
    run_handle-Held do_cur_write s h = write_chunk-Held s h

    after_round-Held :
        (fuel : ℕ) (r : Bool × State)
        → Held peer k w r.1.machine.qp_vec
        → ((s : State)
            → Held peer k w s.machine.qp_vec
            → WhenOk (λ t. Held peer k w t.machine.qp_vec) (loop config ibv_post_send fuel s))
        → WhenOk
            (λ t. Held peer k w t.machine.qp_vec)
            (elim r.0 [ true ↦ loop config ibv_post_send fuel r.1 | false ↦ ok r.1 ])
    after_round-Held fuel (true, s) h rest = rest s h
    after_round-Held fuel (false, s) h rest = leaves h

    loop-Held :
        (fuel : ℕ) (s : State)
        → Held peer k w s.machine.qp_vec
        → WhenOk (λ t. Held peer k w t.machine.qp_vec) (loop config ibv_post_send fuel s)
    unfolding loop
    loop-Held zero s h = stops
    loop-Held (suc fuel) s h =
        WhenOk-bind {P = λ r. Held peer k w r.1.machine.qp_vec}
          (run_handle-Held s.cur_write_handle s h)
          λ r h'. after_round-Held fuel r h' (loop-Held fuel)

    pub free_buffer-Held :
        (b : ℤ) (s : State)
        → Held peer k w s.machine.qp_vec
        → WhenOk (λ t. Held peer k w t.machine.qp_vec) (free_buffer config ibv_post_send b s)
    unfolding free_buffer notify_me_to_write
    free_buffer-Held b s h =
        loop-Held (3 * length (push_buffer b s).idle_buffer_queue + 4) (push_buffer b s) h

    pub async_write-Held :
        (r : WorkRecord) (s : State)
        → Held peer k w s.machine.qp_vec
        → WhenOk (λ t. Held peer k w t.machine.qp_vec) (async_write config ibv_post_send r s)
    unfolding async_write notify_me_to_write
    async_write-Held r s h = elim (Bool-cases (is_empty s.pending_record_queue)) [
      | inl first ↦ rw first (loop-Held (3 * length s.idle_buffer_queue + 4) (push_record r s) h)
      | inr later ↦ rw later (leaves h)
    ]
