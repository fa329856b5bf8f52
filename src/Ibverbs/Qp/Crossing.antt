-- ===== src/Ibverbs/Qp/Crossing.antt =====
-- comm_network/ibverbs/ibverbs_qp.cpp: two threads that call `DealWorkRecord` of one queue pair.
use comm_network.Prelude.{
  ℕ, ◌≡◌, ◌≢◌, refl, sym, ap, ◌∙◌, append_assoc, List, [], ◌∷◌, ◌++◌, none, some, Bool, true, false,
  Result, ok, abort, get_elem?, get_elem?-set, get_elem?-set_other, leb, ◌>>=◌,
}
use comm_network.Prelude.Int.{pos}
use comm_network.Prelude.Words.{sub64}
use comm_network.Config.{max_msg_size}
use comm_network.Message.{WorkRecord, please_write_key, IsLayout}
use comm_network.Ibverbs.Verbs.{Memory, SendWr}
use comm_network.Ibverbs.Qp.{
  Env, MsgBuf, Endpoint, read_msg, post_send_request, note_read, ask_peer, run_step, run_steps,
  read_steps, deal_work_record,
}
use comm_network.Ibverbs.Qp.Sending.{Ready, sending, filled, msg_wr, post_msg_lem}

-- Two threads that take turns: `true` is a step of the first.
pub interleave {ℓ} : {A : Type ℓ} → List Bool → List A → List A → List A
interleave [] xs ys = []
interleave (true ∷ turns) [] ys = interleave turns [] ys
interleave (true ∷ turns) (x ∷ xs) ys = x ∷ interleave turns xs ys
interleave (false ∷ turns) xs [] = interleave turns xs []
interleave (false ∷ turns) xs (y ∷ ys) = y ∷ interleave turns xs ys

-- The bytes of the request for a read.
abbrev pub request : Env → WorkRecord → ℕ → Endpoint → List ℕ
request env r src_addr e =
    env.layout.put_please_write
      (record { dst_machine_id = e.qp.this_machine_id; src_addr = src_addr; bytes = r.bytes })

ask_peer_lem :
    (env : Env) (m : Memory) (r : WorkRecord) (src_addr b : ℕ) (rest : List ℕ) (buf : MsgBuf)
    (e : Endpoint)
    → IsLayout env.layout
    → Ready env e b rest buf
    → leb env.layout.please_write_size (sub64 (max_msg_size env.config) 8) ≡ true
    → ask_peer env m r src_addr e
      ≡ ok (sending please_write_key (request env r src_addr e) none b rest buf e)
unfolding ask_peer post_send_request read_msg
ask_peer_lem env m r src_addr b rest buf e layout ready fits =
    post_msg_lem env please_write_key (request env r src_addr e) none b rest buf e ready (
      ap (λ (n : ℕ). leb n (sub64 (max_msg_size env.config) 8))
        (layout.length-put_please_write
          (record { dst_machine_id = e.qp.this_machine_id; src_addr = src_addr; bytes = r.bytes }))
      ∙ fits)

through :
    (x : Result Endpoint) (k : Endpoint → Result Endpoint) → (x >>= k) ≡ ((x >>= λ e. ok e) >>= k)
through (ok e) k = refl
through (abort f) k = refl

one_by_one :
    (env : Env) (m : Memory) (r1 r2 : WorkRecord) (a1 a2 : ℕ) (e : Endpoint)
    → run_steps env m
        (interleave (true ∷ true ∷ false ∷ false ∷ []) (read_steps r1 a1) (read_steps r2 a2))
        e
      ≡ (deal_work_record env m r1 a1 e >>= λ e2. deal_work_record env m r2 a2 e2)
unfolding run_steps run_step note_read read_steps interleave deal_work_record
one_by_one env m r1 r2 a1 a2 e = through (ask_peer env m r1 a1 (note_read r1 e)) _

-- Two threads that read from one peer, with two message buffers free, a request that fits them and
-- a send queue that accepts: if of the steps of their calls of `DealWorkRecord` the first thread takes
-- one, then the second both of its own, and then the first its other, the read queue has the reads in
-- the order in which they were noted, but the peer gets the requests in the other. The steps taken
-- one call after the other are the calls of `DealWorkRecord`.
pub reads-cross :
    (env : Env) (m : Memory) (r1 r2 : WorkRecord) (a1 a2 b1 b2 : ℕ) (rest : List ℕ)
    (buf1 buf2 : MsgBuf) (e : Endpoint)
    → IsLayout env.layout
    → Ready env e b1 (b2 ∷ rest) buf1
    → get_elem? e.qp.msg_mrs b2 ≡ some buf2
    → b1 ≢ b2
    → leb env.layout.please_write_size (sub64 (max_msg_size env.config) 8) ≡ true
    → (run_steps env m
          (interleave (true ∷ true ∷ false ∷ false ∷ []) (read_steps r1 a1) (read_steps r2 a2))
          e
        ≡ (deal_work_record env m r1 a1 e >>= λ e2. deal_work_record env m r2 a2 e2))
      × ((e' : Endpoint) × (run_steps env m
              (interleave (true ∷ false ∷ false ∷ true ∷ []) (read_steps r1 a1) (read_steps r2 a2))
              e
            ≡ ok e')
          × (e'.port.read_queue ≡ e.port.read_queue ++ r1 ∷ r2 ∷ [])
          × ((w1 w2 : SendWr) × (e'.port.posted ≡ e.port.posted ++ w2 ∷ w1 ∷ [])
              × (e'.port.live
                  ≡ (w1.wr_id, record { outstanding_sge_cnt = pos 0; msg_mr = some b2 })
                    ∷ (w2.wr_id, record { outstanding_sge_cnt = pos 0; msg_mr = some b1 })
                    ∷ e.port.live)
              × (get_elem? e'.qp.msg_mrs b1
                  ≡ some (filled please_write_key (request env r2 a2 e) none buf1))
              × (get_elem? e'.qp.msg_mrs b2
                  ≡ some (filled please_write_key (request env r1 a1 e) none buf2))))
unfolding run_steps run_step note_read read_steps interleave deal_work_record
reads-cross env m r1 r2 a1 a2 b1 b2 rest buf1 buf2 e layout ready there other fits =
    let noted : Endpoint = note_read r2 (note_read r1 e) in
    let first =
      ask_peer_lem env m r2 a2 b1 (b2 ∷ rest) buf1 noted layout
        (record { pool = ready.pool; there = ready.there; room = ready.room }) fits in
    let mid : Endpoint =
      sending please_write_key (request env r2 a2 e) none b1 (b2 ∷ rest) buf1 noted in
    let kept : get_elem? mid.qp.msg_mrs b2 ≡ some buf2 =
      get_elem?-set_other e.qp.msg_mrs b1 b2
        (filled please_write_key (request env r2 a2 e) none buf1) other
      ∙ there in
    let second =
      ask_peer_lem env m r1 a1 b2 rest buf2 mid layout
        (record { pool = refl; there = kept; room = ready.room }) fits in
    (
      one_by_one env m r1 r2 a1 a2 e,
      (
        sending please_write_key (request env r1 a1 e) none b2 rest buf2 mid,
        ap (λ (x : Result Endpoint). x >>= λ e1. ask_peer env m r1 a1 e1 >>= λ e2. ok e2) first
            ∙ ap (λ (x : Result Endpoint). x >>= λ e2. ok e2) second,
        append_assoc e.port.read_queue (r1 ∷ []) (r2 ∷ []),
        (
          _,
          _,
          append_assoc e.port.posted (msg_wr please_write_key buf1 noted ∷ [])
              (msg_wr please_write_key buf2 mid ∷ []),
          refl,
          get_elem?-set_other mid.qp.msg_mrs b2 b1
                (filled please_write_key (request env r1 a1 e) none buf2) (λ q. other (sym q))
              ∙ get_elem?-set e.qp.msg_mrs b1
                  (filled please_write_key (request env r2 a2 e) none buf1) {x = buf1} ready.there,
          get_elem?-set mid.qp.msg_mrs b2 (filled please_write_key (request env r1 a1 e) none buf2)
              {x = buf2} kept,
        ),
      ),
    )
