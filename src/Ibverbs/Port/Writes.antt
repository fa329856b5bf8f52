-- ===== src/Ibverbs/Port/Writes.antt =====
-- comm_network/ibverbs/ibverbs_qp.cpp: what `PostWriteRequest` puts into the send queue.
use comm_network.Prelude.{
  ℕ, zero, suc, ◌+◌, ◌*◌, ◌^◌, ◌≤◌, ◌<◌, ◌≡◌, refl, ap, subst, fun_ext, ◌∙◌, List, [], ◌∷◌, ◌++◌,
  append_assoc, append-nil, some, none, ok, get_elem?, length, arith, ◌==◌, if◌then◌else◌,
}
use comm_network.Prelude.Int.{ℤ, pos, negsuc, ◌+ℤ◌}
use comm_network.Prelude.Words.{to_size, int_max}
use comm_network.Ibverbs.Verbs.{SendWr, rdma_write_with_imm}
use comm_network.Ibverbs.MemDesc.{MemDesc, MemDescProto}
use comm_network.Ibverbs.Port.{
  Port, post_send, write_imm, post_writes, new_work_request_id, post_write_request,
}

-- A local and a remote buffer in blocks of one size, k of them from the i-th on.
abbrev pub Blocks : ℕ → ℕ → ℕ → MemDesc → MemDescProto → ℕ → ℕ → Type 0
Blocks block base rbase local remote i k =
    (j : ℕ)
    → i ≤ j
    → j < i + k
    → (lkey : ℕ) × (rkey : ℕ) × (get_elem? local.sge_vec j
        ≡ some (record { addr = base + j * block; length = block; lkey = lkey }))
      × (get_elem? remote.mem_ptr j ≡ some (rbase + j * block))
      × (get_elem? remote.mr_rkey j ≡ some rkey)

-- Requests that write those blocks, in their order, each with its immediate.
abbrev pub Writes : ℕ → ℕ → ℕ → (ℕ → ℤ) → ℕ → ℕ → List SendWr → Type 0
Writes block base rbase imm wr_id i [] = Unit
Writes block base rbase imm wr_id i (w ∷ ws) =
    ((w.wr_id ≡ wr_id) × (w.opcode ≡ rdma_write_with_imm) × (w.imm_data ≡ imm i))
    × ((w.sge.addr ≡ base + i * block)
        × (w.sge.length ≡ block)
        × (w.remote_addr ≡ rbase + i * block))
    × Writes block base rbase imm wr_id (i + 1) ws

-- The port with k writes more, under one new work request id that waits for all of them.
abbrev pub requested : ℕ → List SendWr → Port → Port
requested k ws p = record p {
  live = (p.next_id, record { outstanding_sge_cnt = pos k; msg_mr = none }) ∷ p.live;
  next_id = suc p.next_id;
  posted = p.posted ++ ws;
}

module _ (ibv_post_send : List SendWr → SendWr → ℕ) where
  -- The send queue takes every request.
  abbrev pub Accepts : Type 0
  Accepts = (l : List SendWr) (w : SendWr) → ibv_post_send l w ≡ 0

  post_send_lem :
      Accepts
      → (w : SendWr) (p : Port)
      → post_send ibv_post_send w p ≡ ok (record p { posted = p.posted ++ w ∷ [] })
  unfolding post_send
  post_send_lem room w p = rw (room p.posted w)

  module _ (block base rbase : ℕ) (local : MemDesc) (remote : MemDescProto) where
    post_writes_lem :
        (k i wr_id : ℕ) (buffer_id sge_num : ℤ) (p : Port)
        → Accepts
        → Blocks block base rbase local remote i k
        → (ws : List SendWr) × (post_writes ibv_post_send k i wr_id remote local buffer_id sge_num p
            ≡ ok (record p { posted = p.posted ++ ws }))
          × (length ws ≡ k)
          × Writes block base rbase (write_imm ibv_post_send buffer_id sge_num) wr_id i ws
    unfolding post_writes
    post_writes_lem zero i wr_id buffer_id sge_num p room blocks =
        ([], ap ok (rw append-nil), refl, tt)
    post_writes_lem (suc k) i wr_id buffer_id sge_num p room blocks =
        let (lkey, rkey, at_l, at_r, at_k) = blocks i (omega arith) (omega arith) in
        let w : SendWr = record {
          wr_id = wr_id;
          sge = record { addr = base + i * block; length = block; lkey = lkey };
          opcode = rdma_write_with_imm;
          imm_data = write_imm ibv_post_send buffer_id sge_num i;
          remote_addr = rbase + i * block;
          rkey = rkey;
        } in
        let (ws, run, len, all) =
          post_writes_lem k (i + 1) wr_id buffer_id sge_num
            (record p { posted = p.posted ++ w ∷ [] }) room
            (λ j lo hi. blocks j (omega arith) (omega arith)) in
        (
          w ∷ ws,
          rw (at_l, at_r, at_k, post_send_lem room w p)
              (run ∙ ap (λ l. ok (record p { posted = l })) (append_assoc p.posted (w ∷ []) ws)),
          ap suc len,
          ((refl, refl, refl), (refl, refl, refl), all),
        )

  imm_lem :
      (buffer_id : ℤ) (q : ℕ)
      → q + 1 < 2 ^ 31
      → write_imm ibv_post_send buffer_id (pos (q + 1))
        ≡ (λ j. if j == q then buffer_id else pos int_max)
  imm_lem buffer_id q few =
      let last : to_size (pos (q + 1) +ℤ negsuc 0) ≡ q = ground arith in
      fun_ext λ j. ap (λ k. if j == k then buffer_id else pos int_max) last

  -- `PostWriteRequest` of q + 1 blocks posts that many writes, block by block, all under one new
  -- work request id that counts them; the buffer number goes with the last, `INT_MAX` with others.
  pub post_write_request_lem :
      (block base rbase : ℕ) (local : MemDesc) (remote : MemDescProto) (buffer_id : ℤ) (q : ℕ)
      (p : Port)
      → Accepts
      → q + 1 < 2 ^ 31
      → Blocks block base rbase local remote 0 (q + 1)
      → (ws : List SendWr) × (post_write_request ibv_post_send remote local buffer_id
            (pos (q + 1))
            p
          ≡ ok (requested (q + 1) ws p))
        × (length ws ≡ q + 1)
        × Writes block base rbase (λ j. if j == q then buffer_id else pos int_max) p.next_id 0 ws
  unfolding post_write_request new_work_request_id
  post_write_request_lem block base rbase local remote buffer_id q p room few blocks =
      let e : to_size (pos (q + 1)) ≡ q + 1 = omega arith in
      let (ws, run, len, all) =
        post_writes_lem block base rbase local remote (q + 1) 0 p.next_id buffer_id (pos (q + 1))
          (record p {
            live =
                (p.next_id, record { outstanding_sge_cnt = pos (q + 1); msg_mr = none }) ∷ p.live;
            next_id = suc p.next_id;
          })
          room blocks in
      (
        ws,
        rw e run,
        len,
        subst (λ f. Writes block base rbase f p.next_id 0 ws) (imm_lem buffer_id q few) all,
      )
