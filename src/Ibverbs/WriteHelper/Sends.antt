-- ===== src/Ibverbs/WriteHelper/Sends.antt =====
-- comm_network/ibverbs/ibverbs_write_helper.cpp: what one `DoCurWrite` leaves in the registered
-- buffer and in the send queue.
use comm_network.Prelude.{
  ℕ, ◌+◌, ◌*◌, ◌≤◌, ◌<◌, min, ◌≡◌, refl, ap, ◌∙◌, List, Option, some, true, ok, length, set, arith,
  ◌==◌, if◌then◌else◌,
}
use comm_network.Prelude.Int.{ℤ, pos, pos_part}
use comm_network.Prelude.Words.{int_max}
use comm_network.Config.{CommNetConfig, sge_bytes}
use comm_network.Ibverbs.Verbs.{Memory, memcpy, SendWr, at}
use comm_network.Ibverbs.MemDesc.{MemDesc, MemDescProto}
use comm_network.Ibverbs.Port.{Port, post_write_request}
use comm_network.Ibverbs.Port.Writes.{requested, Accepts, Blocks, Writes, post_write_request_lem}
use comm_network.Ibverbs.Chunk.{chunk_bytes, sge_count, copy_to_sges}
use comm_network.Ibverbs.Chunk.Copies.{Laid, Apart, copy_to_sges_lem}
use comm_network.Ibverbs.Chunk.Size.{
  Divides, sge_bytes-Divides, sge_count_lem, buffer_bytes-pos, IsOpen, chunk_bytes_lem,
}
use comm_network.Ibverbs.WriteHelper.{State, after_chunk, write_chunk, normal2register_done}

pub Laid-Blocks :
    (block base rbase : ℕ) (local : MemDesc) (remote : MemDescProto) (n k : ℕ)
    → k ≤ n
    → Blocks block base rbase local remote 0 n
    → Laid block base local.sge_vec 0 k
Laid-Blocks block base rbase local remote n k le blocks j lo hi =
    let (lkey, rkey, at_l, _, _) = blocks j lo (omega arith) in
    (record { addr = base + j * block; length = block; lkey = lkey }, at_l, refl)

module _ (config : CommNetConfig) (ibv_post_send : List SendWr → SendWr → ℕ) where
  pub normal2register_done_lem :
      (dst : ℤ) (local : MemDesc) (remote : MemDescProto) (b sge_num : ℤ) (qps : List (Option Port))
      (p p' : Port)
      → at qps dst ≡ ok (some p)
      → post_write_request ibv_post_send remote local b sge_num p ≡ ok p'
      → normal2register_done config ibv_post_send dst local remote b sge_num qps
        ≡ ok (set qps (pos_part dst) (some p'))
  unfolding normal2register_done
  normal2register_done_lem dst local remote b sge_num qps p p' found posted = rw (found, posted)

  -- A run of `DoCurWrite` from the runs of its parts.
  pub write_chunk_run :
      (s : State) (local : MemDesc) (remote : MemDescProto) (t block : ℕ) (k : ℤ) (m : Memory)
      (qps : List (Option Port))
      → at s.send_recv_pair s.buffer_id ≡ ok (local, remote)
      → chunk_bytes config s.cur_record ≡ t
      → sge_bytes config ≡ ok block
      → sge_count config t ≡ ok k
      → copy_to_sges
          (pos_part k)
          0
          local.sge_vec
          block
          t
          (s.cur_record.begin_addr + s.cur_record.offset)
          0
          s.machine.memory
        ≡ ok m
      → normal2register_done config ibv_post_send s.cur_record.machine_id local remote s.buffer_id k
          s.machine.qp_vec
        ≡ ok qps
      → write_chunk config ibv_post_send s
        ≡ ok (true, after_chunk t s (record { memory = m; qp_vec = qps }))
  unfolding write_chunk
  write_chunk_run s local remote t block k m qps pair is_t width count copied sent =
      rw (pair, is_t, width, count, copied, sent)

  -- The source: what one `DoCurWrite` leaves in the registered buffer and in the send queue.
  pub write_chunk_lem :
      {n block : ℕ} (d : Divides config n block) (s : State) (base rbase : ℕ) (local : MemDesc)
      (remote : MemDescProto) (p : Port)
      → Accepts ibv_post_send
      → at s.send_recv_pair s.buffer_id ≡ ok (local, remote)
      → Blocks block base rbase local remote 0 n
      → at s.machine.qp_vec s.cur_record.machine_id ≡ ok (some p)
      → IsOpen s.cur_record
      → Apart (s.cur_record.begin_addr + s.cur_record.offset) base (chunk_bytes config s.cur_record)
      → let t = chunk_bytes config s.cur_record in
        (q : ℕ) × (ws : List SendWr) × (write_chunk config ibv_post_send s
          ≡ ok (
            true,
            after_chunk t s (record {
              memory =
                  memcpy base (s.cur_record.begin_addr + s.cur_record.offset) t s.machine.memory;
              qp_vec =
                  set s.machine.qp_vec
                    (pos_part s.cur_record.machine_id)
                    (some (requested (q + 1) ws p));
            }),
          ))
        × (length ws ≡ q + 1)
        × (q < n)
        × (t ≤ (q + 1) * block)
        × Writes block base rbase (λ j. if j == q then s.buffer_id else pos int_max) p.next_id 0 ws
  write_chunk_lem {n} {block} d s base rbase local remote p room pair blocks qp live apart =
      let t : ℕ = chunk_bytes config s.cur_record in
      let size = chunk_bytes_lem config s.cur_record live in
      let (q, count, few, enough, tight) =
        sge_count_lem d t (omega (arith, size, buffer_bytes-pos d)) (omega (arith, size)) in
      let (ws, posted, len, all) =
        post_write_request_lem ibv_post_send block base rbase local remote s.buffer_id q p room
          (omega (arith, d.few)) (λ j lo hi. blocks j lo (omega arith)) in
      let copied =
        copy_to_sges_lem block base local.sge_vec (q + 1) t
          (s.cur_record.begin_addr + s.cur_record.offset) s.machine.memory (omega (arith, size))
          (Laid-Blocks block base rbase local remote n (q + 1) (omega arith) blocks) apart in
      let whole : min t ((q + 1) * block) ≡ t = omega arith in
      let sent =
        normal2register_done_lem s.cur_record.machine_id local remote s.buffer_id (pos (q + 1))
          s.machine.qp_vec p (requested (q + 1) ws p) qp posted in
      (
        q,
        ws,
        write_chunk_run s local remote t block (pos (q + 1)) _ _ pair refl (sge_bytes-Divides d)
            count
            (copied
              ∙ ap
                  (λ k. ok (
                    memcpy base (s.cur_record.begin_addr + s.cur_record.offset) k s.machine.memory))
                  whole)
            sent,
        len,
        few,
        enough,
        all,
      )
