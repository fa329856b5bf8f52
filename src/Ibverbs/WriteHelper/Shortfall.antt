-- ===== src/Ibverbs/WriteHelper/Shortfall.antt =====
-- comm_network/ibverbs/ibverbs_write_helper.cpp, where the configured number of blocks does not
-- divide the size of a registered buffer.
use comm_network.Prelude.{
  ℕ, ◌+◌, ◌-◌, ◌*◌, ◌/◌, ◌^◌, ◌≤◌, ◌<◌, min, ◌≡◌, refl, ap, ◌∙◌, List, some, true, ok, set, arith,
}
use comm_network.Prelude.Int.{pos, pos_part}
use comm_network.Config.{CommNetConfig, buffer_bytes}
use comm_network.Ibverbs.Verbs.{memcpy, SendWr, at}
use comm_network.Ibverbs.MemDesc.{MemDesc, MemDescProto}
use comm_network.Ibverbs.Port.{Port}
use comm_network.Ibverbs.Port.Writes.{requested, Accepts, Blocks, post_write_request_lem}
use comm_network.Ibverbs.Chunk.{chunk_bytes}
use comm_network.Ibverbs.Chunk.Copies.{Apart, copy_to_sges_lem}
use comm_network.Ibverbs.Chunk.Size.{sge_count_short, sge_bytes_lem, IsOpen, chunk_bytes_lem}
use comm_network.Ibverbs.WriteHelper.{State, after_chunk, write_chunk}
use comm_network.Ibverbs.WriteHelper.Sends.{write_chunk_run, normal2register_done_lem, Laid-Blocks}

-- With n = q + 1 blocks that do not fill the buffer, and a buffer's worth of the record to go,
-- `DoCurWrite` copies n blocks only, but moves the record on by the whole buffer: the bytes between
-- are never sent, and no check notices.
pub write_chunk_short :
    (config : CommNetConfig) (ibv_post_send : List SendWr → SendWr → ℕ) (q block : ℕ) (s : State)
    (base rbase : ℕ) (local : MemDesc) (remote : MemDescProto) (p : Port)
    → config.sge_num ≡ pos (q + 1)
    → q + 2 < 2 ^ 31
    → q + 1 ≤ block
    → buffer_bytes config / (q + 1) ≡ block
    → (q + 1) * block < buffer_bytes config
    → Accepts ibv_post_send
    → at s.send_recv_pair s.buffer_id ≡ ok (local, remote)
    → Blocks block base rbase local remote 0 (q + 1)
    → at s.machine.qp_vec s.cur_record.machine_id ≡ ok (some p)
    → IsOpen s.cur_record
    → buffer_bytes config ≤ s.cur_record.bytes - s.cur_record.offset
    → Apart (s.cur_record.begin_addr + s.cur_record.offset) base (buffer_bytes config)
    → (s' : State) × (write_chunk config ibv_post_send s ≡ ok (true, s'))
      × (s'.machine.memory
          ≡ memcpy base
              (s.cur_record.begin_addr + s.cur_record.offset)
              ((q + 1) * block)
              s.machine.memory)
      × (s'.cur_record.offset ≡ s.cur_record.offset + buffer_bytes config)
      × ((q + 1) * block < buffer_bytes config)
write_chunk_short config ibv_post_send q block s base rbase local remote p sges few wide is_block
      short room pair blocks qp live plenty apart =
    let t : ℕ = buffer_bytes config in
    let is_t : chunk_bytes config s.cur_record ≡ t =
      omega (arith, chunk_bytes_lem config s.cur_record live) in
    let small : t < 2 ^ 64 = omega arith in
    let block_is = sge_bytes_lem config (q + 1) sges (omega arith) (omega arith) in
    let count =
      sge_count_short config (q + 1) block sges (omega arith) (omega arith) wide is_block short in
    let (ws, posted, len, all) =
      post_write_request_lem ibv_post_send block base rbase local remote s.buffer_id q p room
        (omega arith) blocks in
    let copied =
      copy_to_sges_lem block base local.sge_vec (q + 1) t
        (s.cur_record.begin_addr + s.cur_record.offset) s.machine.memory small
        (Laid-Blocks block base rbase local remote (q + 1) (q + 1) (omega arith) blocks) apart in
    let part : min t ((q + 1) * block) ≡ (q + 1) * block = omega arith in
    let sent =
      normal2register_done_lem config ibv_post_send s.cur_record.machine_id local remote s.buffer_id
        (pos (q + 1)) s.machine.qp_vec p (requested (q + 1) ws p) qp posted in
    let s' : State = after_chunk t s (record {
      memory =
          memcpy base (s.cur_record.begin_addr + s.cur_record.offset) ((q + 1) * block)
            s.machine.memory;
      qp_vec =
          set s.machine.qp_vec (pos_part s.cur_record.machine_id) (some (requested (q + 1) ws p));
    }) in
    (
      s',
      write_chunk_run config ibv_post_send s local remote t block (pos (q + 1)) _ _ pair is_t
          (block_is ∙ ap ok is_block) count
          (copied
            ∙ ap
                (λ k.
                  ok (
                    memcpy base (s.cur_record.begin_addr + s.cur_record.offset) k s.machine.memory))
                part)
          sent,
      refl,
      omega arith,
      short,
    )
