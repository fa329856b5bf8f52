-- ===== src/Ibverbs/Transfer/Arrival.antt =====
-- One chunk from machine to machine: comm_network/ibverbs/ibverbs_write_helper.cpp, ibverbs_qp.cpp and
-- ibverbs_read_helper.cpp together.
use comm_network.Prelude.{
  ℕ, suc, ◌+◌, ◌-◌, ◌*◌, ◌≤◌, ◌<◌, ◌≡◌, refl, ap, fun_ext, ◌∙◌, ◌↔◌, List, [], ◌∷◌, some, true, ok,
  length, set, arith, ◌⊎◌,
}
use comm_network.Prelude.Int.{ℤ, pos_part}
use comm_network.Config.{CommNetConfig}
use comm_network.Message.{WorkRecord, FreeBufferPair}
use comm_network.Ibverbs.Verbs.{Memory, memcpy, SendWr, at}
use comm_network.Ibverbs.MemDesc.{MemDesc, MemDescProto}
use comm_network.Ibverbs.Port.{Port}
use comm_network.Ibverbs.Port.Writes.{requested, Accepts, Blocks, Writes}
use comm_network.Ibverbs.Chunk.{chunk_bytes}
use comm_network.Ibverbs.Chunk.Copies.{Laid, Apart}
use comm_network.Ibverbs.Chunk.Size.{Divides, IsOpen, chunk_bytes_lem}
use comm_network.Ibverbs.WriteHelper.{State, Machine, write_chunk}
use comm_network.Ibverbs.WriteHelper.Sends.{write_chunk_lem}
use comm_network.Ibverbs.ReadHelper.{sync_read}
use comm_network.Ibverbs.ReadHelper.Takes.{advanced, sync_read_lem}
use comm_network.Ibverbs.Transfer.{splice, IsRdmaWrite, deliver}

splice_join :
    (dst src a b : ℕ) (from to : Memory)
    → splice (dst + a) (src + a) b from (splice dst src a from to) ≡ splice dst src (a + b) from to
splice_join dst src a b from to = fun_ext λ x. ground arith

splice_next :
    (block base rbase i k : ℕ) (from to : Memory)
    → splice
        (rbase + (i + 1) * block)
        (base + (i + 1) * block)
        (k * block)
        from
        (splice (rbase + i * block) (base + i * block) block from to)
      ≡ splice (rbase + i * block) (base + i * block) (suc k * block) from to
splice_next block base rbase i k from to =
    let e : rbase + (i + 1) * block ≡ rbase + i * block + block = omega arith in
    let e' : base + (i + 1) * block ≡ base + i * block + block = omega arith in
    let f : suc k * block ≡ block + k * block = omega arith in
    rw (e, e', f) (splice_join (rbase + i * block) (base + i * block) block (k * block) from to)

module _ (rdma_write : SendWr → Memory → Memory → Memory) (law : IsRdmaWrite rdma_write) where
  -- The writes of consecutive blocks are one.
  pub deliver_lem :
      (block base rbase : ℕ) (imm : ℕ → ℤ) (wr_id i : ℕ) (ws : List SendWr) (from to : Memory)
      → Writes block base rbase imm wr_id i ws
      → deliver rdma_write ws from to
        ≡ splice (rbase + i * block) (base + i * block) (length ws * block) from to
  unfolding deliver
  deliver_lem block base rbase imm wr_id i [] from to all = fun_ext λ a. ground arith
  deliver_lem block base rbase imm wr_id i (w ∷ ws) from to (h, (sa, sl, ra), all) =
      deliver_lem block base rbase imm wr_id (i + 1) ws from (rdma_write w from to) all
      ∙ rw (law w from to, sa, sl, ra) (splice_next block base rbase i (length ws) from to)

  pub deliver_all :
      (block base rbase : ℕ) (imm : ℕ → ℤ) (wr_id : ℕ) (ws : List SendWr) (from to : Memory)
      → Writes block base rbase imm wr_id 0 ws
      → deliver rdma_write ws from to ≡ splice rbase base (length ws * block) from to
  deliver_all block base rbase imm wr_id ws from to all =
      let e : base + 0 * block ≡ base = omega arith in
      let e' : rbase + 0 * block ≡ rbase = omega arith in
      deliver_lem block base rbase imm wr_id 0 ws from to all ∙ rw (e, e')

abbrev pub IsOutside : ℕ → ℕ → ℕ → Type 0
IsOutside a start n = (a < start) ⊎ (start + n ≤ a)

pub IsOutside-less :
    (a start block : ℕ) {n q k : ℕ}
    → IsOutside a start (n * block)
    → q < n
    → k ≡ q + 1
    → IsOutside a start (k * block)
IsOutside-less a start block {n} {q} {k} h lt e =
    let le : k * block ≤ n * block = grind arith in omega arith

-- The chunk through both registered buffers, byte by byte.
module _ (t size dst rbase src base : ℕ) (from to : Memory) where
  abbrev pub through : Memory
  through = memcpy dst rbase t (splice rbase base size (memcpy base src t from) to)

  pub through_inside :
      (x : ℕ) → x < t → t ≤ size → Apart rbase dst t → through (dst + x) ≡ from (src + x)
  unfolding memcpy
  through_inside x lt le apart = ground (arith, ap (λ k. from (src + k)) (shift x))
    where
      shift : (x : ℕ) → rbase + (dst + x - dst) - rbase ≡ x
      shift x = omega arith

  pub through_outside : (a : ℕ) → IsOutside a dst t → IsOutside a rbase size → through a ≡ to a
  unfolding memcpy
  through_outside a h k = ground arith

-- A source about to write a chunk, and a target whose oldest read is at the same place: the
-- registered buffers are cut into the same blocks, and no two of the ranges that are copied
-- between meet.
pub record Linked (config : CommNetConfig) (ibv_post_send : List SendWr → SendWr → ℕ)
    (n block base rbase : ℕ) (s : State) (local : MemDesc) (remote : MemDescProto) (p : Port)
    (d : Machine) (peer : ℤ) (desc : MemDesc) (p' : Port) (r' : WorkRecord) (rest : List WorkRecord)
    : Type 0 where
  pub divides : Divides config n block
  pub room : Accepts ibv_post_send
  pub pair : at s.send_recv_pair s.buffer_id ≡ ok (local, remote)
  pub blocks : Blocks block base rbase local remote 0 n
  pub port : at s.machine.qp_vec s.cur_record.machine_id ≡ ok (some p)
  pub is_open : IsOpen s.cur_record
  pub apart :
      Apart (s.cur_record.begin_addr + s.cur_record.offset) base (chunk_bytes config s.cur_record)
  pub port' : at d.qp_vec peer ≡ ok (some p')
  pub front' : p'.read_queue ≡ r' ∷ rest
  pub same_bytes : r'.bytes ≡ s.cur_record.bytes
  pub same_offset : r'.offset ≡ s.cur_record.offset
  pub laid' : Laid block rbase desc.sge_vec 0 n
  pub apart' : Apart rbase (r'.begin_addr + r'.offset) (chunk_bytes config s.cur_record)

-- The source writes the chunk, the network carries out what that has posted, and the target takes
-- the chunk in: no check stops either side; the target's memory then holds the source's bytes at
-- the place of the chunk; beyond that place and the registered buffer it is as before; both records
-- have moved past the chunk; and the answer is marked last exactly when the record is finished.
pub chunk_arrives :
    (config : CommNetConfig) (ibv_post_send : List SendWr → SendWr → ℕ)
    (rdma_write : SendWr → Memory → Memory → Memory) {n block base rbase : ℕ} {s : State}
    {local : MemDesc} {remote : MemDescProto} {p : Port} {d : Machine} {peer : ℤ} {desc : MemDesc}
    {p' : Port} {r' : WorkRecord} {rest : List WorkRecord}
    → IsRdmaWrite rdma_write
    → Linked config ibv_post_send n block base rbase s local remote p d peer desc p' r' rest
    → let r = s.cur_record in
      let t = chunk_bytes config r in
      (ws : List SendWr) × (s' : State) × (d' : Machine) × (msg : FreeBufferPair) × (write_chunk
          config ibv_post_send s
        ≡ ok (true, s'))
      × (s'.machine.qp_vec
          ≡ set s.machine.qp_vec (pos_part r.machine_id) (some (requested (length ws) ws p)))
      × (sync_read config peer s.buffer_id desc
            (record d { memory = deliver rdma_write ws s'.machine.memory d.memory })
          ≡ ok (d', msg))
      × ((x : ℕ)
          → x < t
          → d'.memory (r'.begin_addr + r'.offset + x)
            ≡ s.machine.memory (r.begin_addr + r.offset + x))
      × ((a : ℕ)
          → IsOutside a (r'.begin_addr + r'.offset) t
          → IsOutside a rbase (n * block)
          → d'.memory a ≡ d.memory a)
      × (s'.cur_record.offset ≡ r.offset + t)
      × (d'.qp_vec ≡ set d.qp_vec (pos_part peer) (some (advanced t r' rest p')))
      × ((msg.last_piece ≡ true) ↔ (r.offset + t ≡ r.bytes))
chunk_arrives config ibv_post_send rdma_write {n} {block} {base} {rbase} {s} {local} {remote} {p}
      {d} {peer} {desc} {p'} {r'} {rest} law l =
    let t : ℕ = chunk_bytes config s.cur_record in
    let size = chunk_bytes_lem config s.cur_record l.is_open in
    let (q, ws, written, len, few, enough, all) =
      write_chunk_lem config ibv_post_send l.divides s base rbase local remote p l.room l.pair
        l.blocks l.port l.is_open l.apart in
    let r : WorkRecord = s.cur_record in
    let is_t : chunk_bytes config r' ≡ t = rw (l.same_bytes, l.same_offset) in
    let dst : ℕ = r'.begin_addr + r'.offset in
    let src : ℕ = r.begin_addr + r.offset in
    let staged : Memory = memcpy base src t s.machine.memory in
    let landed : deliver rdma_write ws staged d.memory
        ≡ splice rbase base (length ws * block) staged d.memory =
      deliver_all rdma_write law block base rbase _ p.next_id ws staged d.memory all in
    let took =
      sync_read_lem config l.divides peer s.buffer_id desc
        (record d { memory = deliver rdma_write ws staged d.memory }) rbase p' r' rest t is_t
        l.port' l.front' (omega (arith, l.is_open, l.same_bytes, l.same_offset)) l.laid' l.apart' in
    (
      ws,
      _,
      _,
      _,
      written,
      rw len,
      took,
      (λ x lt.
          ap (λ m. memcpy dst rbase t m (dst + x)) landed
          ∙ through_inside t (length ws * block) dst rbase src base s.machine.memory d.memory x lt
              (omega (arith, enough, ap (λ (k : ℕ). k * block) len)) l.apart'),
      (λ a h k.
          ap (λ m. memcpy dst rbase t m a) landed
          ∙ through_outside t (length ws * block) dst rbase src base s.machine.memory d.memory a h
              (IsOutside-less a rbase block k few len)),
      omega (arith, size),
      refl,
      ground (arith, size),
    )
