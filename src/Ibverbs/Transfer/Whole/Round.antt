-- ===== src/Ibverbs/Transfer/Whole/Round.antt =====
-- One round of a read between two machines with one registered buffer: `FreeBuffer` of
-- comm_network/ibverbs/ibverbs_write_helper.cpp, the writes it posts, and `SyncRead` of
-- ibverbs_read_helper.cpp.
use comm_network.Prelude.{
  ℕ, ◌+◌, ◌-◌, ◌*◌, ◌≤◌, ◌<◌, ◌≡◌, refl, ap, ◌∙◌, List, [], ◌∷◌, ◌++◌, some, true, false, ok,
  length, set, arith, if◌then◌else◌, ltb,
}
use comm_network.Prelude.Int.{ℤ, pos_part}
use comm_network.Prelude.Words.{add64}
use comm_network.Config.{CommNetConfig}
use comm_network.Message.{WorkRecord, FreeBufferPair}
use comm_network.Ibverbs.Verbs.{at-set, Memory, SendWr, memcpy}
use comm_network.Ibverbs.MemDesc.{MemDesc, MemDescProto}
use comm_network.Ibverbs.Port.Writes.{requested}
use comm_network.Ibverbs.Chunk.Copies.{Apart}
use comm_network.Ibverbs.Chunk.Size.{chunk_bytes_lem, buffer_bytes-pos}
use comm_network.Ibverbs.WriteHelper.OneBuffer.{got}
use comm_network.Ibverbs.WriteHelper.Sends.{write_chunk_lem}
use comm_network.Ibverbs.ReadHelper.Takes.{advanced, sync_read_lem}
use comm_network.Ibverbs.Transfer.Arrival.{deliver_all, through}
use comm_network.Ibverbs.Port.{Port}
use comm_network.Ibverbs.WriteHelper.{State, Machine, write_chunk, free_buffer, after_chunk}
use comm_network.Ibverbs.Chunk.{chunk_bytes}
use comm_network.Ibverbs.ReadHelper.{sync_read}
use comm_network.Ibverbs.Transfer.{deliver, splice}
use comm_network.Ibverbs.Transfer.Whole.{drop, round_trip, IsClear, Facing, Reading}

drop-length {ℓ} : {A : Type ℓ} (l m : List A) → drop (length l) (l ++ m) ≡ m
unfolding drop
drop-length [] m = refl
drop-length (x ∷ l) m = drop-length l m

pub IsClear-Apart :
    (a n base size t : ℕ)
    → t ≤ n
    → t ≤ size
    → IsClear a n base size
    → Apart a base t × Apart base a t
IsClear-Apart a n base size t le few h = (ground arith, ground arith)

module _ {config : CommNetConfig} {ibv_post_send : List SendWr → SendWr → ℕ}
    {rdma_write : SendWr → Memory → Memory → Memory} {n block base rbase : ℕ} {local : MemDesc}
    {remote : MemDescProto} {desc : MemDesc}
    (f : Facing config ibv_post_send rdma_write n block base rbase local remote desc) where
  module _ {b writer : ℤ} {s : State} {d : Machine} {p p' : Port} {r' : WorkRecord}
      {rest : List WorkRecord}
      (r : Reading (n * block) base rbase local remote b writer s d p p' r' rest) where
    abbrev pub chunk : ℕ
    chunk = chunk_bytes config s.cur_record

    abbrev pub src : ℕ
    src = s.cur_record.begin_addr + s.cur_record.offset

    abbrev pub dst : ℕ
    dst = r'.begin_addr + r'.offset

    abbrev pub staged : ℕ → List SendWr → Machine
    staged q ws = record {
      memory = memcpy base src chunk s.machine.memory;
      qp_vec =
          set s.machine.qp_vec (pos_part s.cur_record.machine_id) (some (requested (q + 1) ws p));
    }

    abbrev pub landed : ℕ → Machine
    landed q = record {
      memory = through chunk ((q + 1) * block) dst rbase src base s.machine.memory d.memory;
      qp_vec = set d.qp_vec (pos_part writer) (some (advanced chunk r' rest p'));
    }

    abbrev pub answer : FreeBufferPair
    answer = record {
      src_machine_id = writer;
      buffer_id = b;
      last_piece = if ltb (add64 r'.offset chunk) r'.bytes then false else true;
    }

    pub chunk_fits :
        (0 < chunk) × (chunk ≤ s.cur_record.bytes - s.cur_record.offset) × (chunk ≤ n * block)
    chunk_fits =
        let size = chunk_bytes_lem config s.cur_record r.is_open in
        let some_byte = buffer_bytes-pos f.divides in
        (
          omega (arith, size, some_byte, r.is_open),
          omega (arith, size),
          omega (arith, size, f.divides.even),
        )

    abbrev pub Round : ℕ → List SendWr → Type 0
    Round q ws =
        (write_chunk config ibv_post_send (got b s)
          ≡ ok (true, after_chunk chunk (got b s) (staged q ws)))
        × (q < n)
        × (chunk ≤ (q + 1) * block)
        × ((s' : State)
            → free_buffer config ibv_post_send b s ≡ ok s'
            → s'.machine ≡ staged q ws
            → round_trip config ibv_post_send rdma_write writer desc b s d
              ≡ ok (s', landed q, answer))

    posted_lem :
        (q : ℕ) (ws : List SendWr) (s' : State)
        → free_buffer config ibv_post_send b s ≡ ok s'
        → s'.machine ≡ staged q ws
        → sync_read config writer b desc
            (record d { memory = deliver rdma_write ws (staged q ws).memory d.memory })
          ≡ ok (landed q, answer)
        → round_trip config ibv_post_send rdma_write writer desc b s d ≡ ok (s', landed q, answer)
    unfolding round_trip
    posted_lem q ws s' freed same took =
        let there =
          at-set s.machine.qp_vec s.cur_record.machine_id (some (requested (q + 1) ws p)) r.port in
        simp (freed, r.port, same, there, drop-length p.posted ws, took)

    pub round_lem : (q : ℕ) × (ws : List SendWr) × Round q ws
    round_lem =
        let (positive, le, few) = chunk_fits in
        let (apart, _) = IsClear-Apart src _ base (n * block) chunk le few r.clear in
        let (_, apart') = IsClear-Apart dst _ rbase (n * block) chunk le few r.clear' in
        let (q, ws, written, len, lt, enough, all) =
          write_chunk_lem config ibv_post_send f.divides (got b s) base rbase local remote p f.room
            r.pair f.blocks r.port r.is_open apart in
        let to : Memory = deliver rdma_write ws (staged q ws).memory d.memory in
        let arrived : to ≡ splice rbase base ((q + 1) * block) (staged q ws).memory d.memory =
          deliver_all rdma_write f.law block base rbase _ p.next_id ws (staged q ws).memory d.memory
            all
          ∙ ap (λ k. splice rbase base (k * block) (staged q ws).memory d.memory) len in
        let took =
          sync_read_lem config f.divides writer b desc (record d { memory = to }) rbase p' r' rest
            chunk (rw (r.same_bytes, r.same_offset) refl) r.port' r.front'
            (omega (arith, r.is_open, r.same_bytes, r.same_offset)) f.laid apart' in
        (
          q,
          ws,
          (
            written,
            lt,
            enough,
            λ s' freed same. posted_lem q ws s' freed same (
                took
                ∙ ap
                    (λ (m : Memory).
                      ok (record (landed q) { memory = memcpy dst rbase chunk m }, answer))
                    arrived),
          ),
        )
