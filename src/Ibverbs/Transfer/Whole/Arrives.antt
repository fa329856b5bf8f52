-- ===== src/Ibverbs/Transfer/Whole/Arrives.antt =====
-- A read of any length between two machines with one registered buffer: comm_network/ibverbs.
use comm_network.Prelude.{
  ℕ, zero, suc, ◌+◌, ◌-◌, ◌*◌, ◌≤◌, ◌<◌, ◌≡◌, refl, ◌∙◌, List, true, false, ok, arith, inl, inr,
  ltb, Bool-cases,
}
use comm_network.Prelude.Int.{ℤ}
use comm_network.Prelude.Words.{add64}
use comm_network.Config.{CommNetConfig, buffer_bytes}
use comm_network.Message.{WorkRecord}
use comm_network.Ibverbs.Verbs.{Memory, SendWr}
use comm_network.Ibverbs.MemDesc.{MemDesc, MemDescProto}
use comm_network.Ibverbs.Chunk.Size.{chunk_bytes_lem}
use comm_network.Ibverbs.WriteHelper.OneBuffer.{free_buffer-again, free_buffer-last}
use comm_network.Ibverbs.Port.{Port}
use comm_network.Ibverbs.WriteHelper.{State, Machine}
use comm_network.Ibverbs.Transfer.Whole.{whole_read, Facing, Reading, Arrived}
use comm_network.Ibverbs.Transfer.Whole.Round.{chunk, staged, landed, Round, chunk_fits, round_lem}
use comm_network.Ibverbs.Transfer.Whole.Next.{
  next, moved, next-Reading, last-Arrived, again-Arrived,
}

module _ {config : CommNetConfig} {ibv_post_send : List SendWr → SendWr → ℕ}
    {rdma_write : SendWr → Memory → Memory → Memory} {n block base rbase : ℕ} {local : MemDesc}
    {remote : MemDescProto} {desc : MemDesc}
    (f : Facing config ibv_post_send rdma_write n block base rbase local remote desc) where
  module _ {b writer : ℤ} {s : State} {d : Machine} {p p' : Port} {r' : WorkRecord}
      {rest : List WorkRecord}
      (r : Reading (n * block) base rbase local remote b writer s d p p' r' rest) where
    run_again :
        (fuel q : ℕ) (ws : List SendWr)
        → Round f r q ws
        → ltb (add64 s.cur_record.offset (chunk f r)) s.cur_record.bytes ≡ true
        → whole_read config ibv_post_send rdma_write writer desc (suc fuel) b s d
          ≡ whole_read config ibv_post_send rdma_write writer desc fuel b
              (next f r q ws)
              (landed f r q)
    unfolding whole_read
    run_again fuel q ws (written, lt, enough, go) more =
        let freed =
          free_buffer-again config ibv_post_send b s (chunk f r) (staged f r q ws) r.waiting written
            more in
        let more' : ltb (add64 r'.offset (chunk f r)) r'.bytes ≡ true =
          rw (r.same_offset, r.same_bytes) more in
        simp (go (next f r q ws) freed refl, more')

    run_last :
        (fuel q : ℕ) (ws : List SendWr)
        → Round f r q ws
        → ltb (add64 s.cur_record.offset (chunk f r)) s.cur_record.bytes ≡ false
        → (s' : State) × (whole_read config ibv_post_send rdma_write writer desc (suc fuel) b s d
            ≡ ok (s', landed f r q))
    unfolding whole_read
    run_last fuel q ws (written, lt, enough, go) over =
        let (s', freed, same) =
          free_buffer-last config ibv_post_send b s (chunk f r) (staged f r q ws) r.waiting written
            over in
        let over' : ltb (add64 r'.offset (chunk f r)) r'.bytes ≡ false =
          rw (r.same_offset, r.same_bytes) over in
        (s', simp (go s' freed same, over'))

    -- What is left, after a round that does not finish the record.
    left_after :
        (fuel : ℕ)
        → s.cur_record.bytes - s.cur_record.offset ≤ suc fuel * buffer_bytes config
        → add64 s.cur_record.offset (chunk f r) < s.cur_record.bytes
        → s.cur_record.bytes - add64 s.cur_record.offset (chunk f r) ≤ fuel * buffer_bytes config
    left_after fuel enough more =
        let size = chunk_bytes_lem config s.cur_record r.is_open in
        let e : suc fuel * buffer_bytes config ≡ buffer_bytes config + fuel * buffer_bytes config =
          omega arith in
        omega (arith, size, e, enough, more, (moved f r).0)

-- A record of any length that waits for a buffer, between two machines that use one registered
-- buffer whose blocks fill it, where what is left of the record lies outside of that buffer on both
-- sides and the network and the send queue do what they document: with as many rounds as it takes
-- buffers to hold what is left, the source writes chunk after chunk with the buffer that comes
-- back, and no check stops either side; then the reader's memory holds all that was left of the
-- source's bytes at the place it asked for, it is as before beyond that place and the buffer, and
-- the read stands at its end.
pub whole_read_lem :
    (config : CommNetConfig) (ibv_post_send : List SendWr → SendWr → ℕ)
    (rdma_write : SendWr → Memory → Memory → Memory) {n block base rbase : ℕ} {local : MemDesc}
    {remote : MemDescProto} {desc : MemDesc}
    (f : Facing config ibv_post_send rdma_write n block base rbase local remote desc) (fuel : ℕ)
    {b writer : ℤ} {s : State} {d : Machine} {p p' : Port} {r' : WorkRecord}
    {rest : List WorkRecord}
    → Reading (n * block) base rbase local remote b writer s d p p' r' rest
    → s.cur_record.bytes - s.cur_record.offset ≤ fuel * buffer_bytes config
    → (s' : State) × (d' : Machine) × (whole_read config ibv_post_send rdma_write writer desc fuel b
          s d
        ≡ ok (s', d'))
      × Arrived rbase (n * block) writer s d p' r' rest (s', d')
whole_read_lem config ibv_post_send rdma_write f zero r enough = absurd (omega (arith, r.is_open))
whole_read_lem config ibv_post_send rdma_write f (suc fuel) {s} r enough =
    let (q, ws, round) = round_lem f r in
    let (written, lt, holds, go) = round in
    elim (Bool-cases (ltb (add64 s.cur_record.offset (chunk f r)) s.cur_record.bytes)) [
      | inl more ↦
          let (s', d', run, arrived) =
            whole_read_lem config ibv_post_send rdma_write f fuel
              (next-Reading f r q ws (ground (arith, more)))
              (left_after f r fuel enough (ground (arith, more))) in
          (
            s',
            d',
            run_again f r fuel q ws round more ∙ run,
            again-Arrived f r q ws (s', d') lt holds arrived,
          )
      | inr over ↦
          let (s', run) = run_last f r fuel q ws round over in
          let all : chunk f r ≡ s.cur_record.bytes - s.cur_record.offset =
            let past : s.cur_record.bytes ≤ add64 s.cur_record.offset (chunk f r) =
              ground (arith, over) in
            omega (arith, past, moved f r, chunk_fits f r) in
          (s', _, run, last-Arrived f r q s' lt holds all)
    ]
