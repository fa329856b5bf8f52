-- ===== src/Ibverbs/Transfer/Whole/Next.antt =====
-- What the next round of a read finds, and what it leaves: between two machines with one registered
-- buffer, from comm_network/ibverbs.
use comm_network.Prelude.{
  ℕ, ◌+◌, ◌-◌, ◌*◌, ◌≤◌, ◌<◌, ◌≡◌, refl, ap, sym, ◌∙◌, List, ◌∷◌, some, ok, arith, inl, inr, ltb,
  Bool-cases,
}
use comm_network.Prelude.Int.{ℤ}
use comm_network.Prelude.Words.{add64}
use comm_network.Config.{CommNetConfig}
use comm_network.Message.{WorkRecord}
use comm_network.Ibverbs.Verbs.{at-set, Memory, SendWr, memcpy}
use comm_network.Ibverbs.MemDesc.{MemDesc, MemDescProto}
use comm_network.Ibverbs.Port.Writes.{requested}
use comm_network.Ibverbs.WriteHelper.OneBuffer.{got}
use comm_network.Ibverbs.ReadHelper.Takes.{advanced}
use comm_network.Ibverbs.Transfer.Arrival.{IsOutside-less, through_inside, through_outside}
use comm_network.Ibverbs.Port.{Port}
use comm_network.Ibverbs.WriteHelper.{State, Machine, after_chunk}
use comm_network.Ibverbs.Transfer.Whole.{Facing, Reading, Arrived}
use comm_network.Ibverbs.Transfer.Whole.Round.{
  IsClear-Apart, chunk, src, dst, staged, landed, chunk_fits,
}

module _ {config : CommNetConfig} {ibv_post_send : List SendWr → SendWr → ℕ}
    {rdma_write : SendWr → Memory → Memory → Memory} {n block base rbase : ℕ} {local : MemDesc}
    {remote : MemDescProto} {desc : MemDesc}
    (f : Facing config ibv_post_send rdma_write n block base rbase local remote desc) where
  module _ {b writer : ℤ} {s : State} {d : Machine} {p p' : Port} {r' : WorkRecord}
      {rest : List WorkRecord}
      (r : Reading (n * block) base rbase local remote b writer s d p p' r' rest) where
    abbrev pub next : ℕ → List SendWr → State
    next q ws = after_chunk (chunk f r) (got b s) (staged f r q ws)

    abbrev pub next_record : WorkRecord
    next_record = record r' { offset = add64 r'.offset (chunk f r) }

    pub moved :
        (add64 s.cur_record.offset (chunk f r) ≡ s.cur_record.offset + chunk f r)
        × (add64 r'.offset (chunk f r) ≡ r'.offset + chunk f r)
    moved =
        let (positive, le, few) = chunk_fits f r in
        (omega (arith, le, r.is_open), omega (arith, le, r.is_open, r.same_offset))

    pub next-Reading :
        (q : ℕ) (ws : List SendWr)
        → add64 s.cur_record.offset (chunk f r) < s.cur_record.bytes
        → Reading
            (n * block)
            base
            rbase
            local
            remote
            b
            writer
            (next q ws)
            (landed f r q)
            (requested (q + 1) ws p)
            (advanced (chunk f r) r' rest p')
            next_record
            rest
    next-Reading q ws more = record {
      waiting = record { waits = ground (arith, more); no_idle = refl };
      pair = r.pair;
      port = at-set s.machine.qp_vec s.cur_record.machine_id _ r.port;
      is_open = (more, r.is_open.1);
      clear = ground (arith, moved.0, r.clear, chunk_fits f r);
      port' = at-set d.qp_vec writer _ r.port';
      front' = refl;
      same_bytes = r.same_bytes;
      same_offset = moved.1 ∙ ap (λ k. k + chunk f r) r.same_offset ∙ sym moved.0;
      clear' = ground (arith, moved.1, moved.0, r.clear', chunk_fits f r);
    }

    pub last-Arrived :
        (q : ℕ) (s' : State)
        → q < n
        → chunk f r ≤ (q + 1) * block
        → chunk f r ≡ s.cur_record.bytes - s.cur_record.offset
        → Arrived rbase (n * block) writer s d p' r' rest (s', landed f r q)
    last-Arrived q s' lt enough all =
        let (positive, le, few) = chunk_fits f r in
        let (_, apart') = IsClear-Apart (dst f r) _ rbase (n * block) (chunk f r) le few r.clear' in
        let at_end : add64 r'.offset (chunk f r) ≡ r'.bytes =
          omega (arith, all, moved.1, r.same_bytes, r.same_offset, r.is_open) in
        (
          λ x h.
              through_inside (chunk f r) ((q + 1) * block) (dst f r) rbase (src f r) base
                s.machine.memory d.memory x (omega (arith, all)) enough apart',
          λ a h k.
              through_outside (chunk f r) ((q + 1) * block) (dst f r) rbase (src f r) base
                s.machine.memory d.memory a (omega (arith, all, h))
                (IsOutside-less a rbase block k lt refl),
          at-set d.qp_vec writer _ r.port'
              ∙ ap
                  (λ (k : ℕ).
                    ok (some (record p' { read_queue = record r' { offset = k } ∷ rest })))
                  at_end,
        )

    untouched :
        (x : ℕ)
        → x < s.cur_record.bytes - s.cur_record.offset
        → memcpy base (src f r) (chunk f r) s.machine.memory (src f r + x)
          ≡ s.machine.memory (src f r + x)
    unfolding memcpy
    untouched x h = ground (arith, r.clear, chunk_fits f r)

    module _ (q : ℕ) (ws : List SendWr) (after : State × Machine) (lt : q < n)
        (enough : chunk f r ≤ (q + 1) * block)
        (arrived : Arrived rbase
          (n * block)
          writer
          (next q ws)
          (landed f r q)
          (advanced (chunk f r) r' rest p')
          next_record
          rest
          after) where
      this_chunk :
          (x : ℕ) → x < chunk f r → after.1.memory (dst f r + x) ≡ s.machine.memory (src f r + x)
      this_chunk x h =
          let (positive, le, few) = chunk_fits f r in
          let (_, apart') =
            IsClear-Apart (dst f r) _ rbase (n * block) (chunk f r) le few r.clear' in
          arrived.1 (dst f r + x) (omega (arith, moved.1, h)) (omega (arith, le, r.clear', h))
          ∙ through_inside (chunk f r) ((q + 1) * block) (dst f r) rbase (src f r) base
              s.machine.memory d.memory x h enough apart'

      further :
          (x : ℕ)
          → chunk f r ≤ x
          → x < s.cur_record.bytes - s.cur_record.offset
          → after.1.memory (dst f r + x) ≡ s.machine.memory (src f r + x)
      further x later h =
          let e : dst f r + x ≡ next_record.begin_addr + next_record.offset + (x - chunk f r) =
            omega (arith, moved.1, later) in
          let e' : s.cur_record.begin_addr + add64 s.cur_record.offset (chunk f r) + (x - chunk f r)
              ≡ src f r + x =
            omega (arith, moved.0, later) in
          ap after.1.memory e
          ∙ arrived.0 (x - chunk f r) (omega (arith, moved.0, later, h))
          ∙ ap (next q ws).machine.memory e'
          ∙ untouched x h

      pub again-Arrived : Arrived rbase (n * block) writer s d p' r' rest after
      again-Arrived = (
        λ x h. elim (Bool-cases (ltb x (chunk f r))) [
          | inl early ↦ this_chunk x (ground (arith, early))
          | inr later ↦ further x (ground (arith, later)) h
        ],
        λ a h k.
            arrived.1 a (omega (arith, moved, h, chunk_fits f r)) k
            ∙ through_outside (chunk f r) ((q + 1) * block) (dst f r) rbase (src f r) base
                s.machine.memory d.memory a (omega (arith, h, chunk_fits f r))
                (IsOutside-less a rbase block k lt refl),
        arrived.2,
      )
