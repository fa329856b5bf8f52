-- ===== src/Ibverbs/WriteHelper/Empty.antt =====
-- comm_network/ibverbs/ibverbs_write_helper.cpp: a record of no bytes, for which `transfer_bytes - 1`
-- wraps.
use native.Mathlib.Nat.{div-lt_iff_lt-mul, le-div_iff_mul-le, mul-sub, mul_comm}
use comm_network.Prelude.{
  ℕ, suc, ◌-◌, ◌*◌, ◌/◌, ◌^◌, ◌≤◌, ◌<◌, ◌≡◌, refl, sym, none, ap, ◌∙◌, List, [], ◌∷◌, append-nil,
  some, true, ok, set, arith,
}
use comm_network.Prelude.Int.{pos, pos_part, min_ℤ}
use comm_network.Prelude.Words.{add64, to_int32, div64}
use comm_network.Config.{CommNetConfig}
use comm_network.Ibverbs.Verbs.{SendWr, at}
use comm_network.Ibverbs.MemDesc.{MemDesc, MemDescProto}
use comm_network.Ibverbs.Port.{Port, post_write_request, new_work_request_id, post_writes}
use comm_network.Ibverbs.Port.Writes.{requested}
use comm_network.Ibverbs.Chunk.{chunk_bytes, sge_count, copy_to_sges}
use comm_network.Ibverbs.Chunk.Size.{Divides, sge_bytes-Divides}
use comm_network.Ibverbs.WriteHelper.{State, init_write_handle, write_chunk}
use comm_network.Ibverbs.WriteHelper.Sends.{write_chunk_run, normal2register_done_lem}

wraps-div : (block m : ℕ) → 0 < block → block * m ≡ 2 ^ 32 → (2 ^ 64 - 1) / block ≡ m * 2 ^ 32 - 1
wraps-div block m wide e =
    let whole : m * 2 ^ 32 * block ≡ 2 ^ 64 = grind arith in
    let fewer : (m * 2 ^ 32 - 1) * block ≡ m * 2 ^ 32 * block - block =
      mul_comm (m * 2 ^ 32 - 1) block
      ∙ mul-sub block (m * 2 ^ 32) 1
      ∙ omega (arith, mul_comm block (m * 2 ^ 32)) in
    let above : (2 ^ 64 - 1) / block < m * 2 ^ 32 =
      (div-lt_iff_lt-mul wide).1 (omega (arith, whole)) in
    let below : m * 2 ^ 32 - 1 ≤ (2 ^ 64 - 1) / block =
      (le-div_iff_mul-le wide).1 (omega (arith, whole, fewer, wide)) in
    omega (arith, above, below)

div64_all_ones :
    (block m : ℕ) → 0 < block → block * m ≡ 2 ^ 32 → div64 (2 ^ 64 - 1) block ≡ ok (m * 2 ^ 32 - 1)
unfolding div64
div64_all_ones block m wide e = ground (arith, wraps-div block m wide e)

none_of : (n m : ℕ) → 0 < n → 0 < m → min_ℤ (pos n) (to_int32 (add64 (m * 2 ^ 32 - 1) 1)) ≡ pos 0
none_of n m wide many = ground arith

-- No blocks at all, because the quotient is cut to 32 bits.
sge_count-zero :
    {config : CommNetConfig} {n block : ℕ} (d : Divides config n block) (m : ℕ)
    → block * m ≡ 2 ^ 32
    → sge_count config 0 ≡ ok (pos 0)
unfolding sge_count
sge_count-zero {config} {n} {block} d m e =
    let many : 0 < m = grind (arith, e) in
    rw (sge_bytes-Divides d, div64_all_ones block m d.some_byte e, d.sges)
      (ap ok (none_of n m d.some_sge many))

-- A record with no bytes left, in blocks whose size divides 2 ^ 32: `DoCurWrite` goes on to the
-- next record without a write, so no immediate reaches the peer, and the buffer that it had taken
-- out of the idle queue stays out.
pub write_chunk_empty :
    (config : CommNetConfig) (ibv_post_send : List SendWr → SendWr → ℕ) {n block : ℕ}
    (d : Divides config n block) (m : ℕ) (s : State) (local : MemDesc) (remote : MemDescProto)
    (p : Port)
    → block * m ≡ 2 ^ 32
    → at s.send_recv_pair s.buffer_id ≡ ok (local, remote)
    → at s.machine.qp_vec s.cur_record.machine_id ≡ ok (some p)
    → s.cur_record.offset ≡ s.cur_record.bytes
    → s.cur_record.bytes < 2 ^ 64
    → (s' : State) × (write_chunk config ibv_post_send s ≡ ok (true, s'))
      × (s'.cur_write_handle ≡ init_write_handle)
      × (s'.idle_buffer_queue ≡ s.idle_buffer_queue)
      × (s'.machine.memory ≡ s.machine.memory)
      × (s'.machine.qp_vec
          ≡ set s.machine.qp_vec (pos_part s.cur_record.machine_id) (some (requested 0 [] p)))
unfolding copy_to_sges post_write_request new_work_request_id post_writes
write_chunk_empty config ibv_post_send d m s local remote p e pair qp finished fits =
    let none_left : chunk_bytes config s.cur_record ≡ 0 = ground arith in
    let posted : post_write_request ibv_post_send remote local s.buffer_id (pos 0) p
        ≡ ok (requested 0 [] p) =
      ap
        (λ l. ok (record p {
          live = (p.next_id, record { outstanding_sge_cnt = pos 0; msg_mr = none }) ∷ p.live;
          next_id = suc p.next_id;
          posted = l;
        }))
        (sym (append-nil p.posted)) in
    (
      _,
      write_chunk_run config ibv_post_send s local remote 0 _ (pos 0) s.machine.memory _ pair
          none_left (sge_bytes-Divides d) (sge_count-zero d m e) refl
          (normal2register_done_lem config ibv_post_send s.cur_record.machine_id local remote
            s.buffer_id (pos 0) s.machine.qp_vec p (requested 0 [] p) qp posted),
      ground arith,
      refl,
      refl,
      refl,
    )
