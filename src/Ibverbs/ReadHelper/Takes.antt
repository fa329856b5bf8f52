-- ===== src/Ibverbs/ReadHelper/Takes.antt =====
-- comm_network/ibverbs/ibverbs_read_helper.cpp: what one `SyncRead` leaves in memory and in the
-- read queue.
use comm_network.Prelude.{
  ℕ, ◌+◌, ◌*◌, min, ◌≡◌, refl, List, ◌∷◌, Option, some, true, false, ok, set, arith, ltb,
  if◌then◌else◌,
}
use comm_network.Prelude.Int.{ℤ, pos_part}
use comm_network.Prelude.Words.{add64}
use comm_network.Config.{CommNetConfig}
use comm_network.Message.{WorkRecord}
use comm_network.Ibverbs.Verbs.{memcpy, at}
use comm_network.Ibverbs.MemDesc.{MemDesc}
use comm_network.Ibverbs.Port.{Port, front_record, set_front_offset}
use comm_network.Ibverbs.Chunk.{chunk_bytes}
use comm_network.Ibverbs.Chunk.Copies.{Laid, Apart, copy_from_sges_lem}
use comm_network.Ibverbs.Chunk.Size.{
  Divides, sge_bytes-Divides, sge_count_lem, buffer_bytes-pos, IsOpen, chunk_bytes_lem,
}
use comm_network.Ibverbs.WriteHelper.{Machine}
use comm_network.Ibverbs.ReadHelper.{get_work_record, set_work_record_offset, sync_read}

-- The port with its first record advanced by t bytes.
abbrev pub advanced : ℕ → WorkRecord → List WorkRecord → Port → Port
advanced t r rest p = record p { read_queue = record r { offset = add64 r.offset t } ∷ rest }

module _ (peer : ℤ) (qps : List (Option Port)) (p : Port) (r : WorkRecord) (rest : List WorkRecord)
    (found : at qps peer ≡ ok (some p)) (front : p.read_queue ≡ r ∷ rest) where
  get_work_record_lem : get_work_record peer qps ≡ ok r
  unfolding get_work_record front_record
  get_work_record_lem = rw found (ground (arith, front))

  set_work_record_offset_lem :
      (t : ℕ)
      → set_work_record_offset peer (add64 r.offset t) qps
        ≡ ok (set qps (pos_part peer) (some (advanced t r rest p)))
  unfolding set_work_record_offset set_front_offset
  set_work_record_offset_lem t = rw (found, front, set_front_offset) refl

-- One `SyncRead`: the next bytes of the first record come out of the registered buffer, its offset
-- moves past them, and the answer says whether they were the last.
pub sync_read_lem :
    (config : CommNetConfig) {n block : ℕ} (d : Divides config n block) (peer buffer_id : ℤ)
    (desc : MemDesc) (s : Machine) (base : ℕ) (p : Port) (r : WorkRecord) (rest : List WorkRecord)
    (t : ℕ)
    → chunk_bytes config r ≡ t
    → at s.qp_vec peer ≡ ok (some p)
    → p.read_queue ≡ r ∷ rest
    → IsOpen r
    → Laid block base desc.sge_vec 0 n
    → Apart base (r.begin_addr + r.offset) t
    → sync_read config peer buffer_id desc s
      ≡ ok (
        record {
          memory = memcpy (r.begin_addr + r.offset) base t s.memory;
          qp_vec = set s.qp_vec (pos_part peer) (some (advanced t r rest p));
        },
        record {
          src_machine_id = peer;
          buffer_id = buffer_id;
          last_piece = if ltb (add64 r.offset t) r.bytes then false else true;
        },
      )
unfolding sync_read
sync_read_lem config {n} {block} d peer buffer_id desc s base p r rest t is_t found front live laid
      apart =
    let size = chunk_bytes_lem config r live in
    let (q, count, few, enough, tight) =
      sge_count_lem d t (omega (arith, size, is_t, buffer_bytes-pos d))
        (omega (arith, size, is_t)) in
    let copied =
      copy_from_sges_lem block base desc.sge_vec (q + 1) t (r.begin_addr + r.offset) s.memory
        (omega (arith, size, is_t)) (λ j lo hi. laid j lo (omega arith)) apart in
    let whole : min t ((q + 1) * block) ≡ t = omega arith in
    rw (
      get_work_record_lem peer s.qp_vec p r rest found front,
      is_t,
      sge_bytes-Divides d,
      count,
      copied,
      whole,
      set_work_record_offset_lem peer s.qp_vec p r rest found front t,
    )
