-- ===== src/Ibverbs/Teardown/Tests.antt =====
-- Tests of the end of a machine.
use comm_network.Prelude.{
  ℕ, ◌≡◌, ◌≢◌, refl, true, false, List, [], ◌∷◌, none, some, abort, check_failed, ◌==◌, leb,
  if◌then◌else◌, arith,
}
use comm_network.Prelude.Int.{pos}
use comm_network.Ibverbs.MemDesc.{MemDesc}
use comm_network.Ibverbs.Qp.{MsgBuf, Qp}
use comm_network.Ibverbs.Qp.Pool.{count}
use comm_network.Ibverbs.CommNet.Setup.{qp_of}
use comm_network.Ibverbs.Teardown.{Ledger, Verbs, tear_down}
use comm_network.Ibverbs.Teardown.Release.{IsDocumented, IsHome}
use comm_network.Ibverbs.Teardown.Closing.{Fleet, vec_of, tear_down_lem}

-- A library that refuses what it documents to refuse.
abbrev verbs : Verbs
verbs = record {
  ibv_destroy_qp = λ l. if leb 1 l.qps then 0 else 22;
  ibv_dereg_mr = λ key l. if leb 1 (count key l.mrs) then 0 else 22;
  ibv_destroy_cq = λ l. if l.qps == 0 then 0 else 16;
  ibv_dealloc_pd = λ l. elim l.mrs [ [] ↦ if l.qps == 0 then 0 else 16 | _ ∷ _ ↦ 16 ];
  ibv_close_device = λ l. if l.has_pd then 16 else 0;
}

refuses :
    (mrs : List ℕ) (qps : ℕ)
    → mrs ≢ []
    → (elim mrs [ [] ↦ if qps == 0 then 0 else 16 | _ ∷ _ ↦ 16 ] == 0) ≡ false
refuses [] qps h = absurd (h refl)
refuses (k ∷ mrs) qps h = refl

verbs-IsDocumented : IsDocumented verbs
verbs-IsDocumented = record {
  destroy_qp = λ l one. rw one refl;
  dereg_mr = λ key l one. rw one refl;
  destroy_cq = λ l qps one. rw qps refl;
  dealloc_pd = λ l qps mrs. rw (mrs, qps) refl;
  dealloc_busy = λ l mrs. refuses l.mrs l.qps mrs;
  close_device = λ l pd. rw pd refl;
}

abbrev buffer : ℕ → MsgBuf
buffer key = record {
  sge = record { addr = 0; length = 8; lkey = key };
  msg_type_key = pos 0;
  payload = [];
  cb = none;
}

abbrev desc : ℕ → MemDesc
desc key = record { sge_vec = []; mr_vec = record { lkey = key; rkey = key } ∷ [] }

-- Message buffer 1 receives, 0 is in the pool, and 2 in flight.
abbrev qp : Qp
qp = record (qp_of (pos 0) (pos 1) []) {
  msg_mrs = buffer 10 ∷ buffer 11 ∷ buffer 12 ∷ [];
  mem_desc = (desc 20, desc 21) ∷ [];
}

abbrev fleet : Fleet
fleet = none ∷ some (qp, 2 ∷ []) ∷ []

abbrev ledger : Ledger
ledger = record {
  mrs = 10 ∷ 11 ∷ 12 ∷ 20 ∷ 21 ∷ [];
  qps = 1;
  cqs = 2;
  has_pd = true;
  has_context = true;
}

qp-IsHome : IsHome qp (2 ∷ [])
qp-IsHome b = ground arith

tear_down_lem_example : tear_down verbs (vec_of fleet) 2 ledger ≡ abort check_failed
tear_down_lem_example =
    tear_down_lem verbs fleet 2 ledger verbs-IsDocumented (qp-IsHome, tt) refl refl
      (λ k. ground arith)
