-- ===== src/Ibverbs/Teardown.antt =====
-- comm_network/ibverbs: how a machine gives back what it holds of the verbs library. The destructors
-- of `IBVerbsQP` and `IBVerbsMemDesc`, that of `MsgMR` in ibverbs_qp.h, and `IBVerbsCommNet::TearDown`.
-- The ledger says what the library has handed out and not taken back: the regions by their keys, and
-- how many queue pairs and completion queues there are. What the library answers is a parameter.
pub mod Counts
pub mod Release
pub mod Closing
mod Tests
use comm_network.Prelude.{
  ℕ, zero, suc, ◌-◌, List, [], ◌∷◌, map, Option, none, some, Bool, true, false, Result, ok, check,
  or_abort, out_of_range, get_elem?, is_empty, ◌==◌, if◌then◌else◌, ◌>>=◌, ◌>>◌,
}
use comm_network.Ibverbs.Verbs.{Sge, Mr}
use comm_network.Ibverbs.MemDesc.{MemDesc}
use comm_network.Ibverbs.Qp.{Qp, MsgBuf}

pub record Ledger : Type 0 where
  pub mrs : List ℕ
  pub qps : ℕ
  pub cqs : ℕ
  pub has_pd : Bool
  pub has_context : Bool

pub record Verbs : Type 0 where
  pub ibv_destroy_qp : Ledger → ℕ
  pub ibv_dereg_mr : ℕ → Ledger → ℕ
  pub ibv_destroy_cq : Ledger → ℕ
  pub ibv_dealloc_pd : Ledger → ℕ
  pub ibv_close_device : Ledger → ℕ

abbrev pub remove : ℕ → List ℕ → List ℕ
remove k [] = []
remove k (j ∷ l) = let rest = remove k l in if j == k then l else j ∷ rest

abbrev pub keys_of : MemDesc → List ℕ
keys_of d = map (λ (mr : Mr). mr.lkey) d.mr_vec

module _ (verbs : Verbs) where
  unfoldable pub dereg_mr : ℕ → Ledger → Result Ledger
  dereg_mr key l = check (verbs.ibv_dereg_mr key l == 0) >> ok (record l { mrs = remove key l.mrs })

  -- The destructor of `IBVerbsMemDesc`, on the keys of its regions.
  unfoldable pub dereg_all : List ℕ → Ledger → Result Ledger
  unfolding dereg_mr
  dereg_all [] l = ok l
  dereg_all (key ∷ keys) l = dereg_mr key l >>= λ l'. dereg_all keys l'

  -- `delete` of the n-th message buffer, which is one block.
  unfoldable pub delete_msg_mr : Qp → ℕ → Ledger → Result Ledger
  unfolding dereg_mr
  delete_msg_mr q b l =
      or_abort out_of_range (get_elem? q.msg_mrs b) >>= λ buf. dereg_mr buf.sge.lkey l

  unfoldable pub delete_msg_mrs : Qp → List ℕ → Ledger → Result Ledger
  unfolding delete_msg_mr
  delete_msg_mrs q [] l = ok l
  delete_msg_mrs q (b ∷ bs) l = delete_msg_mr q b l >>= λ l'. delete_msg_mrs q bs l'

  unfoldable pub delete_mem_descs : List (MemDesc × MemDesc) → Ledger → Result Ledger
  unfolding dereg_all
  delete_mem_descs [] l = ok l
  delete_mem_descs ((send, recv) ∷ ds) l = do
    l1 ← dereg_all (keys_of send) l
    l2 ← dereg_all (keys_of recv) l1
    delete_mem_descs ds l2

  -- The destructor of `IBVerbsQP`. That of `helper_` checks that the helper's current queue is empty,
  -- and gives back nothing of the library's.
  unfoldable pub delete_qp : Qp → Ledger → Result Ledger
  unfolding delete_msg_mrs delete_mem_descs
  delete_qp q l = do
    check (verbs.ibv_destroy_qp l == 0)
    check (is_empty q.helper.cur_record_queue)
    l1 ← delete_msg_mrs q q.send_msg_buf (record l { qps = l.qps - 1 })
    l2 ← delete_msg_mrs q q.recv_msg_buf l1
    delete_mem_descs q.mem_desc l2

  unfoldable pub delete_qps : List (Option Qp) → Ledger → Result Ledger
  unfolding delete_qp
  delete_qps [] l = ok l
  delete_qps (none ∷ qp_vec) l = delete_qps qp_vec l
  delete_qps (some q ∷ qp_vec) l = delete_qp q l >>= λ l'. delete_qps qp_vec l'

  unfoldable pub destroy_cqs : ℕ → Ledger → Result Ledger
  destroy_cqs zero l = ok l
  destroy_cqs (suc n) l =
      check (verbs.ibv_destroy_cq l == 0) >> destroy_cqs n (record l { cqs = l.cqs - 1 })

  -- `TearDown`, of a machine with `cq_num` completion queues.
  unfoldable pub tear_down : List (Option Qp) → ℕ → Ledger → Result Ledger
  unfolding delete_qps destroy_cqs
  tear_down qp_vec cq_num l = do
    l1 ← delete_qps qp_vec l
    l2 ← destroy_cqs cq_num l1
    check (verbs.ibv_dealloc_pd l2 == 0)
    let l3 = record l2 { has_pd = false }
    check (verbs.ibv_close_device l3 == 0)
    ok (record l3 { has_context = false })
