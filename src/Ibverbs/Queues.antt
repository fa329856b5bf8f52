-- ===== src/Ibverbs/Queues.antt =====
-- comm_network/comm_network.cpp and ibverbs_comm_network.cpp: `CommNet::Init` up to the loop that
-- makes the queue pairs in `IBVerbsCommNet::SetUp`: who the peers are, and which completion queue
-- each of them gets. What the pairs of one link do after that is in Connection.
-- A queue pair stands for the number in `cq_vec_` of the completion queue it was made with. The
-- order in which the set of peers is walked is a parameter, and so is what the verbs library answers.
pub mod Spread
pub mod Slots
pub mod Balance
mod Tests
use Prim.Native.String.{String}
use comm_network.Prelude.{
  ℕ, zero, suc, ◌+◌, ◌%◌, List, [], ◌∷◌, ◌++◌, Option, none, some, Bool, true, false, Result, ok,
  abort, check, check_failed, out_of_fuel, or_abort, out_of_range, divide_by_zero, get_elem?, set,
  replicate, length, ◌==◌, ltb, if◌then◌else◌, ◌>>=◌, ◌>>◌,
}
use comm_network.Prelude.Int.{ℤ, pos, eqb_ℤ, pos_part}
use comm_network.Prelude.Words.{to_size, int_max}
use comm_network.Config.{CommNetConfig, total_machine_num, get_machine_id}

-- What the verbs library answers, and the order of `peer_machine_id_`.
pub record Answers : Type 0 where
  pub ibv_get_device_list : Option ℕ
  pub ibv_open_device : ℕ → Option ℕ
  pub ibv_alloc_pd : ℕ → Option ℕ
  pub ibv_query_device : ℕ → ℕ
  pub ibv_create_cq : ℕ → Option ℕ
  pub ibv_query_port : ℕ → ℕ
  pub ibv_query_gid : ℕ → ℕ
  pub order : List ℕ → List ℕ

pub record Queues : Type 0 where
  pub cq_vec : List ℕ
  pub poller_vec : List ℕ
  pub cq_idx : ℕ
  pub qp_vec : List (Option ℕ)

-- The loop of `Init` from machine i on.
unfoldable pub insert_peers : ℤ → ℕ → ℕ → List ℕ
insert_peers this_machine_id i zero = []
insert_peers this_machine_id i (suc n) =
    let rest = insert_peers this_machine_id (i + 1) n in
    if eqb_ℤ (pos i) this_machine_id then rest else i ∷ rest

module _ (answers : Answers) (config : CommNetConfig) where
  -- The context.
  unfoldable pub open_device : Result ℕ
  open_device = do
    device ← or_abort check_failed answers.ibv_get_device_list
    context ← or_abort check_failed (answers.ibv_open_device device)
    pd ← or_abort check_failed (answers.ibv_alloc_pd context)
    check (answers.ibv_query_device context == 0)
    ok context

  -- The loop over the pollers, from the i-th on. Its counter is an `int`: past the greatest it is
  -- negative, and the loop, whose bound is an `int64_t`, goes on without end.
  unfoldable pub create_cqs : ℕ → ℕ → Queues → Result Queues
  create_cqs i zero s = ok s
  create_cqs i (suc n) s = do
    cq ← or_abort check_failed (answers.ibv_create_cq i)
    i' ← if ltb i int_max then ok (i + 1) else abort out_of_fuel
    create_cqs i' n
        (record s { cq_vec = s.cq_vec ++ cq ∷ []; poller_vec = s.poller_vec ++ cq ∷ [] })

  -- `qp_vec_.at(peer_id) = cur_qp`
  unfoldable pub put_qp : ℕ → ℕ → List (Option ℕ) → Result (List (Option ℕ))
  put_qp peer_id cq qp_vec =
      if ltb peer_id (length qp_vec) then ok (set qp_vec peer_id (some cq)) else abort out_of_range

  -- The loop over the peers.
  unfoldable pub make_qps : List ℕ → Queues → Result Queues
  unfolding put_qp
  make_qps [] s = ok s
  make_qps (peer_id ∷ peers) s = do
    cur_cq ← or_abort out_of_range (get_elem? s.cq_vec s.cq_idx)
    let n = pos_part config.poller_num
    cq_idx ← if n == 0 then abort divide_by_zero else ok ((s.cq_idx + 1) % n)
    qp_vec ← put_qp peer_id s.cq_idx s.qp_vec
    make_qps peers (record s { cq_idx = cq_idx; qp_vec = qp_vec })

  unfoldable pub set_up_queues : List ℕ → Result Queues
  unfolding open_device create_cqs make_qps
  set_up_queues peer_machine_id = do
    context ← open_device
    s ←
        create_cqs 0 (pos_part config.poller_num)
          (record { cq_vec = []; poller_vec = []; cq_idx = 0; qp_vec = [] })
    check (length s.poller_vec == to_size config.poller_num)
    check (answers.ibv_query_port context == 0)
    check (answers.ibv_query_gid context == 0)
    make_qps (answers.order peer_machine_id)
        (record s { qp_vec = replicate (length peer_machine_id + 1) none })

  -- `Init`, with the address that the control server was given.
  unfoldable pub init : String → Result Queues
  unfolding insert_peers set_up_queues
  init this_machine_addr = do
    this_machine_id ← get_machine_id config this_machine_addr
    set_up_queues (insert_peers this_machine_id 0 (total_machine_num config))
