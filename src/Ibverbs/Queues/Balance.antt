-- ===== src/Ibverbs/Queues/Balance.antt =====
-- comm_network/comm_network.cpp and ibverbs_comm_network.cpp: what `Init` leaves of the queues.
use Prim.Native.String.{String}
use comm_network.Prelude.{ℕ, ◌≡◌, List, Option, none, some, replicate}
use comm_network.Ibverbs.Qp.Pool.{count}
use comm_network.Ibverbs.Queues.{Answers, Queues}

-- The calls of the verbs library succeed, and the set of peers is walked with each of them once.
pub record Works (answers : Answers) : Type 0 where
  pub device : ℕ
  pub context : ℕ
  pub pd : ℕ
  pub gets : answers.ibv_get_device_list ≡ some device
  pub opens : answers.ibv_open_device device ≡ some context
  pub allocs : answers.ibv_alloc_pd context ≡ some pd
  pub queries : answers.ibv_query_device context ≡ 0
  pub creates : (i : ℕ) → (cq : ℕ) × (answers.ibv_create_cq i ≡ some cq)
  pub queries_port : answers.ibv_query_port context ≡ 0
  pub queries_gid : answers.ibv_query_gid context ≡ 0
  pub walks : (l : List ℕ) (k : ℕ) → count k (answers.order l) ≡ count k l

abbrev nulls : ℕ → List (Option ℕ)
nulls n = replicate n none
