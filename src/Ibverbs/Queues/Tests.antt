-- ===== src/Ibverbs/Queues/Tests.antt =====
-- Tests of the queues of one machine.
use Prim.Native.String.{String}
use comm_network.Prelude.{ℕ, List, [], ◌∷◌, some, true}
use comm_network.Prelude.Int.{pos, negsuc}
use comm_network.Config.{Machine, CommNetConfig}
use comm_network.Ibverbs.Queues.{Answers, Queues}

abbrev machine_at : String → Machine
machine_at addr = record {
  id = pos 0;
  addr = addr;
  ctrl_port_agent = negsuc 0;
  data_port_agent = negsuc 0;
}

abbrev config : CommNetConfig
config = record {
  machine = machine_at "a" ∷ machine_at "b" ∷ machine_at "c" ∷ machine_at "d" ∷ [];
  ctrl_port = pos 90;
  data_port = negsuc 0;
  use_rdma = true;
  poller_num = pos 2;
  register_buffer_num = pos 2;
  per_register_buffer_mbytes = 4;
  sge_num = pos 1;
  max_msg_bytes = pos 1024;
}

-- A set that is walked from its second element.
abbrev second_first : List ℕ → List ℕ
second_first (i ∷ j ∷ l) = j ∷ i ∷ l
second_first l = l

abbrev answers : Answers
answers = record {
  ibv_get_device_list = some 1;
  ibv_open_device = λ d. some 2;
  ibv_alloc_pd = λ c. some 3;
  ibv_query_device = λ c. 0;
  ibv_create_cq = λ i. some i;
  ibv_query_port = λ c. 0;
  ibv_query_gid = λ c. 0;
  order = second_first;
}
