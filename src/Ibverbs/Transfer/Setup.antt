-- ===== src/Ibverbs/Transfer/Setup.antt =====
-- Two machines for the tests: a read of 600000 bytes through buffers of two blocks of 512 KB.
use comm_network.Prelude.{ℕ, zero, suc, ◌%◌, refl, List, [], ◌∷◌, some, none, true, arith, inl, inr}
use comm_network.Prelude.Int.{pos}
use comm_network.Config.{CommNetConfig}
use comm_network.Message.{WorkRecord}
use comm_network.Ibverbs.Verbs.{Memory, Sge, SendWr}
use comm_network.Ibverbs.MemDesc.{MemDesc, MemDescProto}
use comm_network.Ibverbs.Port.{Port}
use comm_network.Ibverbs.Port.Writes.{Accepts, Blocks}
use comm_network.Ibverbs.Chunk.Copies.{Laid}
use comm_network.Ibverbs.Chunk.Size.{Divides}
use comm_network.Ibverbs.WriteHelper.{State, Machine, do_cur_write}
use comm_network.Ibverbs.Transfer.{splice, IsRdmaWrite}
use comm_network.Ibverbs.Transfer.Arrival.{Linked}

abbrev pub config : CommNetConfig
config = record {
  machine = [];
  ctrl_port = pos 1;
  data_port = pos 2;
  use_rdma = true;
  poller_num = pos 1;
  register_buffer_num = pos 1;
  per_register_buffer_mbytes = 1;
  sge_num = pos 2;
  max_msg_bytes = pos 100;
}

pub config-Divides : Divides config 2 524288
config-Divides = record {
  sges = refl;
  few = omega arith;
  some_sge = omega arith;
  some_byte = omega arith;
  even = refl;
}

abbrev pub accepting : List SendWr → SendWr → ℕ
accepting l w = 0

pub accepting-Accepts : Accepts accepting
accepting-Accepts l w = refl

abbrev pub writing : SendWr → Memory → Memory → Memory
writing w from to = splice w.remote_addr w.sge.addr w.sge.length from to

pub writing-IsRdmaWrite : IsRdmaWrite writing
writing-IsRdmaWrite w from to = refl

abbrev pub block_at : ℕ → Sge
block_at a = record { addr = a; length = 524288; lkey = 1 }

abbrev pub local : MemDesc
local = record {
  sge_vec = block_at 10000000 ∷ block_at 10524288 ∷ [];
  mr_vec = record { lkey = 1; rkey = 2 } ∷ record { lkey = 1; rkey = 2 } ∷ [];
}

abbrev pub remote : MemDescProto
remote = record { mem_ptr = 30000000 ∷ 30524288 ∷ []; mr_rkey = 7 ∷ 8 ∷ [] }

abbrev pub remote_desc : MemDesc
remote_desc = record { sge_vec = block_at 30000000 ∷ block_at 30524288 ∷ []; mr_vec = [] }

pub buffer-Blocks : Blocks 524288 10000000 30000000 local remote 0 2
buffer-Blocks zero lo hi = (1, 7, refl, refl, refl)
buffer-Blocks (suc zero) lo hi = (1, 8, refl, refl, refl)
buffer-Blocks (suc (suc j)) lo hi = absurd (omega arith)

pub local-Laid : Laid 524288 10000000 local.sge_vec 0 2
local-Laid zero lo hi = (_, refl, refl)
local-Laid (suc zero) lo hi = (_, refl, refl)
local-Laid (suc (suc j)) lo hi = absurd (omega arith)

pub remote-Laid : Laid 524288 30000000 remote_desc.sge_vec 0 2
remote-Laid zero lo hi = (_, refl, refl)
remote-Laid (suc zero) lo hi = (_, refl, refl)
remote-Laid (suc (suc j)) lo hi = absurd (omega arith)

abbrev pub sent_record : WorkRecord
sent_record = record {
  machine_id = pos 1;
  begin_addr = 1000;
  bytes = 600000;
  offset = 0;
  cb = none;
}

abbrev pub asked_record : WorkRecord
asked_record = record {
  machine_id = pos 0;
  begin_addr = 5000;
  bytes = 600000;
  offset = 0;
  cb = some 9;
}

abbrev pub port : List WorkRecord → Port
port queue = record { live = []; next_id = 3; posted = []; read_queue = queue }

abbrev pub filled : Memory
filled a = a % 256

abbrev pub source : State
source = record {
  helper = record {
    buffer_id = pos 0;
    pending_record_queue = [];
    cur_record_queue = [];
    idle_buffer_queue = [];
    cur_record = sent_record;
    cur_write_handle = do_cur_write;
    send_recv_pair = (local, remote) ∷ [];
  };
  machine = record { memory = filled; qp_vec = none ∷ some (port []) ∷ [] };
}

abbrev pub target : Machine
target = record { memory = λ a. 0; qp_vec = some (port (asked_record ∷ [])) ∷ none ∷ [] }

pub source-target-Linked :
    Linked config accepting 2 524288 10000000 30000000 source local remote
      (port [])
      target
      (pos 0)
      remote_desc
      (port (asked_record ∷ []))
      asked_record
      []
source-target-Linked = record {
  divides = config-Divides;
  room = accepting-Accepts;
  pair = refl;
  blocks = buffer-Blocks;
  port = refl;
  is_open = (omega arith, omega arith);
  apart = inl (omega arith);
  port' = refl;
  front' = refl;
  same_bytes = refl;
  same_offset = refl;
  laid' = remote-Laid;
  apart' = inr (omega arith);
}
