-- ===== src/Ibverbs/Connection/SetUp/Tests.antt =====
-- Tests of the set-up of two machines.
use Prim.Native.String.{String}
use comm_network.Prelude.{ℕ, ◌+◌, ◌*◌, [], ◌∷◌}
use comm_network.Prelude.Int.{ℤ, pos}
use comm_network.Ibverbs.Connection.{Device, Link, Kv}
use comm_network.Ibverbs.Connection.SetUp.Tally.{to_string}
use comm_network.Ibverbs.Transfer.Setup.{asked_record, local, remote_desc}
use comm_network.Ibverbs.CommNet.Setup.{qp_of}

abbrev device : ℕ → Device
device n = record {
  max_qp_wr = 16;
  active_mtu = 3;
  info = record { lid = n; qp_num = 10 + n; subnet_prefix = 1; interface_id = n };
  ibv_modify_qp = λ l a. 0;
  sizeof_msg = 40;
  send_buffer = λ i. 1000000 * i;
  recv_buffer = λ i. 2000000 * i;
  any_id = pos 0;
  any_record = asked_record;
  to_string = to_string;
  misread_info = λ t. record { lid = 0; qp_num = 0; subnet_prefix = 0; interface_id = 0 };
  misread_tokens = λ i. [];
}

abbrev link : ℤ → ℤ → Link
link this peer = record {
  qp = record (qp_of this peer []) { mem_desc = (local, remote_desc) ∷ [] };
  send_recv_mem_desc = [];
  modified = [];
}

abbrev empty : Kv
empty = []
