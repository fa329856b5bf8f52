-- ===== src/Config/Tests.antt =====
-- Tests of comm_network/comm_network_config_desc.{h,cpp}.
use comm_network.Prelude.{◌≡◌, refl, true, [], ◌∷◌, ok}
use comm_network.Prelude.Int.{pos, negsuc}
use comm_network.Config.{CommNetConfig, get_machine_id}

abbrev two_machines : CommNetConfig
two_machines = record {
  machine =
      record { id = pos 0; addr = "a"; ctrl_port_agent = negsuc 0; data_port_agent = negsuc 0 }
      ∷ record { id = pos 1; addr = "b"; ctrl_port_agent = negsuc 0; data_port_agent = negsuc 0 }
      ∷ [];
  ctrl_port = pos 9000;
  data_port = negsuc 0;
  use_rdma = true;
  poller_num = pos 1;
  register_buffer_num = pos 2;
  per_register_buffer_mbytes = 4;
  sge_num = pos 1;
  max_msg_bytes = pos 1024;
}

second_machine : get_machine_id two_machines "b" ≡ ok (pos 1)
unfolding get_machine_id
second_machine = refl
