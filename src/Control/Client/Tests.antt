-- ===== src/Control/Client/Tests.antt =====
-- Tests of comm_network/control/ctrl_client.cpp.
use Prim.Native.String.{String}
use comm_network.Prelude.{
  ℕ, ◌<◌, ◌≡◌, refl, ◌⊎◌, [], ◌∷◌, true, ok, abort, check_failed, log_fatal, if◌then◌else◌, ltb,
}
use comm_network.Prelude.Int.{ℤ, pos, negsuc}
use comm_network.Config.{CommNetConfig}
use comm_network.Control.Client.{StatusCode, status_ok, unavailable, other_status, load_server, new}
use comm_network.Control.Client.Retries.{DownUntil, load_server_lem}

-- A server that is up from the third attempt on.
abbrev third_time : ℕ → StatusCode
third_time k = if ltb k 2 then unavailable else status_ok

load_server_lem_example :
    ((i : ℕ) × (i < 60)
      × DownUntil third_time 0 i
      × (third_time i ≡ status_ok)
      × (load_server third_time ≡ ok tt))
    ⊎ ((i : ℕ) × (i < 60)
        × DownUntil third_time 0 i
        × (third_time i ≡ other_status)
        × (load_server third_time ≡ abort log_fatal))
    ⊎ (DownUntil third_time 0 60 × (load_server third_time ≡ abort check_failed))
load_server_lem_example = load_server_lem third_time

third-time-up : load_server third_time ≡ ok tt
unfolding load_server
third-time-up = refl

abbrev two_machines : CommNetConfig
two_machines = record {
  machine =
      record { id = pos 0; addr = "a"; ctrl_port_agent = negsuc 0; data_port_agent = negsuc 0 }
      ∷ record { id = pos 1; addr = "b"; ctrl_port_agent = pos 77; data_port_agent = negsuc 0 }
      ∷ [];
  ctrl_port = pos 90;
  data_port = negsuc 0;
  use_rdma = true;
  poller_num = pos 1;
  register_buffer_num = pos 2;
  per_register_buffer_mbytes = 4;
  sge_num = pos 1;
  max_msg_bytes = pos 1024;
}

abbrev print : ℤ → String
print z = "90"

abbrev seven : String → ℕ
seven key = 7

stubs-made : new print seven two_machines (λ i. third_time) ≡ ok ("a:90" ∷ "b:90" ∷ [])
unfolding new load_server
stubs-made = refl
