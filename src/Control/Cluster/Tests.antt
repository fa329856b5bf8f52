-- ===== src/Control/Cluster/Tests.antt =====
-- Tests of clients and servers.
use Prim.Native.String.{String}
use comm_network.Prelude.{
  ℕ, ◌≡◌, refl, List, [], ◌∷◌, Option, some, ok, arith, ltb, true, if◌then◌else◌,
}
use comm_network.Prelude.Int.{ℤ, pos, negsuc}
use comm_network.Prelude.Assoc.{assign, lookup}
use comm_network.Config.{CommNetConfig}
use comm_network.Control.Server.{CtrlServer, pull_kv_response, push_kv_response}
use comm_network.Control.Server as server
use comm_network.Control.Client.{
  StatusCode, status_ok, unavailable, load_server, new, push_msg, pull_kv, parse_response,
}
use comm_network.Control.Cluster.{Cluster, run_calls}
use comm_network.Control.Cluster.Meeting.{pull_kv-push_msg}

abbrev config : CommNetConfig
config = record {
  machine =
      record { id = pos 0; addr = "a"; ctrl_port_agent = negsuc 0; data_port_agent = negsuc 0 }
      ∷ record { id = pos 1; addr = "b"; ctrl_port_agent = pos 77; data_port_agent = negsuc 0 }
      ∷ [];
  ctrl_port = pos 90;
  data_port = negsuc 0;
  use_rdma = true;
  poller_num = pos 1;
  register_buffer_num = pos 2;
  per_register_buffer_mbytes = 4;
  sge_num = pos 1;
  max_msg_bytes = pos 1024;
}

abbrev print : ℤ → String
print z = "90"

abbrev seven : String → ℕ
seven key = 7

-- One client finds the servers at once, the other from the third attempt on.
abbrev at_once : ℕ → ℕ → StatusCode
at_once i k = status_ok

abbrev third_time : ℕ → ℕ → StatusCode
third_time i k = if ltb k 2 then unavailable else status_ok

abbrev stubs : List String
stubs = "a:90" ∷ "b:90" ∷ []

stubs-at_once : new print seven config at_once ≡ ok stubs
unfolding new load_server
stubs-at_once = refl

stubs-third_time : new print seven config third_time ≡ ok stubs
unfolding new load_server
stubs-third_time = refl

abbrev cluster : Cluster
cluster = ("b:90", server.new) ∷ ("a:90", server.new) ∷ []

abbrev say : String → String
say v = v

abbrev hear : String → Option String
hear v = some v

pull_kv-push_msg_example :
    (s1 : CtrlServer) × (s2 : CtrlServer) × (run_calls
        ((4, pull_kv print seven config "k" stubs)
          ∷ (2, push_msg print seven config say "k" "v" stubs)
          ∷ [])
        cluster
      ≡ ok (assign "b:90" s1 cluster))
    × (run_calls
          ((2, push_msg print seven config say "k" "v" stubs)
            ∷ (4, pull_kv print seven config "k" stubs)
            ∷ [])
          cluster
        ≡ ok (assign "b:90" s2 cluster))
    × (s1.responses ≡ (4, pull_kv_response "v") ∷ (2, push_kv_response) ∷ [])
    × (s2.responses ≡ (2, push_kv_response) ∷ (4, pull_kv_response "v") ∷ [])
    × (parse_response hear (pull_kv_response "v") ≡ some "v")
unfolding lookup
pull_kv-push_msg_example =
    pull_kv-push_msg print seven config say hear at_once third_time 4 2 "k" "v" cluster
      {s = server.new} (λ x. refl) (omega arith) stubs-at_once stubs-third_time refl refl refl
