-- ===== src/Ibverbs/Connection/SetUp/Meeting.antt =====
-- comm_network/ibverbs: two machines that go through `IBVerbsCommNet::SetUp` with each other.
use Prim.Native.String.{String}
use comm_network.Prelude.{◌≡◌, ◌≢◌, none, length}
use comm_network.Prelude.Assoc.{lookup}
use comm_network.Ibverbs.MemDesc.{MemDesc}
use comm_network.Ibverbs.Qp.{Env}
use comm_network.Ibverbs.Connection.{Device, Link, Kv}
use comm_network.Ibverbs.Connection.Keys.{IsToString}
use comm_network.Ibverbs.Connection.SetUp.{buffer_num}
use comm_network.Ibverbs.Connection.SetUp.Rounds.{Modifies}
use comm_network.Ibverbs.Connection.SetUp.Links.{conn_key, tokens_key}

-- Two links that face each other, each with its buffers registered.
pub record Faces (env : Env) (dev dev' : Device) (l l' : Link) : Type 0 where
  pub apart : l.qp.this_machine_id ≢ l'.qp.this_machine_id
  pub there : l.qp.peer_machine_id ≡ l'.qp.this_machine_id
  pub back : l'.qp.peer_machine_id ≡ l.qp.this_machine_id
  pub names : dev'.to_string ≡ dev.to_string
  pub writes : IsToString dev.to_string
  pub buffers : length l.qp.mem_desc ≡ buffer_num env dev
  pub buffers' : length l'.qp.mem_desc ≡ buffer_num env dev
  pub accepts : Modifies dev
  pub accepts' : Modifies dev'

-- None of the four keys of two links is on the server.
pub record IsFree (dev dev' : Device) (l l' : Link) (kv : Kv) : Type 0 where
  pub conn : lookup (conn_key dev l) kv ≡ none
  pub tokens : lookup (tokens_key dev l) kv ≡ none
  pub conn' : lookup (conn_key dev' l') kv ≡ none
  pub tokens' : lookup (tokens_key dev' l') kv ≡ none
