-- ===== src/Ibverbs/Connection/SetUp.antt =====
-- comm_network/ibverbs: the keys of a queue pair, and the three rounds of `IBVerbsCommNet::SetUp` for
-- one peer, between which the machines wait at barriers.
pub mod FourKeys
pub mod Rounds
pub mod Links
pub mod Meeting
pub mod Tally
mod Tests
use comm_network.Prelude.{
  ℕ, zero, suc, ◌+◌, List, [], ◌∷◌, ◌++◌, Option, none, some, Result, ok, map, ◌>>=◌,
}
use comm_network.Prelude.Int.{ℤ, pos, pos_part}
use comm_network.Prelude.Assoc.{lookup}
use comm_network.Ibverbs.Verbs.{at}
use comm_network.Ibverbs.MemDesc.{MemDesc, MemDescProto, to_proto}
use comm_network.Ibverbs.WriteHelper.{new}
use comm_network.Ibverbs.Qp.{Env, Qp, Endpoint, post_all_recv_request}
use comm_network.Ibverbs.Port.{Port}
use comm_network.Ibverbs.Connection.{
  Device, Link, Kv, ConnectionInfo, connection_info, tokens_msg, push_value, clear_value, as_info,
  as_tokens, connect,
}
use comm_network.Ibverbs.Connection.Keys.{gen_conn_info_key, gen_tokens_msg_key}

-- What `ToProto` makes of the n receive descriptors from the i-th on.
unfoldable pub recv_protos : ℕ → ℕ → List (MemDesc × MemDesc) → Result (List MemDescProto)
recv_protos i zero l = ok []
recv_protos i (suc n) l =
    at l (pos i) >>= λ pair. recv_protos (i + 1) n l >>= λ rest. ok (to_proto (pair.1) ∷ rest)

-- The n send descriptors from the i-th on, each with the peer's proto of that number.
unfoldable pub pair_up :
    ℕ → ℕ → List (MemDesc × MemDesc) → List MemDescProto → Result (List (MemDesc × MemDescProto))
pair_up i zero l protos = ok []
pair_up i (suc n) l protos = at l (pos i) >>= λ pair. at protos (pos i) >>= λ proto.
    pair_up (i + 1) n l protos >>= λ rest. ok ((pair.0, proto) ∷ rest)

module _ (env : Env) (dev : Device) where
  abbrev pub buffer_num : ℕ
  buffer_num = pos_part env.config.register_buffer_num

  unfoldable pub push_register_memory_key : Qp → Kv → Result Kv
  unfolding recv_protos gen_tokens_msg_key push_value
  push_register_memory_key q kv = do
    protos ← recv_protos 0 buffer_num q.mem_desc
    push_value (gen_tokens_msg_key dev.to_string q.this_machine_id q.peer_machine_id)
        (tokens_msg protos) kv

  -- None while the peer has not pushed its key.
  unfoldable pub pull_register_memory_key : Kv → Link → Option (Result Link)
  unfolding gen_tokens_msg_key pair_up
  pull_register_memory_key kv l =
      elim (lookup (gen_tokens_msg_key dev.to_string l.qp.peer_machine_id l.qp.this_machine_id)
        kv) [
          | none ↦ none
          | some v ↦ some (
              pair_up 0 buffer_num l.qp.mem_desc (as_tokens dev v) >>= λ pairs.
              ok (record l { send_recv_mem_desc = l.send_recv_mem_desc ++ pairs }))
        ]

  unfoldable pub clear_key_and_create_helper : Kv → Link → Result (Kv × Link)
  unfolding gen_tokens_msg_key clear_value
  clear_key_and_create_helper kv l = do
    kv' ←
        clear_value (gen_tokens_msg_key dev.to_string l.qp.this_machine_id l.qp.peer_machine_id) kv
    ok (
      kv',
      record l {
        qp = record (l.qp) {
          helper = new env.config env.ibv_post_send dev.any_id dev.any_record l.send_recv_mem_desc;
        };
      },
    )

  -- The first round: both keys are pushed.
  unfoldable pub push_keys : Link → Kv → Result Kv
  unfolding gen_conn_info_key push_value push_register_memory_key
  push_keys l kv = do
    kv' ←
        push_value (gen_conn_info_key dev.to_string l.qp.this_machine_id l.qp.peer_machine_id)
          (connection_info dev.info) kv
    push_register_memory_key l.qp kv'

  -- The second: the peer's two are pulled, and the queue pair is connected.
  unfoldable pub pull_keys : Kv → Link → Option (Result Link)
  unfolding gen_conn_info_key pull_register_memory_key connect
  pull_keys kv l =
      elim (lookup (gen_conn_info_key dev.to_string l.qp.peer_machine_id l.qp.this_machine_id) kv) [
        | none ↦ none
        | some v ↦ elim (pull_register_memory_key kv l) [
          | none ↦ none
          | some pulled ↦ some (pulled >>= λ l'. connect env dev (as_info dev v) l')
        ]
      ]

  -- The third, after its receive requests are posted: both keys are cleared, and the helper is made.
  unfoldable pub clear_keys : Kv → Link → Result (Kv × Link)
  unfolding gen_conn_info_key clear_value clear_key_and_create_helper
  clear_keys kv l = do
    kv' ← clear_value (gen_conn_info_key dev.to_string l.qp.this_machine_id l.qp.peer_machine_id) kv
    clear_key_and_create_helper kv' l
