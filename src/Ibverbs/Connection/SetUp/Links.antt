-- ===== src/Ibverbs/Connection/SetUp/Links.antt =====
-- comm_network/ibverbs: what each round of `IBVerbsCommNet::SetUp` does for one peer.
use Prim.Native.String.{String}
use text.Mathlib.Text.{◌==◌}
use text.Mathlib.TextEquality.{eq_iff}
use comm_network.Prelude.{
  ◌≡◌, ◌≢◌, refl, ◌∙◌, List, ◌++◌, none, some, false, ok, map, length, arith,
}
use comm_network.Prelude.Assoc.{lookup, assign, erase, lookup-assign, lookup-erase}
use comm_network.Ibverbs.MemDesc.{MemDescProto, to_proto}
use comm_network.Ibverbs.WriteHelper.{new}
use comm_network.Ibverbs.Qp.{Env}
use comm_network.Ibverbs.Connection.{
  Device, Link, Kv, Value, connection_info, tokens_msg, ConnectionInfo,
}
use comm_network.Ibverbs.Connection.Keys.{gen_conn_info_key, gen_tokens_msg_key}
use comm_network.Ibverbs.Connection.SetUp.{
  buffer_num, push_register_memory_key, pull_register_memory_key, clear_key_and_create_helper,
  push_keys, pull_keys, clear_keys,
}
use comm_network.Ibverbs.Connection.SetUp.Rounds.{
  recv_protos_lem, paired, pair_up_lem, push_value_lem, clear_value_lem, Modifies, three_states,
  connect_lem,
}

abbrev pub conn_key : Device → Link → String
conn_key dev l = gen_conn_info_key dev.to_string l.qp.this_machine_id l.qp.peer_machine_id

abbrev pub tokens_key : Device → Link → String
tokens_key dev l = gen_tokens_msg_key dev.to_string l.qp.this_machine_id l.qp.peer_machine_id

abbrev pub protos_of : Link → List MemDescProto
protos_of l = map (λ m. to_proto (m.1)) l.qp.mem_desc

-- What the first round leaves on the server.
abbrev pub pushed : Device → Link → Kv → Kv
pushed dev l kv =
    assign (tokens_key dev l) (tokens_msg (protos_of l))
      (assign (conn_key dev l) (connection_info dev.info) kv)

-- What the second makes of a link: it knows where the peer's buffers are and is connected.
abbrev pub linked : Device → Device → Link → Link → Link
linked dev dev' l l' = record l {
  send_recv_mem_desc = l.send_recv_mem_desc ++ paired l.qp.mem_desc (protos_of l');
  modified = l.modified ++ three_states dev dev'.info;
}

abbrev pub helper_set : Env → Device → Link → Link
helper_set env dev l = record l {
  qp = record (l.qp) {
    helper = new env.config env.ibv_post_send dev.any_id dev.any_record l.send_recv_mem_desc;
  };
}

pub differ : (k j : String) → k ≢ j → (k == j) ≡ false
differ k j apart = ground (arith, eq_iff k j, apart)

pub push_keys_lem :
    (env : Env) (dev : Device) (l : Link) (kv : Kv)
    → length l.qp.mem_desc ≡ buffer_num env dev
    → conn_key dev l ≢ tokens_key dev l
    → lookup (conn_key dev l) kv ≡ none
    → lookup (tokens_key dev l) kv ≡ none
    → push_keys env dev l kv ≡ ok (pushed dev l kv)
unfolding push_keys push_register_memory_key
push_keys_lem env dev l kv len apart free free' =
    let absent : lookup (tokens_key dev l) (assign (conn_key dev l) (connection_info dev.info) kv)
        ≡ none =
      lookup-assign (conn_key dev l) (tokens_key dev l) (connection_info dev.info) kv
      ∙ rw (differ (conn_key dev l) (tokens_key dev l) apart) free' in
    rw
      (
        push_value_lem (conn_key dev l) (connection_info dev.info) kv free,
        recv_protos_lem (buffer_num env dev) l.qp.mem_desc len,
        push_value_lem (tokens_key dev l) (tokens_msg (protos_of l))
            (assign (conn_key dev l) (connection_info dev.info) kv) absent,
      )
      refl

pub pull_keys_lem :
    (env : Env) (dev : Device) (info : ConnectionInfo) (l : Link) (protos : List MemDescProto)
    (kv : Kv)
    → length l.qp.mem_desc ≡ buffer_num env dev
    → length protos ≡ buffer_num env dev
    → Modifies dev
    → lookup (gen_conn_info_key dev.to_string l.qp.peer_machine_id l.qp.this_machine_id) kv
      ≡ some (connection_info info)
    → lookup (gen_tokens_msg_key dev.to_string l.qp.peer_machine_id l.qp.this_machine_id) kv
      ≡ some (tokens_msg protos)
    → pull_keys env dev kv l
      ≡ some (
          ok (record l {
            send_recv_mem_desc = l.send_recv_mem_desc ++ paired l.qp.mem_desc protos;
            modified = l.modified ++ three_states dev info;
          }))
unfolding pull_keys pull_register_memory_key
pull_keys_lem env dev info l protos kv len len' accepts held held' =
    let l' = record l {
      send_recv_mem_desc = l.send_recv_mem_desc ++ paired l.qp.mem_desc protos;
    } in
    rw
      (
        held,
        held',
        pull_keys,
        pull_register_memory_key,
        pair_up_lem (buffer_num env dev) l.qp.mem_desc protos len len',
        connect_lem env dev info l' accepts,
      )
      refl

pub clear_keys_lem :
    (env : Env) (dev : Device) (l : Link) (kv : Kv) {v v' : Value}
    → conn_key dev l ≢ tokens_key dev l
    → lookup (conn_key dev l) kv ≡ some v
    → lookup (tokens_key dev l) kv ≡ some v'
    → clear_keys env dev kv l
      ≡ ok (erase (tokens_key dev l) (erase (conn_key dev l) kv), helper_set env dev l)
unfolding clear_keys clear_key_and_create_helper
clear_keys_lem env dev l kv {v} {v'} apart held held' =
    let there =
      lookup-erase (conn_key dev l) (tokens_key dev l) kv
      ∙ rw (differ (conn_key dev l) (tokens_key dev l) apart) held' in
    rw
      (
        clear_value_lem (conn_key dev l) kv {v = v} held,
        clear_value_lem (tokens_key dev l) (erase (conn_key dev l) kv) {v = v'} there,
      )
      refl
