-- ===== src/Ibverbs/Connection.antt =====
-- comm_network/ibverbs: how two queue pairs come to be connected. The constructor of `IBVerbsQP`,
-- `PushRegisterMemoryKey`, `PullRegisterMemoryKey`, `ClearKeyAndCreateHelper` and `Connect` of
-- ibverbs_qp.cpp, and the three loops of `IBVerbsCommNet::SetUp` for one peer.
-- The control server is the map that its handlers keep; what a key holds is the message itself, and
-- protobuf's encoding of it is the library's. A PullKV that would wait is none.
pub mod Keys
pub mod SetUp
use Prim.Native.String.{String}
use comm_network.Prelude.{
  ℕ, zero, suc, ◌+◌, ◌*◌, ◌/◌, ◌%◌, ◌^◌, min, List, [], ◌∷◌, ◌++◌, Option, none, some, Bool, true,
  false, Result, ok, abort, check, check_failed, or_abort, ◌==◌, if◌then◌else◌, ◌>>=◌, ◌>>◌,
}
use comm_network.Prelude.Int.{ℤ, pos, pos_part}
use comm_network.Prelude.Words.{div64}
use comm_network.Prelude.Assoc.{lookup, assign, erase}
use comm_network.Config.{CommNetConfig, buffer_bytes, sge_bytes}
use comm_network.Message.{WorkRecord}
use comm_network.Ibverbs.Verbs.{at}
use comm_network.Ibverbs.MemDesc.{MemDesc, MemDescProto, new_mem_desc, to_proto}
use comm_network.Ibverbs.WriteHelper.{WriteHelper, new}
use comm_network.Ibverbs.Qp.{Env, Qp, new_msg_mr}
use comm_network.Ibverbs.Connection.Keys.{gen_conn_info_key, gen_tokens_msg_key}

-- `IBVerbsConnectionInfo`
pub record ConnectionInfo : Type 0 where
  pub lid : ℕ
  pub qp_num : ℕ
  pub subnet_prefix : ℕ
  pub interface_id : ℕ

pub data Value : Type 0 where
  connection_info : ConnectionInfo → Value
  tokens_msg : List MemDescProto → Value

abbrev pub Kv : Type 0
Kv = List (String × Value)

pub data QpState : Type 0 where
  qps_reset qps_init qps_rtr qps_rts : QpState

-- The fields of an `ibv_qp_attr` that `Connect` sets.
pub record QpAttr : Type 0 where
  pub qp_state : QpState
  pub port_num : ℕ
  pub allows_remote : Bool
  pub subnet_prefix : ℕ
  pub interface_id : ℕ
  pub hop_limit : ℕ
  pub dlid : ℕ
  pub is_global : ℕ
  pub ah_port_num : ℕ
  pub path_mtu : ℕ
  pub dest_qp_num : ℕ
  pub max_dest_rd_atomic : ℕ
  pub min_rnr_timer : ℕ
  pub max_rd_atomic : ℕ
  pub retry_cnt : ℕ
  pub rnr_retry : ℕ
  pub timeout : ℕ

-- What is not the program's: the verbs library with what it tells of the device, `sizeof(Msg)`, the
-- addresses of the registered buffers, what parsing the wrong message leaves, and what a record holds before it is set.
pub record Device : Type 0 where
  pub max_qp_wr : ℕ
  pub active_mtu : ℕ
  pub info : ConnectionInfo
  pub ibv_modify_qp : List QpAttr → QpAttr → ℕ
  pub sizeof_msg : ℕ
  pub send_buffer : ℕ → ℕ
  pub recv_buffer : ℕ → ℕ
  pub any_id : ℤ
  pub any_record : WorkRecord
  pub to_string : ℤ → String
  pub misread_info : List MemDescProto → ConnectionInfo
  pub misread_tokens : ConnectionInfo → List MemDescProto

-- `send_recv_mem_desc_` and what `ibv_modify_qp` was given, beside the queue pair.
pub record Link : Type 0 where
  pub qp : Qp
  pub send_recv_mem_desc : List (MemDesc × MemDescProto)
  pub modified : List QpAttr

-- `memset(&qp_attr, 0, sizeof(ibv_qp_attr))`
abbrev pub zero_attr : QpAttr
zero_attr = record {
  qp_state = qps_reset;
  port_num = 0;
  allows_remote = false;
  subnet_prefix = 0;
  interface_id = 0;
  hop_limit = 0;
  dlid = 0;
  is_global = 0;
  ah_port_num = 0;
  path_mtu = 0;
  dest_qp_num = 0;
  max_dest_rd_atomic = 0;
  min_rnr_timer = 0;
  max_rd_atomic = 0;
  retry_cnt = 0;
  rnr_retry = 0;
  timeout = 0;
}

abbrev pub init_attr : QpAttr
init_attr = record zero_attr { qp_state = qps_init; port_num = 1; allows_remote = true }

abbrev pub rtr_attr : ℕ → ConnectionInfo → QpAttr
rtr_attr mtu peer_info = record zero_attr {
  qp_state = qps_rtr;
  subnet_prefix = peer_info.subnet_prefix;
  interface_id = peer_info.interface_id;
  hop_limit = 255;
  dlid = peer_info.lid;
  is_global = 1;
  ah_port_num = 1;
  path_mtu = mtu;
  dest_qp_num = peer_info.qp_num;
  max_dest_rd_atomic = 1;
  min_rnr_timer = 12;
}

abbrev pub rts_attr : QpAttr
rts_attr = record zero_attr {
  qp_state = qps_rts;
  max_rd_atomic = 1;
  retry_cnt = 7;
  rnr_retry = 7;
  timeout = 14;
}

-- `PushKV`, `ClearKV` and `PullKV` as the server handles them.
unfoldable pub push_value : String → Value → Kv → Result Kv
push_value k v kv = elim (lookup k kv) [ none ↦ ok (assign k v kv) | some _ ↦ abort check_failed ]

unfoldable pub clear_value : String → Kv → Result Kv
clear_value k kv = elim (lookup k kv) [ none ↦ abort check_failed | some _ ↦ ok (erase k kv) ]

-- `PullKV` does not look at what `ParseFromString` returns: a key that holds the other kind of message
-- gives what that leaves in the message.
abbrev pub as_info : Device → Value → ConnectionInfo
as_info dev (connection_info i) = i
as_info dev (tokens_msg t) = dev.misread_info t

abbrev pub as_tokens : Device → Value → List MemDescProto
as_tokens dev (connection_info i) = dev.misread_tokens i
as_tokens dev (tokens_msg t) = t

module _ (env : Env) (dev : Device) where
  unfoldable pub modify_qp : QpAttr → Link → Result Link
  modify_qp a l =
      check (dev.ibv_modify_qp l.modified a == 0)
      >> ok (record l { modified = l.modified ++ a ∷ [] })

  unfoldable pub connect : ConnectionInfo → Link → Result Link
  unfolding modify_qp
  connect peer_info l = do
    l1 ← modify_qp init_attr l
    l2 ← modify_qp (rtr_attr dev.active_mtu peer_info) l1
    modify_qp rts_attr l2

  -- `recv_msg_buf_.at(i) = new MsgMR(pd_)`, n times.
  unfoldable pub new_recv_msg_buf : ℕ → Qp → Result Qp
  unfolding new_msg_mr
  new_recv_msg_buf zero q = ok q
  new_recv_msg_buf (suc n) q = new_msg_mr env q >>= λ r.
      new_recv_msg_buf n (record (r.1) { recv_msg_buf = r.1.recv_msg_buf ++ r.0 ∷ [] })

  -- `mem_desc_.emplace_back(send_mem_desc, recv_mem_desc)`, n times from the i-th.
  unfoldable pub new_mem_descs : ℕ → ℕ → Qp → Result Qp
  new_mem_descs i zero q = ok q
  new_mem_descs i (suc n) q =
      new_mem_desc env.ibv_reg_mr env.config (dev.send_buffer i) (buffer_bytes env.config)
      >>= λ send.
          new_mem_desc env.ibv_reg_mr env.config (dev.recv_buffer i) (buffer_bytes env.config)
          >>= λ recv.
              new_mem_descs (i + 1) n (record q { mem_desc = q.mem_desc ++ (send, recv) ∷ [] })

  -- The constructor. `helper_` is not set yet, and stands here as one without buffers.
  unfoldable pub new_qp : ℤ → ℤ → Result Qp
  unfolding new_recv_msg_buf new_mem_descs
  new_qp this_machine_id peer_machine_id = do
    bytes ← sge_bytes env.config
    quotient ← div64 bytes dev.sizeof_msg
    let max_recv_wr = min (quotient % 2 ^ 32) dev.max_qp_wr
    q ← new_recv_msg_buf max_recv_wr (record {
      this_machine_id = this_machine_id;
      peer_machine_id = peer_machine_id;
      helper = new env.config env.ibv_post_send dev.any_id dev.any_record [];
      mem_desc = [];
      msg_mrs = [];
      recv_msg_buf = [];
      send_msg_buf = [];
      recv_posted = [];
      read_done_cbs = [];
    })
    new_mem_descs 0 (pos_part env.config.register_buffer_num) q
