-- ===== src/Ibverbs/CommNet/Setup.antt =====
-- Two machines for the tests: each has one queue pair, with message buffer 0 in the pool and
-- message buffer 1 posted for a message to come.
use comm_network.Prelude.{
  ℕ, ◌*◌, ◌≡◌, refl, zero, suc, List, [], ◌∷◌, none, some, Bool, true, false, ok, arith,
}
use comm_network.Prelude.Int.{ℤ, pos, negsuc}
use comm_network.Message.{WorkRecord, PleaseWrite, FreeBufferPair, Layout, IsLayout}
use comm_network.Ibverbs.Verbs.{Memory}
use comm_network.Ibverbs.Port.{Port, find_id}
use comm_network.Ibverbs.WriteHelper.{init_write_handle}
use comm_network.Ibverbs.Qp.{Env, MsgBuf, Qp, Endpoint, msg_of}
use comm_network.Ibverbs.Qp.Sending.{Ready, msg_id}
use comm_network.Ibverbs.CommNet.{Net, endpoint}
use comm_network.Ibverbs.CommNet.Receiving.{AcceptsRecv, Completes}
use comm_network.Ibverbs.Transfer.Setup.{config, accepting, asked_record}

abbrev pub put_int : ℤ → List ℕ → List ℕ
put_int (pos n) l = 0 ∷ n ∷ l
put_int (negsuc n) l = 1 ∷ n ∷ l

abbrev pub int_of : ℕ → ℕ → ℤ
int_of zero n = pos n
int_of (suc _) n = negsuc n

abbrev pub get_please_write : List ℕ → PleaseWrite
get_please_write (s ∷ n ∷ addr ∷ bytes ∷ _) = record {
  dst_machine_id = int_of s n;
  src_addr = addr;
  bytes = bytes;
}
get_please_write _ = record { dst_machine_id = pos 0; src_addr = 0; bytes = 0 }

abbrev pub flag : Bool → ℕ
flag true = 1
flag false = 0

abbrev pub flag_of : ℕ → Bool
flag_of zero = false
flag_of (suc _) = true

abbrev pub get_free_buffer : List ℕ → FreeBufferPair
get_free_buffer (s ∷ n ∷ t ∷ b ∷ last ∷ _) = record {
  src_machine_id = int_of s n;
  buffer_id = int_of t b;
  last_piece = flag_of last;
}
get_free_buffer _ = record { src_machine_id = pos 0; buffer_id = pos 0; last_piece = false }

abbrev pub layout : Layout
layout = record {
  please_write_size = 4;
  put_please_write = λ p. put_int p.dst_machine_id (p.src_addr ∷ p.bytes ∷ []);
  get_please_write = get_please_write;
  free_buffer_size = 5;
  put_free_buffer = λ f. put_int f.src_machine_id (put_int f.buffer_id (flag f.last_piece ∷ []));
  get_free_buffer = get_free_buffer;
}

pub layout-IsLayout : IsLayout layout
layout-IsLayout = record {
  get-put_please_write = λ p. ground arith;
  length-put_please_write = λ p. ground arith;
  get-put_free_buffer = λ f. ground arith;
  length-put_free_buffer = λ f. ground arith;
}

abbrev pub env : Env
env = record {
  config = config;
  ibv_post_send = accepting;
  ibv_post_recv = λ l w. 0;
  ibv_reg_mr = λ a n. some (record { lkey = 1; rkey = 2 });
  malloc = λ n. 1000 * n;
  layout = layout;
}

pub env-AcceptsRecv : AcceptsRecv env
env-AcceptsRecv l w = refl

abbrev pub buf_of : List ℕ → MsgBuf
buf_of payload = record {
  sge = record { addr = 1000; length = 100; lkey = 1 };
  msg_type_key = pos 0;
  payload = payload;
  cb = none;
}

-- The queue pair of a machine to its peer, with the message that has come in.
abbrev pub qp_of : ℤ → ℤ → List ℕ → Qp
qp_of this peer payload = record {
  this_machine_id = this;
  peer_machine_id = peer;
  helper = record {
    buffer_id = pos 0;
    pending_record_queue = [];
    cur_record_queue = [];
    idle_buffer_queue = [];
    cur_record = asked_record;
    cur_write_handle = init_write_handle;
    send_recv_pair = [];
  };
  mem_desc = [];
  msg_mrs = buf_of [] ∷ buf_of payload ∷ [];
  recv_msg_buf = 1 ∷ [];
  send_msg_buf = 0 ∷ [];
  recv_posted = 4 ∷ [];
  read_done_cbs = some 30 ∷ [];
}

abbrev pub port_of : List WorkRecord → Port
port_of records = record {
  live = (4, msg_id 1) ∷ [];
  next_id = 5;
  posted = [];
  read_queue = records;
}

abbrev pub end_of : ℤ → ℤ → List WorkRecord → List ℕ → Endpoint
end_of this peer records payload = record {
  port = port_of records;
  qp = qp_of this peer payload;
  called = [];
}

abbrev pub memory : Memory
memory a = a

-- Machine 0, and machine 1 after a message has come in.
abbrev pub reader : List WorkRecord → Net
reader records = record {
  machine = record { memory = memory; qp_vec = none ∷ some (port_of records) ∷ [] };
  qps = none ∷ some (qp_of (pos 0) (pos 1) []) ∷ [];
  msg_handlers = [];
  called = [];
}

abbrev pub holder : List ℕ → Net
holder payload = record {
  machine = record { memory = memory; qp_vec = some (port_of []) ∷ none ∷ [] };
  qps = some (qp_of (pos 1) (pos 0) payload) ∷ none ∷ [];
  msg_handlers = (pos 2, some 70) ∷ [];
  called = [];
}

pub reader_end :
    (records : List WorkRecord)
    → endpoint (pos 1) (reader records) ≡ ok (end_of (pos 0) (pos 1) records [])
unfolding endpoint
reader_end records = refl

pub holder_end :
    (payload : List ℕ) → endpoint (pos 0) (holder payload) ≡ ok (end_of (pos 1) (pos 0) [] payload)
unfolding endpoint
holder_end payload = refl

pub end-Ready :
    (this peer : ℤ) (records : List WorkRecord) (payload : List ℕ)
    → Ready env (end_of this peer records payload) 0 [] (buf_of [])
end-Ready this peer records payload = record { pool = refl; there = refl; room = λ l w. refl }

pub end-msg_of :
    (this peer : ℤ) (records : List WorkRecord) (payload : List ℕ)
    → msg_of env 4 (end_of this peer records payload) ≡ ok (1, buf_of payload)
unfolding msg_of find_id
end-msg_of this peer records payload = refl

pub end-Completes :
    (this peer : ℤ) (records : List WorkRecord) (payload : List ℕ)
    → Completes env 4 (end_of this peer records payload) 1 (buf_of payload)
unfolding find_id
end-Completes this peer records payload = record {
  found = end-msg_of this peer records payload;
  id = msg_id 1;
  live = refl;
  fresh = ground arith;
}
