-- ===== src/Ibverbs/Qp/Sending.antt =====
-- comm_network/ibverbs/ibverbs_qp.cpp: a message from `PostSendRequest` to `SendDone`.
use comm_network.Prelude.{
  ℕ, zero, suc, ◌+◌, ◌≤◌, ◌<◌, ◌≡◌, ◌≢◌, refl, ap, ◌∙◌, List, [], ◌∷◌, ◌++◌, Option, none, some,
  Bool, true, ◌-◌, get_elem?-set, append-nil, eqb_self, Bool-cases, inl, inr, false, not, Result,
  ok, length, get_elem?, set, ◌==◌, ltb, leb, if◌then◌else◌, ◌>>=◌, arith,
}
use comm_network.Prelude.Int.{ℤ, pos, negsuc, ◌+ℤ◌, ltb_ℤ}
use comm_network.Prelude.Words.{sub64, wrap_int32, IsInt32, int_max}
use comm_network.Config.{max_msg_size}
use comm_network.Message.{UserMsg, user_message, num_type}
use comm_network.Ibverbs.Verbs.{Memory, SendWr, send_with_imm}
use comm_network.Ibverbs.Port.{
  WorkRequestId, find_id, erase_id, delete_work_request_id, new_work_request_id, post_send,
}
use comm_network.Ibverbs.Port.Writes.{Accepts}
use comm_network.Ibverbs.Qp.{
  Env, MsgBuf, call_cb, Called, called_cb, Endpoint, read_bytes, read_msg,
  get_one_send_msg_mr_from_buf, set_msg_buf, post_msg, post_send_request, msg_of, delete_id,
  send_done,
}

-- Buffer b is next in the pool, holds `buf`, and the send queue has room.
pub record Ready (env : Env) (e : Endpoint) (b : ℕ) (rest : List ℕ) (buf : MsgBuf) : Type 0 where
  pub pool : e.qp.send_msg_buf ≡ b ∷ rest
  pub there : get_elem? e.qp.msg_mrs b ≡ some buf
  pub room : Accepts env.ibv_post_send

-- The request that carries buffer b, and the endpoint after it is posted.
abbrev pub msg_wr : ℤ → MsgBuf → Endpoint → SendWr
msg_wr key buf e = record {
  wr_id = e.port.next_id;
  sge = buf.sge;
  opcode = send_with_imm;
  imm_data = key;
  remote_addr = 0;
  rkey = 0;
}

abbrev pub filled : ℤ → List ℕ → Option ℕ → MsgBuf → MsgBuf
filled key payload cb buf = record buf { msg_type_key = key; payload = payload; cb = cb }

abbrev pub msg_id : ℕ → WorkRequestId
msg_id b = record { outstanding_sge_cnt = pos 0; msg_mr = some b }

abbrev pub sending : ℤ → List ℕ → Option ℕ → ℕ → List ℕ → MsgBuf → Endpoint → Endpoint
sending key payload cb b rest buf e = record e {
  port = record (e.port) {
    live = (e.port.next_id, msg_id b) ∷ e.port.live;
    next_id = suc e.port.next_id;
    posted = e.port.posted ++ msg_wr key buf e ∷ [];
  };
  qp = record (e.qp) {
    send_msg_buf = rest;
    msg_mrs = set e.qp.msg_mrs b (filled key payload cb buf);
  };
}

-- What a callback leaves in `called`.
abbrev pub calls_of : Option ℕ → List Called
calls_of none = []
calls_of (some cb) = called_cb cb ∷ []

-- What the completion of a send calls.
called_lem :
    (key : ℤ) (cb : Option ℕ) (e : Endpoint)
    → (if not (ltb_ℤ key num_type) then call_cb cb e else e)
      ≡ record e { called = e.called ++ (if ltb_ℤ key num_type then [] else calls_of cb) }
called_lem key none e = elim (Bool-cases (ltb_ℤ key num_type)) [
  | inl y ↦ rw (y, append-nil e.called) refl
  | inr n ↦ rw (n, append-nil e.called) refl
]
called_lem key (some c) e = elim (Bool-cases (ltb_ℤ key num_type)) [
  | inl y ↦ rw (y, append-nil e.called) refl
  | inr n ↦ rw n refl
]

module _ (env : Env) (key : ℤ) (payload : List ℕ) (cb : Option ℕ) (b : ℕ) (rest : List ℕ)
    (buf : MsgBuf) (e : Endpoint) where
  pub post_msg_lem :
      Ready env e b rest buf
      → leb (length payload) (sub64 (max_msg_size env.config) 8) ≡ true
      → post_msg env key payload cb e ≡ ok (sending key payload cb b rest buf e)
  unfolding post_msg get_one_send_msg_mr_from_buf set_msg_buf new_work_request_id post_send
  post_msg_lem ready fits = rw (
    ready.pool,
    ready.there,
    fits,
    get_elem?-set e.qp.msg_mrs b (filled key payload cb buf) ready.there,
    ready.room e.port.posted (msg_wr key buf e),
  )

  -- What the id of the request leads to.
  pub msg_of-sending :
      Ready env e b rest buf
      → msg_of env e.port.next_id (sending key payload cb b rest buf e)
        ≡ ok (b, filled key payload cb buf)
  unfolding msg_of find_id
  msg_of-sending ready = rw (
    eqb_self e.port.next_id,
    get_elem?-set e.qp.msg_mrs b (filled key payload cb buf) ready.there,
  )

  -- The endpoint once the message is sent: `calls` is what was called meanwhile.
  abbrev pub sent_state : List Called → Endpoint
  sent_state calls = record e {
    port = record (e.port) {
      next_id = suc e.port.next_id;
      posted = e.port.posted ++ msg_wr key buf e ∷ [];
    };
    qp = record (e.qp) {
      send_msg_buf = rest ++ b ∷ [];
      msg_mrs = set e.qp.msg_mrs b (filled key payload cb buf);
    };
    called = e.called ++ calls;
  }

  pub send_done_lem :
      Ready env e b rest buf
      → send_done env e.port.next_id (sending key payload cb b rest buf e)
        ≡ ok (sent_state (if ltb_ℤ key num_type then [] else calls_of cb))
  unfolding send_done delete_id delete_work_request_id find_id erase_id
  send_done_lem ready = rw (
    msg_of-sending ready,
    called_lem key cb (sending key payload cb b rest buf e),
    eqb_self e.port.next_id,
  )

length-read_bytes : (a n : ℕ) (m : Memory) → length (read_bytes a n m) ≡ n
unfolding read_bytes
length-read_bytes a zero m = refl
length-read_bytes a (suc n) m = ap suc (length-read_bytes (a + 1) n m)

-- A type that the user may choose: negative types, and the three that the sum with `kNumType` takes
-- past the greatest `int32_t`, are not.
abbrev pub is_user_type : ℤ → Bool
is_user_type (pos t) = ltb t (int_max - 2)
is_user_type (negsuc t) = false

ltb_ℤ-key : (t : ℤ) → IsInt32 t → ltb_ℤ (wrap_int32 (num_type +ℤ t)) num_type ≡ not (is_user_type t)
ltb_ℤ-key (pos t) h = ground (arith, h)
ltb_ℤ-key (negsuc t) h = ground (arith, h)

read_msg_lem :
    (env : Env) (m : Memory) (u : UserMsg) (cb : Option ℕ) (e : Endpoint)
    → u.ptr ≢ 0
    → 0 < u.bytes
    → (k : ℤ × List ℕ × Option ℕ × Endpoint → Result Endpoint)
    → (read_msg env m (user_message u cb) e >>= k)
      ≡ k (wrap_int32 (num_type +ℤ u.msg_type), read_bytes u.ptr u.bytes m, cb, e)
unfolding read_msg
read_msg_lem env m u cb e ptr some_bytes k =
    let there : (u.ptr == 0) ≡ false = ground (arith, ptr) in
    let full : ltb 0 u.bytes ≡ true = ground (arith, some_bytes) in rw (there, full) refl

swapped :
    (c : Bool) (calls : List Called) → (if not c then [] else calls) ≡ (if c then calls else [])
swapped true calls = refl
swapped false calls = refl

-- A user message whose bytes fit, posted from a pool of message buffers that is not empty on a queue
-- that accepts it: `PostSendRequest` takes the first buffer, fills it with the bytes and the type,
-- and posts one request, whose completion calls the user's callback, once and exactly if
-- the type is not negative and not one of the three greatest, whose sum with `kNumType` wraps; it
-- deletes the id, and puts the buffer at the end of the pool.
pub send_done-post_send_request :
    (env : Env) (m : Memory) (u : UserMsg) (cb : Option ℕ) (e : Endpoint) (b : ℕ) (rest : List ℕ)
    (buf : MsgBuf)
    → Ready env e b rest buf
    → IsInt32 u.msg_type
    → u.ptr ≢ 0
    → 0 < u.bytes
    → u.bytes ≤ sub64 (max_msg_size env.config) 8
    → let key = wrap_int32 (num_type +ℤ u.msg_type) in
      let payload = read_bytes u.ptr u.bytes m in
      (post_send_request env m (user_message u cb) e ≡ ok (sending key payload cb b rest buf e))
      × (send_done env e.port.next_id (sending key payload cb b rest buf e)
          ≡ ok (
              sent_state env key payload cb b rest buf e
                (if is_user_type u.msg_type then calls_of cb else [])))
unfolding post_send_request
send_done-post_send_request env m u cb e b rest buf ready int32 ptr some_bytes fits =
    let key : ℤ = wrap_int32 (num_type +ℤ u.msg_type) in
    let payload : List ℕ = read_bytes u.ptr u.bytes m in
    let room : leb (length payload) (sub64 (max_msg_size env.config) 8) ≡ true =
      ground (arith, length-read_bytes u.ptr u.bytes m, fits) in
    (
      read_msg_lem env m u cb e ptr some_bytes (λ r. post_msg env (r.0) (r.1) (r.2) (r.3))
          ∙ post_msg_lem env key payload cb b rest buf e ready room,
      send_done_lem env key payload cb b rest buf e ready
          ∙ ap
              (λ t. ok (sent_state env key payload cb b rest buf e (if t then [] else calls_of cb)))
              (ltb_ℤ-key u.msg_type int32)
          ∙ ap (λ c. ok (sent_state env key payload cb b rest buf e c))
              (swapped (is_user_type u.msg_type) (calls_of cb)),
    )
