-- ===== src/Control/Client.antt =====
-- comm_network/control/ctrl_client.{h,cpp}: how a client connects to the control servers, and to
-- which of them each call goes. A stub is the address that it was made with; a call is that address
-- with the request. The status of the k-th attempt to call LoadServer at machine i, the hash of a
-- text and the printing of a number are parameters.
pub mod Retries
pub mod Routes
pub mod Heartbeat
mod Tests
use Prim.Native.String.{String, ◌++◌ as append}
use comm_network.Prelude.{
  ℕ, zero, suc, ◌+◌, ◌%◌, List, [], ◌∷◌, ◌++◌, Option, none, Result, ok, abort, check, log_fatal,
  divide_by_zero, or_abort, out_of_range, get_elem?, length, ltb, ◌==◌, if◌then◌else◌, ◌>>=◌, ◌>>◌,
}
use comm_network.Prelude.Int.{ℤ, negsuc, eqb_ℤ}
use comm_network.Prelude.Words.{to_int32}
use comm_network.Config.{Machine, CommNetConfig, total_machine_num}
use comm_network.Control.Server.{
  CtrlRequest, CtrlResponse, barrier_request, push_kv_request, clear_kv_request, pull_kv_request,
  pull_kv_response,
}

-- The `grpc::StatusCode`s that `LoadServer` tells apart.
pub data StatusCode : Type 0 where
  status_ok unavailable other_status : StatusCode

abbrev pub max_retry_num : ℕ
max_retry_num = 60

-- The loop of `LoadServer`, with `rounds` attempts left; the value is `retry_idx` at its end.
pub retry : (ℕ → StatusCode) → ℕ → ℕ → Result ℕ
retry call_method zero retry_idx = ok retry_idx
retry call_method (suc rounds) retry_idx =
    let rest = retry call_method rounds (retry_idx + 1) in
    elim (call_method retry_idx) [
      | status_ok ↦ ok retry_idx
      | unavailable ↦ rest
      | other_status ↦ abort log_fatal
    ]

unfoldable pub load_server : (ℕ → StatusCode) → Result (Unit {0})
unfolding retry
load_server call_method = do
  retry_idx ← retry call_method max_retry_num 0
  check (ltb retry_idx max_retry_num)

module _ (to_string : ℤ → String) (hash : String → ℕ) (config : CommNetConfig) where
  abbrev pub stub_port : Machine → ℤ
  stub_port mchn =
      if eqb_ℤ mchn.ctrl_port_agent (negsuc 0) then config.ctrl_port else mchn.ctrl_port_agent

  abbrev pub stub_addr : Machine → String
  stub_addr mchn = append mchn.addr (append ":" (to_string (stub_port mchn)))

  -- The loop of the constructor, from machine i on.
  pub connect : (ℕ → ℕ → StatusCode) → ℕ → List Machine → List String → Result (List String)
  unfolding load_server
  connect call_method i [] stubs = ok stubs
  connect call_method i (mchn ∷ rest) stubs = load_server (call_method i) >>= λ _.
      connect call_method (i + 1) rest (stubs ++ stub_addr mchn ∷ [])

  unfoldable pub new : (ℕ → ℕ → StatusCode) → Result (List String)
  unfolding connect
  new call_method = connect call_method 0 config.machine []

  unfoldable pub get_responsible_stub : String → List String → Result String
  get_responsible_stub key stubs =
      if total_machine_num config == 0
      then abort divide_by_zero
      else or_abort out_of_range (get_elem? stubs (hash key % total_machine_num config))

  -- `GetMasterStub`
  unfoldable pub get_master_stub : List String → Result String
  get_master_stub stubs = or_abort out_of_range (get_elem? stubs 0)

  pub barrier_num : String → ℤ → List String → Result (String × CtrlRequest)
  unfolding get_master_stub
  barrier_num name num stubs = do stub ← get_master_stub stubs; ok (stub, barrier_request name num)

  -- `Barrier` with its default number.
  pub barrier : String → List String → Result (String × CtrlRequest)
  unfolding barrier_num
  barrier name stubs = barrier_num name (to_int32 (total_machine_num config)) stubs

  -- `PushKV` with a `VSetter`, which is given the empty text of a new request.
  unfoldable pub push_kv_by :
      String → (String → String) → List String → Result (String × CtrlRequest)
  unfolding get_responsible_stub
  push_kv_by k v_setter stubs = do
    stub ← get_responsible_stub k stubs
    ok (stub, push_kv_request k (v_setter ""))

  unfoldable pub push_kv : String → String → List String → Result (String × CtrlRequest)
  unfolding push_kv_by
  push_kv k v stubs = push_kv_by k (λ o. v) stubs

  -- `PushKV` of a message, with protobuf's `SerializeToString`.
  unfoldable pub push_msg {ℓ} :
      {M : Type ℓ} → (M → String) → String → M → List String → Result (String × CtrlRequest)
  unfolding push_kv_by
  push_msg serialize k msg stubs = push_kv_by k (λ o. serialize msg) stubs

  pub clear_kv : String → List String → Result (String × CtrlRequest)
  unfolding get_responsible_stub
  clear_kv k stubs = do stub ← get_responsible_stub k stubs; ok (stub, clear_kv_request k)

  unfoldable pub pull_kv : String → List String → Result (String × CtrlRequest)
  unfolding get_responsible_stub
  pull_kv k stubs = do stub ← get_responsible_stub k stubs; ok (stub, pull_kv_request k)

-- `PullKV` into a message: what the `VGetter` makes of the response, with protobuf's
-- `ParseFromString`.
abbrev pub parse_response {ℓ} : {M : Type ℓ} → (String → Option M) → CtrlResponse → Option M
parse_response parse (pull_kv_response val) = parse val
parse_response parse _ = none
