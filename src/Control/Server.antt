-- ===== src/Control/Server.antt =====
-- comm_network/control/ctrl_server.{h,cpp}, ctrl_call.h and control.proto: the handlers of the
-- control server. They run on the one thread of `HandleRpcs`, each to its end, so a handler is one
-- step. A call object is a number; `responses` is what `SendResponse` has finished, in order, and
-- `requested` the methods that `EnqueueRequest` has armed again. Text is a `String`, and a map a
-- list of entries.
pub mod Kv
pub mod Barrier
pub mod Loads
pub mod Answers
pub mod Cells
pub mod Rpcs
mod Tests
use Prim.Native.String.{String}
use text.Mathlib.Text.{◌==◌ as str_eq}
use comm_network.Prelude.{
  ℕ, List, [], ◌∷◌, ◌++◌, map, Option, none, some, Bool, true, false, Result, ok, abort, check,
  length, ◌==◌, if◌then◌else◌, ◌>>=◌, ◌>>◌,
}
use comm_network.Prelude.Int.{ℤ, eqb_ℤ}
use comm_network.Prelude.Words.{to_size}
use comm_network.Prelude.Assoc.{lookup, assign, erase}

pub data CtrlMethod : Type 0 where
  load_server barrier push_kv clear_kv pull_kv : CtrlMethod

pub data CtrlRequest : Type 0 where
  load_server_request : (addr : String) → CtrlRequest
  barrier_request : (name : String) (num : ℤ) → CtrlRequest
  push_kv_request : (key val : String) → CtrlRequest
  clear_kv_request : (key : String) → CtrlRequest
  pull_kv_request : (key : String) → CtrlRequest

pub data CtrlResponse : Type 0 where
  load_server_response barrier_response push_kv_response clear_kv_response : CtrlResponse
  pull_kv_response : (val : String) → CtrlResponse

pub record CtrlServer : Type 0 where
  pub barrier_calls : List (String × (List ℕ × ℤ))
  pub kv : List (String × String)
  pub pending_kv_calls : List (String × List ℕ)
  pub is_first_connect : Bool
  pub this_machine_addr : String
  pub responses : List (ℕ × CtrlResponse)
  pub requested : List CtrlMethod

abbrev pub new : CtrlServer
new = record {
  barrier_calls = [];
  kv = [];
  pending_kv_calls = [];
  is_first_connect = true;
  this_machine_addr = "";
  responses = [];
  requested = [];
}

abbrev pub send_responses : List (ℕ × CtrlResponse) → CtrlServer → CtrlServer
send_responses rs s = record s { responses = s.responses ++ rs }

abbrev pub send_response : ℕ → CtrlResponse → CtrlServer → CtrlServer
send_response call r s = send_responses ((call, r) ∷ []) s

abbrev pub enqueue_request : CtrlMethod → CtrlServer → CtrlServer
enqueue_request m s = record s { requested = s.requested ++ m ∷ [] }

abbrev pub answer_all : CtrlResponse → List ℕ → List (ℕ × CtrlResponse)
answer_all r calls = map (λ call. (call, r)) calls

-- `std::unordered_map::count`
abbrev pub is_some {ℓ} : {A : Type ℓ} → Option A → Bool
is_some none = false
is_some (some _) = true

abbrev pub is_none {ℓ} : {A : Type ℓ} → Option A → Bool
is_none none = true
is_none (some _) = false

abbrev pub or_empty : Option (List ℕ) → List ℕ
or_empty none = []
or_empty (some calls) = calls

pub handle_load_server : ℕ → String → CtrlServer → Result CtrlServer
handle_load_server call addr s = do
  s' ←
      if s.is_first_connect
      then ok (record s { this_machine_addr = addr; is_first_connect = false })
      else (check (str_eq addr s.this_machine_addr) >> ok s)
  ok (enqueue_request load_server (send_response call load_server_response s'))

-- The entry of the barrier, made first if there is none.
abbrev pub barrier_entry : Option (List ℕ × ℤ) → ℤ → List ℕ × ℤ
barrier_entry none num = ([], num)
barrier_entry (some e) num = e

pub handle_barrier : ℕ → String → ℤ → CtrlServer → Result CtrlServer
handle_barrier call name num s = do
  let (calls, expected) = barrier_entry (lookup name s.barrier_calls) num
  check (eqb_ℤ num expected)
  let calls' = calls ++ call ∷ []
  let s' =
      if length calls' == to_size expected
      then send_responses (answer_all barrier_response calls')
          (record s { barrier_calls = erase name s.barrier_calls })
      else record s { barrier_calls = assign name (calls', expected) s.barrier_calls }
  ok (enqueue_request barrier s')

pub handle_push_kv : ℕ → String → String → CtrlServer → Result CtrlServer
handle_push_kv call k v s = do
  check (is_none (lookup k s.kv))
  let pending = or_empty (lookup k s.pending_kv_calls)
  let s' =
      send_responses (answer_all (pull_kv_response v) pending)
        (record s { kv = assign k v s.kv; pending_kv_calls = erase k s.pending_kv_calls })
  ok (enqueue_request push_kv (send_response call push_kv_response s'))

pub handle_clear_kv : ℕ → String → CtrlServer → Result CtrlServer
handle_clear_kv call k s = do
  check (is_some (lookup k s.kv))
  let s' = record s { kv = erase k s.kv }
  check (is_none (lookup k s.pending_kv_calls))
  ok (enqueue_request clear_kv (send_response call clear_kv_response s'))

-- The two branches of `PullKV`.
abbrev pub pull : ℕ → String → CtrlServer → Option String → CtrlServer
pull call k s (some v) = send_response call (pull_kv_response v) s
pull call k s none = record s {
  pending_kv_calls =
      assign k (or_empty (lookup k s.pending_kv_calls) ++ call ∷ []) s.pending_kv_calls;
}

pub handle_pull_kv : ℕ → String → CtrlServer → Result CtrlServer
handle_pull_kv call k s = ok (enqueue_request pull_kv (pull call k s (lookup k s.kv)))

pub handle : ℕ → CtrlRequest → CtrlServer → Result CtrlServer
unfolding handle_load_server handle_barrier handle_push_kv handle_clear_kv handle_pull_kv
handle call (load_server_request addr) s = handle_load_server call addr s
handle call (barrier_request name num) s = handle_barrier call name num s
handle call (push_kv_request k v) s = handle_push_kv call k v s
handle call (clear_kv_request k) s = handle_clear_kv call k s
handle call (pull_kv_request k) s = handle_pull_kv call k s

unfoldable pub run : List (ℕ × CtrlRequest) → CtrlServer → Result CtrlServer
unfolding handle
run [] s = ok s
run ((call, r) ∷ rest) s = handle call r s >>= λ s'. run rest s'
