-- ===== src/Control/Client/Heartbeat.antt =====
-- comm_network/control/ctrl_client.cpp: the heartbeat thread that the constructor of `CtrlClient`
-- starts, and the destructor that stops it. The two threads take their steps in any order; the
-- status of the k-th call is a parameter, and how long the thread sleeps is left out.
pub mod Ends
pub mod Rounds
mod Tests
use Prim.Native.String.{String}
use comm_network.Prelude.{
  ℕ, zero, suc, ◌+◌, List, [], ◌∷◌, ◌++◌, Option, none, some, Bool, true, false, Result, ok, abort,
  check_failed, or_abort, out_of_range, get_elem?, length, if◌then◌else◌, ◌>>=◌,
}
use comm_network.Config.{Machine}
use comm_network.Control.Server.{CtrlRequest, load_server_request}
use comm_network.Control.Client.{StatusCode, status_ok, unavailable, other_status}

-- Where the thread stands: before it reads the flag, before the call to stub i, in `sleep_for`, or
-- returned.
pub data HeartbeatPc : Type 0 where
  reading sleeping ended : HeartbeatPc
  calling : (i : ℕ) → HeartbeatPc

-- The flag, and the calls that were made so far, each with its stub.
pub record Heartbeat : Type 0 where
  pub heartbeat_pc : HeartbeatPc
  pub need_heartbeat_thread_stop : Bool
  pub calls : List (String × CtrlRequest)

abbrev pub start_heartbeat : Heartbeat
start_heartbeat = record { heartbeat_pc = reading; need_heartbeat_thread_stop = false; calls = [] }

-- `GRPC_CHECK`
abbrev pub grpc_check {ℓ} : {A : Type ℓ} → StatusCode → A → Result A
grpc_check status_ok a = ok a
grpc_check unavailable a = abort check_failed
grpc_check other_status a = abort check_failed

-- The first part of the destructor; what is left of it is to wait for the thread.
unfoldable pub stop_heartbeat : Heartbeat → Heartbeat
stop_heartbeat s = record s { need_heartbeat_thread_stop = true }

module _ (call_method : ℕ → StatusCode) (machine : List Machine) (stubs : List String) where
  abbrev pub call_stub : ℕ → Option String → Heartbeat → Result Heartbeat
  call_stub i none s = ok (record s { heartbeat_pc = sleeping })
  call_stub i (some stub) s = do
    mchn ← or_abort out_of_range (get_elem? machine i)
    grpc_check (call_method (length s.calls)) (record s {
      heartbeat_pc = calling (i + 1);
      calls = s.calls ++ (stub, load_server_request mchn.addr) ∷ [];
    })

  abbrev pub beat_at : HeartbeatPc → Heartbeat → Result Heartbeat
  beat_at reading s =
      if s.need_heartbeat_thread_stop
      then ok (record s { heartbeat_pc = ended })
      else ok (record s { heartbeat_pc = calling 0 })
  beat_at (calling i) s = call_stub i (get_elem? stubs i) s
  beat_at sleeping s = ok (record s { heartbeat_pc = reading })
  beat_at ended s = ok s

  -- A step of the thread.
  unfoldable pub beat : Heartbeat → Result Heartbeat
  beat s = beat_at s.heartbeat_pc s

  unfoldable pub beats : ℕ → Heartbeat → Result Heartbeat
  unfolding beat
  beats zero s = ok s
  beats (suc n) s = beat s >>= λ s'. beats n s'

-- Whose step is next.
pub data Turn : Type 0 where
  thread destructor : Turn

module _ (call_method : ℕ → StatusCode) (machine : List Machine) (stubs : List String) where
  unfoldable pub take_turns : List Turn → Heartbeat → Result Heartbeat
  unfolding beat stop_heartbeat
  take_turns [] s = ok s
  take_turns (thread ∷ ts) s = beat call_method machine stubs s >>= λ s'. take_turns ts s'
  take_turns (destructor ∷ ts) s = take_turns ts (stop_heartbeat s)
