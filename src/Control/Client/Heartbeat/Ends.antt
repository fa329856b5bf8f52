-- ===== src/Control/Client/Heartbeat/Ends.antt =====
-- comm_network/control/ctrl_client.cpp: how the heartbeat's thread returns.
use Prim.Native.String.{String}
use comm_network.Prelude.{
  ℕ, zero, suc, ◌+◌, ◌-◌, ◌≤◌, ◌≡◌, ◌≢◌, refl, ap, ◌∙◌, List, [], ◌∷◌, ◌++◌, none, true, ok,
  get_elem?, length, get_elem?-lt, arith, >>=-eq-ok,
}
use comm_network.Config.{Machine}
use comm_network.Control.Server.{load_server_request}
use comm_network.Control.Client.{StatusCode, status_ok}
use comm_network.Control.Client.Heartbeat.{
  HeartbeatPc, reading, sleeping, ended, calling, Heartbeat, start_heartbeat, stop_heartbeat,
  beat_at, beat, beats, Turn, thread, destructor, take_turns,
}
use comm_network.Control.Client.Heartbeat.Rounds.{beats-suc, beat-next, beat-end}

-- The steps that the thread takes before it returns, once the flag is up.
abbrev pub steps_left : ℕ → HeartbeatPc → ℕ
steps_left n reading = 1
steps_left n (calling i) = n - i + 3
steps_left n sleeping = 2
steps_left n ended = 0

past_end : (l : List String) (i : ℕ) → length l ≤ i → get_elem? l i ≡ none
past_end [] i h = refl
past_end (x ∷ l) zero h = absurd (omega arith)
past_end (x ∷ l) (suc i) h = past_end l i (omega arith)

module _ (call_method : ℕ → StatusCode) (machine : List Machine) (stubs : List String)
    (up : (k : ℕ) → call_method k ≡ status_ok) where
  -- A thread that sleeps reads the flag and returns.
  sleeping-ended :
      (s : Heartbeat)
      → s.heartbeat_pc ≡ sleeping
      → s.need_heartbeat_thread_stop ≡ true
      → beats call_method machine stubs 2 s ≡ ok (record s { heartbeat_pc = ended })
  unfolding beats beat
  sleeping-ended s pc up_flag = rw (pc, up_flag) refl

  calling-ended :
      (k i : ℕ) (s : Heartbeat)
      → length stubs ≡ length machine
      → length stubs - i ≡ k
      → s.heartbeat_pc ≡ calling i
      → s.need_heartbeat_thread_stop ≡ true
      → (s' : Heartbeat) × (beats call_method machine stubs (k + 3) s ≡ ok s')
        × (s'.heartbeat_pc ≡ ended)
  calling-ended zero i s same left pc raised =
      let tired : Heartbeat = record s { heartbeat_pc = sleeping } in
      (
        record s { heartbeat_pc = ended },
        beats-suc call_method machine stubs 2 s tired
              (beat-end call_method machine stubs i s (past_end stubs i (omega (arith, left))) pc)
            ∙ sleeping-ended tired refl raised,
        refl,
      )
  calling-ended (suc k) i s same left pc raised =
      let (stub, at_s) = get_elem?-lt stubs i (omega (arith, left)) in
      let (m, at_m) = get_elem?-lt machine i (omega (arith, left, same)) in
      let next : Heartbeat = record s {
        heartbeat_pc = calling (i + 1);
        calls = s.calls ++ (stub, load_server_request m.addr) ∷ [];
      } in
      let (s', e, there) = calling-ended k (i + 1) next same (omega (arith, left)) refl raised in
      (
        s',
        ap (λ n. beats call_method machine stubs n s) {y = suc (k + 3)} (omega arith)
            ∙ beats-suc call_method machine stubs (k + 3) s next
                (beat-next call_method machine stubs i stub m s up at_s at_m pc)
            ∙ e,
        there,
      )

  raised-ended :
      (pc : HeartbeatPc) (s : Heartbeat)
      → length stubs ≡ length machine
      → s.heartbeat_pc ≡ pc
      → s.need_heartbeat_thread_stop ≡ true
      → (s' : Heartbeat) × (beats call_method machine stubs (steps_left (length stubs) pc) s
          ≡ ok s')
        × (s'.heartbeat_pc ≡ ended)
  unfolding beats beat
  raised-ended reading s same pc raised =
      (record s { heartbeat_pc = ended }, rw (pc, raised) refl, refl)
  raised-ended (calling i) s same pc raised =
      calling-ended (length stubs - i) i s same refl pc raised
  raised-ended sleeping s same pc raised =
      (record s { heartbeat_pc = ended }, sleeping-ended s pc raised, refl)
  raised-ended ended s same pc raised = (s, refl, pc)

-- The thread has not returned unless it was told to.
abbrev ToldTo : Heartbeat → Type 0
ToldTo s = s.heartbeat_pc ≡ ended → s.need_heartbeat_thread_stop ≡ true

module _ (call_method : ℕ → StatusCode) (machine : List Machine) (stubs : List String) where
  beat_at-ToldTo :
      (pc : HeartbeatPc) (s : Heartbeat) {s' : Heartbeat}
      → s.heartbeat_pc ≡ pc
      → ToldTo s
      → beat_at call_method machine stubs pc s ≡ ok s'
      → ToldTo s'
  beat_at-ToldTo reading s here h e = ground arith
  beat_at-ToldTo (calling i) s here h e = ground arith
  beat_at-ToldTo sleeping s here h e = ground arith
  beat_at-ToldTo ended s here h e = ground arith

  take_turns-ToldTo :
      (ts : List Turn) (s : Heartbeat) {s' : Heartbeat}
      → ToldTo s
      → take_turns call_method machine stubs ts s ≡ ok s'
      → ToldTo s'
  unfolding take_turns beat stop_heartbeat
  take_turns-ToldTo [] s h e = ground arith
  take_turns-ToldTo (thread ∷ ts) s h e =
      let (s1, e1, e2) = >>=-eq-ok (beat call_method machine stubs s) _ e in
      take_turns-ToldTo ts s1 (beat_at-ToldTo s.heartbeat_pc s refl h e1) e2
  take_turns-ToldTo (destructor ∷ ts) s h e = take_turns-ToldTo ts (stop_heartbeat s) (λ _. refl) e

steps_left_bound : (n : ℕ) (pc : HeartbeatPc) → steps_left n pc ≤ n + 3
steps_left_bound n reading = omega arith
steps_left_bound n (calling i) = omega arith
steps_left_bound n sleeping = omega arith
steps_left_bound n ended = omega arith

reading_not_ended : reading ≢ ended
reading_not_ended e = cc

-- Whatever turns the thread and the destructor have taken from the start on, if all servers answer:
-- the thread has not returned unless the flag is up; and once the destructor raises it, the thread
-- returns after the steps that are left of its round, at most one for each stub and three more.
pub heartbeat-Ends :
    (call_method : ℕ → StatusCode) (machine : List Machine) (stubs : List String) (ts : List Turn)
    {s : Heartbeat}
    → ((k : ℕ) → call_method k ≡ status_ok)
    → length stubs ≡ length machine
    → take_turns call_method machine stubs ts start_heartbeat ≡ ok s
    → (s.heartbeat_pc ≡ ended → s.need_heartbeat_thread_stop ≡ true)
      × (steps_left (length stubs) s.heartbeat_pc ≤ length stubs + 3)
      × ((s' : Heartbeat) × (beats call_method machine stubs
              (steps_left (length stubs) s.heartbeat_pc)
              (stop_heartbeat s)
            ≡ ok s')
          × (s'.heartbeat_pc ≡ ended))
unfolding stop_heartbeat
heartbeat-Ends call_method machine stubs ts {s} up same reached = (
  take_turns-ToldTo call_method machine stubs ts start_heartbeat (λ e. absurd (reading_not_ended e))
      reached,
  steps_left_bound (length stubs) s.heartbeat_pc,
  raised-ended call_method machine stubs up s.heartbeat_pc (stop_heartbeat s) same refl refl,
)
