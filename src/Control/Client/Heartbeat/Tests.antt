-- ===== src/Control/Client/Heartbeat/Tests.antt =====
-- Tests of the heartbeat thread.
use Prim.Native.String.{String}
use comm_network.Prelude.{ℕ, ◌+◌, ◌≤◌, ◌≡◌, refl, List, [], ◌∷◌, true, ok}
use comm_network.Prelude.Int.{pos, negsuc}
use comm_network.Config.{Machine}
use comm_network.Control.Client.{StatusCode, status_ok}
use comm_network.Control.Client.Heartbeat.{
  Heartbeat, calling, ended, start_heartbeat, stop_heartbeat, beat, beats, Turn, thread, take_turns,
}
use comm_network.Control.Client.Heartbeat.Ends.{steps_left, heartbeat-Ends}
use comm_network.Control.Client.Heartbeat.Rounds.{round}

abbrev machine : List Machine
machine =
    record { id = pos 0; addr = "a"; ctrl_port_agent = negsuc 0; data_port_agent = negsuc 0 }
    ∷ record { id = pos 1; addr = "b"; ctrl_port_agent = negsuc 0; data_port_agent = negsuc 0 }
    ∷ []

abbrev stubs : List String
stubs = "a:7" ∷ "b:7" ∷ []

abbrev up : ℕ → StatusCode
up k = status_ok

-- In the midst of a round.
abbrev turns : List Turn
turns = thread ∷ thread ∷ []

abbrev in_round : Heartbeat
in_round = record start_heartbeat { heartbeat_pc = calling 1; calls = round ("a:7" ∷ []) machine }

turns-run : take_turns up machine stubs turns start_heartbeat ≡ ok in_round
unfolding take_turns beat
turns-run = refl

heartbeat-Ends_example :
    (in_round.heartbeat_pc ≡ ended → in_round.need_heartbeat_thread_stop ≡ true)
    × (steps_left 2 in_round.heartbeat_pc ≤ 2 + 3)
    × ((s' : Heartbeat) × (beats up machine stubs
            (steps_left 2 in_round.heartbeat_pc)
            (stop_heartbeat in_round)
          ≡ ok s')
        × (s'.heartbeat_pc ≡ ended))
heartbeat-Ends_example = heartbeat-Ends up machine stubs turns (λ k. refl) refl turns-run
