-- ===== src/Ibverbs/Poller.antt =====
-- comm_network/ibverbs/ibverbs_poller.{h,cpp}: how the poller thread is stopped. `poll_exit_flag_`
-- is an `atomic_flag`, so `test_and_set` and `clear` are one step each; the poller thread and the
-- thread in `Stop` take their steps in any order. What a round does with the completions it finds
-- is one step here, and it does not touch the flag.
pub mod Exit
mod Tests
use comm_network.Prelude.{Bool, true, false, List, [], ◌∷◌, if◌then◌else◌}

-- Where `PollCQ` stands: before its `test_and_set`, before `clear`, in the round, or returned.
pub data PollPc : Type 0 where
  testing clearing polling exited : PollPc

-- `is_stopped`: the loop of `Stop` is over, and it waits in `join`.
pub record PollerState : Type 0 where
  pub poll_exit_flag : Bool
  pub poll_pc : PollPc
  pub is_stopped : Bool

-- After `Start`.
abbrev pub start : PollerState
start = record { poll_exit_flag = false; poll_pc = testing; is_stopped = false }

poll_at : PollPc → PollerState → PollerState
poll_at testing s =
    if s.poll_exit_flag
    then record s { poll_pc = exited }
    else record s { poll_exit_flag = true; poll_pc = clearing }
poll_at clearing s = record s { poll_exit_flag = false; poll_pc = polling }
poll_at polling s = record s { poll_pc = testing }
poll_at exited s = s

-- A step of `PollCQ`.
pub poll_cq : PollerState → PollerState
unfolding poll_at
poll_cq s = poll_at s.poll_pc s

-- A round of the loop of `Stop`.
pub stop : PollerState → PollerState
stop s =
    if s.is_stopped
    then s
    else (if s.poll_exit_flag then s else record s { poll_exit_flag = true; is_stopped = true })

pub data Move : Type 0 where
  polls stops : Move

pub move : Move → PollerState → PollerState
unfolding poll_cq stop
move polls s = poll_cq s
move stops s = stop s

pub run : List Move → PollerState → PollerState
unfolding move
run [] s = s
run (m ∷ ms) s = run ms (move m s)
