-- ===== src/Ibverbs/Poller/Exit.antt =====
-- comm_network/ibverbs/ibverbs_poller.cpp: how `PollCQ` and `Stop` come to their ends.
use comm_network.Prelude.{◌≡◌, ◌≢◌, refl, ◌⊎◌, true, false, List, [], ◌∷◌, arith}
use comm_network.Ibverbs.Poller.{
  PollPc, testing, clearing, polling, exited, PollerState, start, poll_at, poll_cq, stop, Move,
  polls, stops, move, run,
}

-- The flag is up exactly while the poller is about to clear it, or once `Stop` has raised it.
abbrev IsSound : PollerState → Type 0
IsSound s =
    (s.is_stopped ≡ true → (s.poll_exit_flag ≡ true) × (s.poll_pc ≢ clearing))
    × (s.is_stopped ≡ false → s.poll_pc ≢ exited)
    × (s.is_stopped ≡ false → s.poll_exit_flag ≡ true → s.poll_pc ≡ clearing)
    × (s.poll_pc ≡ clearing → s.poll_exit_flag ≡ true)

-- A poller that has returned was told to, one that is told to returns within two steps, and one
-- that is not can be told at once or after its next step.
abbrev pub Exits : PollerState → Type 0
Exits s =
    (s.poll_pc ≡ exited → s.is_stopped ≡ true)
    × (s.is_stopped ≡ true → (poll_cq (poll_cq s)).poll_pc ≡ exited)
    × (s.is_stopped ≡ false → ((stop s).is_stopped ≡ true) ⊎ ((stop (poll_cq s)).is_stopped ≡ true))

poll_cq-IsSound : (pc : PollPc) (s : PollerState) → s.poll_pc ≡ pc → IsSound s → IsSound (poll_cq s)
unfolding poll_cq poll_at
poll_cq-IsSound testing s e h = ground arith
poll_cq-IsSound clearing s e h = ground arith
poll_cq-IsSound polling s e h = ground arith
poll_cq-IsSound exited s e h = ground arith

stop-IsSound : (s : PollerState) → IsSound s → IsSound (stop s)
unfolding stop
stop-IsSound s h = ground arith

run-IsSound : (ms : List Move) (s : PollerState) → IsSound s → IsSound (run ms s)
unfolding run move
run-IsSound [] s h = h
run-IsSound (polls ∷ ms) s h = run-IsSound ms (poll_cq s) (poll_cq-IsSound s.poll_pc s refl h)
run-IsSound (stops ∷ ms) s h = run-IsSound ms (stop s) (stop-IsSound s h)

start-IsSound : IsSound start
start-IsSound = ground arith

sound-Exits : (pc : PollPc) (s : PollerState) → s.poll_pc ≡ pc → IsSound s → Exits s
unfolding poll_cq poll_at stop
sound-Exits testing s e h = ground arith
sound-Exits clearing s e h = ground arith
sound-Exits polling s e h = ground arith
sound-Exits exited s e h = ground arith

-- Over any interleaving of the two threads from `Start` on: the poller has not returned unless
-- `Stop` raised the flag; once it has, the poller returns within two of its own steps; and as long
-- as it has not, the next round of `Stop` raises it, or the one after the poller's next step does.
pub poller-Exits : (ms : List Move) → Exits (run ms start)
poller-Exits ms =
    sound-Exits (run ms start).poll_pc (run ms start) refl (run-IsSound ms start start-IsSound)
