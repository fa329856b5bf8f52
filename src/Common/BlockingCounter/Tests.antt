-- ===== src/Common/BlockingCounter/Tests.antt =====
-- Tests of comm_network/common/blocking_counter.h.
use comm_network.Prelude.{ℕ, suc, ◌≡◌, List, [], ◌∷◌, refl, arith}
use comm_network.Prelude.Int.{pos}
use comm_network.Common.BlockingCounter.{
  new, decrease, wait_until_cnt_equal_zero, resume, CounterEvent, decreases, waits, resumes, step,
  run,
}
use comm_network.Common.BlockingCounter.Laws.{Holds, wait_lem}

-- Two threads wait; the second call wakes them, and one of them tests again.
abbrev events : List CounterEvent
events = waits 5 ∷ decreases ∷ waits 6 ∷ decreases ∷ resumes 6 ∷ []

events-run :
    run events (new (pos 2))
    ≡ record { cnt_val = pos 0; asleep = []; woken = 5 ∷ []; returned = 6 ∷ [] }
unfolding run step new decrease wait_until_cnt_equal_zero resume
events-run = refl

wait_lem_example :
    Holds 0 (5 ∷ 6 ∷ []) (run events (new (pos 2)))
    × ((left : ℕ) → ◌≡◌ {A = ℕ} 0 (suc left) → (decrease (run events (new (pos 2)))).0 ≡ pos left)
wait_lem_example = wait_lem 2 events (omega arith) (omega arith)
