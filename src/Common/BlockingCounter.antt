-- ===== src/Common/BlockingCounter.antt =====
-- comm_network/common/blocking_counter.h: a counter that threads count down and others wait for.
-- Each method holds the mutex, so it is one step up to where it sleeps on `cond_`; a thread that
-- `notify_all` has woken tests again in a step of its own. Threads are numbers; `asleep` are those on
-- `cond_`, `woken` those that have still to test again, and `returned` those whose wait is over.
pub mod Laws
mod Tests
use comm_network.Prelude.{ℕ, List, [], ◌∷◌, ◌++◌, Bool, true, false, ◌==◌, if◌then◌else◌}
use comm_network.Prelude.Int.{ℤ, negsuc, pos, ◌+ℤ◌, eqb_ℤ}
use comm_network.Prelude.Words.{wrap_int64}

pub record BlockingCounter : Type 0 where
  pub cnt_val : ℤ
  pub asleep : List ℕ
  pub woken : List ℕ
  pub returned : List ℕ

pub new : ℤ → BlockingCounter
new cnt_val = record { cnt_val = cnt_val; asleep = []; woken = []; returned = [] }

-- `cond_.notify_all()`
abbrev pub notify_all : BlockingCounter → BlockingCounter
notify_all c = record c { asleep = []; woken = c.woken ++ c.asleep }

pub decrease : BlockingCounter → ℤ × BlockingCounter
decrease c =
    let c' : BlockingCounter = record c { cnt_val = wrap_int64 (c.cnt_val +ℤ negsuc 0) } in
    (c'.cnt_val, if eqb_ℤ c'.cnt_val (pos 0) then notify_all c' else c')

-- The test of `cond_.wait`: the thread goes on, or to sleep.
wait_until_cnt_equal_zero : ℕ → BlockingCounter → BlockingCounter
wait_until_cnt_equal_zero thread c =
    if eqb_ℤ c.cnt_val (pos 0)
    then record c { returned = c.returned ++ thread ∷ [] }
    else record c { asleep = c.asleep ++ thread ∷ [] }

abbrev pub take_out : ℕ → List ℕ → List ℕ
take_out k [] = []
take_out k (j ∷ l) = let rest = take_out k l in if j == k then l else j ∷ rest

abbrev pub contains : ℕ → List ℕ → Bool
contains k [] = false
contains k (j ∷ l) = let rest = contains k l in if j == k then true else rest

-- A woken thread tests again; nothing happens if the thread has not been woken.
resume : ℕ → BlockingCounter → BlockingCounter
unfolding wait_until_cnt_equal_zero
resume thread c =
    if contains thread c.woken
    then wait_until_cnt_equal_zero thread (record c { woken = take_out thread c.woken })
    else c

pub data CounterEvent : Type 0 where
  decreases : CounterEvent
  waits : (thread : ℕ) → CounterEvent
  resumes : (thread : ℕ) → CounterEvent

step : CounterEvent → BlockingCounter → BlockingCounter
unfolding decrease wait_until_cnt_equal_zero resume
step decreases c = (decrease c).1
step (waits thread) c = wait_until_cnt_equal_zero thread c
step (resumes thread) c = resume thread c

pub run : List CounterEvent → BlockingCounter → BlockingCounter
unfolding step
run [] c = c
run (e ∷ es) c = run es (step e c)
