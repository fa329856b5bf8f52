-- ===== src/Common/BlockingCounter/Laws.antt =====
-- comm_network/common/blocking_counter.h: when a waiting thread goes on.
use comm_network.Prelude.{
  ℕ, zero, suc, ◌+◌, ◌-◌, ◌^◌, ◌≤◌, ◌<◌, ◌≡◌, refl, ap, ◌∙◌, sym, subst, List, [], ◌∷◌, ◌++◌, true,
  false, Bool-cases, inl, inr, append_assoc, append-nil, ◌==◌, if◌then◌else◌, arith,
}
use comm_network.Prelude.Int.{ℤ, pos, negsuc, ◌+ℤ◌, eqb_ℤ}
use comm_network.Prelude.Words.{wrap_int64}
use comm_network.Common.BlockingCounter.{
  BlockingCounter, new, decrease, wait_until_cnt_equal_zero, take_out, contains, resume,
  CounterEvent, decreases, waits, resumes, step, run,
}

-- How often a thread stands in a list.
abbrev pub count : ℕ → List ℕ → ℕ
count k [] = 0
count k (j ∷ l) = (if j == k then 1 else 0) + count k l

-- The calls of `Decrease`, and the threads that call the wait, in their order.
abbrev pub calls : List CounterEvent → ℕ
calls [] = 0
calls (decreases ∷ es) = suc (calls es)
calls (waits _ ∷ es) = calls es
calls (resumes _ ∷ es) = calls es

abbrev pub waiters : List CounterEvent → List ℕ
waiters [] = []
waiters (decreases ∷ es) = waiters es
waiters (waits thread ∷ es) = thread ∷ waiters es
waiters (resumes _ ∷ es) = waiters es

-- With calls left to come, all that wait are asleep; with none left, nobody is, and each that waits
-- has been woken or has returned, once for each of its waits.
abbrev pub Holds : ℕ → List ℕ → BlockingCounter → Type 0
Holds (suc left) threads c =
    (c.cnt_val ≡ pos (suc left)) × (c.asleep ≡ threads) × (c.woken ≡ []) × (c.returned ≡ [])
Holds zero threads c =
    (c.cnt_val ≡ pos 0)
    × (c.asleep ≡ [])
    × ((k : ℕ) → count k c.woken + count k c.returned ≡ count k threads)

count-append : (k : ℕ) (l r : List ℕ) → count k (l ++ r) ≡ count k l + count k r
count-append k [] r = omega arith
count-append k (x ∷ l) r = ground (arith, count-append k l r)

count-take_out :
    (k j : ℕ) (l : List ℕ)
    → contains k l ≡ true
    → count j l ≡ (if k == j then 1 else 0) + count j (take_out k l)
count-take_out k j [] h = ground arith
count-take_out k j (x ∷ l) h = ground (arith, count-take_out k j l)

one_less :
    (left : ℕ)
    → suc (suc left) < 2 ^ 63
    → wrap_int64 (pos (suc (suc left)) +ℤ negsuc 0) ≡ pos (suc left)
one_less left small = ground (arith, small)

decrease-Holds :
    (left : ℕ) (threads : List ℕ) (c : BlockingCounter)
    → suc left < 2 ^ 63
    → Holds (suc left) threads c
    → ((decrease c).0 ≡ pos left) × Holds left threads (decrease c).1
unfolding decrease
decrease-Holds zero threads c small (val, asleep, woken, returned) =
    let one : wrap_int64 (pos 1 +ℤ negsuc 0) ≡ pos 0 = ground arith in
    let now : wrap_int64 (c.cnt_val +ℤ negsuc 0) ≡ pos 0 =
      ap (λ z. wrap_int64 (z +ℤ negsuc 0)) val ∙ one in
    rw now (
      refl,
      (
        refl,
        refl,
        λ k. ground (
          arith,
          count-append k c.woken c.asleep,
          ap (count k) woken,
          ap (count k) asleep,
          ap (count k) returned,
        ),
      ),
    )
decrease-Holds (suc left) threads c small (val, asleep, woken, returned) =
    let now : wrap_int64 (c.cnt_val +ℤ negsuc 0) ≡ pos (suc left) =
      ap (λ z. wrap_int64 (z +ℤ negsuc 0)) val ∙ one_less left small in
    let more : eqb_ℤ (pos (suc left)) (pos 0) ≡ false = ground arith in
    rw (now, more) (refl, (refl, asleep, woken, returned))

at_zero : (z : ℤ) → z ≡ pos 0 → eqb_ℤ z (pos 0) ≡ true
at_zero z e = rw e refl

above_zero : (left : ℕ) (z : ℤ) → z ≡ pos (suc left) → eqb_ℤ z (pos 0) ≡ false
above_zero left z e = rw e (ground arith)

waits-Holds :
    (left thread : ℕ) (threads : List ℕ) (c : BlockingCounter)
    → Holds left threads c
    → Holds left (threads ++ thread ∷ []) (wait_until_cnt_equal_zero thread c)
unfolding wait_until_cnt_equal_zero
waits-Holds zero thread threads c (val, asleep, counts) =
    let open_ : eqb_ℤ c.cnt_val (pos 0) ≡ true = at_zero c.cnt_val val in
    rw open_ (
      val,
      asleep,
      λ k. ground (
        arith,
        counts k,
        count-append k c.returned (thread ∷ []),
        count-append k threads (thread ∷ []),
      ),
    )
waits-Holds (suc left) thread threads c (val, asleep, woken, returned) =
    let shut : eqb_ℤ c.cnt_val (pos 0) ≡ false = above_zero left c.cnt_val val in
    rw shut (val, ap (λ l. l ++ thread ∷ []) asleep, woken, returned)

resumes-Holds :
    (left thread : ℕ) (threads : List ℕ) (c : BlockingCounter)
    → Holds left threads c
    → Holds left threads (resume thread c)
unfolding resume wait_until_cnt_equal_zero
resumes-Holds zero thread threads c (val, asleep, counts) =
    elim (Bool-cases (contains thread c.woken)) [
      | inl found ↦
          let open_ : eqb_ℤ c.cnt_val (pos 0) ≡ true = at_zero c.cnt_val val in
          rw (found, open_)
            (
              val,
              asleep,
              λ k. ground (
                arith,
                counts k,
                count-append k c.returned (thread ∷ []),
                count-take_out thread k c.woken found,
              ),
            )
      | inr not_there ↦ rw not_there (val, asleep, counts)
    ]
resumes-Holds (suc left) thread threads c (val, asleep, woken, returned) =
    let no : contains thread c.woken ≡ false = ap (contains thread) woken in
    rw no (val, asleep, woken, returned)

run-Holds :
    (es : List CounterEvent) (left : ℕ) (threads : List ℕ) (c : BlockingCounter)
    → left < 2 ^ 63
    → calls es ≤ left
    → Holds left threads c
    → Holds (left - calls es) (threads ++ waiters es) (run es c)
unfolding run step
run-Holds [] left threads c small few h =
    let same : left - 0 ≡ left = omega arith in
    subst (λ n. Holds n (threads ++ []) c) (sym same)
      (subst (λ l. Holds left l c) (sym (append-nil threads)) h)
run-Holds (decreases ∷ es) zero threads c small few h = absurd (omega (arith, few))
run-Holds (decreases ∷ es) (suc left) threads c small few h =
    let less : left - calls es ≡ suc left - suc (calls es) = omega arith in
    subst (λ n. Holds n (threads ++ waiters es) (run es (decrease c).1)) less
      (run-Holds es left threads (decrease c).1 (omega (arith, small)) (omega (arith, few))
        (decrease-Holds left threads c small h).1)
run-Holds (waits thread ∷ es) left threads c small few h =
    subst (λ l. Holds (left - calls es) l (run es (wait_until_cnt_equal_zero thread c)))
      (append_assoc threads (thread ∷ []) (waiters es))
      (run-Holds es left (threads ++ thread ∷ []) (wait_until_cnt_equal_zero thread c) small few
        (waits-Holds left thread threads c h))
run-Holds (resumes thread ∷ es) left threads c small few h =
    run-Holds es left threads (resume thread c) small few (resumes-Holds left thread threads c h)

new-Holds : (m : ℕ) → Holds m [] (new (pos m))
unfolding new
new-Holds zero = (refl, refl, λ k. refl)
new-Holds (suc m) = (refl, refl, refl, refl)

-- On a counter made with m, after any calls of its methods by any threads in any order, with at most
-- m calls of `Decrease` among them: while fewer than m have come, every thread that waits is asleep
-- and none has been woken or has returned; after the m-th, which wakes them, none is asleep, and each
-- wait has ended or is that of a woken thread; and a call of `Decrease` before that returns how many
-- are still to come.
pub wait_lem :
    (m : ℕ) (es : List CounterEvent)
    → m < 2 ^ 63
    → calls es ≤ m
    → Holds (m - calls es) (waiters es) (run es (new (pos m)))
      × ((left : ℕ) → m - calls es ≡ suc left → (decrease (run es (new (pos m)))).0 ≡ pos left)
wait_lem m es small few =
    let held = run-Holds es m [] (new (pos m)) small few (new-Holds m) in
    (
      held,
      λ left e.
          (decrease-Holds left (waiters es) (run es (new (pos m))) (omega (arith, small, e))
            (subst (λ l. Holds l (waiters es) (run es (new (pos m)))) e held)).0,
    )
