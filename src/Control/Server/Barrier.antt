-- ===== src/Control/Server/Barrier.antt =====
-- comm_network/control/ctrl_server.cpp: the barrier, among requests of every kind.
use Prim.Native.String.{String}
use text.Mathlib.Text.{◌==◌ as str_eq}
use text.Mathlib.TextPositions.{eq_refl}
use comm_network.Prelude.{
  append_assoc, append-nil, subst, ◌≡◌, refl, ◌∙◌, sym, ℕ, ◌+◌, ◌<◌, List, [], ◌∷◌, ◌++◌, Option,
  none, some, Bool, true, false, ok, length, length-append, ◌==◌, arith, if◌then◌else◌, >>=-eq-ok,
  inl, inr, Bool-cases,
}
use comm_network.Prelude.Int.{ℤ, eqb_ℤ}
use comm_network.Prelude.Words.{to_size}
use comm_network.Prelude.Assoc.{
  lookup, assign, erase, lookup-assign, lookup-assign_self, lookup-erase,
}
use comm_network.Control.Server.{
  CtrlServer, CtrlRequest, load_server_request, barrier_request, push_kv_request, clear_kv_request,
  pull_kv_request, barrier_response, barrier, send_responses, enqueue_request, answer_all,
  barrier_entry, handle_load_server, handle_barrier, handle_push_kv, handle_clear_kv,
  handle_pull_kv, handle, run,
}

-- The entry of a barrier of `num` at which `calls` wait.
abbrev pub gathered : List ℕ → ℤ → Option (List ℕ × ℤ)
gathered [] num = none
gathered (c ∷ cs) num = some (c ∷ cs, num)

-- Whether a request is a call of the barrier `name`.
abbrev pub is_call_of : String → CtrlRequest → Bool
is_call_of name (barrier_request j num) = str_eq j name
is_call_of name _ = false

-- The calls of the barrier `name`, in their order.
abbrev pub arrivals : String → List (ℕ × CtrlRequest) → List ℕ
arrivals name [] = []
arrivals name ((call, r) ∷ rs) =
    if is_call_of name r then call ∷ arrivals name rs else arrivals name rs

-- All calls of the barrier `name` state the same number.
abbrev pub Agrees : String → ℤ → List (ℕ × CtrlRequest) → Type 0
Agrees name num [] = Unit
Agrees name num ((call, r) ∷ rs) =
    (is_call_of name r ≡ true → r ≡ barrier_request name num) × Agrees name num rs

barrier_entry-gathered : (cs : List ℕ) (num : ℤ) → barrier_entry (gathered cs num) num ≡ (cs, num)
barrier_entry-gathered [] num = refl
barrier_entry-gathered (c ∷ cs) num = refl

eqb_ℤ_refl : (z : ℤ) → eqb_ℤ z z ≡ true
eqb_ℤ_refl z = ground arith

gathered-snoc :
    (cs : List ℕ) (c : ℕ) (num : ℤ) → gathered (cs ++ c ∷ []) num ≡ some (cs ++ c ∷ [], num)
gathered-snoc [] c num = refl
gathered-snoc (x ∷ cs) c num = refl

==_yes : (m n : ℕ) → m ≡ n → (m == n) ≡ true
==_yes m n e = ground arith

==_no : (m n : ℕ) → m < n → (m == n) ≡ false
==_no m n lt = ground arith

full_test : (cs : List ℕ) (call n : ℕ) → (length (cs ++ call ∷ []) == n) ≡ (length cs + 1 == n)
full_test cs call n = rw (length-append cs (call ∷ [])) refl

-- A call that is not the last waits.
handle_barrier_waits :
    (call : ℕ) (name : String) (num : ℤ) (s : CtrlServer) (cs : List ℕ)
    → lookup name s.barrier_calls ≡ gathered cs num
    → length cs + 1 < to_size num
    → (s' : CtrlServer) × (handle_barrier call name num s ≡ ok s')
      × (lookup name s'.barrier_calls ≡ gathered (cs ++ call ∷ []) num)
unfolding handle_barrier
handle_barrier_waits call name num s cs e lt =
    let calls = cs ++ call ∷ [] in
    (
      enqueue_request barrier
          (record s { barrier_calls = assign name (calls, num) s.barrier_calls }),
      rw
          (
            e,
            barrier_entry-gathered cs num,
            eqb_ℤ_refl num,
            full_test cs call (to_size num),
            ==_no _ _ lt,
          )
          refl,
      lookup-assign_self name (calls, num) s.barrier_calls ∙ sym (gathered-snoc cs call num),
    )

-- The last call lets all of them go.
handle_barrier_opens :
    (call : ℕ) (name : String) (num : ℤ) (s : CtrlServer) (cs : List ℕ)
    → lookup name s.barrier_calls ≡ gathered cs num
    → length cs + 1 ≡ to_size num
    → handle_barrier call name num s
      ≡ ok (
          enqueue_request barrier (
            send_responses
              (answer_all barrier_response (cs ++ call ∷ []))
              (record s { barrier_calls = erase name s.barrier_calls })))
unfolding handle_barrier
handle_barrier_opens call name num s cs e eq =
    rw
      (
        e,
        barrier_entry-gathered cs num,
        eqb_ℤ_refl num,
        full_test cs call (to_size num),
        ==_yes _ _ eq,
      )
      refl

-- A request that is not a call of the barrier leaves it alone.
handle_other :
    (call : ℕ) (r : CtrlRequest) (name : String) (s : CtrlServer) {s' : CtrlServer}
    → is_call_of name r ≡ false
    → handle call r s ≡ ok s'
    → lookup name s'.barrier_calls ≡ lookup name s.barrier_calls
unfolding handle handle_load_server handle_barrier handle_push_kv handle_clear_kv handle_pull_kv
handle_other call (load_server_request addr) name s other e = ground arith
handle_other call (barrier_request j num) name s other e =
    let (calls, expected) = barrier_entry (lookup j s.barrier_calls) num in
    ground (
      arith,
      lookup-erase j name s.barrier_calls,
      lookup-assign j name (calls ++ call ∷ [], expected) s.barrier_calls,
    )
handle_other call (push_kv_request k v) name s other e = ground arith
handle_other call (clear_kv_request k) name s other e = ground arith
handle_other call (pull_kv_request k) name s other e = ground arith

handle_own :
    (call : ℕ) (r : CtrlRequest) (name : String) (num : ℤ) (s : CtrlServer) (cs : List ℕ)
    {s' : CtrlServer}
    → lookup name s.barrier_calls ≡ gathered cs num
    → r ≡ barrier_request name num
    → length cs + 1 < to_size num
    → handle call r s ≡ ok s'
    → lookup name s'.barrier_calls ≡ gathered (cs ++ call ∷ []) num
unfolding handle
handle_own call r name num s cs e is lt done =
    let (s1, waits, entry) = handle_barrier_waits call name num s cs e lt in
    ground (arith, waits, entry)

-- `calls` wait at the barrier, and the requests bring more of them, in all fewer than `num`.
run_gathers :
    (rs : List (ℕ × CtrlRequest)) (name : String) (num : ℤ) (s : CtrlServer) (cs : List ℕ)
    {s' : CtrlServer}
    → lookup name s.barrier_calls ≡ gathered cs num
    → Agrees name num rs
    → length cs + length (arrivals name rs) < to_size num
    → run rs s ≡ ok s'
    → lookup name s'.barrier_calls ≡ gathered (cs ++ arrivals name rs) num
unfolding run
run_gathers [] name num s cs e agrees lt reached = ground (arith, e, append-nil cs)
run_gathers ((call, r) ∷ rs) name num s cs {s' = s'} e agrees lt reached =
    let (s1, e1, e2) = >>=-eq-ok (handle call r s) (λ s'. run rs s') reached in
    elim (Bool-cases (is_call_of name r)) [
      | inl own ↦ rw own (
          subst (λ l. lookup name s'.barrier_calls ≡ gathered l num)
            (append_assoc cs (call ∷ []) (arrivals name rs))
            (run_gathers rs name num s1 (cs ++ call ∷ [])
              (handle_own call r name num s cs e (agrees.0 own) (ground arith) e1) agrees.1 ground
              (arith, length-append cs (call ∷ [])) e2))
      | inr other ↦ rw other (
          run_gathers rs name num s1 cs (handle_other call r name s other e1 ∙ e) agrees.1
            (ground arith) e2)
    ]

-- A barrier that nobody waits at, among requests of every kind: while fewer than `num` calls have
-- come, all of them wait in their order; the next one that makes them `num` answers all of them,
-- the earliest first, itself included, and takes the barrier away.
pub barrier_lem :
    (rs : List (ℕ × CtrlRequest)) (last : ℕ) (name : String) (num : ℤ) (s : CtrlServer)
    {s' : CtrlServer}
    → lookup name s.barrier_calls ≡ none
    → Agrees name num rs
    → length (arrivals name rs) < to_size num
    → run rs s ≡ ok s'
    → (lookup name s'.barrier_calls ≡ gathered (arrivals name rs) num)
      × (length (arrivals name rs) + 1 ≡ to_size num
          → (s'' : CtrlServer) × (handle last (barrier_request name num) s' ≡ ok s'')
            × (lookup name s''.barrier_calls ≡ none)
            × (s''.responses
                ≡ s'.responses ++ answer_all barrier_response (arrivals name rs ++ last ∷ [])))
unfolding handle
barrier_lem rs last name num s {s' = s'} absent agrees lt reached =
    let entry = run_gathers rs name num s [] absent agrees (omega arith) reached in
    let m = s'.barrier_calls in
    (
      entry,
      λ full. (
        _,
        handle_barrier_opens last name num s' (arrivals name rs) entry full,
        rw (lookup-erase name name m, eq_refl name) refl,
        refl,
      ),
    )
