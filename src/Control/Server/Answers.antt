-- ===== src/Control/Server/Answers.antt =====
-- comm_network/control/ctrl_server.cpp: what becomes of each call object: `SendResponse`,
-- `pending_kv_calls_` and `barrier_calls_`.
use Prim.Native.String.{String}
use comm_network.Prelude.{
  ◌≡◌, refl, ℕ, suc, ◌+◌, List, [], ◌∷◌, ◌++◌, Option, none, some, ok, ◌==◌, arith, if◌then◌else◌,
  >>=-eq-ok, inl, inr, Option-cases,
}
use comm_network.Prelude.Int.{ℤ}
use comm_network.Prelude.Assoc.{lookup}
use comm_network.Prelude.Assoc.Totals.{
  Distinct, assign-Distinct, erase-Distinct, total, at_value, total-assign, total-erase,
}
use comm_network.Control.Server.{
  CtrlServer, CtrlRequest, CtrlResponse, load_server_request, barrier_request, push_kv_request,
  clear_kv_request, pull_kv_request, barrier_response, answer_all, barrier_entry,
  handle_load_server, handle_barrier, handle_push_kv, handle_clear_kv, handle_pull_kv, handle, run,
  or_empty, new, clear_kv_response, load_server_response, pull_kv_response, push_kv_response,
}

-- How often a call stands in a list.
abbrev pub count : ℕ → List ℕ → ℕ
count c [] = 0
count c (x ∷ l) = if x == c then suc (count c l) else count c l

-- How often a call was answered.
abbrev pub answered : ℕ → List (ℕ × CtrlResponse) → ℕ
answered c [] = 0
answered c ((call, r) ∷ rs) = if call == c then suc (answered c rs) else answered c rs

-- How often a call was answered, waits for a value, or waits at a barrier.
abbrev pub held : ℕ → CtrlServer → ℕ
held c s =
    answered c s.responses
    + total (count c) s.pending_kv_calls
    + total (λ e. count c e.0) s.barrier_calls

-- How often a call was made.
abbrev pub made : ℕ → List (ℕ × CtrlRequest) → ℕ
made c [] = 0
made c ((call, r) ∷ rs) = if call == c then suc (made c rs) else made c rs

-- No key stands twice in the two maps of waiting calls.
abbrev pub AreMaps : CtrlServer → Type 0
AreMaps s = Distinct s.pending_kv_calls × Distinct s.barrier_calls

count-append : (c : ℕ) (l r : List ℕ) → count c (l ++ r) ≡ count c l + count c r
count-append c [] r = omega arith
count-append c (x ∷ l) r = ground (arith, count-append c l r)

answered-append :
    (c : ℕ) (l r : List (ℕ × CtrlResponse)) → answered c (l ++ r) ≡ answered c l + answered c r
answered-append c [] r = omega arith
answered-append c (x ∷ l) r = ground (arith, answered-append c l r)

answered-answer_all :
    (c : ℕ) (r : CtrlResponse) (calls : List ℕ) → answered c (answer_all r calls) ≡ count c calls
answered-answer_all c r [] = refl
answered-answer_all c r (x ∷ calls) = ground (arith, answered-answer_all c r calls)

count-or_empty : (c : ℕ) (o : Option (List ℕ)) → count c (or_empty o) ≡ at_value (count c) o
count-or_empty c none = refl
count-or_empty c (some calls) = refl

count-barrier_entry :
    (c : ℕ) (o : Option (List ℕ × ℤ)) (num : ℤ)
    → count c (barrier_entry o num).0 ≡ at_value (λ e. count c e.0) o
count-barrier_entry c none num = refl
count-barrier_entry c (some e) num = refl

-- One more call is held, the one just made.
abbrev pub HoldsOneMore : ℕ → CtrlServer → CtrlServer → Type 0
HoldsOneMore call s s' = AreMaps s' × ((c : ℕ) → held c s' ≡ held c s + count c (call ∷ []))

handle_load_server-Holds :
    (call : ℕ) (addr : String) (s : CtrlServer) {s' : CtrlServer}
    → AreMaps s
    → handle_load_server call addr s ≡ ok s'
    → HoldsOneMore call s s'
unfolding handle_load_server
handle_load_server-Holds call addr s d e = (
  ground (arith, d),
  λ c. ground (arith, answered-append c s.responses ((call, load_server_response) ∷ [])),
)

handle_clear_kv-Holds :
    (call : ℕ) (k : String) (s : CtrlServer) {s' : CtrlServer}
    → AreMaps s
    → handle_clear_kv call k s ≡ ok s'
    → HoldsOneMore call s s'
unfolding handle_clear_kv
handle_clear_kv-Holds call k s d e = (
  ground (arith, d),
  λ c. ground (arith, answered-append c s.responses ((call, clear_kv_response) ∷ [])),
)

handle_pull_kv-Holds :
    (call : ℕ) (k : String) (s : CtrlServer) {s' : CtrlServer}
    → AreMaps s
    → handle_pull_kv call k s ≡ ok s'
    → HoldsOneMore call s s'
unfolding handle_pull_kv
handle_pull_kv-Holds call k s d e =
    let m = s.pending_kv_calls in
    let calls = or_empty (lookup k m) in
    (
      ground (arith, d, assign-Distinct k (calls ++ call ∷ []) m d.0),
      λ c. elim (Option-cases (lookup k s.kv)) [
        | inl n ↦ ground (
          arith,
          total-assign (count c) k (calls ++ call ∷ []) m,
          count-append c calls (call ∷ []),
          count-or_empty c (lookup k m),
        )
        | inr (v, found) ↦
            ground (arith, answered-append c s.responses ((call, pull_kv_response v) ∷ []))
      ],
    )

handle_push_kv-Holds :
    (call : ℕ) (k v : String) (s : CtrlServer) {s' : CtrlServer}
    → AreMaps s
    → handle_push_kv call k v s ≡ ok s'
    → HoldsOneMore call s s'
unfolding handle_push_kv
handle_push_kv-Holds call k v s d e =
    let m = s.pending_kv_calls in
    let calls = or_empty (lookup k m) in
    let answers = answer_all (pull_kv_response v) calls in
    (
      ground (arith, d, erase-Distinct k m d.0),
      λ c. ground (
        arith,
        total-erase (count c) k m d.0,
        count-or_empty c (lookup k m),
        answered-append c (s.responses ++ answers) ((call, push_kv_response) ∷ []),
        answered-append c s.responses answers,
        answered-answer_all c (pull_kv_response v) calls,
      ),
    )

handle_barrier-Holds :
    (call : ℕ) (name : String) (num : ℤ) (s : CtrlServer) {s' : CtrlServer}
    → AreMaps s
    → handle_barrier call name num s ≡ ok s'
    → HoldsOneMore call s s'
unfolding handle_barrier
handle_barrier-Holds call name num s d e =
    let m = s.barrier_calls in
    let (calls, expected) = barrier_entry (lookup name m) num in
    let answers = answer_all barrier_response (calls ++ call ∷ []) in
    (
      ground (
        arith,
        d,
        erase-Distinct name m d.1,
        assign-Distinct name (calls ++ call ∷ [], expected) m d.1,
      ),
      λ c. ground (
        arith,
        total-erase (λ e. count c e.0) name m d.1,
        total-assign (λ e. count c e.0) name (calls ++ call ∷ [], expected) m,
        count-barrier_entry c (lookup name m) num,
        count-append c calls (call ∷ []),
        answered-append c s.responses answers,
        answered-answer_all c barrier_response (calls ++ call ∷ []),
      ),
    )

-- Every request.
pub handle-Holds :
    (call : ℕ) (r : CtrlRequest) (s : CtrlServer) {s' : CtrlServer}
    → AreMaps s
    → handle call r s ≡ ok s'
    → HoldsOneMore call s s'
unfolding handle
handle-Holds call (load_server_request addr) s d e = handle_load_server-Holds call addr s d e
handle-Holds call (barrier_request name num) s d e = handle_barrier-Holds call name num s d e
handle-Holds call (push_kv_request k v) s d e = handle_push_kv-Holds call k v s d e
handle-Holds call (clear_kv_request k) s d e = handle_clear_kv-Holds call k s d e
handle-Holds call (pull_kv_request k) s d e = handle_pull_kv-Holds call k s d e

run-Holds :
    (rs : List (ℕ × CtrlRequest)) (s : CtrlServer) (c : ℕ) {s' : CtrlServer}
    → AreMaps s
    → run rs s ≡ ok s'
    → held c s' ≡ held c s + made c rs
unfolding run
run-Holds [] s c d e = ground arith
run-Holds ((call, r) ∷ rs) s c d e =
    let (s1, e1, e2) = >>=-eq-ok (handle call r s) (λ s'. run rs s') e in
    let (d1, more) = handle-Holds call r s d e1 in ground (arith, more c, run-Holds rs s1 c d1 e2)

-- Whatever requests a fresh server has handled, no call is lost and none is answered twice: each
-- call object was answered, waits for a value, or waits at a barrier as often as it was made.
pub every_call_held :
    (rs : List (ℕ × CtrlRequest)) (c : ℕ) {s : CtrlServer}
    → run rs new ≡ ok s
    → answered c s.responses
        + total (count c) s.pending_kv_calls
        + total (λ e. count c e.0) s.barrier_calls
      ≡ made c rs
every_call_held rs c reached = ground (arith, run-Holds rs new c (tt, tt) reached)
