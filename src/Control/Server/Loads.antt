-- ===== src/Control/Server/Loads.antt =====
-- comm_network/control/ctrl_server.cpp: LoadServer, and the arming of the next call.
use Prim.Native.String.{String}
use text.Mathlib.TextEquality.{eq_iff}
use comm_network.Prelude.{
  append_assoc, append-nil, subst, ◌≡◌, refl, ◌∙◌, ℕ, List, [], ◌∷◌, ◌++◌, map, false, ok, arith,
  >>=-eq-ok, All,
}
use comm_network.Control.Server.{
  CtrlServer, CtrlRequest, CtrlMethod, load_server, barrier, push_kv, clear_kv, pull_kv,
  load_server_request, barrier_request, push_kv_request, clear_kv_request, pull_kv_request,
  handle_load_server, handle_barrier, handle_push_kv, handle_clear_kv, handle_pull_kv, handle, run,
  new,
}

-- A LoadServer names this address.
abbrev pub Loads : String → ℕ × CtrlRequest → Type 0
Loads addr (call, load_server_request a) = a ≡ addr
Loads addr (call, _) = Unit

abbrev pub method_of : ℕ × CtrlRequest → CtrlMethod
method_of (call, load_server_request addr) = load_server
method_of (call, barrier_request name num) = barrier
method_of (call, push_kv_request k v) = push_kv
method_of (call, clear_kv_request k) = clear_kv
method_of (call, pull_kv_request k) = pull_kv

handle-Loads :
    (call : ℕ) (r : CtrlRequest) (s : CtrlServer) {s' : CtrlServer}
    → s.is_first_connect ≡ false
    → handle call r s ≡ ok s'
    → (s'.is_first_connect ≡ false)
      × (s'.this_machine_addr ≡ s.this_machine_addr)
      × Loads s.this_machine_addr (call, r)
unfolding handle handle_load_server handle_barrier handle_push_kv handle_clear_kv handle_pull_kv
handle-Loads call (load_server_request addr) s f e = ground (arith, eq_iff addr s.this_machine_addr)
handle-Loads call (barrier_request name num) s f e = ground arith
handle-Loads call (push_kv_request k v) s f e = ground arith
handle-Loads call (clear_kv_request k) s f e = ground arith
handle-Loads call (pull_kv_request k) s f e = ground arith

run-Loads_from :
    (rs : List (ℕ × CtrlRequest)) (s : CtrlServer) {s' : CtrlServer}
    → s.is_first_connect ≡ false
    → run rs s ≡ ok s'
    → (s'.this_machine_addr ≡ s.this_machine_addr) × All (Loads s.this_machine_addr) rs
unfolding run
run-Loads_from [] s f e = (ground arith, tt)
run-Loads_from ((call, r) ∷ rs) s f e =
    let (s1, e1, e2) = >>=-eq-ok (handle call r s) (λ s'. run rs s') e in
    let (f1, same, own) = handle-Loads call r s f e1 in
    let (same', rest) = run-Loads_from rs s1 f1 e2 in
    (same' ∙ same, (own, subst (λ a. All (Loads a) rs) same rest))

-- A fresh server whose first request is a LoadServer keeps that address for good: a run that is
-- not stopped leaves it in place, and every LoadServer of the run named it.
pub run-Loads :
    (rs : List (ℕ × CtrlRequest)) (call : ℕ) (addr : String) {s : CtrlServer}
    → run ((call, load_server_request addr) ∷ rs) new ≡ ok s
    → (s.this_machine_addr ≡ addr) × All (Loads addr) rs
unfolding run handle handle_load_server
run-Loads rs call addr e = run-Loads_from rs _ refl e

handle-requested :
    (call : ℕ) (r : CtrlRequest) (s : CtrlServer) {s' : CtrlServer}
    → handle call r s ≡ ok s'
    → s'.requested ≡ s.requested ++ method_of (call, r) ∷ []
unfolding handle handle_load_server handle_barrier handle_push_kv handle_clear_kv handle_pull_kv
handle-requested call (load_server_request addr) s e = ground arith
handle-requested call (barrier_request name num) s e = ground arith
handle-requested call (push_kv_request k v) s e = ground arith
handle-requested call (clear_kv_request k) s e = ground arith
handle-requested call (pull_kv_request k) s e = ground arith

-- The calls armed by a run that is not stopped are one for each request, of its method and in the
-- order of the requests, also where a request is left waiting.
pub run-requested :
    (rs : List (ℕ × CtrlRequest)) (s : CtrlServer) {s' : CtrlServer}
    → run rs s ≡ ok s'
    → s'.requested ≡ s.requested ++ map method_of rs
unfolding run
run-requested [] s e = ground (arith, append-nil s.requested)
run-requested ((call, r) ∷ rs) s e =
    let (s1, e1, e2) = >>=-eq-ok (handle call r s) (λ s'. run rs s') e in
    ground (
      arith,
      handle-requested call r s e1,
      run-requested rs s1 e2,
      append_assoc s.requested (method_of (call, r) ∷ []) (map method_of rs),
    )
