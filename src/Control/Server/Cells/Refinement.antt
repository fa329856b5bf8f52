-- ===== src/Control/Server/Cells/Refinement.antt =====
-- comm_network/control/ctrl_server.cpp: the maps of the server implement cells.
use comm_network.Prelude.{
  ℕ, ◌≡◌, refl, ap, ◌∙◌, sym, append_assoc, append-nil, List, [], ◌∷◌, ◌++◌, Option, none, some,
  Result, Fault, ok, abort, Result-cases, All, arith, inl, inr, Option-cases,
}
use comm_network.Prelude.Options.{◌>>=◌}
use comm_network.Prelude.Assoc.{lookup}
use comm_network.Control.Server.{
  CtrlServer, CtrlRequest, load_server_request, barrier_request, push_kv_request, clear_kv_request,
  pull_kv_request, handle_push_kv, handle_clear_kv, handle_pull_kv, handle, run, new,
}
use comm_network.Control.Server.Kv.{IsDisjoint, handle-IsDisjoint, run-IsDisjoint, new-IsDisjoint}
use comm_network.Control.Server.Cells.{
  Cells, Answers, push_cell, clear_cell, step_cells, run_cells, of_keys,
}
use comm_network.Control.Server.Cells.Steps.{
  cell_of, cells_of, Steps, handle_push_kv-Steps, handle_clear_kv-Steps, handle_pull_kv-Steps,
}

-- A request about a key.
abbrev pub IsAboutKey : ℕ × CtrlRequest → Type 0
IsAboutKey (call, load_server_request addr) = ⊥
IsAboutKey (call, barrier_request name num) = ⊥
IsAboutKey (call, push_kv_request k v) = Unit
IsAboutKey (call, clear_kv_request k) = Unit
IsAboutKey (call, pull_kv_request k) = Unit

handle-Steps :
    (call : ℕ) (r : CtrlRequest) (s : CtrlServer) {s' : CtrlServer}
    → IsAboutKey (call, r)
    → handle call r s ≡ ok s'
    → Steps call r s s'
unfolding handle
handle-Steps call (load_server_request addr) s about e = absurd about
handle-Steps call (barrier_request name num) s about e = absurd about
handle-Steps call (push_kv_request k v) s about e = handle_push_kv-Steps call k v s e
handle-Steps call (clear_kv_request k) s about e = handle_clear_kv-Steps call k s e
handle-Steps call (pull_kv_request k) s about e = handle_pull_kv-Steps call k s e

-- A request at which the server stops is one that the cells do not allow.
handle-stops :
    (call : ℕ) (r : CtrlRequest) (s : CtrlServer) {f : Fault}
    → IsDisjoint s
    → IsAboutKey (call, r)
    → handle call r s ≡ abort f
    → step_cells call r (cells_of s) ≡ none
unfolding handle handle_push_kv handle_clear_kv handle_pull_kv
handle-stops call (load_server_request addr) s d about e = absurd about
handle-stops call (barrier_request name num) s d about e = absurd about
handle-stops call (push_kv_request k v) s d about e = elim (Option-cases (lookup k s.kv)) [
  | inl n ↦ absurd (ground (arith, e, n))
  | inr (w, h) ↦
      ap (λ o. push_cell call k v (cells_of s) (cell_of o (lookup k s.pending_kv_calls))) h
]
handle-stops call (clear_kv_request k) s d about e = elim (Option-cases (lookup k s.kv)) [
  | inl n ↦ ap (λ o. clear_cell call k (cells_of s) (cell_of o (lookup k s.pending_kv_calls))) n
  | inr (w, h) ↦ elim (Option-cases (lookup k s.pending_kv_calls)) [
    | inl m ↦ absurd (ground (arith, e, h, m))
    | inr (calls, m) ↦ absurd (ground (arith, h, d k calls m))
  ]
]
handle-stops call (pull_kv_request k) s d about e = absurd (ground (arith, e))

-- What a run comes to: the cells and the answers about keys, or a stop.
abbrev pub outcome : Result CtrlServer → Option (Cells × Answers)
outcome (ok s) = some (cells_of s, of_keys s.responses)
outcome (abort f) = none

abbrev pub after : Answers → Option (Cells × Answers) → Option (Cells × Answers)
after said o = o >>= λ x. some (x.0, said ++ x.1)

after-append :
    (said out : Answers) (o : Option (Cells × Answers))
    → after (said ++ out) o ≡ after said (o >>= λ x. some (x.0, out ++ x.1))
after-append said out none = refl
after-append said out (some x) = ap (λ (u : Answers). some (x.0, u)) (append_assoc said out (x.1))

run-outcome :
    (rs : List (ℕ × CtrlRequest)) (s : CtrlServer)
    → IsDisjoint s
    → All IsAboutKey rs
    → outcome (run rs s) ≡ after (of_keys s.responses) (run_cells rs (cells_of s))
unfolding run
run-outcome [] s d about =
    ap (λ (u : Answers). some (cells_of s, u)) (sym (append-nil (of_keys s.responses)))
run-outcome ((call, r) ∷ rs) s d (about, abouts) = elim (Result-cases (handle call r s)) [
  | inl (s1, e) ↦
      let (out, step, said) = handle-Steps call r s about e in
      let next = run-outcome rs s1 (handle-IsDisjoint call r s d e) abouts in
      rw (e, step)
        (next
          ∙ ap (λ u. after u (run_cells rs (cells_of s1))) said
          ∙ after-append (of_keys s.responses) out (run_cells rs (cells_of s1)))
  | inr (f, e) ↦ rw (e, handle-stops call r s d about e) refl
]

-- A fresh server that has handled any requests, of every kind, without a stop: on any further
-- requests about keys it stops exactly if the cells that its maps stand for do not allow one of
-- them, and otherwise ends with the cells that they end with and has given the answers that they
-- give, in their order.
pub run-cells_of :
    (earlier : List (ℕ × CtrlRequest)) (s : CtrlServer) (rs : List (ℕ × CtrlRequest))
    → run earlier new ≡ ok s
    → All IsAboutKey rs
    → outcome (run rs s) ≡ after (of_keys s.responses) (run_cells rs (cells_of s))
run-cells_of earlier s rs e about =
    run-outcome rs s (run-IsDisjoint earlier new new-IsDisjoint e) about
