-- ===== src/Control/Server/Cells/Steps.antt =====
-- comm_network/control/ctrl_server.cpp: what a request about a key does to the cells
-- that the server's maps stand for.
use Prim.Native.String.{String}
use text.Mathlib.TextEquality.{eq_iff}
use comm_network.Prelude.{
  ℕ, ◌≡◌, refl, ap, ◌∙◌, sym, fun_ext, append_assoc, append-nil, List, [], ◌∷◌, ◌++◌, Option, none,
  some, ok, arith, inl, inr, Option-cases,
}
use comm_network.Prelude.Assoc.{lookup, lookup-assign, lookup-erase}
use comm_network.Control.Server.{
  CtrlServer, CtrlRequest, push_kv_request, clear_kv_request, pull_kv_request, load_server_response,
  barrier_response, push_kv_response, clear_kv_response, pull_kv_response, answer_all, or_empty,
  handle_push_kv, handle_clear_kv, handle_pull_kv,
}
use comm_network.Control.Server.Cells.{
  Cell, holding, waiting, Cells, Answers, put, push_cell, clear_cell, pull_cell, step_cells,
  of_keys,
}

abbrev pub cell_of : Option String → Option (List ℕ) → Cell
cell_of (some v) calls = holding v
cell_of none calls = waiting (or_empty calls)

-- The cells that a server's two maps stand for.
abbrev pub cells_of : CtrlServer → Cells
cells_of s k = cell_of (lookup k s.kv) (lookup k s.pending_kv_calls)

pub of_keys-append : (l r : Answers) → of_keys (l ++ r) ≡ of_keys l ++ of_keys r
of_keys-append [] r = refl
of_keys-append ((call, load_server_response) ∷ l) r = of_keys-append l r
of_keys-append ((call, barrier_response) ∷ l) r = of_keys-append l r
of_keys-append ((call, push_kv_response) ∷ l) r =
    ap (λ u. (call, push_kv_response) ∷ u) (of_keys-append l r)
of_keys-append ((call, clear_kv_response) ∷ l) r =
    ap (λ u. (call, clear_kv_response) ∷ u) (of_keys-append l r)
of_keys-append ((call, pull_kv_response v) ∷ l) r =
    ap (λ u. (call, pull_kv_response v) ∷ u) (of_keys-append l r)

of_keys-pulls :
    (v : String) (calls : List ℕ)
    → of_keys (answer_all (pull_kv_response v) calls) ≡ answer_all (pull_kv_response v) calls
of_keys-pulls v [] = refl
of_keys-pulls v (c ∷ calls) = ap (λ u. (c, pull_kv_response v) ∷ u) (of_keys-pulls v calls)

-- One request: the cells make its step, and what the server answers about keys is what they answer.
abbrev pub Steps : ℕ → CtrlRequest → CtrlServer → CtrlServer → Type 0
Steps call r s s' =
    (out : Answers) × (step_cells call r (cells_of s) ≡ some (cells_of s', out))
    × (of_keys s'.responses ≡ of_keys s.responses ++ out)

pub handle_push_kv-Steps :
    (call : ℕ) (k v : String) (s : CtrlServer) {s' : CtrlServer}
    → handle_push_kv call k v s ≡ ok s'
    → Steps call (push_kv_request k v) s s'
unfolding handle_push_kv
handle_push_kv-Steps call k v s {s'} e =
    let calls = or_empty (lookup k s.pending_kv_calls) in
    let empty : lookup k s.kv ≡ none = ground (arith, e) in
    let cells : (j : String) → put k (holding v) (cells_of s) j ≡ cells_of s' j = λ j.
      ground
        (arith, e, eq_iff k j, lookup-assign k j v s.kv, lookup-erase k j s.pending_kv_calls) in
    let pulls = answer_all (pull_kv_response v) calls in
    let out : Answers = pulls ++ (call, push_kv_response) ∷ [] in
    let said : s'.responses ≡ (s.responses ++ pulls) ++ (call, push_kv_response) ∷ [] =
      ground (arith, e) in
    (
      out,
      ap (push_cell call k v (cells_of s)) (ap (λ o. cell_of o (lookup k s.pending_kv_calls)) empty)
          ∙ ap (λ (c : Cells). some (c, out)) (fun_ext cells),
      ap of_keys (said ∙ append_assoc s.responses pulls ((call, push_kv_response) ∷ []))
          ∙ of_keys-append s.responses out
          ∙ ap (λ u. of_keys s.responses ++ u)
              (of_keys-append pulls ((call, push_kv_response) ∷ [])
                ∙ ap (λ u. u ++ (call, push_kv_response) ∷ []) (of_keys-pulls v calls)),
    )

pub handle_clear_kv-Steps :
    (call : ℕ) (k : String) (s : CtrlServer) {s' : CtrlServer}
    → handle_clear_kv call k s ≡ ok s'
    → Steps call (clear_kv_request k) s s'
unfolding handle_clear_kv
handle_clear_kv-Steps call k s {s'} e = elim (Option-cases (lookup k s.kv)) [
  | inl n ↦ absurd (ground (arith, e, n))
  | inr (v, h) ↦
      let alone : lookup k s.pending_kv_calls ≡ none = ground (arith, e, h) in
      let cells : (j : String) → put k (waiting []) (cells_of s) j ≡ cells_of s' j =
        λ j. ground (arith, e, alone, eq_iff k j, lookup-erase k j s.kv) in
      let said : s'.responses ≡ s.responses ++ (call, clear_kv_response) ∷ [] =
        ground (arith, e, h, alone) in
      (
        (call, clear_kv_response) ∷ [],
        ap (clear_cell call k (cells_of s)) (ap (λ o. cell_of o (lookup k s.pending_kv_calls)) h)
            ∙ ap (λ (c : Cells). some (c, (call, clear_kv_response) ∷ [])) (fun_ext cells),
        ap of_keys said ∙ of_keys-append s.responses ((call, clear_kv_response) ∷ []),
      )
]

pub handle_pull_kv-Steps :
    (call : ℕ) (k : String) (s : CtrlServer) {s' : CtrlServer}
    → handle_pull_kv call k s ≡ ok s'
    → Steps call (pull_kv_request k) s s'
unfolding handle_pull_kv
handle_pull_kv-Steps call k s {s'} e = elim (Option-cases (lookup k s.kv)) [
  | inl n ↦
      let calls = or_empty (lookup k s.pending_kv_calls) ++ call ∷ [] in
      let cells : (j : String) → put k (waiting calls) (cells_of s) j ≡ cells_of s' j =
        λ j. ground (arith, e, n, eq_iff k j, lookup-assign k j calls s.pending_kv_calls) in
      let said : s'.responses ≡ s.responses = ground (arith, e, n) in
      (
        [],
        ap (pull_cell call k (cells_of s)) (ap (λ o. cell_of o (lookup k s.pending_kv_calls)) n)
            ∙ ap (λ (c : Cells). some (c, [])) (fun_ext cells),
        ap of_keys said ∙ sym (append-nil (of_keys s.responses)),
      )
  | inr (v, h) ↦
      let cells : (j : String) → cells_of s j ≡ cells_of s' j = λ j. ground (arith, e, h) in
      let said : s'.responses ≡ s.responses ++ (call, pull_kv_response v) ∷ [] =
        ground (arith, e, h) in
      (
        (call, pull_kv_response v) ∷ [],
        ap (pull_cell call k (cells_of s)) (ap (λ o. cell_of o (lookup k s.pending_kv_calls)) h)
            ∙ ap (λ (c : Cells). some (c, (call, pull_kv_response v) ∷ [])) (fun_ext cells),
        ap of_keys said ∙ of_keys-append s.responses ((call, pull_kv_response v) ∷ []),
      )
]
