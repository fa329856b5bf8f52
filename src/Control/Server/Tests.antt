-- ===== src/Control/Server/Tests.antt =====
-- Runs of the control server at concrete requests.
use Prim.Native.String.{String}
use comm_network.Prelude.{
  ◌≡◌, refl, ℕ, List, [], ◌∷◌, ◌++◌, none, some, Result, ok, if◌then◌else◌, All, length, ◌+◌, arith,
}
use text.Mathlib.Text.{◌==◌ as str_eq}
use comm_network.Prelude.Int.{pos}
use comm_network.Prelude.Words.{to_size}
use comm_network.Prelude.Assoc.{lookup, assign, erase}
use comm_network.Prelude.Assoc.Totals.{total}
use comm_network.Control.Server.{
  CtrlServer, CtrlRequest, load_server_request, barrier_request, push_kv_request, clear_kv_request,
  pull_kv_request, clear_kv_response, barrier_response, answer_all, handle, run, new,
}
use comm_network.Control.Server.Kv.{clear_kv_lem}
use comm_network.Control.Server.Barrier.{gathered, arrivals, Agrees, barrier_lem}
use comm_network.Control.Server.Answers.{answered, count, made, every_call_held}
use comm_network.Control.Server.Loads.{Loads, run-Loads}
use comm_network.Control.Server.Cells.{of_keys, run_cells}
use comm_network.Control.Server.Cells.Steps.{cells_of}
use comm_network.Control.Server.Cells.Refinement.{outcome, after, run-cells_of}

-- A pull that waits, the push that answers it, and one of three calls of a barrier.
abbrev requests_after : List (ℕ × CtrlRequest)
requests_after =
    (2, pull_kv_request "k") ∷ (3, barrier_request "b" (pos 3)) ∷ (4, push_kv_request "k" "v") ∷ []

abbrev requests : List (ℕ × CtrlRequest)
requests = (1, load_server_request "a") ∷ requests_after

abbrev or_new : Result CtrlServer → CtrlServer
or_new (ok s) = s
or_new _ = new

state : CtrlServer
unfolding run handle lookup assign erase
state = or_new (run requests new)

state-reached : run requests new ≡ ok state
unfolding run state handle lookup assign erase
state-reached = refl

state-value : lookup "k" state.kv ≡ some "v"
unfolding run state handle lookup assign erase
state-value = refl

clear_kv_lem_example :
    (s' : CtrlServer) × (handle 5 (clear_kv_request "k") state ≡ ok s')
    × ((j : String) → lookup j s'.kv ≡ (if str_eq "k" j then none else lookup j state.kv))
    × (s'.responses ≡ state.responses ++ (5, clear_kv_response) ∷ [])
clear_kv_lem_example = clear_kv_lem requests 5 "k" "v" state-reached state-value

state-absent : lookup "j" state.kv ≡ none
unfolding run state handle lookup assign erase
state-absent = refl

new-unvisited : lookup "b" new.barrier_calls ≡ none
unfolding lookup
new-unvisited = refl

abbrev barrier_requests : List (ℕ × CtrlRequest)
barrier_requests =
    (3, barrier_request "b" (pos 3))
    ∷ (2, pull_kv_request "k")
    ∷ (5, barrier_request "b" (pos 3))
    ∷ []

barrier_state : CtrlServer
unfolding run handle lookup assign erase
barrier_state = or_new (run barrier_requests new)

barrier_state-reached : run barrier_requests new ≡ ok barrier_state
unfolding run barrier_state handle lookup assign erase
barrier_state-reached = refl

barrier_requests-Agrees : Agrees "b" (pos 3) barrier_requests
barrier_requests-Agrees = ((λ e. refl), ((λ e. cc), ((λ e. refl), tt)))

barrier_lem_example :
    (lookup "b" barrier_state.barrier_calls ≡ gathered (arrivals "b" barrier_requests) (pos 3))
    × (length (arrivals "b" barrier_requests) + 1 ≡ to_size (pos 3)
        → (s'' : CtrlServer) × (handle 9 (barrier_request "b" (pos 3)) barrier_state ≡ ok s'')
          × (lookup "b" s''.barrier_calls ≡ none)
          × (s''.responses
              ≡ barrier_state.responses
                ++ answer_all barrier_response (arrivals "b" barrier_requests ++ 9 ∷ [])))
barrier_lem_example =
    barrier_lem barrier_requests 9 "b" (pos 3) new new-unvisited barrier_requests-Agrees
      (omega arith) barrier_state-reached

every_call_held_example :
    answered 2 state.responses
      + total (count 2) state.pending_kv_calls
      + total (λ e. count 2 e.0) state.barrier_calls
    ≡ made 2 requests
every_call_held_example = every_call_held requests 2 state-reached

run-Loads_example : (state.this_machine_addr ≡ "a") × All (Loads "a") requests_after
run-Loads_example = run-Loads requests_after 1 "a" state-reached

abbrev key_requests : List (ℕ × CtrlRequest)
key_requests =
    (6, pull_kv_request "j") ∷ (7, push_kv_request "j" "w") ∷ (8, clear_kv_request "j") ∷ []

run-cells_of_example :
    outcome (run key_requests state)
    ≡ after (of_keys state.responses) (run_cells key_requests (cells_of state))
run-cells_of_example = run-cells_of requests state key_requests state-reached (tt, (tt, (tt, tt)))
