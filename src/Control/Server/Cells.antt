-- ===== src/Control/Server/Cells.antt =====
-- What comm_network/control/ctrl_server.cpp promises of its keys, without its maps: each key is a
-- cell that holds a value, or in which calls wait for one.
pub mod Steps
pub mod Refinement
use Prim.Native.String.{String}
use text.Mathlib.Text.{◌==◌ as str_eq}
use comm_network.Prelude.{ℕ, List, [], ◌∷◌, ◌++◌, Option, none, some, if◌then◌else◌}
use comm_network.Prelude.Options.{◌>>=◌}
use comm_network.Control.Server.{
  CtrlRequest, load_server_request, barrier_request, push_kv_request, clear_kv_request,
  pull_kv_request, CtrlResponse, load_server_response, barrier_response, push_kv_response,
  clear_kv_response, pull_kv_response, answer_all,
}

pub data Cell : Type 0 where
  holding : String → Cell
  waiting : List ℕ → Cell

abbrev pub Cells : Type 0
Cells = String → Cell

abbrev pub Answers : Type 0
Answers = List (ℕ × CtrlResponse)

abbrev pub put : String → Cell → Cells → Cells
put k c cells j = if str_eq k j then c else cells j

-- A push fills a cell and answers those who wait, a clear empties it, a pull is answered or waits;
-- a second push and a clear of what is not there are not allowed.
abbrev pub push_cell : ℕ → String → String → Cells → Cell → Option (Cells × Answers)
push_cell call k v cells (holding w) = none
push_cell call k v cells (waiting calls) = some (
  put k (holding v) cells,
  answer_all (pull_kv_response v) calls ++ (call, push_kv_response) ∷ [],
)

abbrev pub clear_cell : ℕ → String → Cells → Cell → Option (Cells × Answers)
clear_cell call k cells (holding w) =
    some (put k (waiting []) cells, (call, clear_kv_response) ∷ [])
clear_cell call k cells (waiting calls) = none

abbrev pub pull_cell : ℕ → String → Cells → Cell → Option (Cells × Answers)
pull_cell call k cells (holding w) = some (cells, (call, pull_kv_response w) ∷ [])
pull_cell call k cells (waiting calls) = some (put k (waiting (calls ++ call ∷ [])) cells, [])

abbrev pub step_cells : ℕ → CtrlRequest → Cells → Option (Cells × Answers)
step_cells call (load_server_request addr) cells = some (cells, [])
step_cells call (barrier_request name num) cells = some (cells, [])
step_cells call (push_kv_request k v) cells = push_cell call k v cells (cells k)
step_cells call (clear_kv_request k) cells = clear_cell call k cells (cells k)
step_cells call (pull_kv_request k) cells = pull_cell call k cells (cells k)

abbrev pub run_cells : List (ℕ × CtrlRequest) → Cells → Option (Cells × Answers)
run_cells [] cells = some (cells, [])
run_cells ((call, r) ∷ rs) cells = do
  first ← step_cells call r cells
  rest ← run_cells rs (first.0)
  some (rest.0, first.1 ++ rest.1)

-- The answers that concern keys.
abbrev pub of_keys : Answers → Answers
of_keys [] = []
of_keys ((call, load_server_response) ∷ l) = of_keys l
of_keys ((call, barrier_response) ∷ l) = of_keys l
of_keys ((call, push_kv_response) ∷ l) = (call, push_kv_response) ∷ of_keys l
of_keys ((call, clear_kv_response) ∷ l) = (call, clear_kv_response) ∷ of_keys l
of_keys ((call, pull_kv_response v) ∷ l) = (call, pull_kv_response v) ∷ of_keys l
