-- ===== src/Control/Server/Kv.antt =====
-- comm_network/control/ctrl_server.cpp: PushKV, ClearKV and PullKV among requests of every kind.
use Prim.Native.String.{String}
use text.Mathlib.Text.{◌==◌ as str_eq}
use text.Mathlib.TextEquality.{eq_iff}
use mathlib.Core.List.{map-append}
use comm_network.Prelude.{
  append_assoc, ◌≡◌, refl, ℕ, List, [], ◌∷◌, ◌++◌, none, some, ok, arith, if◌then◌else◌, >>=-eq-ok,
  inl, inr, Option-cases,
}
use comm_network.Prelude.Int.{ℤ}
use comm_network.Prelude.Assoc.{
  lookup, assign, erase, lookup-nil, lookup-assign, lookup-erase, lookup-assign_self,
  erase-assign_any,
}
use comm_network.Control.Server.{
  CtrlServer, CtrlRequest, load_server_request, barrier_request, push_kv_request, clear_kv_request,
  pull_kv_request, pull_kv_response, push_kv_response, clear_kv_response, new, send_response,
  send_responses, enqueue_request, or_empty, pull, handle_load_server, handle_barrier,
  handle_push_kv, handle_clear_kv, handle_pull_kv, handle, run, answer_all, push_kv, clear_kv,
  pull_kv,
}

-- No key has both a value and calls that wait for one.
abbrev pub IsDisjoint : CtrlServer → Type 0
IsDisjoint s =
    (k : String) (calls : List ℕ) → lookup k s.pending_kv_calls ≡ some calls → lookup k s.kv ≡ none

handle_push_kv-IsDisjoint :
    (call : ℕ) (k v : String) (s : CtrlServer) {s' : CtrlServer}
    → IsDisjoint s
    → handle_push_kv call k v s ≡ ok s'
    → IsDisjoint s'
unfolding handle_push_kv
handle_push_kv-IsDisjoint call k v s d e j calls w =
    ground
      (arith, eq_iff k j, lookup-assign k j v s.kv, lookup-erase k j s.pending_kv_calls, d j calls)

handle_pull_kv-IsDisjoint :
    (call : ℕ) (k : String) (s : CtrlServer) {s' : CtrlServer}
    → IsDisjoint s
    → handle_pull_kv call k s ≡ ok s'
    → IsDisjoint s'
unfolding handle_pull_kv
handle_pull_kv-IsDisjoint call k s d e j calls w = ground (
  arith,
  eq_iff k j,
  lookup-assign k j (or_empty (lookup k s.pending_kv_calls) ++ call ∷ []) s.pending_kv_calls,
  d j calls,
)

handle_clear_kv-IsDisjoint :
    (call : ℕ) (k : String) (s : CtrlServer) {s' : CtrlServer}
    → IsDisjoint s
    → handle_clear_kv call k s ≡ ok s'
    → IsDisjoint s'
unfolding handle_clear_kv
handle_clear_kv-IsDisjoint call k s d e j calls w =
    ground (arith, eq_iff k j, lookup-erase k j s.kv, d j calls)

handle_barrier-IsDisjoint :
    (call : ℕ) (name : String) (num : ℤ) (s : CtrlServer) {s' : CtrlServer}
    → IsDisjoint s
    → handle_barrier call name num s ≡ ok s'
    → IsDisjoint s'
unfolding handle_barrier
handle_barrier-IsDisjoint call name num s d e j calls w = ground (arith, d j calls)

handle_load_server-IsDisjoint :
    (call : ℕ) (addr : String) (s : CtrlServer) {s' : CtrlServer}
    → IsDisjoint s
    → handle_load_server call addr s ≡ ok s'
    → IsDisjoint s'
unfolding handle_load_server
handle_load_server-IsDisjoint call addr s d e j calls w = ground (arith, d j calls)

-- Every request keeps apart the keys with a value and the keys that calls wait for.
pub handle-IsDisjoint :
    (call : ℕ) (r : CtrlRequest) (s : CtrlServer) {s' : CtrlServer}
    → IsDisjoint s
    → handle call r s ≡ ok s'
    → IsDisjoint s'
unfolding handle
handle-IsDisjoint call (load_server_request addr) s d e =
    handle_load_server-IsDisjoint call addr s d e
handle-IsDisjoint call (barrier_request name num) s d e =
    handle_barrier-IsDisjoint call name num s d e
handle-IsDisjoint call (push_kv_request k v) s d e = handle_push_kv-IsDisjoint call k v s d e
handle-IsDisjoint call (clear_kv_request k) s d e = handle_clear_kv-IsDisjoint call k s d e
handle-IsDisjoint call (pull_kv_request k) s d e = handle_pull_kv-IsDisjoint call k s d e

pub run-IsDisjoint :
    (rs : List (ℕ × CtrlRequest)) (s : CtrlServer) {s' : CtrlServer}
    → IsDisjoint s
    → run rs s ≡ ok s'
    → IsDisjoint s'
unfolding run
run-IsDisjoint [] s d e = ground (arith, d)
run-IsDisjoint ((call, r) ∷ rs) s d e =
    let (s1, e1, e2) = >>=-eq-ok (handle call r s) (λ s'. run rs s') e in
    run-IsDisjoint rs s1 (handle-IsDisjoint call r s d e1) e2

pub new-IsDisjoint : IsDisjoint new
new-IsDisjoint k calls e = lookup-nil k

no_waiters :
    (k v : String) (s : CtrlServer)
    → IsDisjoint s
    → lookup k s.kv ≡ some v
    → lookup k s.pending_kv_calls ≡ none
no_waiters k v s d e = elim (Option-cases (lookup k s.pending_kv_calls)) [
  | inl n ↦ n
  | inr (calls, w) ↦ absurd (ground (arith, d k calls w))
]

-- After any requests that a fresh server has handled, ClearKV of a key with a value passes both of
-- its CHECKs: it drops that key, keeps every other, and answers its caller last.
pub clear_kv_lem :
    (rs : List (ℕ × CtrlRequest)) (call : ℕ) (k v : String) {s : CtrlServer}
    → run rs new ≡ ok s
    → lookup k s.kv ≡ some v
    → (s' : CtrlServer) × (handle call (clear_kv_request k) s ≡ ok s')
      × ((j : String) → lookup j s'.kv ≡ (if str_eq k j then none else lookup j s.kv))
      × (s'.responses ≡ s.responses ++ (call, clear_kv_response) ∷ [])
unfolding handle handle_clear_kv
clear_kv_lem rs call k v {s} reached e =
    let nobody = no_waiters k v s (run-IsDisjoint rs new new-IsDisjoint reached) e in
    (
      enqueue_request clear_kv
          (send_response call clear_kv_response (record s { kv = erase k s.kv })),
      rw (e, nobody) refl,
      (λ j. lookup-erase k j s.kv),
      refl,
    )

-- A PushKV of a key without a value.
abbrev pushed : ℕ → String → String → CtrlServer → CtrlServer
pushed call k v s = enqueue_request push_kv (
    send_response call push_kv_response (
      send_responses (answer_all (pull_kv_response v) (or_empty (lookup k s.pending_kv_calls)))
        (record s { kv = assign k v s.kv; pending_kv_calls = erase k s.pending_kv_calls })))

handle_push_kv-absent :
    (call : ℕ) (k v : String) (s : CtrlServer)
    → lookup k s.kv ≡ none
    → handle_push_kv call k v s ≡ ok (pushed call k v s)
unfolding handle_push_kv
handle_push_kv-absent call k v s absent = rw absent refl

-- A PullKV right before the PushKV of its key or right after it: either way the caller gets the
-- pushed value, after the calls that waited before it, and the server ends with the same values
-- and the same calls waiting.
pub pull_kv-push_kv :
    (pull_call push_call : ℕ) (k v : String) (s : CtrlServer)
    → lookup k s.kv ≡ none
    → let waiting = answer_all (pull_kv_response v) (or_empty (lookup k s.pending_kv_calls)) in
      (s1 : CtrlServer) × (s2 : CtrlServer) × (run
          ((pull_call, pull_kv_request k) ∷ (push_call, push_kv_request k v) ∷ [])
          s
        ≡ ok s1)
      × (run ((push_call, push_kv_request k v) ∷ (pull_call, pull_kv_request k) ∷ []) s ≡ ok s2)
      × (s1.kv ≡ s2.kv)
      × (s1.pending_kv_calls ≡ s2.pending_kv_calls)
      × (s1.responses
          ≡ s.responses
            ++ waiting
            ++ (pull_call, pull_kv_response v) ∷ (push_call, push_kv_response) ∷ [])
      × (s2.responses
          ≡ s.responses
            ++ waiting
            ++ (push_call, push_kv_response) ∷ (pull_call, pull_kv_response v) ∷ [])
unfolding run handle handle_pull_kv
pull_kv-push_kv pull_call push_call k v s absent =
    let m = s.pending_kv_calls in
    let waiting = or_empty (lookup k m) in
    let pulled = enqueue_request pull_kv (pull pull_call k s none) in
    let s1 = pushed push_call k v pulled in
    let s2 = enqueue_request pull_kv (pull pull_call k (pushed push_call k v s) (some v)) in
    (
      s1,
      s2,
      rw (absent, handle_push_kv-absent push_call k v pulled absent) refl,
      rw (handle_push_kv-absent push_call k v s absent, lookup-assign_self k v s.kv) refl,
      refl,
      erase-assign_any k (waiting ++ pull_call ∷ []) m,
      simp (lookup-assign_self k (waiting ++ pull_call ∷ []) m, map-append, append_assoc),
      simp append_assoc,
    )
