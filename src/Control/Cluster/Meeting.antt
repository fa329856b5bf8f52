-- ===== src/Control/Cluster/Meeting.antt =====
-- comm_network/control: that two clients meet at one server.
use Prim.Native.String.{String}
use mathlib.Core.Option.{some-injective}
use comm_network.Prelude.{
  ℕ, ◌≡◌, refl, ap, ◌∙◌, sym, List, [], ◌∷◌, ◌++◌, Option, none, some, Result, ok, abort, ◌<◌, ◌%◌,
  get_elem?, ◌>>=◌,
}
use comm_network.Prelude.Int.{ℤ}
use comm_network.Prelude.Assoc.{lookup, assign, assign-same, assign-assign, lookup-assign_self}
use comm_network.Config.{Machine, CommNetConfig, total_machine_num}
use comm_network.Control.Server.{
  CtrlServer, CtrlRequest, pull_kv_request, push_kv_request, pull_kv_response, push_kv_response,
  answer_all, or_empty, handle, run,
}
use comm_network.Control.Server.Kv.{pull_kv-push_kv}
use comm_network.Control.Client.{
  StatusCode, stub_addr, new, get_responsible_stub, push_msg, push_kv_by, pull_kv, parse_response,
}
use comm_network.Control.Client.Routes.{get_responsible_stub_lem}
use comm_network.Control.Cluster.{Cluster, client_call, run_calls}

-- Requests that all go to one stub.
abbrev pub to_stub : String → List (ℕ × CtrlRequest) → List (ℕ × Result (String × CtrlRequest))
to_stub stub [] = []
to_stub stub ((call, r) ∷ rs) = (call, ok (stub, r)) ∷ to_stub stub rs

abbrev put_server : String → Cluster → Result CtrlServer → Result Cluster
put_server stub cluster server = server >>= λ s. ok (assign stub s cluster)

-- The rest of the calls, behind one that the server has handled or stopped at.
rest_at :
    (stub : String) (rs : List (ℕ × CtrlRequest)) (s : CtrlServer) (cluster : Cluster)
    (handled : Result CtrlServer)
    → ((s' : CtrlServer)
        → run_calls (to_stub stub rs) (assign stub s' cluster)
          ≡ put_server stub cluster (run rs s'))
    → (put_server stub (assign stub s cluster) handled >>= λ cl. run_calls (to_stub stub rs) cl)
      ≡ put_server stub cluster (handled >>= λ s'. run rs s')
rest_at stub rs s cluster (ok s') rest =
    ap (run_calls (to_stub stub rs)) (assign-assign stub s s' cluster) ∙ rest s'
rest_at stub rs s cluster (abort f) rest = refl

-- Calls to one stub do what they do at its server, and leave the others alone.
one_server :
    (stub : String) (rs : List (ℕ × CtrlRequest)) (s : CtrlServer) (cluster : Cluster)
    → run_calls (to_stub stub rs) (assign stub s cluster) ≡ put_server stub cluster (run rs s)
unfolding run_calls client_call run
one_server stub [] s cluster = refl
one_server stub ((call, r) ∷ rs) s cluster =
    rw (lookup-assign_self stub s cluster)
      (rest_at stub rs s cluster (handle call r s) (λ s'. one_server stub rs s' cluster))

pub run_calls-to_stub :
    (stub : String) (rs : List (ℕ × CtrlRequest)) (s : CtrlServer) (cluster : Cluster)
    → lookup stub cluster ≡ some s
    → run_calls (to_stub stub rs) cluster ≡ (run rs s >>= λ s'. ok (assign stub s' cluster))
run_calls-to_stub stub rs s cluster there =
    ap (run_calls (to_stub stub rs)) (sym (assign-same stub s cluster there))
    ∙ one_server stub rs s cluster

-- The stub of a key.
stub_of :
    (to_string : ℤ → String) (hash : String → ℕ) (config : CommNetConfig) (up : ℕ → ℕ → StatusCode)
    (k : String) {stubs : List String} {m : Machine}
    → 0 < total_machine_num config
    → new to_string hash config up ≡ ok stubs
    → get_elem? config.machine (hash k % total_machine_num config) ≡ some m
    → get_responsible_stub to_string hash config k stubs ≡ ok (stub_addr to_string hash config m)
stub_of to_string hash config up k {m = m} some_machine made at_m =
    let (m', at_m', to_m') =
      get_responsible_stub_lem to_string hash config up k some_machine made in
    to_m'
    ∙ ap (λ x. ok (stub_addr to_string hash config x)) (some-injective m' m (sym at_m' ∙ at_m))

-- A client pushes a message under a key that has no value yet, and a client pulls it, one after the
-- other in either order: the calls meet at the server of one machine, whatever the attempts it took
-- the clients to connect, no other server is touched, and the response to the pull, behind those to
-- the calls that waited before it, is parsed to the message.
pub pull_kv-push_msg {ℓ} :
    (to_string : ℤ → String) (hash : String → ℕ) (config : CommNetConfig) {M : Type ℓ}
    (serialize : M → String) (parse : String → Option M) (up1 up2 : ℕ → ℕ → StatusCode)
    (pull_call push_call : ℕ) (k : String) (msg : M) (cluster : Cluster)
    {stubs1 stubs2 : List String} {m : Machine} {s : CtrlServer}
    → ((x : M) → parse (serialize x) ≡ some x)
    → 0 < total_machine_num config
    → new to_string hash config up1 ≡ ok stubs1
    → new to_string hash config up2 ≡ ok stubs2
    → get_elem? config.machine (hash k % total_machine_num config) ≡ some m
    → lookup (stub_addr to_string hash config m) cluster ≡ some s
    → lookup k s.kv ≡ none
    → let push = push_msg to_string hash config serialize k msg stubs1 in
      let pull = pull_kv to_string hash config k stubs2 in
      let stub = stub_addr to_string hash config m in
      let answer = pull_kv_response (serialize msg) in
      let waiting = answer_all answer (or_empty (lookup k s.pending_kv_calls)) in
      (s1 : CtrlServer) × (s2 : CtrlServer) × (run_calls
          ((pull_call, pull) ∷ (push_call, push) ∷ [])
          cluster
        ≡ ok (assign stub s1 cluster))
      × (run_calls ((push_call, push) ∷ (pull_call, pull) ∷ []) cluster
          ≡ ok (assign stub s2 cluster))
      × (s1.responses
          ≡ s.responses ++ waiting ++ (pull_call, answer) ∷ (push_call, push_kv_response) ∷ [])
      × (s2.responses
          ≡ s.responses ++ waiting ++ (push_call, push_kv_response) ∷ (pull_call, answer) ∷ [])
      × (parse_response parse answer ≡ some msg)
unfolding push_msg push_kv_by pull_kv
pull_kv-push_msg to_string hash config serialize parse up1 up2 pull_call push_call k msg cluster
      {stubs1} {stubs2} {m} {s} law some_machine made1 made2 at_m there absent =
    let stub : String = stub_addr to_string hash config m in
    let v : String = serialize msg in
    let to_1 = stub_of to_string hash config up1 k some_machine made1 at_m in
    let to_2 = stub_of to_string hash config up2 k some_machine made2 at_m in
    let (s1, s2, run1, run2, _, _, answers1, answers2) =
      pull_kv-push_kv pull_call push_call k v s absent in
    (
      s1,
      s2,
      rw (to_1, to_2)
          (run_calls-to_stub stub
              ((pull_call, pull_kv_request k) ∷ (push_call, push_kv_request k v) ∷ []) s cluster
              there
            ∙ rw run1 refl),
      rw (to_1, to_2)
          (run_calls-to_stub stub
              ((push_call, push_kv_request k v) ∷ (pull_call, pull_kv_request k) ∷ []) s cluster
              there
            ∙ rw run2 refl),
      answers1,
      answers2,
      law msg,
    )
