-- ===== src/Control/Client/Routes.antt =====
-- comm_network/control/ctrl_client.cpp: the stubs of a constructed client, and which server a key
-- belongs to.
use Prim.Native.String.{String}
use comm_network.Prelude.{
  ℕ, ◌+◌, ◌%◌, ◌<◌, ◌≡◌, refl, ◌∙◌, List, [], ◌∷◌, ◌++◌, map, append-nil, append_assoc, ok, some,
  get_elem?, get_elem?-lt, get_elem?-map, >>=-eq-ok, arith, ◌==◌, false,
}
use comm_network.Prelude.Int.{ℤ}
use comm_network.Config.{Machine, CommNetConfig, total_machine_num}
use comm_network.Control.Client.{
  StatusCode, load_server, stub_addr, connect, new, get_responsible_stub,
}

module _ (to_string : ℤ → String) (hash : String → ℕ) (config : CommNetConfig) where
  connect_lem :
      (call_method : ℕ → ℕ → StatusCode) (i : ℕ) (ms : List Machine) (stubs : List String)
      {r : List String}
      → connect to_string hash config call_method i ms stubs ≡ ok r
      → r ≡ stubs ++ map (stub_addr to_string hash config) ms
  unfolding connect
  connect_lem call_method i [] stubs e = ground (arith, append-nil stubs)
  connect_lem call_method i (m ∷ ms) stubs e =
      let (_, _, rest) =
        >>=-eq-ok (load_server (call_method i))
          (λ _.
            connect to_string hash config call_method (i + 1) ms
              (stubs ++ stub_addr to_string hash config m ∷ []))
          e in
      connect_lem call_method (i + 1) ms _ rest
      ∙ append_assoc stubs (stub_addr to_string hash config m ∷ [])
          (map (stub_addr to_string hash config) ms)

  pub new_lem :
      (call_method : ℕ → ℕ → StatusCode) {stubs : List String}
      → new to_string hash config call_method ≡ ok stubs
      → stubs ≡ map (stub_addr to_string hash config) config.machine
  unfolding new
  new_lem call_method e = connect_lem call_method 0 config.machine [] e

  nonzero-test : (n : ℕ) → 0 < n → (n == 0) ≡ false
  nonzero-test n h = ground arith

  -- The server of a key is that of one machine of the configuration, the same for every client that
  -- got through its constructor, whatever the attempts it took: machine hash(key) % n of n.
  pub get_responsible_stub_lem :
      (call_method : ℕ → ℕ → StatusCode) (key : String) {stubs : List String}
      → 0 < total_machine_num config
      → new to_string hash config call_method ≡ ok stubs
      → (m : Machine) × (get_elem? config.machine (hash key % total_machine_num config) ≡ some m)
        × (get_responsible_stub to_string hash config key stubs
            ≡ ok (stub_addr to_string hash config m))
  unfolding get_responsible_stub
  get_responsible_stub_lem call_method key some_machine made =
      let n : ℕ = total_machine_num config in
      let (m, at_m) = get_elem?-lt config.machine (hash key % n) (omega (arith, some_machine)) in
      (
        m,
        at_m,
        rw
            (
              nonzero-test n some_machine,
              new_lem call_method made,
              get_elem?-map (stub_addr to_string hash config) config.machine (hash key % n) m at_m,
            )
            refl,
      )
