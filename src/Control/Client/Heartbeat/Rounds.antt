-- ===== src/Control/Client/Heartbeat/Rounds.antt =====
-- comm_network/control/ctrl_client.cpp: what a round of the heartbeat does.
use Prim.Native.String.{String}
use comm_network.Prelude.{
  ℕ, suc, ◌+◌, ◌≡◌, refl, ap, ◌∙◌, sym, List, [], ◌∷◌, ◌++◌, append_assoc, append-nil, StartsAt,
  StartsAt-zero, StartsAt-head, StartsAt-next, none, some, false, ok, get_elem?, length, arith,
}
use comm_network.Config.{Machine}
use comm_network.Control.Server.{CtrlRequest, load_server_request}
use comm_network.Control.Client.{StatusCode, status_ok}
use comm_network.Control.Client.Heartbeat.{
  HeartbeatPc, reading, sleeping, calling, Heartbeat, beat, beats,
}

-- The calls of a round, from some machine on.
abbrev pub round : List String → List Machine → List (String × CtrlRequest)
round (stub ∷ stubs) (mchn ∷ machine) = (stub, load_server_request mchn.addr) ∷ round stubs machine
round _ _ = []

module _ (call_method : ℕ → StatusCode) (machine : List Machine) (stubs : List String) where
  pub beats-suc :
      (n : ℕ) (s s' : Heartbeat)
      → beat call_method machine stubs s ≡ ok s'
      → beats call_method machine stubs (suc n) s ≡ beats call_method machine stubs n s'
  unfolding beats
  beats-suc n s s' e = rw e refl

  -- The call to a stub, and the end of the loop over them.
  pub beat-next :
      (i : ℕ) (stub : String) (m : Machine) (s : Heartbeat)
      → ((k : ℕ) → call_method k ≡ status_ok)
      → get_elem? stubs i ≡ some stub
      → get_elem? machine i ≡ some m
      → s.heartbeat_pc ≡ calling i
      → beat call_method machine stubs s
        ≡ ok (record s {
          heartbeat_pc = calling (i + 1);
          calls = s.calls ++ (stub, load_server_request m.addr) ∷ [];
        })
  unfolding beat
  beat-next i stub m s up at_s at_m pc = rw (pc, at_s, at_m, up (length s.calls)) refl

  pub beat-end :
      (i : ℕ) (s : Heartbeat)
      → get_elem? stubs i ≡ none
      → s.heartbeat_pc ≡ calling i
      → beat call_method machine stubs s ≡ ok (record s { heartbeat_pc = sleeping })
  unfolding beat
  beat-end i s at_s pc = rw (pc, at_s) refl

module _ (call_method : ℕ → StatusCode) (machine : List Machine) (stubs : List String)
    (up : (k : ℕ) → call_method k ≡ status_ok) where
  -- From the call to stub i on, through the last one.
  calling_lem :
      (ss : List String) (ms : List Machine) (i n : ℕ) (s : Heartbeat)
      → length ss ≡ length ms
      → StartsAt stubs i ss
      → StartsAt machine i ms
      → s.heartbeat_pc ≡ calling i
      → beats call_method machine stubs (length ss + suc n) s
        ≡ beats call_method machine stubs n
            (record s { heartbeat_pc = sleeping; calls = s.calls ++ round ss ms })
  calling_lem [] [] i n s same at_s at_m pc =
      let tired : Heartbeat = record s { heartbeat_pc = sleeping } in
      ap (λ k. beats call_method machine stubs k s) {y = suc n} (omega arith)
      ∙ beats-suc call_method machine stubs n s tired
          (beat-end call_method machine stubs i s (StartsAt-head stubs [] i at_s) pc)
      ∙ ap
          (λ (l : List (String × CtrlRequest)).
            beats call_method machine stubs n (record tired { calls = l }))
          (sym (append-nil s.calls))
  calling_lem (stub ∷ ss) (m ∷ ms) i n s same at_s at_m pc =
      let call : String × CtrlRequest = (stub, load_server_request m.addr) in
      let next : Heartbeat = record s {
        heartbeat_pc = calling (i + 1);
        calls = s.calls ++ call ∷ [];
      } in
      ap (λ k. beats call_method machine stubs k s) {y = suc (length ss + suc n)} (omega arith)
      ∙ beats-suc call_method machine stubs (length ss + suc n) s next (
          beat-next call_method machine stubs i stub m s up (StartsAt-head stubs (stub ∷ ss) i at_s)
            (StartsAt-head machine (m ∷ ms) i at_m) pc)
      ∙ calling_lem ss ms (i + 1) n next (omega (arith, same)) (StartsAt-next stubs stub ss i at_s)
          (StartsAt-next machine m ms i at_m) refl
      ∙ ap
          (λ (l : List (String × CtrlRequest)).
            beats call_method machine stubs n (record s { heartbeat_pc = sleeping; calls = l }))
          (append_assoc s.calls (call ∷ []) (round ss ms))
  calling_lem [] (m ∷ ms) i n s same at_s at_m pc = ground (arith, same)
  calling_lem (stub ∷ ss) [] i n s same at_s at_m pc = ground (arith, same)

-- A round of the heartbeat, while all servers answer and the flag is down, calls each stub once, in
-- the order of the machines, with the address of its machine, and comes back to the flag.
pub heartbeat_round_lem :
    (call_method : ℕ → StatusCode) (machine : List Machine) (stubs : List String) (s : Heartbeat)
    → ((k : ℕ) → call_method k ≡ status_ok)
    → length stubs ≡ length machine
    → s.heartbeat_pc ≡ reading
    → s.need_heartbeat_thread_stop ≡ false
    → beats call_method machine stubs (length stubs + 3) s
      ≡ ok (record s { calls = s.calls ++ round stubs machine })
unfolding beats beat
heartbeat_round_lem call_method machine stubs s up same pc down =
    let begun : Heartbeat = record s { heartbeat_pc = calling 0 } in
    let begin : beat call_method machine stubs s ≡ ok begun = rw (pc, down) refl in
    let woken : Heartbeat = record s {
      heartbeat_pc = reading;
      calls = s.calls ++ round stubs machine;
    } in
    ap (λ n. beats call_method machine stubs n s) {y = suc (length stubs + suc 1)} (omega arith)
    ∙ beats-suc call_method machine stubs (length stubs + suc 1) s begun begin
    ∙ calling_lem call_method machine stubs up stubs machine 0 1 begun same (StartsAt-zero stubs)
        (StartsAt-zero machine) refl
    ∙ ap (λ (p : HeartbeatPc). ok (record woken { heartbeat_pc = p })) (sym pc)
