-- ===== src/Ibverbs/CommNet/Handled.antt =====
-- comm_network/ibverbs/ibverbs_qp.cpp: the end of `RecvDone`, once the write helper has been called.
use comm_network.Prelude.{
  ℕ, zero, suc, ◌≡◌, refl, ap, ◌∙◌, List, [], ◌∷◌, ◌++◌, Option, some, Bool, true, false, Result,
  ok, abort, set, if◌then◌else◌, ◌>>=◌, WhenOk, arith,
}
use comm_network.Prelude.Int.{ℤ, pos_part}
use comm_network.Ibverbs.Verbs.{at, at-set}
use comm_network.Ibverbs.Port.{WorkRequestId, Port}
use comm_network.Ibverbs.WriteHelper.{State}
use comm_network.Ibverbs.WriteHelper.Ids.{IsLive, Held, what_is_left}
use comm_network.Ibverbs.Qp.{Env, called_cb, Endpoint, recycle}
use comm_network.Ibverbs.CommNet.{Net, endpoint, put_endpoint, with_qp, with_helper, call_read_done}
use comm_network.Ibverbs.CommNet.Receiving.{AcceptsRecv, recycled, with_qp_lem, recycle_lem}

-- The queue pair after the call of the helper, and the machine.
abbrev pub helped_end : Endpoint → State → Port → Endpoint
helped_end e s port = record e { port = port; qp = record (e.qp) { helper = s.helper } }

abbrev pub helped : ℤ → Endpoint → State → Net → Net
helped peer e s net = record net {
  machine = s.machine;
  qps = set net.qps (pos_part peer) (some (record (e.qp) { helper = s.helper }));
}

-- What the helper is called on.
abbrev pub helper_state : Endpoint → Net → State
helper_state e net = record { helper = e.qp.helper; machine = net.machine }

-- The first of the read-done callbacks is called, exactly for the last piece.
abbrev pub read_done : Bool → ℕ → List (Option ℕ) → Endpoint → Endpoint
read_done true cb cbs e = record e {
  qp = record (e.qp) { read_done_cbs = cbs };
  called = e.called ++ called_cb cb ∷ [];
}
read_done false cb cbs e = e

-- If the helper has stopped, so has the handler, for the same reason. Otherwise what it does to the
-- queue pair is `change`, after the helper has done its part, and then the message buffer is posted
-- again under a new id, and the old id deleted.
abbrev pub Follows :
    ℤ → ℕ → ℕ → Endpoint → Net → (Endpoint → Endpoint) → Result State → Result Net → Type 0
Follows peer k b e net change (abort f) r = r ≡ abort f
Follows peer k b e net change (ok s) r =
    (port : Port) × (at s.machine.qp_vec peer ≡ ok (some port))
    × (r
        ≡ ok
            (put_endpoint peer (recycled k b (change (helped_end e s port))) (helped peer e s net)))

endpoint-parts :
    (peer : ℤ) (net : Net) (e : Endpoint)
    → endpoint peer net ≡ ok e
    → (at net.machine.qp_vec peer ≡ ok (some e.port))
      × (at net.qps peer ≡ ok (some e.qp))
      × (net.called ≡ e.called)
unfolding endpoint
endpoint-parts peer net e at_peer = ground (arith, at_peer)

endpoint-helped :
    (peer : ℤ) (net : Net) (e : Endpoint) (s : State) (port : Port)
    → endpoint peer net ≡ ok e
    → at s.machine.qp_vec peer ≡ ok (some port)
    → endpoint peer (helped peer e s net) ≡ ok (helped_end e s port)
unfolding endpoint
endpoint-helped peer net e s port at_peer there =
    let (_, has_qp, calls) = endpoint-parts peer net e at_peer in
    let now = at-set net.qps peer (some (record (e.qp) { helper = s.helper })) has_qp in
    rw (there, now, calls) refl

endpoint-put :
    (peer : ℤ) (net : Net) (e e' : Endpoint)
    → endpoint peer net ≡ ok e
    → endpoint peer (put_endpoint peer e' net) ≡ ok e'
unfolding endpoint
endpoint-put peer net e e' at_peer =
    let (has_port, has_qp, _) = endpoint-parts peer net e at_peer in
    let port_now = at-set net.machine.qp_vec peer (some e'.port) has_port in
    let qp_now = at-set net.qps peer (some e'.qp) has_qp in rw (port_now, qp_now) refl

set-set {ℓ} : {A : Type ℓ} (l : List A) (i : ℕ) (a b : A) → set (set l i a) i b ≡ set l i b
set-set [] i a b = refl
set-set (x ∷ l) zero a b = refl
set-set (x ∷ l) (suc i) a b = ap (λ m. x ∷ m) (set-set l i a b)

put-put :
    (peer : ℤ) (net : Net) (e e' : Endpoint)
    → put_endpoint peer e' (put_endpoint peer e net) ≡ put_endpoint peer e' net
put-put peer net e e' =
    rw
      (
        set-set net.machine.qp_vec (pos_part peer) (some e.port) (some e'.port),
        set-set net.qps (pos_part peer) (some e.qp) (some e'.qp),
      )
      refl

call_read_done_lem :
    (e : Endpoint) (cb : ℕ) (cbs : List (Option ℕ))
    → e.qp.read_done_cbs ≡ some cb ∷ cbs
    → call_read_done e ≡ ok (read_done true cb cbs e)
unfolding call_read_done
call_read_done_lem e cb cbs first = rw first refl

module _ (env : Env) (peer : ℤ) (k b : ℕ) (w : WorkRequestId) (e : Endpoint) (net : Net)
    (at_peer : endpoint peer net ≡ ok e) (room : AcceptsRecv env) where
  pub recycle_after :
      (r : Result State)
      → WhenOk (λ s. Held peer k w s.machine.qp_vec) r
      → Follows peer k b e net
          (λ e1. e1)
          r
          ((r >>= λ s. ok (helped peer e s net)) >>= with_qp peer (recycle env k b))
  recycle_after (abort f) h = refl
  recycle_after (ok s) h =
      let on = what_is_left h in
      (
        on.port,
        on.there,
        with_qp_lem peer (recycle env k b) (helped peer e s net)
            (endpoint-helped peer net e s on.port at_peer on.there)
            (recycle_lem env k b (helped_end e s on.port) (on.live.0) (ground (arith, on.live.1))
              room),
      )

  -- With the callback in between.
  pub recycle_after_read :
      (last : Bool) (cb : ℕ) (cbs : List (Option ℕ)) (r : Result State)
      → e.qp.read_done_cbs ≡ some cb ∷ cbs
      → WhenOk (λ s. Held peer k w s.machine.qp_vec) r
      → Follows peer k b e net (read_done last cb cbs) r (
          (r >>= λ s. ok (helped peer e s net))
          >>= (λ net1. if last then with_qp peer call_read_done net1 else ok net1)
          >>= with_qp peer (recycle env k b))
  recycle_after_read false cb cbs (abort f) first h = refl
  recycle_after_read true cb cbs (abort f) first h = refl
  recycle_after_read false cb cbs (ok s) first h = recycle_after (ok s) h
  recycle_after_read true cb cbs (ok s) first h =
      let on = what_is_left h in
      let e1 : Endpoint = helped_end e s on.port in
      let e2 : Endpoint = read_done true cb cbs e1 in
      let net1 : Net = helped peer e s net in
      let there = endpoint-helped peer net e s on.port at_peer on.there in
      (
        on.port,
        on.there,
        ap (λ (x : Result Net). x >>= with_qp peer (recycle env k b))
              (with_qp_lem peer call_read_done net1 there (call_read_done_lem e1 cb cbs first))
            ∙ with_qp_lem peer (recycle env k b) (put_endpoint peer e2 net1)
                (endpoint-put peer net1 e1 e2 there)
                (recycle_lem env k b e2 (on.live.0) (ground (arith, on.live.1)) room)
            ∙ ap ok (put-put peer net1 e2 (recycled k b e2)),
      )

  -- The call of the helper.
  pub with_helper_run :
      (f : State → Result State)
      → with_helper peer f net ≡ (f (helper_state e net) >>= λ s. ok (helped peer e s net))
  unfolding with_helper
  with_helper_run f = rw at_peer refl

  pub port_before : IsLive k w e.port → Held peer k w net.machine.qp_vec
  port_before live = record {
    port = e.port;
    there = (endpoint-parts peer net e at_peer).0;
    live = live;
  }
