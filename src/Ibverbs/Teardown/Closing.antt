-- ===== src/Ibverbs/Teardown/Closing.antt =====
-- comm_network/ibverbs/ibverbs_comm_network.cpp: when `TearDown` comes to its end.
use comm_network.Prelude.{
  ℕ, zero, suc, ◌+◌, ◌-◌, ◌≡◌, ◌≢◌, refl, ap, ◌∙◌, List, [], ◌∷◌, ◌++◌, Option, none, some, Bool,
  true, is_empty, ◌&&◌, false, Bool-cases, inl, inr, ok, abort, check_failed, length, get_elem?-lt,
  ◌==◌, leb, ltb, if◌then◌else◌, arith,
}
use comm_network.Ibverbs.Qp.{Qp}
use comm_network.Ibverbs.Qp.Pool.{count}
use comm_network.Ibverbs.Teardown.{Ledger, Verbs, delete_qps, destroy_cqs, tear_down}
use comm_network.Ibverbs.Teardown.Counts.{total, count-append, none_left}
use comm_network.Ibverbs.Teardown.Release.{
  IsDocumented, has_key, has_key-at, registered, IsHome, Leaves, delete_qp_lem, delete_qp_busy,
}

-- The entries of `qp_vec_`, each queue pair with its message buffers in flight.
abbrev pub Fleet : Type 0
Fleet = List (Option (Qp × List ℕ))

abbrev pub vec_of : Fleet → List (Option Qp)
vec_of [] = []
vec_of (none ∷ fleet) = none ∷ vec_of fleet
vec_of (some (q, flying) ∷ fleet) = some q ∷ vec_of fleet

abbrev pub AreHome : Fleet → Type 0
AreHome [] = Unit
AreHome (none ∷ fleet) = AreHome fleet
AreHome (some (q, flying) ∷ fleet) = IsHome q flying × AreHome fleet

-- Whether no write helper has a record in its current queue.
abbrev pub all_idle : Fleet → Bool
all_idle [] = true
all_idle (none ∷ fleet) = all_idle fleet
all_idle (some (q, flying) ∷ fleet) = is_empty q.helper.cur_record_queue && all_idle fleet

abbrev pub qp_num : Fleet → ℕ
qp_num [] = 0
qp_num (none ∷ fleet) = qp_num fleet
qp_num (some _ ∷ fleet) = suc (qp_num fleet)

abbrev pub flying_num : Fleet → ℕ
flying_num [] = 0
flying_num (none ∷ fleet) = flying_num fleet
flying_num (some (q, flying) ∷ fleet) = length flying + flying_num fleet

-- How often a key is registered, and how often for a buffer in flight.
abbrev pub registered_in : ℕ → Fleet → ℕ
registered_in k [] = 0
registered_in k (none ∷ fleet) = registered_in k fleet
registered_in k (some (q, flying) ∷ fleet) = registered k q + registered_in k fleet

abbrev flying_in : ℕ → Fleet → ℕ
flying_in k [] = 0
flying_in k (none ∷ fleet) = flying_in k fleet
flying_in k (some (q, flying) ∷ fleet) = total (has_key q k) flying + flying_in k fleet

abbrev pub closed : Ledger
closed = record { mrs = []; qps = 0; cqs = 0; has_pd = false; has_context = false }

module _ (verbs : Verbs) (documented : IsDocumented verbs) where
  delete_qps_lem :
      (fleet : Fleet) (left : ℕ → ℕ) (l : Ledger)
      → AreHome fleet
      → all_idle fleet ≡ true
      → l.qps ≡ qp_num fleet
      → ((k : ℕ) → count k l.mrs ≡ registered_in k fleet + left k)
      → Leaves
          (λ k. flying_in k fleet + left k)
          (record l { qps = 0 })
          (delete_qps verbs (vec_of fleet) l)
  unfolding delete_qps
  delete_qps_lem [] left l home idle num h = record {
    mrs = l.mrs;
    done = ap (λ (n : ℕ). ok (record l { qps = n })) num;
    counts = h;
  }
  delete_qps_lem (none ∷ fleet) left l home idle num h = delete_qps_lem fleet left l home idle num h
  delete_qps_lem (some (q, flying) ∷ fleet) left l (here, home) idle num h =
      let one =
        delete_qp_lem verbs documented q flying (λ k. registered_in k fleet + left k) l here
          (ground (arith, idle)) (ground (arith, num)) (λ k. ground (arith, h k)) in
      let l1 : Ledger = record l { qps = l.qps - 1; mrs = one.mrs } in
      let regroup : (k : ℕ)
          → count k one.mrs ≡ registered_in k fleet + (total (has_key q k) flying + left k) =
        λ k. one.counts k ∙ omega arith in
      let rest =
        delete_qps_lem fleet (λ k. total (has_key q k) flying + left k) l1 home
          (ground (arith, idle)) (omega (arith, num)) regroup in
      record {
        mrs = rest.mrs;
        done = rw one.done rest.done;
        counts = λ k. rest.counts k ∙ omega arith;
      }

  delete_qps_busy :
      (fleet : Fleet) (left : ℕ → ℕ) (l : Ledger)
      → AreHome fleet
      → all_idle fleet ≡ false
      → l.qps ≡ qp_num fleet
      → ((k : ℕ) → count k l.mrs ≡ registered_in k fleet + left k)
      → delete_qps verbs (vec_of fleet) l ≡ abort check_failed
  unfolding delete_qps
  delete_qps_busy [] left l home busy num h = ground (arith, busy)
  delete_qps_busy (none ∷ fleet) left l home busy num h =
      delete_qps_busy fleet left l home busy num h
  delete_qps_busy (some (q, flying) ∷ fleet) left l (here, home) busy num h =
      let one : leb 1 l.qps ≡ true = ground (arith, num) in
      elim (Bool-cases (is_empty q.helper.cur_record_queue)) [
        | inl idle ↦
            let gone =
              delete_qp_lem verbs documented q flying (λ k. registered_in k fleet + left k) l here
                idle one (λ k. ground (arith, h k)) in
            let later : all_idle fleet ≡ false = ground (arith, busy, idle) in
            rw gone.done (
              delete_qps_busy fleet (λ k. total (has_key q k) flying + left k)
                (record l { qps = l.qps - 1; mrs = gone.mrs }) home later (omega (arith, num))
                (λ k. gone.counts k ∙ omega arith))
        | inr here_busy ↦ rw (delete_qp_busy verbs documented q l here_busy one) refl
      ]

  destroy_cqs_lem :
      (n : ℕ) (l : Ledger)
      → l.cqs ≡ n
      → l.qps ≡ 0
      → destroy_cqs verbs n l ≡ ok (record l { cqs = 0 })
  unfolding destroy_cqs
  destroy_cqs_lem zero l cqs qps = ap (λ (n : ℕ). ok (record l { cqs = n })) cqs
  destroy_cqs_lem (suc n) l cqs qps =
      rw (documented.destroy_cq l qps (ground (arith, cqs)))
        (destroy_cqs_lem n (record l { cqs = l.cqs - 1 }) (omega (arith, cqs)) qps)

nothing_flies : (k : ℕ) (fleet : Fleet) → flying_num fleet ≡ 0 → flying_in k fleet ≡ 0
nothing_flies k [] e = refl
nothing_flies k (none ∷ fleet) e = nothing_flies k fleet e
nothing_flies k (some (q, []) ∷ fleet) e = ground (arith, nothing_flies k fleet, e)
nothing_flies k (some (q, b ∷ flying) ∷ fleet) e = ground (arith, e)

something_flies :
    (fleet : Fleet)
    → AreHome fleet
    → leb 1 (flying_num fleet) ≡ true
    → (k : ℕ) × (leb 1 (flying_in k fleet) ≡ true)
something_flies [] home some_flying = ground arith
something_flies (none ∷ fleet) home some_flying = something_flies fleet home some_flying
something_flies (some (q, []) ∷ fleet) (here, home) some_flying =
    let (k, flies) = something_flies fleet home (ground (arith, some_flying)) in
    (k, ground (arith, flies))
something_flies (some (q, b ∷ flying) ∷ fleet) (here, home) some_flying =
    let exists : ltb b (length q.msg_mrs) ≡ true =
      ground (arith, here b, count-append b (q.send_msg_buf ++ q.recv_msg_buf) (b ∷ flying)) in
    let (buf, at_b) = get_elem?-lt q.msg_mrs b (ground (arith, exists)) in
    (buf.sge.lkey, ground (arith, has_key-at q b buf at_b buf.sge.lkey))

tear_down_idle :
    (verbs : Verbs) (fleet : Fleet) (cq_num : ℕ) (l : Ledger)
    → IsDocumented verbs
    → AreHome fleet
    → all_idle fleet ≡ true
    → l.qps ≡ qp_num fleet
    → l.cqs ≡ cq_num
    → ((k : ℕ) → count k l.mrs ≡ registered_in k fleet)
    → tear_down verbs (vec_of fleet) cq_num l
      ≡ (if flying_num fleet == 0 then ok closed else abort check_failed)
unfolding tear_down
tear_down_idle verbs fleet cq_num l documented home idle qps cqs mrs =
    let gone =
      delete_qps_lem verbs documented fleet (λ k. 0) l home idle qps (λ k. mrs k ∙ omega arith) in
    let l1 : Ledger = record l { qps = 0; mrs = gone.mrs } in
    let without = destroy_cqs_lem verbs documented cq_num l1 cqs refl in
    let l2 : Ledger = record l1 { cqs = 0 } in
    let l3 : Ledger = record l2 { has_pd = false } in
    elim (Bool-cases (flying_num fleet == 0)) [
      | inl y ↦
          let empty : gone.mrs ≡ [] =
            none_left gone.mrs
              (λ k. gone.counts k ∙ ground (arith, nothing_flies k fleet (ground (arith, y)))) in
          rw
            (
              gone.done,
              without,
              documented.dealloc_pd l2 refl empty,
              documented.close_device l3 refl,
              y,
            )
            (ap (λ (keys : List ℕ). ok (record closed { mrs = keys })) empty)
      | inr n ↦
          let (k, flies) = something_flies fleet home (ground (arith, n)) in
          let busy : gone.mrs ≢ [] =
            λ empty. ground (arith, flies, gone.counts k, ap (count k) empty) in
          rw (gone.done, without, documented.dealloc_busy l2 busy, n) refl
    ]

-- With a verbs library that does what it documents, and a ledger that has the machine's objects:
-- `TearDown` gives all of them back when no write helper has a record in its current queue and no
-- message buffer is in flight; otherwise it stops at a CHECK, that of the helper's destructor or that
-- of `ibv_dealloc_pd`, because the destructor of the queue pair does not reach a buffer in flight.
pub tear_down_lem :
    (verbs : Verbs) (fleet : Fleet) (cq_num : ℕ) (l : Ledger)
    → IsDocumented verbs
    → AreHome fleet
    → l.qps ≡ qp_num fleet
    → l.cqs ≡ cq_num
    → ((k : ℕ) → count k l.mrs ≡ registered_in k fleet)
    → tear_down verbs (vec_of fleet) cq_num l
      ≡ (if all_idle fleet && flying_num fleet == 0 then ok closed else abort check_failed)
unfolding tear_down
tear_down_lem verbs fleet cq_num l documented home qps cqs mrs =
    elim (Bool-cases (all_idle fleet)) [
      | inl idle ↦
          tear_down_idle verbs fleet cq_num l documented home idle qps cqs mrs ∙ rw idle refl
      | inr busy ↦
          rw
            (
              delete_qps_busy verbs documented fleet (λ k. 0) l home busy qps
                  (λ k. mrs k ∙ omega arith),
              busy,
            )
            refl
    ]
