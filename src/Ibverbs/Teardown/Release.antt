-- ===== src/Ibverbs/Teardown/Release.antt =====
-- comm_network/ibverbs/ibverbs_qp.cpp: what the destructor of a queue pair takes off the ledger.
use comm_network.Prelude.{
  ℕ, ◌+◌, ◌-◌, ◌≡◌, ◌≢◌, refl, List, [], ◌∷◌, ◌++◌, none, some, true, false, Result, ok, abort,
  check_failed, is_empty, length, get_elem?, get_elem?-lt, range_from, ◌==◌, leb, ltb,
  if◌then◌else◌, arith,
}
use comm_network.Ibverbs.MemDesc.{MemDesc}
use comm_network.Ibverbs.Qp.{Qp, MsgBuf}
use comm_network.Ibverbs.Qp.Pool.{count}
use comm_network.Ibverbs.Teardown.{
  Ledger, Verbs, remove, dereg_mr, dereg_all, keys_of, delete_msg_mr, delete_msg_mrs,
  delete_mem_descs, delete_qp,
}
use comm_network.Ibverbs.Teardown.Counts.{
  total, count-append, total-append, count-remove, total-count, count-range_from,
}

-- What the verbs library documents: a call on an object that is there succeeds when nothing depends
-- on it any more, and `ibv_dealloc_pd` fails while a region is registered.
pub record IsDocumented (verbs : Verbs) : Type 0 where
  pub destroy_qp : (l : Ledger) → leb 1 l.qps ≡ true → verbs.ibv_destroy_qp l ≡ 0
  pub dereg_mr :
      (key : ℕ) (l : Ledger) → leb 1 (count key l.mrs) ≡ true → verbs.ibv_dereg_mr key l ≡ 0
  pub destroy_cq : (l : Ledger) → l.qps ≡ 0 → leb 1 l.cqs ≡ true → verbs.ibv_destroy_cq l ≡ 0
  pub dealloc_pd : (l : Ledger) → l.qps ≡ 0 → l.mrs ≡ [] → verbs.ibv_dealloc_pd l ≡ 0
  pub dealloc_busy : (l : Ledger) → l.mrs ≢ [] → (verbs.ibv_dealloc_pd l == 0) ≡ false
  pub close_device : (l : Ledger) → l.has_pd ≡ false → verbs.ibv_close_device l ≡ 0

-- One if the b-th message buffer has that key.
abbrev pub has_key : Qp → ℕ → ℕ → ℕ
has_key q k b = elim (get_elem? q.msg_mrs b) [
  | none ↦ 0
  | some buf ↦ if buf.sge.lkey == k then 1 else 0
]

pub has_key-at :
    (q : Qp) (b : ℕ) (buf : MsgBuf)
    → get_elem? q.msg_mrs b ≡ some buf
    → (k : ℕ) → has_key q k b ≡ (if buf.sge.lkey == k then 1 else 0)
has_key-at q b buf at_b k = rw (has_key, at_b) refl

-- How often a key stands in the regions of the pairs of buffers.
abbrev pub in_descs : ℕ → List (MemDesc × MemDesc) → ℕ
in_descs k [] = 0
in_descs k ((send, recv) ∷ ds) = count k (keys_of send) + count k (keys_of recv) + in_descs k ds

-- How often a key stands in all that the queue pair has registered.
abbrev pub registered : ℕ → Qp → ℕ
registered k q = total (has_key q k) (range_from 0 (length q.msg_mrs)) + in_descs k q.mem_desc

-- Each message buffer that exists is in the pool, among those that receive, or in flight, and that
-- once.
abbrev pub IsHome : Qp → List ℕ → Type 0
IsHome q flying =
    (b : ℕ)
    → count b (q.send_msg_buf ++ q.recv_msg_buf ++ flying)
      ≡ (if ltb b (length q.msg_mrs) then 1 else 0)

-- A step takes keys off the ledger, and leaves so many of each.
pub record Leaves (left : ℕ → ℕ) (l : Ledger) (r : Result Ledger) : Type 0 where
  pub mrs : List ℕ
  pub done : r ≡ ok (record l { mrs = mrs })
  pub counts : (k : ℕ) → count k mrs ≡ left k

module _ (verbs : Verbs) (documented : IsDocumented verbs) where
  dereg_mr_lem :
      (key : ℕ) (l : Ledger)
      → leb 1 (count key l.mrs) ≡ true
      → dereg_mr verbs key l ≡ ok (record l { mrs = remove key l.mrs })
  unfolding dereg_mr
  dereg_mr_lem key l there = rw (documented.dereg_mr key l there) refl

  dereg_all_lem :
      (keys : List ℕ) (left : ℕ → ℕ) (l : Ledger)
      → ((k : ℕ) → count k l.mrs ≡ count k keys + left k)
      → Leaves left l (dereg_all verbs keys l)
  unfolding dereg_all
  dereg_all_lem [] left l h = record { mrs = l.mrs; done = refl; counts = λ k. ground (arith, h k) }
  dereg_all_lem (key ∷ keys) left l h =
      let there : leb 1 (count key l.mrs) ≡ true = ground (arith, h key) in
      let l1 : Ledger = record l { mrs = remove key l.mrs } in
      let rest =
        dereg_all_lem keys left l1 (λ k. ground (arith, h k, count-remove key k l.mrs there)) in
      record {
        mrs = rest.mrs;
        done = rw (dereg_mr_lem key l there) rest.done;
        counts = rest.counts;
      }

  delete_msg_mrs_lem :
      (q : Qp) (bs : List ℕ) (left : ℕ → ℕ) (l : Ledger)
      → ((b : ℕ) → leb 1 (count b bs) ≡ true → ltb b (length q.msg_mrs) ≡ true)
      → ((k : ℕ) → count k l.mrs ≡ total (has_key q k) bs + left k)
      → Leaves left l (delete_msg_mrs verbs q bs l)
  unfolding delete_msg_mrs delete_msg_mr
  delete_msg_mrs_lem q [] left l exist h = record {
    mrs = l.mrs;
    done = refl;
    counts = λ k. ground (arith, h k);
  }
  delete_msg_mrs_lem q (b ∷ bs) left l exist h =
      let (buf, at_b) = get_elem?-lt q.msg_mrs b (ground (arith, exist b)) in
      let key : ℕ = buf.sge.lkey in
      let here = has_key-at q b buf at_b in
      let there : leb 1 (count key l.mrs) ≡ true = ground (arith, h key, here key) in
      let l1 : Ledger = record l { mrs = remove key l.mrs } in
      let rest =
        delete_msg_mrs_lem q bs left l1 (λ c one. ground (arith, exist c, one))
          (λ k. ground (arith, h k, here k, count-remove key k l.mrs there)) in
      record {
        mrs = rest.mrs;
        done = rw (at_b, dereg_mr_lem key l there) rest.done;
        counts = rest.counts;
      }

  delete_mem_descs_lem :
      (ds : List (MemDesc × MemDesc)) (left : ℕ → ℕ) (l : Ledger)
      → ((k : ℕ) → count k l.mrs ≡ in_descs k ds + left k)
      → Leaves left l (delete_mem_descs verbs ds l)
  unfolding delete_mem_descs
  delete_mem_descs_lem [] left l h = record {
    mrs = l.mrs;
    done = refl;
    counts = λ k. ground (arith, h k);
  }
  delete_mem_descs_lem ((send, recv) ∷ ds) left l h =
      let s =
        dereg_all_lem (keys_of send) (λ k. count k (keys_of recv) + in_descs k ds + left k) l
          (λ k. ground (arith, h k)) in
      let r =
        dereg_all_lem (keys_of recv) (λ k. in_descs k ds + left k) (record l { mrs = s.mrs })
          (λ k. ground (arith, s.counts k)) in
      let rest = delete_mem_descs_lem ds left (record l { mrs = r.mrs }) r.counts in
      record { mrs = rest.mrs; done = rw (s.done, r.done) rest.done; counts = rest.counts }

  -- It stops while the helper's current queue has a record.
  pub delete_qp_busy :
      (q : Qp) (l : Ledger)
      → is_empty q.helper.cur_record_queue ≡ false
      → leb 1 l.qps ≡ true
      → delete_qp verbs q l ≡ abort check_failed
  unfolding delete_qp
  delete_qp_busy q l busy one = rw (documented.destroy_qp l one, busy) refl

  -- The destructor leaves the regions of the buffers in flight.
  pub delete_qp_lem :
      (q : Qp) (flying : List ℕ) (left : ℕ → ℕ) (l : Ledger)
      → IsHome q flying
      → is_empty q.helper.cur_record_queue ≡ true
      → leb 1 l.qps ≡ true
      → ((k : ℕ) → count k l.mrs ≡ registered k q + left k)
      → Leaves
          (λ k. total (has_key q k) flying + left k)
          (record l { qps = l.qps - 1 })
          (delete_qp verbs q l)
  unfolding delete_qp
  delete_qp_lem q flying left l home idle one h =
      let n : ℕ = length q.msg_mrs in
      let all : List ℕ = q.send_msg_buf ++ q.recv_msg_buf ++ flying in
      let whole : (k : ℕ)
          → total (has_key q k) (range_from 0 n)
            ≡ total (has_key q k) q.send_msg_buf
              + total (has_key q k) q.recv_msg_buf
              + total (has_key q k) flying =
        λ k. ground (
          arith,
          total-count (has_key q k) (range_from 0 n) all
              (λ b. ground (arith, home b, count-range_from b 0 n)),
          total-append (has_key q k) (q.send_msg_buf ++ q.recv_msg_buf) flying,
          total-append (has_key q k) q.send_msg_buf q.recv_msg_buf,
        ) in
      let exist : (b : ℕ)
          → leb 1 (count b q.send_msg_buf + count b q.recv_msg_buf) ≡ true
          → ltb b n ≡ true =
        λ b there. ground (
          arith,
          there,
          home b,
          count-append b (q.send_msg_buf ++ q.recv_msg_buf) flying,
          count-append b q.send_msg_buf q.recv_msg_buf,
        ) in
      let rest : ℕ → ℕ = λ k. total (has_key q k) flying + left k in
      let l0 : Ledger = record l { qps = l.qps - 1 } in
      let s =
        delete_msg_mrs_lem q q.send_msg_buf
          (λ k. total (has_key q k) q.recv_msg_buf + (in_descs k q.mem_desc + rest k)) l0
          (λ b there. exist b (ground (arith, there))) (λ k. ground (arith, h k, whole k)) in
      let r =
        delete_msg_mrs_lem q q.recv_msg_buf (λ k. in_descs k q.mem_desc + rest k)
          (record l0 { mrs = s.mrs }) (λ b there. exist b (ground (arith, there))) s.counts in
      let d = delete_mem_descs_lem q.mem_desc rest (record l0 { mrs = r.mrs }) r.counts in
      record {
        mrs = d.mrs;
        done = rw (documented.destroy_qp l one, idle, s.done, r.done) d.done;
        counts = d.counts;
      }
