-- ===== src/Ibverbs/Port/Lifetime.antt =====
-- comm_network/ibverbs/ibverbs_qp.cpp: how long the work request id of a `PostWriteRequest` lives.
use comm_network.Prelude.{
  ℕ, zero, suc, ◌-◌, ◌<◌, ◌≡◌, refl, ap, List, ◌++◌, none, Result, ok, abort, null_pointer, arith,
  eqb_self, ◌>>=◌,
}
use comm_network.Prelude.Int.{pos, negsuc, ◌+ℤ◌}
use comm_network.Ibverbs.Verbs.{SendWr}
use comm_network.Ibverbs.Port.{
  Port, find_id, erase_id, store_id, delete_work_request_id, rdma_write_done,
}
use comm_network.Ibverbs.Port.Writes.{requested}

-- `RDMAWriteDone` for n completions of one request id.
abbrev pub completions : ℕ → ℕ → Port → Result Port
completions zero k p = ok p
completions (suc n) k p = rdma_write_done k p >>= λ p'. completions n k p'

-- The port after the writes are posted and their id is gone.
abbrev pub completed : List SendWr → Port → Port
completed ws p = record p { next_id = suc p.next_id; posted = p.posted ++ ws }

one_less : (m : ℕ) → (pos (suc (suc m)) +ℤ negsuc 0) ≡ pos (suc m)
one_less m = ground arith

not_last :
    (m : ℕ) (ws : List SendWr) (p : Port)
    → rdma_write_done p.next_id (requested (suc (suc m)) ws p) ≡ ok (requested (suc m) ws p)
unfolding rdma_write_done find_id store_id
not_last m ws p = ground arith

last_one :
    (ws : List SendWr) (p : Port)
    → rdma_write_done p.next_id (requested 1 ws p) ≡ ok (completed ws p)
unfolding rdma_write_done find_id store_id delete_work_request_id erase_id
last_one ws p = rw (eqb_self p.next_id) (rw (eqb_self p.next_id) refl)

-- The id of a `PostWriteRequest` of n + 1 writes lives through the first n completions, each of
-- which takes one off its count, and the last completion deletes it and leaves the ids that there
-- were before; if none of those was it, a further completion stops.
pub completions_lem :
    (n : ℕ) (ws : List SendWr) (p : Port)
    → find_id p.next_id p.live ≡ none
    → ((i : ℕ)
        → i < suc n
        → completions i p.next_id (requested (suc n) ws p) ≡ ok (requested (suc n - i) ws p))
      × (completions (suc n) p.next_id (requested (suc n) ws p) ≡ ok (completed ws p))
      × (rdma_write_done p.next_id (completed ws p) ≡ abort null_pointer)
unfolding rdma_write_done
completions_lem n ws p fresh = (λ i lt. early n i lt, all n, rw fresh refl)
  where
    early :
        (n i : ℕ)
        → i < suc n
        → completions i p.next_id (requested (suc n) ws p) ≡ ok (requested (suc n - i) ws p)
    early n zero lt = ap (λ (k : ℕ). ok (requested k ws p)) (omega arith)
    early zero (suc i) lt = absurd (omega arith)
    early (suc n) (suc i) lt =
        let e : suc (suc n) - suc i ≡ suc n - i = omega arith in
        rw (not_last n ws p, e) (early n i (omega arith))

    all : (n : ℕ) → completions (suc n) p.next_id (requested (suc n) ws p) ≡ ok (completed ws p)
    all zero = rw (last_one ws p) refl
    all (suc n) = rw (not_last n ws p) (all n)
