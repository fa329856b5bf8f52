-- ===== src/Ibverbs/Queues/Spread.antt =====
-- comm_network/ibverbs/ibverbs_comm_network.cpp: how `SetUp` spreads the queue pairs over the
-- completion queues.
use native.Mathlib.Nat.{mod_self, mod-eq_of_lt}
use comm_network.Prelude.{
  ℕ, zero, suc, ◌+◌, ◌%◌, ◌^◌, ◌<◌, ◌≡◌, ◌≢◌, refl, ap, ◌∙◌, sym, subst, List, [], ◌∷◌, ◌++◌,
  Option, none, some, Bool, true, false, Bool-cases, inl, inr, Result, ok, length, length-set,
  length-append, get_elem?, get_elem?-lt, get_elem?-set, get_elem?-set_other, set, ◌==◌, ltb, leb,
  if◌then◌else◌, arith,
}
use comm_network.Prelude.Int.{pos_part}
use comm_network.Prelude.Words.{int_max}
use comm_network.Config.{CommNetConfig}
use comm_network.Ibverbs.Qp.Pool.{count}
use comm_network.Ibverbs.Queues.{Answers, Queues, put_qp, make_qps, create_cqs}

-- How many queue pairs use a completion queue.
abbrev pub uses : ℕ → List (Option ℕ) → ℕ
uses c [] = 0
uses c (none ∷ qp_vec) = uses c qp_vec
uses c (some d ∷ qp_vec) = (if d == c then 1 else 0) + uses c qp_vec

uses-set :
    (c d p : ℕ) (qp_vec : List (Option ℕ))
    → get_elem? qp_vec p ≡ some none
    → uses c (set qp_vec p (some d)) ≡ (if d == c then 1 else 0) + uses c qp_vec
uses-set c d p [] e = ground (arith, e)
uses-set c d zero (none ∷ qp_vec) e = refl
uses-set c d zero (some x ∷ qp_vec) e = ground (arith, e)
uses-set c d (suc p) (none ∷ qp_vec) e = uses-set c d p qp_vec e
uses-set c d (suc p) (some x ∷ qp_vec) e = ground (arith, uses-set c d p qp_vec e)

-- The queues before the next one to be picked have one queue pair more than the others.
pub record IsSpread (n : ℕ) (s : Queues) : Type 0 where
  pub rounds : ℕ
  pub next : ltb s.cq_idx n ≡ true
  pub each : (c : ℕ) → ltb c n ≡ true → uses c s.qp_vec ≡ rounds + (if ltb c s.cq_idx then 1 else 0)

-- What stands in the slot of a machine.
pub data Slot (n : ℕ) : Bool → Option (Option ℕ) → Type 0 where
  has_qp : {c : ℕ} → ltb c n ≡ true → Slot n true (some (some c))
  has_none : Slot n false (some none)

IsSpread-step :
    (n : ℕ) (p : ℕ) (s : Queues)
    → IsSpread n s
    → get_elem? s.qp_vec p ≡ some none
    → IsSpread n (record s { cq_idx = (s.cq_idx + 1) % n; qp_vec = set s.qp_vec p (some s.cq_idx) })
IsSpread-step n p s spread free = elim (Bool-cases (s.cq_idx + 1 == n)) [
  | inl y ↦
      let last : s.cq_idx + 1 ≡ n = ground (arith, y) in
      let wrapped : (s.cq_idx + 1) % n ≡ 0 = ap (λ k. k % n) last ∙ mod_self n in
      record {
        rounds = spread.rounds + 1;
        next = ground (arith, wrapped, last);
        each = λ c lt.
            ground
              (arith, wrapped, last, lt, spread.each c lt, uses-set c s.cq_idx p s.qp_vec free);
      }
  | inr more ↦
      let on : (s.cq_idx + 1) % n ≡ s.cq_idx + 1 =
        mod-eq_of_lt (ground (arith, more, spread.next)) in
      record {
        rounds = spread.rounds;
        next = ground (arith, on, more, spread.next);
        each =
            λ c lt. ground (arith, on, lt, spread.each c lt, uses-set c s.cq_idx p s.qp_vec free);
      }
]

-- The peers have their queue pairs, and no other slot has changed.
pub record Placed (n : ℕ) (peers : List ℕ) (s : Queues) (r : Result Queues) : Type 0 where
  pub out : Queues
  pub done : r ≡ ok out
  pub spread : IsSpread n out
  pub same_length : length out.qp_vec ≡ length s.qp_vec
  pub kept : (p : ℕ) → count p peers ≡ 0 → get_elem? out.qp_vec p ≡ get_elem? s.qp_vec p
  pub placed : (p : ℕ) → leb 1 (count p peers) ≡ true → Slot n true (get_elem? out.qp_vec p)

slot_bound : (p : ℕ) (l : List (Option ℕ)) → get_elem? l p ≡ some none → ltb p (length l) ≡ true
slot_bound p [] e = ground (arith, e)
slot_bound zero (x ∷ l) e = ground arith
slot_bound (suc p) (x ∷ l) e = ground (arith, slot_bound p l e)

module _ (answers : Answers) (config : CommNetConfig) where
  -- One round of the loop.
  make_qps-cons :
      (p : ℕ) (peers : List ℕ) (s : Queues)
      → length s.cq_vec ≡ pos_part config.poller_num
      → ltb s.cq_idx (pos_part config.poller_num) ≡ true
      → get_elem? s.qp_vec p ≡ some none
      → make_qps answers config (p ∷ peers) s
        ≡ make_qps answers config peers (record s {
          cq_idx = (s.cq_idx + 1) % pos_part config.poller_num;
          qp_vec = set s.qp_vec p (some s.cq_idx);
        })
  unfolding make_qps put_qp
  make_qps-cons p peers s cqs next free =
      let (cq, at_idx) = get_elem?-lt s.cq_vec s.cq_idx (ground (arith, cqs, next)) in
      let some_poller : (pos_part config.poller_num == 0) ≡ false = ground (arith, next) in
      rw (at_idx, some_poller, slot_bound p s.qp_vec free) refl

  pub make_qps_lem :
      (peers : List ℕ) (s : Queues)
      → length s.cq_vec ≡ pos_part config.poller_num
      → IsSpread (pos_part config.poller_num) s
      → ((p : ℕ) → leb 1 (count p peers) ≡ true → get_elem? s.qp_vec p ≡ some none)
      → ((p : ℕ) → leb (count p peers) 1 ≡ true)
      → Placed (pos_part config.poller_num) peers s (make_qps answers config peers s)
  unfolding make_qps
  make_qps_lem [] s cqs spread free once = record {
    out = s;
    done = refl;
    spread = spread;
    same_length = refl;
    kept = λ p e. refl;
    placed = λ p e. ground (arith, e);
  }
  make_qps_lem (p ∷ peers) s cqs spread free once =
      let n : ℕ = pos_part config.poller_num in
      let here : get_elem? s.qp_vec p ≡ some none = free p (ground arith) in
      let s1 : Queues = record s {
        cq_idx = (s.cq_idx + 1) % n;
        qp_vec = set s.qp_vec p (some s.cq_idx);
      } in
      let gone : (q : ℕ) → leb 1 (count q peers) ≡ true → p ≢ q =
        λ q there e. ground (arith, once q, there, e) in
      let rest =
        make_qps_lem peers s1 cqs (IsSpread-step n p s spread here)
          (λ q there.
            get_elem?-set_other s.qp_vec p q (some s.cq_idx) (gone q there)
            ∙ free q (ground (arith, there)))
          (λ q. ground (arith, once q)) in
      record {
        out = rest.out;
        done = make_qps-cons p peers s cqs spread.next here ∙ rest.done;
        spread = rest.spread;
        same_length = rest.same_length ∙ length-set s.qp_vec p (some s.cq_idx);
        kept = λ q none_of.
            rest.kept q (ground (arith, none_of))
            ∙ get_elem?-set_other s.qp_vec p q (some s.cq_idx) (λ e. ground (arith, none_of, e));
        placed = λ q there. elim (Bool-cases (leb 1 (count q peers))) [
          | inl y ↦ rest.placed q y
          | inr last ↦
              let same : p ≡ q = ground (arith, there, last) in
              let slot : get_elem? rest.out.qp_vec q ≡ some (some s.cq_idx) =
                rest.kept q (ground (arith, last))
                ∙ ap (get_elem? s1.qp_vec) (sym same)
                ∙ get_elem?-set s.qp_vec p (some s.cq_idx) {x = none} here in
              subst (Slot n true) (sym slot) (has_qp spread.next)
        ];
      }

  -- The loop that creates the queues, with a library that creates them.
  pub create_cqs_lem :
      (n i : ℕ) (s : Queues)
      → ((j : ℕ) → (cq : ℕ) × (answers.ibv_create_cq j ≡ some cq))
      → i + n < 2 ^ 31
      → (cqs pollers : List ℕ) × (create_cqs answers config i n s
          ≡ ok (record s { cq_vec = cqs; poller_vec = pollers }))
        × (length cqs ≡ length s.cq_vec + n)
        × (length pollers ≡ length s.poller_vec + n)
  unfolding create_cqs
  create_cqs_lem zero i s creates small = (s.cq_vec, s.poller_vec, refl, omega arith, omega arith)
  create_cqs_lem (suc n) i s creates small =
      let (cq, e) = creates i in
      let s1 : Queues = record s {
        cq_vec = s.cq_vec ++ cq ∷ [];
        poller_vec = s.poller_vec ++ cq ∷ [];
      } in
      let (cqs, pollers, done, len, len') =
        create_cqs_lem n (i + 1) s1 creates (omega (arith, small)) in
      let counts : ltb i int_max ≡ true = ground (arith, small) in
      (
        cqs,
        pollers,
        rw (e, counts) done,
        ground (arith, len, length-append s.cq_vec (cq ∷ [])),
        ground (arith, len', length-append s.poller_vec (cq ∷ [])),
      )
