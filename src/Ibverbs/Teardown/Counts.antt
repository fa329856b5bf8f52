-- ===== src/Ibverbs/Teardown/Counts.antt =====
-- Lists of numbers told apart by how often each stands in them, for the ledger of
-- comm_network/ibverbs.
use comm_network.Prelude.{
  ℕ, zero, suc, ◌+◌, ◌≡◌, refl, ap, sym, List, [], ◌∷◌, ◌++◌, true, range_from, ◌==◌, leb, ltb,
  if◌then◌else◌, arith, ◌&&◌,
}
use comm_network.Ibverbs.Qp.Pool.{count}
use comm_network.Ibverbs.Teardown.{remove}

-- The sum of a weight over a list.
abbrev pub total : (ℕ → ℕ) → List ℕ → ℕ
total w [] = 0
total w (x ∷ l) = w x + total w l

pub count-append : (k : ℕ) (l r : List ℕ) → count k (l ++ r) ≡ count k l + count k r
count-append k [] r = omega arith
count-append k (x ∷ l) r = ground (arith, count-append k l r)

pub total-append : (w : ℕ → ℕ) (l r : List ℕ) → total w (l ++ r) ≡ total w l + total w r
total-append w [] r = omega arith
total-append w (x ∷ l) r = ground (arith, total-append w l r)

pub count-remove :
    (k j : ℕ) (l : List ℕ)
    → leb 1 (count k l) ≡ true
    → count j l ≡ (if k == j then 1 else 0) + count j (remove k l)
count-remove k j [] h = ground arith
count-remove k j (x ∷ l) h = ground (arith, count-remove k j l)

total-remove :
    (w : ℕ → ℕ) (k : ℕ) (l : List ℕ)
    → leb 1 (count k l) ≡ true
    → total w l ≡ w k + total w (remove k l)
total-remove w k [] h = ground arith
total-remove w k (x ∷ l) h = ground (arith, total-remove w k l, ap w {x = x} {y = k})

pub none_left : (l : List ℕ) → ((k : ℕ) → count k l ≡ 0) → l ≡ []
none_left [] h = refl
none_left (x ∷ l) h = ground (arith, h x)

-- Two lists with the same counts have the same sums.
pub total-count :
    (w : ℕ → ℕ) (l r : List ℕ) → ((k : ℕ) → count k l ≡ count k r) → total w l ≡ total w r
total-count w [] r h = rw (none_left r (λ k. sym (h k))) refl
total-count w (x ∷ l) r h =
    let there : leb 1 (count x r) ≡ true = ground (arith, h x) in
    ground (
      arith,
      total-remove w x r there,
      total-count w l (remove x r) (λ k. ground (arith, h k, count-remove x k r there)),
    )

pub count-range_from :
    (k i n : ℕ) → count k (range_from i n) ≡ (if leb i k && ltb k (i + n) then 1 else 0)
count-range_from k i zero = ground arith
count-range_from k i (suc n) = ground (arith, count-range_from k (i + 1) n)
