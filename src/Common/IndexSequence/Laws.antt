-- ===== src/Common/IndexSequence/Laws.antt =====
-- comm_network/common/cplusplus_14.h: what `std::make_index_sequence` expands to.
use mathlib.Core.Logic.{dif_pos, dif_neg}
use mathlib.Core.WellFounded.{Acc}
use native.Mathlib.Decide.{dec_lt}
use native.Mathlib.Bridge.{le_prop}
use comm_network.Prelude.Order.{lt_wf}
use comm_network.Prelude.{
  ℕ, zero, suc, ◌+◌, ◌-◌, ◌/◌, ◌<◌, ◌≡◌, refl, ap, [], ◌∷◌, ◌++◌, map, arith, ◌==◌, length,
  range_from, if◌then◌else◌,
}
use comm_network.Common.IndexSequence.{merge_and_renumber, make_acc, make_index_sequence}

map-range_from : (k i n : ℕ) → map (λ j. k + j) (range_from i n) ≡ range_from (k + i) n
map-range_from k i zero = refl
map-range_from k i (suc n) = ground (arith, map-range_from k (i + 1) n)

range_from_add : (i m n : ℕ) → range_from i m ++ range_from (m + i) n ≡ range_from i (m + n)
range_from_add i zero n = ground arith
range_from_add i (suc m) n =
    let e : suc m + n ≡ suc (m + n) = omega arith in
    let e' : suc m + i ≡ m + (i + 1) = omega arith in
    rw (e, e') (ap (λ l. i ∷ l) (range_from_add (i + 1) m n))

length-range_from : (i n : ℕ) → length (range_from i n) ≡ n
length-range_from i zero = refl
length-range_from i (suc n) = ap suc (length-range_from (i + 1) n)

merge_ranges :
    (m n : ℕ) → merge_and_renumber (range_from 0 m) (range_from 0 n) ≡ range_from 0 (m + n)
unfolding merge_and_renumber
merge_ranges m n = rw (length-range_from 0 m, map-range_from m 0 n) (range_from_add 0 m n)

small_sequence : (n : ℕ) → ¬ (1 < n) → (if n == 0 then [] else 0 ∷ []) ≡ range_from 0 n
small_sequence zero h = refl
small_sequence (suc zero) h = refl
small_sequence (suc (suc n)) h = absurd (omega arith)

make_acc_lem : (n : ℕ) (w : Acc ◌<◌ n) → make_acc n w ≡ range_from 0 n
unfolding make_acc
make_acc_lem n (Acc.intro _ smaller) = elim (dec_lt 1 n) [
  | yes h ↦
      rw
        (
          dif_pos (dec_lt 1 n) le_prop h,
          make_acc_lem (n / 2) (smaller (n / 2) (omega arith)),
          make_acc_lem (n - n / 2) (smaller (n - n / 2) (omega arith)),
          merge_ranges (n / 2) (n - n / 2),
        )
        (ap (range_from 0) (omega arith))
  | no h ↦ rw (dif_neg (dec_lt 1 n) h) (small_sequence n h)
]

-- `make_index_sequence<N>` is 0, 1, ..., N - 1.
pub make_index_sequence_lem : (n : ℕ) → make_index_sequence n ≡ range_from 0 n
unfolding make_index_sequence
make_index_sequence_lem n = make_acc_lem n (lt_wf.apply n)
