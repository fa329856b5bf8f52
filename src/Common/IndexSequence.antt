-- ===== src/Common/IndexSequence.antt =====
-- comm_network/common/cplusplus_14.h: `std::make_index_sequence`, by halving. A sequence is the
-- list of its numbers. The two specialisations are the tests for 0 and 1; the template's recursion
-- is recursion on the proof that `<` is well founded.
pub mod Laws
mod Tests
use mathlib.Core.Logic.{dite}
use mathlib.Core.WellFounded.{Acc}
use native.Mathlib.Decide.{dec_lt}
use comm_network.Prelude.Order.{lt_wf}
use comm_network.Prelude.{
  ℕ, zero, suc, ◌+◌, ◌-◌, ◌/◌, ◌<◌, ◌≡◌, refl, ap, ◌∙◌, sym, List, [], ◌∷◌, ◌++◌, map, arith, ◌==◌,
  length, range_from, if◌then◌else◌, Bool-cases, true, false, inl, inr,
}

-- index_sequence<I1..., (sizeof...(I1) + I2)...>
pub merge_and_renumber : List ℕ → List ℕ → List ℕ
merge_and_renumber i1 i2 = i1 ++ map (λ i. length i1 + i) i2

make_acc : (n : ℕ) → Acc ◌<◌ n → List ℕ
make_acc n (Acc.intro _ smaller) =
    dite (dec_lt 1 n)
      (λ h.
        merge_and_renumber (make_acc (n / 2) (smaller (n / 2) (omega arith)))
          (make_acc (n - n / 2) (smaller (n - n / 2) (omega arith))))
      (λ _. if n == 0 then [] else 0 ∷ [])

pub make_index_sequence : ℕ → List ℕ
unfolding make_acc merge_and_renumber lt_wf dec_lt
make_index_sequence n = make_acc n (lt_wf.apply n)
