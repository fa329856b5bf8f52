-- ===== src/Common/Preprocessor/Product/Tests.antt =====
-- Tests of the macros on sequences.
use comm_network.Prelude.{ℕ, ◌≡◌, refl, List, [], ◌∷◌, map, replicate, Option, some, none, arith}
use Prim.Native.String.{String}
use comm_network.Common.Preprocessor.Variadic.{word}
use comm_network.Common.Preprocessor.Seq.{d0_seq_for_each, d1_seq_for_each, d2_seq_for_each}
use comm_network.Common.Preprocessor.Seq.Iteration.{seq_for_each_lem}
use comm_network.Common.Preprocessor.Product.{seq_product}
use comm_network.Common.Preprocessor.Product.Cartesian.{Fits, words, seq_product_lem}
use comm_network.Common.Preprocessor.Product.Edges.{seq_product_ten}

abbrev types : List String
types = "int" ∷ "char" ∷ []

abbrev ranks : List String
ranks = "1" ∷ "2" ∷ "3" ∷ []

seq_product_lem_example :
    seq_product (map word types) (words (ranks ∷ []))
    ≡ some (
        words (
          ("int" ∷ "1" ∷ [])
          ∷ ("char" ∷ "1" ∷ [])
          ∷ ("int" ∷ "2" ∷ [])
          ∷ ("char" ∷ "2" ∷ [])
          ∷ ("int" ∷ "3" ∷ [])
          ∷ ("char" ∷ "3" ∷ [])
          ∷ []))
seq_product_lem_example =
    seq_product_lem types ranks [] (omega arith)
      (omega arith, omega arith, (omega arith, omega arith, tt))

abbrev nine : List (List String)
nine = replicate 8 ("x" ∷ [])

nine-Fits : Fits (("x" ∷ []) ∷ nine)
nine-Fits = (
  omega arith,
  omega arith,
  (
    omega arith,
    omega arith,
    (
      omega arith,
      omega arith,
      (
        omega arith,
        omega arith,
        (
          omega arith,
          omega arith,
          (
            omega arith,
            omega arith,
            (omega arith, omega arith, (omega arith, omega arith, (omega arith, omega arith, tt))),
          ),
        ),
      ),
    ),
  ),
)

seq_product_ten_example : seq_product (map word types) (words (("x" ∷ []) ∷ nine)) ≡ none
seq_product_ten_example =
    seq_product_ten types ("x" ∷ []) nine refl nine-Fits (omega arith) (omega arith)

abbrev doubled : ℕ → List ℕ
doubled n = n ∷ n ∷ []

seq_for_each_lem_example :
    let made : Option (List ℕ) = some (1 ∷ 1 ∷ 2 ∷ 2 ∷ []) in
    (d0_seq_for_each (λ n. some (doubled n)) (1 ∷ 2 ∷ []) ≡ made)
    × (d1_seq_for_each (λ n. some (doubled n)) (1 ∷ 2 ∷ []) ≡ made)
    × (d2_seq_for_each (λ n. some (doubled n)) (1 ∷ 2 ∷ []) ≡ made)
seq_for_each_lem_example =
    seq_for_each_lem (λ n. some (doubled n)) doubled (1 ∷ 2 ∷ []) (refl, (refl, tt))
