-- ===== src/Common/Preprocessor/Product/Edges.antt =====
-- comm_network/common/preprocessor.h and preprocessor_internal.h: what the product macro does at its
-- two ends, and `SEQ_MAP`, which stands on the product.
use comm_network.Prelude.{
  suc, ◌<◌, ◌≡◌, refl, ap, ◌∙◌, List, [], ◌∷◌, map, none, some, true, false, subst, length,
  length-map, All, append-nil, ltb, leb, arith,
}
use comm_network.Prelude.Options.{◌>>=◌}
use Prim.Native.String.{String}
use comm_network.Common.Preprocessor.Variadic.{Arg, word}
use comm_network.Common.Preprocessor.Tuple.{tuple_push_front, tuple_push_front_lem}
use comm_network.Common.Preprocessor.Seq.{limit, d1_seq_for_each}
use comm_network.Common.Preprocessor.Seq.Iteration.{flat_map, seq_for_each_lem, seq_for_each-none}
use comm_network.Common.Preprocessor.Product.{
  make_seq_tuple_push_front, tuple_x_atomic_seq, tuple_seq_x_atomic_seq, seq_product_n, seq_product,
  seq_product_for_each_tuple, seq_map_do_each, seq_map,
}
use comm_network.Common.Preprocessor.Product.Cartesian.{
  product, Fits, words, Wide, product-Wide, seq_product_n_lem, seq_product_rows, seq_product_lem,
}

-- `SEQ_PRODUCT` of one sequence is empty: the comma before its missing other arguments makes it the
-- product with an empty sequence.
pub seq_product_alone : (s : List Arg) → seq_product s [] ≡ some []
unfolding seq_product seq_product_n tuple_seq_x_atomic_seq
seq_product_alone s = refl

product_pair :
    (name : String) (s : List String) → product ((name ∷ []) ∷ s ∷ []) ≡ map (λ x. name ∷ x ∷ []) s
product_pair name s = rw (append-nil (map (λ x. x ∷ []) s)) (pairs s)
  where
    pairs :
        (s : List String)
        → flat_map (λ t. (name ∷ t) ∷ []) (map (λ x. x ∷ []) s) ≡ map (λ x. name ∷ x ∷ []) s
    pairs [] = refl
    pairs (x ∷ s) = ap (λ l. (name ∷ x ∷ []) ∷ l) (pairs s)

-- What the macro makes of the second of two arguments.
abbrev second_of {ℓ} : {B : Type ℓ} → (Arg → B) → List Arg → List B
second_of macro [] = []
second_of macro (a ∷ []) = []
second_of macro (a ∷ b ∷ t) = macro b ∷ []

do_each {ℓ} :
    {B : Type ℓ} (name : String) (macro : Arg → B) (s : List String)
    → All
        (λ t. seq_map_do_each macro t ≡ some (second_of macro t))
        (words (map (λ x. name ∷ x ∷ []) s))
unfolding seq_map_do_each
do_each name macro [] = tt
do_each name macro (x ∷ s) = (refl, do_each name macro s)

flat_map-second_of {ℓ} :
    {B : Type ℓ} (name : String) (macro : Arg → B) (s : List String)
    → flat_map (second_of macro) (words (map (λ x. name ∷ x ∷ []) s)) ≡ map (λ x. macro (word x)) s
flat_map-second_of name macro [] = refl
flat_map-second_of name macro (x ∷ s) =
    ap (λ l. macro (word x) ∷ l) (flat_map-second_of name macro s)

-- `SEQ_MAP` of a macro over up to 511 words is the sequence of what it makes of each, in their order.
pub seq_map_lem {ℓ} :
    {B : Type ℓ} (name : String) (macro : Arg → B) (s : List String)
    → length s < limit
    → seq_map (word name) macro (map word s) ≡ some (map (λ x. macro (word x)) s)
unfolding seq_map seq_product_for_each_tuple
seq_map_lem name macro s few =
    let pairs : List (List String) = map (λ x. name ∷ x ∷ []) s in
    let len : length (words pairs) ≡ length s =
      length-map (map word) pairs ∙ length-map (λ (x : String). name ∷ x ∷ []) s in
    let size : ltb (length (words pairs)) limit ≡ true = ground (arith, len, few) in
    ap (λ p. p >>= λ l. d1_seq_for_each (seq_map_do_each macro) l)
      (seq_product_lem (name ∷ []) s [] (omega arith) (
        omega arith,
        ground (
          arith,
          append-nil (map (λ (x : String). x ∷ []) s),
          length-map (λ (x : String). x ∷ []) s,
          few,
        ),
        (few, omega arith, tt),
      )
        ∙ ap (λ p. some (words p)) (product_pair name s))
    ∙ (seq_for_each_lem (seq_map_do_each macro) (second_of macro) (words pairs)
        (do_each name macro s)).1
    ∙ rw size (ap some (flat_map-second_of name macro s))

-- `SEQ_PRODUCT_10` has nothing to put in front of: `TUPLE_PUSH_FRONT` has no row for nine arguments.
tenth_word : (t : List String) (x : Arg) → length t ≡ 9 → tuple_push_front (map word t) x ≡ none
tenth_word [] x len = absurd (omega (arith, len))
tenth_word (w ∷ t) x len =
    let row : leb (suc (length t)) 8 ≡ false = ground (arith, len) in
    tuple_push_front_lem w t x (omega (arith, len)) ∙ rw row refl

row_of_nine :
    (t s : List String)
    → length t ≡ 9
    → 0 < length s
    → tuple_x_atomic_seq (map word s) (map word t) ≡ none
unfolding tuple_x_atomic_seq make_seq_tuple_push_front
row_of_nine t [] len some_word = absurd (omega (arith, some_word))
row_of_nine t (x ∷ s) len some_word =
    (seq_for_each-none (make_seq_tuple_push_front (map word t)) (word x) (map word s)
      (rw (tenth_word t (word x) len) refl)).1

rows_of_nine :
    (p : List (List String)) (s : List String)
    → 0 < length p
    → Wide 8 p
    → 0 < length s
    → tuple_seq_x_atomic_seq (words p) (map word s) ≡ none
unfolding tuple_seq_x_atomic_seq
rows_of_nine [] s some_tuple wide some_word = absurd (omega (arith, some_tuple))
rows_of_nine (t ∷ p) s some_tuple (len, wide) some_word =
    (seq_for_each-none (tuple_x_atomic_seq (map word s)) (map word t) (words p)
      (row_of_nine t s len some_word)).0

-- `SEQ_PRODUCT` of ten sequences of words, which has a row, fails if the first is not empty and
-- the nine others, which fit, have a tuple: there is no row that puts a tenth word in front.
pub seq_product_ten :
    (s r : List String) (l : List (List String))
    → length l ≡ 8
    → Fits (r ∷ l)
    → 0 < length s
    → 0 < length (product (r ∷ l))
    → seq_product (map word s) (words (r ∷ l)) ≡ none
unfolding seq_product_n
seq_product_ten s r l ten fits some_word some_tuple =
    let below = seq_product_n_lem r l (omega (arith, ten)) fits in
    let len = length-map (map word) (s ∷ r ∷ l) in
    let most : leb (length (words (s ∷ r ∷ l))) 64 ≡ true = ground (arith, len, ten) in
    let row : leb (length (words (s ∷ r ∷ l))) 10 ≡ true = ground (arith, len, ten) in
    seq_product_rows (map word s) (words (r ∷ l)) most row
    ∙ ap (λ n. seq_product_n n (words (s ∷ r ∷ l))) len
    ∙ seq_product_n_none s r l below (
        rows_of_nine (product (r ∷ l)) s some_tuple
          (subst (λ n. Wide n (product (r ∷ l))) ten (product-Wide r l)) some_word)
  where
    seq_product_n_none :
        (s r : List String) (l : List (List String))
        → seq_product_n (length (r ∷ l)) (words (r ∷ l)) ≡ some (words (product (r ∷ l)))
        → tuple_seq_x_atomic_seq (words (product (r ∷ l))) (map word s) ≡ none
        → seq_product_n (length (s ∷ r ∷ l)) (words (s ∷ r ∷ l)) ≡ none
    seq_product_n_none s r l below last = rw below last
