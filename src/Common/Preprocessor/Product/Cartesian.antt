-- ===== src/Common/Preprocessor/Product/Cartesian.antt =====
-- comm_network/common/preprocessor.h and preprocessor_internal.h: the product of sequences of words.
use comm_network.Prelude.{
  ℕ, suc, ◌≤◌, ◌<◌, ◌≡◌, refl, ap, ◌∙◌, List, [], ◌∷◌, ◌++◌, map, some, true, sym, length,
  length-map, All, All-append, ltb, leb, arith,
}
use Prim.Native.String.{String}
use comm_network.Common.Preprocessor.Variadic.{Arg, blank, word}
use comm_network.Common.Preprocessor.Variadic.Counts.{variadic_size_lem}
use comm_network.Common.Preprocessor.Tuple.{
  tuple_push_front, tuple_push_front_lem, tuple_push_front-nil,
}
use comm_network.Common.Preprocessor.Seq.{limit}
use comm_network.Common.Preprocessor.Seq.Iteration.{flat_map, seq_for_each_lem}
use comm_network.Common.Preprocessor.Product.{
  make_seq_tuple_push_front, tuple_x_atomic_seq, tuple_seq_x_atomic_seq, seq_product_n, va_args,
  seq_product,
}

-- The product, its first sequence varying fastest.
abbrev pub product : List (List String) → List (List String)
product [] = [] ∷ []
product (s ∷ l) = flat_map (λ t. map (λ x. x ∷ t) s) (product l)

-- Each sequence, and the product of those behind it, has rows.
abbrev pub Fits : List (List String) → Type 0
Fits [] = Unit
Fits (s ∷ l) = (length s < limit) × (length (product l) < limit) × Fits l

abbrev pub words : List (List String) → List (List Arg)
words l = map (map word) l

-- What a row makes of the words of s, in front of t.
abbrev pub fronts : List String → List String → List (List String)
fronts s t = map (λ x. x ∷ t) s

flat_map-fronts :
    (t s : List String) → flat_map (λ a. (a ∷ map word t) ∷ []) (map word s) ≡ words (fronts s t)
flat_map-fronts t [] = refl
flat_map-fronts t (x ∷ s) = ap (λ l. (word x ∷ map word t) ∷ l) (flat_map-fronts t s)

-- A tuple, which is a blank for `()`, with each word in front.
tuple_x_atomic_seq_lem :
    (t' : List Arg) (t s : List String)
    → length s < limit
    → ((x : String) → tuple_push_front t' (word x) ≡ some (map word (x ∷ t)))
    → tuple_x_atomic_seq (map word s) t' ≡ some (words (fronts s t))
unfolding tuple_x_atomic_seq make_seq_tuple_push_front
tuple_x_atomic_seq_lem t' t s few push =
    let f : Arg → List (List Arg) = λ a. (a ∷ map word t) ∷ [] in
    let size : ltb (length (map word s)) limit ≡ true = ground (arith, length-map word s, few) in
    (seq_for_each_lem _ f (map word s) (each s)).2 ∙ rw size (ap some (flat_map-fronts t s))
  where
    each :
        (s : List String)
        → All (λ a. make_seq_tuple_push_front t' a ≡ some ((a ∷ map word t) ∷ [])) (map word s)
    each [] = tt
    each (x ∷ s) = (rw (push x) refl, each s)

map-append : {A B : Type 0} (f : A → B) (l r : List A) → map f (l ++ r) ≡ map f l ++ map f r
map-append f [] r = refl
map-append f (a ∷ l) r = ap (λ k. f a ∷ k) (map-append f l r)

flat_map-words :
    (s : List String) (p : List (List String))
    → flat_map (λ t'. map (λ x. word x ∷ t') s) (words p) ≡ words (flat_map (fronts s) p)
flat_map-words s [] = refl
flat_map-words s (t ∷ p) =
    rw (flat_map-words s p, map-append (map word) (fronts s t) (flat_map (fronts s) p))
      (ap (λ l. l ++ words (flat_map (fronts s) p)) (one s t))
  where
    one : (s t : List String) → map (λ x. word x ∷ map word t) s ≡ words (fronts s t)
    one [] t = refl
    one (x ∷ s) t = ap (λ l. (word x ∷ map word t) ∷ l) (one s t)

-- Tuples of n + 1 words.
abbrev pub Wide : ℕ → List (List String) → Type 0
Wide n p = All (λ t. length t ≡ suc n) p

-- The tuples of p, of n + 1 words each, with the words of s in front.
tuple_seq_x_atomic_seq_lem :
    (s : List String) (n : ℕ) (p : List (List String))
    → n < 8
    → length s < limit
    → length p < limit
    → Wide n p
    → tuple_seq_x_atomic_seq (words p) (map word s) ≡ some (words (flat_map (fronts s) p))
unfolding tuple_seq_x_atomic_seq
tuple_seq_x_atomic_seq_lem s n p narrow few fewer wide =
    let f : List Arg → List (List Arg) = λ t'. map (λ x. word x ∷ t') s in
    let size : ltb (length (words p)) limit ≡ true =
      ground (arith, length-map (map word) p, fewer) in
    (seq_for_each_lem _ f (words p) (each p wide)).1 ∙ rw size (ap some (flat_map-words s p))
  where
    back : (s t : List String) → words (fronts s t) ≡ map (λ x. word x ∷ map word t) s
    back [] t = refl
    back (x ∷ s) t = ap (λ l. (word x ∷ map word t) ∷ l) (back s t)

    push :
        (t : List String)
        → length t ≡ suc n
        → (x : String) → tuple_push_front (map word t) (word x) ≡ some (map word (x ∷ t))
    push [] len x = absurd (omega (arith, len))
    push (w ∷ t) len x =
        let row : leb (suc (length t)) 8 ≡ true = ground (arith, len, narrow) in
        tuple_push_front_lem w t (word x) (omega (arith, len, narrow)) ∙ rw row refl

    each :
        (p : List (List String))
        → Wide n p
        → All (λ t'. tuple_x_atomic_seq (map word s) t' ≡ some (map (λ x. word x ∷ t') s)) (words p)
    each [] wide = tt
    each (t ∷ p) (len, wide) =
        (tuple_x_atomic_seq_lem (map word t) t s few (push t len) ∙ ap some (back s t), each p wide)

pub product-Wide : (s : List String) (l : List (List String)) → Wide (length l) (product (s ∷ l))
product-Wide s [] = All-append (λ t. length t ≡ 1) (fronts s []) [] (one s) tt
  where
    one : (s : List String) → Wide 0 (fronts s [])
    one [] = tt
    one (x ∷ s) = (refl, one s)
product-Wide s (r ∷ l) = widened (product (r ∷ l)) (product-Wide r l)
  where
    front : (n : ℕ) (t : List String) (s : List String) → length t ≡ n → Wide n (fronts s t)
    front n t [] len = tt
    front n t (x ∷ s) len = (ap suc len, front n t s len)

    widened :
        (p : List (List String)) → Wide (length l) p → Wide (suc (length l)) (flat_map (fronts s) p)
    widened [] wide = tt
    widened (t ∷ p) (len, wide) =
        All-append (λ u. length u ≡ suc (suc (length l))) (fronts s t) (flat_map (fronts s) p)
          (front (suc (length l)) t s len) (widened p wide)

pub seq_product_n_lem :
    (s : List String) (l : List (List String))
    → length l ≤ 8
    → Fits (s ∷ l)
    → seq_product_n (length (s ∷ l)) (words (s ∷ l)) ≡ some (words (product (s ∷ l)))
unfolding seq_product_n tuple_seq_x_atomic_seq
seq_product_n_lem s [] few (size, sizes, fits) =
    (seq_for_each_lem (tuple_x_atomic_seq (map word s)) (λ t'. words (fronts s []))
      ((blank ∷ []) ∷ [])
      (tuple_x_atomic_seq_lem (blank ∷ []) [] s size (λ x. tuple_push_front-nil (word x)), tt)).1
    ∙ ap some (sym (map-append (map word) (fronts s []) []))
seq_product_n_lem s (r ∷ l) few (size, sizes, fits) =
    rw (seq_product_n_lem r l (omega (arith, few)) fits) (
      tuple_seq_x_atomic_seq_lem s (length l) (product (r ∷ l)) (omega (arith, few)) size sizes
        (product-Wide r l))

pub seq_product_rows :
    (s : List Arg) (l : List (List Arg))
    → leb (length (s ∷ va_args l)) 64 ≡ true
    → leb (length (s ∷ va_args l)) 10 ≡ true
    → seq_product s l ≡ seq_product_n (length (s ∷ va_args l)) (s ∷ va_args l)
unfolding seq_product
seq_product_rows s l most row =
    let counted = variadic_size_lem (s ∷ va_args l) (omega arith) in rw (counted, most, row) refl

-- `SEQ_PRODUCT` of 2 to 9 sequences of words, none of which nor the products of the last of them
-- having more than 511 elements, is the sequence of all their tuples, the first varying fastest.
pub seq_product_lem :
    (s r : List String) (l : List (List String))
    → length l ≤ 7
    → Fits (s ∷ r ∷ l)
    → seq_product (map word s) (words (r ∷ l)) ≡ some (words (product (s ∷ r ∷ l)))
seq_product_lem s r l few fits =
    let len = length-map (map word) (s ∷ r ∷ l) in
    let most : leb (length (words (s ∷ r ∷ l))) 64 ≡ true = ground (arith, len, few) in
    let row : leb (length (words (s ∷ r ∷ l))) 10 ≡ true = ground (arith, len, few) in
    seq_product_rows (map word s) (words (r ∷ l)) most row
    ∙ ap (λ n. seq_product_n n (words (s ∷ r ∷ l))) len
    ∙ seq_product_n_lem s (r ∷ l) (omega (arith, few)) fits
