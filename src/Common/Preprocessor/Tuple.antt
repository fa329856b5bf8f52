-- ===== src/Common/Preprocessor/Tuple.antt =====
-- comm_network/common/preprocessor_internal.h: the macros on tuples.
use comm_network.Prelude.{
  ℕ, zero, suc, ◌+◌, ◌≤◌, ◌<◌, ◌≡◌, refl, ap, ◌∙◌, List, [], ◌∷◌, ◌++◌, map, Option, none, some,
  Bool, true, false, Bool-cases, inl, inr, sym, subst, get_elem?-right, append_assoc, length-append,
  length, length-map, get_elem?, ltb, leb, if◌then◌else◌, arith,
}
use comm_network.Prelude.Options.{◌>>=◌}
use Prim.Native.String.{String}
use comm_network.Common.Preprocessor.Variadic.{
  Arg, blank, word, parens, variadic_size, has_comma, trigger, then_parens, is_variadic_empty,
}
use comm_network.Common.Preprocessor.Variadic.Counts.{variadic_size_lem, has_comma_lem}

-- `TUPLE_SIZE`
unfoldable pub tuple_size : List Arg → Option ℕ
unfolding is_variadic_empty variadic_size
tuple_size t = do is_empty ← is_variadic_empty t; if is_empty then some 0 else variadic_size t

-- `TUPLE_ELEM`, by the rows `ARG_0` to `ARG_7`.
unfoldable pub tuple_elem : ℕ → List Arg → Option Arg
tuple_elem n t = if leb n 7 then get_elem? t n else none

-- The n elements from the i-th on.
unfoldable pub elems_from : ℕ → ℕ → List Arg → Option (List Arg)
unfolding tuple_elem
elems_from i zero t = some []
elems_from i (suc n) t = do a ← tuple_elem i t; rest ← elems_from (i + 1) n t; some (a ∷ rest)

-- `TUPLE_PUSH_FRONT`, by the rows up to 8.
unfoldable pub tuple_push_front : List Arg → Arg → Option (List Arg)
unfolding tuple_size elems_from
tuple_push_front t x = do
  n ← tuple_size t
  rest ← if leb n 8 then elems_from 0 n t else none
  some (x ∷ rest)

length-then_parens : (l : List Arg) → length (then_parens l) ≡ length l
unfolding then_parens
length-then_parens [] = refl
length-then_parens (blank ∷ []) = refl
length-then_parens (word w ∷ []) = refl
length-then_parens (parens ∷ []) = refl
length-then_parens (a ∷ b ∷ l) = ap suc (length-then_parens (b ∷ l))

one_word : (w : String) → is_variadic_empty (word w ∷ []) ≡ some false
unfolding is_variadic_empty trigger then_parens has_comma
one_word w = refl

two_args :
    (t : List Arg)
    → has_comma t ≡ some true
    → {a b c : Bool} → has_comma (trigger t) ≡ some a
    → has_comma (then_parens t) ≡ some b
    → has_comma (trigger (then_parens t)) ≡ some c
    → is_variadic_empty t ≡ some false
unfolding is_variadic_empty
two_args t e0 e1 e2 e3 = rw (e0, e1, e2, e3) refl

-- Words of which there are two have a comma.
commas : (t : List Arg) (n : ℕ) → length t ≡ suc (suc n) → n < 63 → has_comma t ≡ some true
commas t n len few =
    let two : ltb 1 (length t) ≡ true = ground (arith, len) in
    has_comma_lem t (omega (arith, len)) (omega (arith, len, few)) ∙ ap some two

-- A tuple of words is not empty.
is_variadic_empty_lem :
    (w : String) (l : List String)
    → length l < 64
    → is_variadic_empty (map word (w ∷ l)) ≡ some false
unfolding trigger then_parens
is_variadic_empty_lem w [] few = one_word w
is_variadic_empty_lem w (v ∷ l) few =
    let t : List Arg = map word (w ∷ v ∷ l) in
    let len = length-map word l in
    let len' = length-then_parens (map word (v ∷ l)) in
    two_args t (commas t (length l) (omega (arith, len)) (omega (arith, few)))
      (commas (trigger t) (length l) (omega (arith, len)) (omega (arith, few)))
      (commas (then_parens t) (length l) (omega (arith, len, len')) (omega (arith, few)))
      (commas (trigger (then_parens t)) (length l) (omega (arith, len, len')) (omega (arith, few)))

tuple_size_lem :
    (w : String) (l : List String)
    → length l < 64
    → tuple_size (map word (w ∷ l)) ≡ some (suc (length l))
unfolding tuple_size
tuple_size_lem w l few =
    let len = length-map word l in
    let fits : leb (suc (length (map word l))) 64 ≡ true = ground (arith, len, few) in
    rw
      (is_variadic_empty_lem w l few, variadic_size_lem (map word (w ∷ l)) (omega arith), fits, len)

elems_from_lem :
    (p q : List Arg) → length p + length q ≤ 8 → elems_from (length p) (length q) (p ++ q) ≡ some q
unfolding elems_from tuple_elem
elems_from_lem p [] few = refl
elems_from_lem p (a ∷ q) few =
    let row : leb (length p) 7 ≡ true = ground (arith, few) in
    let here : get_elem? (p ++ a ∷ q) (length p) ≡ some a =
      get_elem?-right p (a ∷ q) (length p) (omega arith)
      ∙ ap (get_elem? (a ∷ q)) {y = 0} (omega arith) in
    let next : length (p ++ a ∷ []) ≡ length p + 1 = length-append p (a ∷ []) in
    let rest : elems_from (length p + 1) (length q) (p ++ a ∷ q) ≡ some q =
      subst (λ n. elems_from n (length q) (p ++ a ∷ q) ≡ some q) next
        (subst (λ l. elems_from (length (p ++ a ∷ [])) (length q) l ≡ some q)
          (append_assoc p (a ∷ []) q)
          (elems_from_lem (p ++ a ∷ []) q (omega (arith, next, few)))) in
    rw (row, here, rest) refl

-- `TUPLE_PUSH_FRONT` of a tuple of at most 8 words puts the argument in front of them, and of a
-- longer one, up to 64 words, it has no row.
pub tuple_push_front_lem :
    (w : String) (l : List String) (x : Arg)
    → length l < 64
    → tuple_push_front (map word (w ∷ l)) x
      ≡ (if leb (suc (length l)) 8 then some (x ∷ map word (w ∷ l)) else none)
unfolding tuple_push_front
tuple_push_front_lem w l x few = elim (Bool-cases (leb (suc (length l)) 8)) [
  | inl y ↦
      let len = length-map word l in
      let all : elems_from 0 (suc (length l)) (map word (w ∷ l)) ≡ some (map word (w ∷ l)) =
        ap (λ n. elems_from 0 (suc n) (map word (w ∷ l))) (sym len)
        ∙ elems_from_lem [] (map word (w ∷ l)) (ground (arith, y, len)) in
      rw (tuple_size_lem w l few, y, all) refl
  | inr n ↦ rw (tuple_size_lem w l few, n) refl
]

pub tuple_push_front-nil : (x : Arg) → tuple_push_front (blank ∷ []) x ≡ some (x ∷ [])
unfolding tuple_push_front tuple_size is_variadic_empty has_comma trigger then_parens elems_from
tuple_push_front-nil x = refl
