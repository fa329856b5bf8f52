-- ===== src/Common/Preprocessor/Product.antt =====
-- comm_network/common/preprocessor.h and preprocessor_internal.h: the product of sequences, and what
-- `preprocessor.h` builds on it.
pub mod Cartesian
pub mod Edges
mod Tests
use comm_network.Prelude.{ℕ, zero, suc, List, [], ◌∷◌, ◌++◌, Option, none, some, leb, if◌then◌else◌}
use comm_network.Prelude.Options.{◌>>=◌}
use comm_network.Common.Preprocessor.Variadic.{Arg, blank, variadic_size}
use comm_network.Common.Preprocessor.Tuple.{tuple_push_front}
use comm_network.Common.Preprocessor.Seq.{d1_seq_for_each, d2_seq_for_each}

-- `MAKE_SEQ_TUPLE_PUSH_FRONT`
unfoldable pub make_seq_tuple_push_front : List Arg → Arg → Option (List (List Arg))
unfolding tuple_push_front
make_seq_tuple_push_front t x = tuple_push_front t x >>= λ t'. some (t' ∷ [])

-- `TUPLE_X_ATOMIC_SEQ`
unfoldable pub tuple_x_atomic_seq : List Arg → List Arg → Option (List (List Arg))
unfolding d2_seq_for_each make_seq_tuple_push_front
tuple_x_atomic_seq atomic_seq t = d2_seq_for_each (make_seq_tuple_push_front t) atomic_seq

-- `TUPLE_SEQ_X_ATOMIC_SEQ`
unfoldable pub tuple_seq_x_atomic_seq : List (List Arg) → List Arg → Option (List (List Arg))
unfolding d1_seq_for_each tuple_x_atomic_seq
tuple_seq_x_atomic_seq tuple_seq atomic_seq =
    d1_seq_for_each (tuple_x_atomic_seq atomic_seq) tuple_seq

-- `SEQ_PRODUCT_n`
unfoldable pub seq_product_n : ℕ → List (List Arg) → Option (List (List Arg))
unfolding tuple_seq_x_atomic_seq
seq_product_n zero [] = some []
seq_product_n zero (s ∷ l) = none
seq_product_n (suc n) [] = none
seq_product_n (suc zero) (s ∷ []) = tuple_seq_x_atomic_seq ((blank ∷ []) ∷ []) s
seq_product_n (suc zero) (s ∷ r ∷ l) = none
seq_product_n (suc (suc n)) (s ∷ l) =
    seq_product_n (suc n) l >>= λ product. tuple_seq_x_atomic_seq product s

-- `__VA_ARGS__` behind a first argument: without one there is still a comma, and a blank behind it.
abbrev pub va_args : List (List Arg) → List (List Arg)
va_args [] = [] ∷ []
va_args (s ∷ l) = s ∷ l

-- `SEQ_PRODUCT`, with its ten rows.
unfoldable pub seq_product : List Arg → List (List Arg) → Option (List (List Arg))
unfolding variadic_size seq_product_n
seq_product seq0 seqs =
    let args = seq0 ∷ va_args seqs in
    variadic_size args >>= λ n.
    let product = seq_product_n n args in if leb n 10 then product else none

-- `SEQ_PRODUCT_FOR_EACH_TUPLE`, and `SEQ_MAP` of a macro that `SEQ_MAP_DO_EACH` calls.
unfoldable pub seq_product_for_each_tuple {ℓ} :
    {B : Type ℓ} → (List Arg → Option (List B)) → List Arg → List (List Arg) → Option (List B)
unfolding seq_product d1_seq_for_each
seq_product_for_each_tuple macro seq0 seqs = seq_product seq0 seqs >>= λ s. d1_seq_for_each macro s

unfoldable pub seq_map_do_each {ℓ} : {B : Type ℓ} → (Arg → B) → List Arg → Option (List B)
seq_map_do_each macro (name ∷ elem ∷ []) = some (macro elem ∷ [])
seq_map_do_each macro _ = none

unfoldable pub seq_map {ℓ} : {B : Type ℓ} → Arg → (Arg → B) → List Arg → Option (List B)
unfolding seq_product_for_each_tuple seq_map_do_each
seq_map name macro s = seq_product_for_each_tuple (seq_map_do_each macro) (name ∷ []) (s ∷ [])
