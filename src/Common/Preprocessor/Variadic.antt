-- ===== src/Common/Preprocessor/Variadic.antt =====
-- comm_network/common/preprocessor_internal.h: the macros on `__VA_ARGS__`.
pub mod Counts
use comm_network.Prelude.{
  ℕ, zero, suc, List, [], ◌∷◌, ◌++◌, map, replicate, Option, none, some, Bool, true, false, not,
  ◌&&◌, ◌⊎◌, inl, inr, get_elem?, ltb, leb, if◌then◌else◌,
}
use comm_network.Prelude.Options.{◌>>=◌}
use Prim.Native.String.{String}

-- The head of an argument, as far as the macros tell: nothing, a word that names no macro, or a
-- parenthesis.
pub data Arg : Type 0 where
  blank : Arg
  word : String → Arg
  parens : Arg

-- 64, 63, ..., 1
unfoldable pub count_down : ℕ → List ℕ
count_down zero = []
count_down (suc n) = suc n ∷ count_down n

abbrev pub right_of {ℓ} : {A : Type ℓ} → A ⊎ ℕ → Option ℕ
right_of (inl a) = none
right_of (inr n) = some n

-- `VARIADIC_SIZE`: the argument after the first 64, which is a number only if those it is given are
-- at most 64.
unfoldable pub variadic_size {ℓ} : {A : Type ℓ} → List A → Option ℕ
unfolding count_down
variadic_size args = get_elem? (map inl args ++ map inr (count_down 64)) 64 >>= right_of

abbrev pub flags : List (Option Bool)
flags = replicate 63 (some true) ++ some false ∷ []

-- `VARIADIC_HAS_COMMA`, of a call that picks one of its own flags.
unfoldable pub has_comma {ℓ} : {A : Type ℓ} → List A → Option Bool
has_comma args = get_elem? (map (λ a. none) args ++ flags) 64 >>= λ flag. flag

-- `_CN_PP_INTERNAL_TRIGGER_PARENTHESIS_ __VA_ARGS__`: a call where a parenthesis follows.
unfoldable pub trigger : List Arg → List Arg
trigger [] = []
trigger (parens ∷ l) = blank ∷ blank ∷ l
trigger (blank ∷ l) = word "_CN_PP_INTERNAL_TRIGGER_PARENTHESIS_" ∷ l
trigger (word w ∷ l) = word "_CN_PP_INTERNAL_TRIGGER_PARENTHESIS_" ∷ l

-- `__VA_ARGS__ ()`
unfoldable pub then_parens : List Arg → List Arg
then_parens [] = []
then_parens (blank ∷ []) = parens ∷ []
then_parens (word w ∷ []) = word w ∷ []
then_parens (parens ∷ []) = parens ∷ []
then_parens (a ∷ b ∷ l) = a ∷ then_parens (b ∷ l)

-- `IS_VARIADIC_EMPTY`: the case 0001 of the four.
unfoldable pub is_variadic_empty : List Arg → Option Bool
unfolding has_comma trigger then_parens
is_variadic_empty args = do
  e0 ← has_comma args
  e1 ← has_comma (trigger args)
  e2 ← has_comma (then_parens args)
  e3 ← has_comma (trigger (then_parens args))
  some (not e0 && not e1 && not e2 && e3)

-- `JOIN_n`, of texts; `CAT` puts one behind the other.
unfoldable pub join_n {ℓ} : {A : Type ℓ} → ℕ → List A → List (List A) → Option (List A)
join_n zero glue [] = some []
join_n zero glue (x ∷ l) = none
join_n (suc n) glue [] = none
join_n (suc zero) glue (x ∷ []) = some x
join_n (suc zero) glue (x ∷ y ∷ l) = none
join_n (suc (suc n)) glue (x ∷ l) = join_n (suc n) glue l >>= λ rest. some ((x ++ glue) ++ rest)

-- `JOIN`, which has rows up to 15.
unfoldable pub join {ℓ} : {A : Type ℓ} → List A → List (List A) → Option (List A)
unfolding variadic_size join_n
join glue args =
    variadic_size args >>= λ n. let r = join_n n glue args in if leb n 15 then r else none
