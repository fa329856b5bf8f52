-- ===== src/Common/Preprocessor/Variadic/Counts.antt =====
-- comm_network/common/preprocessor_internal.h: what the macros on `__VA_ARGS__` count.
use comm_network.Prelude.{
  ℕ, zero, suc, ◌-◌, ◌≤◌, ◌<◌, ◌≡◌, refl, ap, ◌∙◌, List, [], ◌∷◌, ◌++◌, map, replicate, Option,
  none, some, Bool, true, false, inl, inr, ◌⊎◌, get_elem?, length, length-map, get_elem?-left,
  Bool-cases, get_elem?-right, get_elem?-map, get_elem?-lt, get_elem?-replicate, ltb, leb,
  if◌then◌else◌, arith, append_assoc,
}
use comm_network.Prelude.Options.{◌>>=◌}
use comm_network.Common.Preprocessor.Variadic.{
  count_down, right_of, variadic_size, flags, has_comma, join_n, join,
}

get_elem?-count_down : (n i : ℕ) → i < n → get_elem? (count_down n) i ≡ some (n - i)
unfolding count_down
get_elem?-count_down zero i h = absurd (omega arith)
get_elem?-count_down (suc n) zero h = ap some (omega arith)
get_elem?-count_down (suc n) (suc i) h =
    get_elem?-count_down n i (omega arith) ∙ ap some (omega arith)

-- The flag that n arguments move to the place that `VARIADIC_HAS_COMMA` picks.
flag_lem : (n : ℕ) → 1 ≤ n → n ≤ 64 → get_elem? flags (64 - n) ≡ some (some (ltb 1 n))
flag_lem n lo hi = elim (Bool-cases (ltb 1 n)) [
  | inl y ↦
      let few : 64 - n < 63 = ground (arith, y, hi) in
      rw y (
        get_elem?-left (replicate 63 (some true)) (some false ∷ []) (64 - n) few
        ∙ get_elem?-replicate 63 (64 - n) (some true) few)
  | inr m ↦ let one : n ≡ 1 = ground (arith, m, lo) in rw (m, one) refl
]

-- What the 65th argument of a call of n arguments and the rest of the macro's own is.
module _ {ℓ} {A : Type ℓ} where
  picked {κ} :
      {B : Type κ} (f : A → B) (args : List A) (own : List B)
      → 1 ≤ length args
      → length args ≤ 64
      → get_elem? (map f args ++ own) 64 ≡ get_elem? own (64 - length args)
  picked f args own lo hi =
      get_elem?-right (map f args) own 64 (omega (arith, length-map f args, hi))
      ∙ ap (λ (n : ℕ). get_elem? own (64 - n)) (length-map f args)

  passed_over {κ} :
      {B : Type κ} (f : A → B) (args : List A) (own : List B)
      → 64 < length args
      → (a : A) × (get_elem? (map f args ++ own) 64 ≡ some (f a))
  passed_over f args own more =
      let (a, there) = get_elem?-lt args 64 more in
      (
        a,
        get_elem?-left (map f args) own 64 (omega (arith, length-map f args))
            ∙ get_elem?-map f args 64 a there,
      )

  -- `VARIADIC_SIZE` of 1 to 64 arguments is their number, and of more it is one of them.
  pub variadic_size_lem :
      (args : List A)
      → 1 ≤ length args
      → variadic_size args ≡ (if leb (length args) 64 then some (length args) else none)
  unfolding variadic_size
  variadic_size_lem args some_args =
      let own : List (A ⊎ ℕ) = map inr (count_down 64) in
      elim (Bool-cases (leb (length args) 64)) [
        | inl y ↦
            let few : length args ≤ 64 = ground (arith, y) in
            rw y (
              ap (λ o. o >>= right_of)
                (picked inl args own some_args few
                  ∙ get_elem?-map {A = ℕ} {B = A ⊎ ℕ} inr (count_down 64) (64 - length args) _
                      (get_elem?-count_down 64 (64 - length args) (omega (arith, some_args))))
              ∙ ap some (omega (arith, few)))
        | inr n ↦
            let (a, there) = passed_over inl args own (ground (arith, n)) in
            rw n (ap (λ o. o >>= right_of) there)
      ]

  -- `VARIADIC_HAS_COMMA` of 1 to 64 arguments tells whether there are two.
  pub has_comma_lem :
      (args : List A)
      → 1 ≤ length args
      → length args ≤ 64
      → has_comma args ≡ some (ltb 1 (length args))
  unfolding has_comma
  has_comma_lem args lo hi =
      ap (λ (o : Option (Option Bool)). o >>= λ flag. flag)
        (picked (λ a. none) args flags lo hi ∙ flag_lem (length args) lo hi)

-- The texts with the glue between them.
abbrev pub intercalate {ℓ} : {A : Type ℓ} → List A → List (List A) → List A
intercalate glue [] = []
intercalate glue (x ∷ []) = x
intercalate glue (x ∷ y ∷ l) = x ++ glue ++ intercalate glue (y ∷ l)

join_n_lem {ℓ} :
    {A : Type ℓ} (glue x : List A) (l : List (List A))
    → join_n (length (x ∷ l)) glue (x ∷ l) ≡ some (intercalate glue (x ∷ l))
unfolding join_n
join_n_lem glue x [] = refl
join_n_lem glue x (y ∷ l) =
    rw (join_n_lem glue y l, append_assoc x glue (intercalate glue (y ∷ l))) refl

-- `JOIN` of 1 to 15 texts puts them behind each other with the glue between them, and it has no row
-- for 16 to 64.
pub join_lem {ℓ} :
    {A : Type ℓ} (glue : List A) (args : List (List A))
    → 1 ≤ length args
    → length args ≤ 64
    → join glue args ≡ (if leb (length args) 15 then some (intercalate glue args) else none)
unfolding join
join_lem glue [] lo hi = absurd (omega arith)
join_lem glue (x ∷ l) lo hi =
    let few : leb (length (x ∷ l)) 64 ≡ true = ground (arith, hi) in
    rw (variadic_size_lem (x ∷ l) lo, few, join_n_lem glue x l) refl
