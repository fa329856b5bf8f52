-- ===== src/Ibverbs/Connection/SetUp/Tally.antt =====
-- A way to write numbers, for the tests: as tallies with a sign.
use Prim.Native.String.{String, [], ◌∷◌}
use Prim.Native.Char.{code}
use comm_network.Prelude.{ℕ, zero, suc, ◌≡◌, refl, ap, ◌∙◌, sym, false, ◌==◌, if◌then◌else◌}
use comm_network.Prelude.Int.{ℤ, pos, negsuc}
use comm_network.Ibverbs.Connection.Keys.{has_slash, IsToString}

abbrev tally : ℕ → String
tally zero = []
tally (suc n) = "1" ∷ tally n

abbrev pub to_string : ℤ → String
to_string (pos n) = tally n
to_string (negsuc n) = "-" ∷ tally n

abbrev size : String → ℕ
size [] = 0
size (c ∷ s) = suc (size s)

abbrev number : String → ℤ
number [] = pos 0
number (c ∷ s) = if code c == 45 then negsuc (size s) else pos (suc (size s))

size-tally : (n : ℕ) → size (tally n) ≡ n
size-tally zero = refl
size-tally (suc n) = ap suc (size-tally n)

number-to_string : (n : ℤ) → number (to_string n) ≡ n
number-to_string (pos zero) = refl
number-to_string (pos (suc n)) = ap (λ k. pos (suc k)) (size-tally n)
number-to_string (negsuc n) = ap negsuc (size-tally n)

tally-plain : (n : ℕ) → has_slash (tally n) ≡ false
tally-plain zero = refl
tally-plain (suc n) = tally-plain n

pub to_string-IsToString : IsToString to_string
to_string-IsToString = record {
  no_slash = λ n. elim n as (λ x. has_slash (to_string x) ≡ false) [
    | pos k ↦ tally-plain k
    | negsuc k ↦ tally-plain k
  ];
  differs = λ m n e. sym (number-to_string m) ∙ ap number e ∙ number-to_string n;
}
