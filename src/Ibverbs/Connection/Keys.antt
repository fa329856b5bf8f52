-- ===== src/Ibverbs/Connection/Keys.antt =====
-- The names under which the set-up publishes what a peer needs: `GenConnInfoKey` of
-- comm_network/ibverbs/ibverbs_comm_network.cpp and `GenTokensMsgKey` of ibverbs_qp.cpp.
-- `std::to_string` is a parameter. `GenTokensMsgKey` takes its second number as an `int`, which is here
-- as it is: the ids are indexes of the list of machines.
use Prim.Native.String.{String, [], ◌∷◌, ◌++◌}
use Prim.Native.Char.{code}
use Prim.Native.String.append
use text.Mathlib.TextEquality.{eq_iff}
use text.Mathlib.TextLemmas.{append_assoc}
use comm_network.Prelude.{
  ◌≡◌, ◌≢◌, refl, ap, ◌∙◌, sym, Bool, true, false, Bool-cases, inl, inr, if◌then◌else◌, ◌==◌, arith,
}
use comm_network.Prelude.Int.{ℤ}

module _ (to_string : ℤ → String) where
  unfoldable pub gen_conn_info_key : ℤ → ℤ → String
  gen_conn_info_key src dst = (("IBVerbsConnInfo/" ++ to_string src) ++ "/") ++ to_string dst

  unfoldable pub gen_tokens_msg_key : ℤ → ℤ → String
  gen_tokens_msg_key src dst = (("IBVerbsTokensMsg/" ++ to_string src) ++ "/") ++ to_string dst

abbrev pub has_slash : String → Bool
has_slash [] = false
has_slash (c ∷ s) = if code c == 47 then true else has_slash s

-- What stands before the first slash, and after it.
abbrev before : String → String
before [] = []
before (c ∷ s) = if code c == 47 then [] else c ∷ before s

abbrev after : String → String
after [] = []
after (c ∷ s) = if code c == 47 then s else after s

-- `std::to_string` writes digits and a sign, and different numbers differently.
pub record IsToString (to_string : ℤ → String) : Type 0 where
  pub no_slash : (n : ℤ) → has_slash (to_string n) ≡ false
  pub differs : (m n : ℤ) → to_string m ≡ to_string n → m ≡ n

before-slash :
    (s t : String)
    → has_slash s ≡ false
    → (before (s ++ ("/" ++ t)) ≡ s) × (after (s ++ ("/" ++ t)) ≡ t)
before-slash [] t none_ =
    rw (append.nil ("/" ++ t), append.cons "/" [] t, append.nil t) (refl, refl)
before-slash (c ∷ s) t none_ = elim (Bool-cases (code c == 47)) [
  | inl y ↦ absurd (ground (arith, y, none_))
  | inr n ↦
      let (first, rest) = before-slash s t (ground (arith, n, none_)) in
      rw (append.cons c s ("/" ++ t), n) (ap (λ u. c ∷ u) first, rest)
]

-- A prefix, two numbers and the slashes between them.
key_of : (to_string : ℤ → String) → String → ℤ → ℤ → String
key_of to_string prefix src dst = prefix ++ ("/" ++ (to_string src ++ ("/" ++ to_string dst)))

key-parts :
    (to_string : ℤ → String) (prefix : String) (src dst : ℤ)
    → IsToString to_string
    → has_slash prefix ≡ false
    → let k = key_of to_string prefix src dst in
      (before k ≡ prefix) × (before (after k) ≡ to_string src) × (after (after k) ≡ to_string dst)
unfolding key_of
key-parts to_string prefix src dst is plain =
    let (a, b) = before-slash prefix (to_string src ++ ("/" ++ to_string dst)) plain in
    let (c, d) = before-slash (to_string src) (to_string dst) (is.no_slash src) in
    (a, ap before b ∙ c, ap after b ∙ d)

-- Both names are of that form.
named :
    (to_string : ℤ → String) (prefix : String) (src dst : ℤ)
    → (((prefix ++ "/") ++ to_string src) ++ "/") ++ to_string dst ≡ key_of to_string prefix src dst
unfolding key_of
named to_string prefix src dst =
    append_assoc ((prefix ++ "/") ++ to_string src) "/" (to_string dst)
    ∙ append_assoc (prefix ++ "/") (to_string src) ("/" ++ to_string dst)
    ∙ append_assoc prefix "/" (to_string src ++ ("/" ++ to_string dst))

same-parts :
    (to_string : ℤ → String) (prefix : String) (a b c d : ℤ)
    → IsToString to_string
    → has_slash prefix ≡ false
    → key_of to_string prefix a b ≡ key_of to_string prefix c d
    → (a ≡ c) × (b ≡ d)
same-parts to_string prefix a b c d is plain e =
    let (_, src, dst) = key-parts to_string prefix a b is plain in
    let (_, src', dst') = key-parts to_string prefix c d is plain in
    (
      is.differs a c (sym src ∙ ap (λ k. before (after k)) e ∙ src'),
      is.differs b d (sym dst ∙ ap (λ k. after (after k)) e ∙ dst'),
    )

-- No two of the names that the machines publish are the same: neither of one kind, for different
-- pairs of machines, nor of the two kinds.
pub keys-Differ :
    (to_string : ℤ → String) (a b c d : ℤ)
    → IsToString to_string
    → ((gen_conn_info_key to_string a b ≡ gen_conn_info_key to_string c d) → (a ≡ c) × (b ≡ d))
      × ((gen_tokens_msg_key to_string a b ≡ gen_tokens_msg_key to_string c d) → (a ≡ c) × (b ≡ d))
      × (gen_conn_info_key to_string a b ≢ gen_tokens_msg_key to_string c d)
unfolding gen_conn_info_key gen_tokens_msg_key
keys-Differ to_string a b c d is =
    let conn = named to_string "IBVerbsConnInfo" in
    let tokens = named to_string "IBVerbsTokensMsg" in
    (
      λ e. same-parts to_string "IBVerbsConnInfo" a b c d is refl (sym (conn a b) ∙ e ∙ conn c d),
      λ e.
          same-parts to_string "IBVerbsTokensMsg" a b c d is refl
            (sym (tokens a b) ∙ e ∙ tokens c d),
      λ e.
          let (left, _, _) = key-parts to_string "IBVerbsConnInfo" a b is refl in
          let (right, _, _) = key-parts to_string "IBVerbsTokensMsg" c d is refl in
          prefixes_differ (sym left ∙ ap before (sym (conn a b) ∙ e ∙ tokens c d) ∙ right),
    )
  where
    prefixes_differ : ◌≢◌ {A = String} "IBVerbsConnInfo" "IBVerbsTokensMsg"
    prefixes_differ = ground (arith, eq_iff "IBVerbsConnInfo" "IBVerbsTokensMsg")
