-- ===== src/Ibverbs/Connection/SetUp/FourKeys.antt =====
-- The server's map with the four keys of two machines, as `IBVerbsCommNet::SetUp` writes and erases
-- them.
use Prim.Native.String.{String}
use text.Mathlib.Text.{◌==◌}
use text.Mathlib.TextEquality.{eq_iff}
use text.Mathlib.TextPositions.{eq_refl}
use comm_network.Prelude.{◌≡◌, ◌≢◌, refl, ◌∙◌, sym, none, some, if◌then◌else◌, arith}
use comm_network.Prelude.Assoc.{lookup, assign, erase, lookup-assign, lookup-erase}
use comm_network.Ibverbs.Connection.{Kv, Value}
use comm_network.Ibverbs.Connection.SetUp.Links.{differ}

pub absent_after :
    (a b : String) (va vb : Value) (kv : Kv) (k : String)
    → a ≢ k
    → b ≢ k
    → lookup k kv ≡ none
    → lookup k (assign b vb (assign a va kv)) ≡ none
absent_after a b va vb kv k ak bk absent =
    rw
      (lookup-assign b k vb (assign a va kv), lookup-assign a k va kv, differ b k bk, differ a k ak)
      absent

-- Four keys that differ, written into a map that has none of them.
module _ (a b c d : String) (va vb vc vd : Value) (kv : Kv) (ab : a ≢ b) (ac : a ≢ c) (ad : a ≢ d)
    (bc : b ≢ c) (bd : b ≢ d) (cd : c ≢ d) where
  abbrev pub four : Kv
  four = assign d vd (assign c vc (assign b vb (assign a va kv)))

  lookup-four :
      (k : String)
      → lookup k four ≡ (
          if d == k
          then some vd
          else (if c == k
              then some vc
              else (if b == k then some vb else (if a == k then some va else lookup k kv))))
  lookup-four k =
      rw
        (
          lookup-assign d k vd (assign c vc (assign b vb (assign a va kv))),
          lookup-assign c k vc (assign b vb (assign a va kv)),
          lookup-assign b k vb (assign a va kv),
          lookup-assign a k va kv,
        )
        refl

  pub held :
      (lookup a four ≡ some va)
      × (lookup b four ≡ some vb)
      × (lookup c four ≡ some vc)
      × (lookup d four ≡ some vd)
  held = (
    lookup-four a
        ∙ rw
            (
              differ d a (λ e. ad (sym e)),
              differ c a (λ e. ac (sym e)),
              differ b a (λ e. ab (sym e)),
              eq_refl a,
            )
            refl,
    lookup-four b ∙ rw (differ d b (λ e. bd (sym e)), differ c b (λ e. bc (sym e)), eq_refl b) refl,
    lookup-four c ∙ rw (differ d c (λ e. cd (sym e)), eq_refl c) refl,
    lookup-four d ∙ rw (eq_refl d) refl,
  )

  -- Erased one after the other, they leave the map as it was.
  pub restored :
      lookup a kv ≡ none
      → lookup b kv ≡ none
      → lookup c kv ≡ none
      → lookup d kv ≡ none
      → (k : String) → lookup k (erase d (erase c (erase b (erase a four)))) ≡ lookup k kv
  restored na nb nc nd k =
      rw
        (
          lookup-erase d k (erase c (erase b (erase a four))),
          lookup-erase c k (erase b (erase a four)),
          lookup-erase b k (erase a four),
          lookup-erase a k four,
          lookup-four k,
        )
        (ground (arith, eq_iff a k, eq_iff b k, eq_iff c k, eq_iff d k, na, nb, nc, nd))

  pub held_after :
      (lookup c (erase b (erase a four)) ≡ some vc) × (lookup d (erase b (erase a four)) ≡ some vd)
  held_after = (
    lookup-erase b c (erase a four)
        ∙ rw (differ b c bc) (lookup-erase a c four ∙ rw (differ a c ac) (held.2)),
    lookup-erase b d (erase a four)
        ∙ rw (differ b d bd) (lookup-erase a d four ∙ rw (differ a d ad) (held.3)),
  )
