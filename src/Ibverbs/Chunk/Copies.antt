-- ===== src/Ibverbs/Chunk/Copies.antt =====
-- The copy loops of comm_network/ibverbs/ibverbs_write_helper.cpp and ibverbs_read_helper.cpp, over
-- blocks that lie one behind the other.
use comm_network.Prelude.{
  ℕ, zero, suc, ◌+◌, ◌-◌, ◌*◌, ◌^◌, ◌≤◌, ◌<◌, min, ◌≡◌, refl, ap, fun_ext, sym, ◌⊎◌, inl, List,
  some, ok, get_elem?, arith, ◌∙◌,
}
use comm_network.Prelude.Words.{add64, sub64}
use comm_network.Ibverbs.Verbs.{Memory, memcpy, Sge}
use comm_network.Ibverbs.Chunk.{copy_to_sges, copy_from_sges}

-- Two ranges of n bytes do not meet.
abbrev pub Apart : ℕ → ℕ → ℕ → Type 0
Apart a b n = (a + n ≤ b) ⊎ (b + n ≤ a)

-- From the i-th on, k blocks of that stride, the first block of all at `base`.
abbrev pub Laid : ℕ → ℕ → List Sge → ℕ → ℕ → Type 0
Laid block base sges i k =
    (j : ℕ)
    → i ≤ j
    → j < i + k
    → (s : Sge) × (get_elem? sges j ≡ some s) × (s.addr ≡ base + j * block)

pub memcpy-zero : (dst src : ℕ) (m : Memory) → memcpy dst src 0 m ≡ m
unfolding memcpy
memcpy-zero dst src m = fun_ext λ a. ground arith

-- A copy in two pieces, if the second does not read what the first wrote.
pub memcpy_split :
    (dst src a b : ℕ) (m : Memory)
    → Apart src dst (a + b)
    → memcpy (dst + a) (src + a) b (memcpy dst src a m) ≡ memcpy dst src (a + b) m
unfolding memcpy
memcpy_split dst src a b m h = fun_ext λ x. ground arith

-- A round of a copy loop: t bytes, then the rest. Where t is 0 the block does not matter.
memcpy_round :
    (dst src t n rest d1 s1 d2 s2 : ℕ) (m : Memory)
    → (d1 ≡ dst) ⊎ (t ≡ 0)
    → (s1 ≡ src) ⊎ (t ≡ 0)
    → d2 ≡ dst + t
    → s2 ≡ src + t
    → t + rest ≡ n
    → Apart src dst n
    → memcpy d2 s2 rest (memcpy d1 s1 t m) ≡ memcpy dst src n m
unfolding memcpy
memcpy_round dst src t n rest d1 s1 d2 s2 m hd hs e f g apart = fun_ext λ x. ground arith

module _ (block base : ℕ) (sges : List Sge) where
  -- What is left to copy after k more blocks from the i-th.
  abbrev left : ℕ → ℕ → ℕ → ℕ
  left k transfer done = min (transfer - done) (k * block)

  -- Block i starts where the copying stands, unless all is copied.
  at_block :
      (i transfer done addr : ℕ)
      → addr ≡ base + i * block
      → done ≡ min (i * block) transfer
      → (addr ≡ base + done) ⊎ (min block (transfer - done) ≡ 0)
  at_block i transfer done addr h e = ground arith

  copy_to_sges_from :
      (k i transfer src done : ℕ) (m : Memory)
      → transfer < 2 ^ 64
      → done ≡ min (i * block) transfer
      → Laid block base sges i k
      → Apart src (base + done) (transfer - done)
      → copy_to_sges k i sges block transfer src done m
        ≡ ok (memcpy (base + done) src (left k transfer done) m)
  unfolding copy_to_sges
  copy_to_sges_from zero i transfer src done m fits e laid apart =
      let none_left : left 0 transfer done ≡ 0 = omega arith in
      ap ok (rw none_left (sym (memcpy-zero (base + done) src m)))
  copy_to_sges_from (suc k) i transfer src done m fits e laid apart =
      let (s, at_i, addr) = laid i (omega arith) (omega arith) in
      let temp : ℕ = min block (transfer - done) in
      let e1 : sub64 transfer done ≡ transfer - done = omega arith in
      let e2 : add64 done temp ≡ done + temp = omega arith in
      rw (at_i, e1, e2)
        (copy_to_sges_from k (i + 1) transfer (src + temp) (done + temp) (memcpy s.addr src temp m)
            fits (omega arith) (λ j lo hi. laid j (omega arith) (omega arith)) (omega arith)
          ∙ ap ok (
              memcpy_round (base + done) src temp (left (suc k) transfer done)
                (left k transfer (done + temp)) s.addr src _ _ m
                (at_block i transfer done s.addr addr e) (inl refl) (omega arith) refl (omega arith)
                (omega arith)))

  copy_from_sges_from :
      (k i transfer dst done : ℕ) (m : Memory)
      → transfer < 2 ^ 64
      → done ≡ min (i * block) transfer
      → Laid block base sges i k
      → Apart (base + done) dst (transfer - done)
      → copy_from_sges k i sges block transfer dst done m
        ≡ ok (memcpy dst (base + done) (left k transfer done) m)
  unfolding copy_from_sges
  copy_from_sges_from zero i transfer dst done m fits e laid apart =
      let none_left : left 0 transfer done ≡ 0 = omega arith in
      ap ok (rw none_left (sym (memcpy-zero dst (base + done) m)))
  copy_from_sges_from (suc k) i transfer dst done m fits e laid apart =
      let (s, at_i, addr) = laid i (omega arith) (omega arith) in
      let temp : ℕ = min block (transfer - done) in
      let e1 : sub64 transfer done ≡ transfer - done = omega arith in
      let e2 : add64 done temp ≡ done + temp = omega arith in
      rw (at_i, e1, e2)
        (copy_from_sges_from k (i + 1) transfer (dst + temp) (done + temp)
            (memcpy dst s.addr temp m) fits (omega arith)
            (λ j lo hi. laid j (omega arith) (omega arith)) (omega arith)
          ∙ ap ok (
              memcpy_round dst (base + done) temp (left (suc k) transfer done)
                (left k transfer (done + temp)) dst s.addr _ _ m (inl refl)
                (at_block i transfer done s.addr addr e) refl (omega arith) (omega arith)
                (omega arith)))

  -- The whole loop of `DoCurWrite` gathers the chunk into the registered buffer.
  pub copy_to_sges_lem :
      (k transfer src : ℕ) (m : Memory)
      → transfer < 2 ^ 64
      → Laid block base sges 0 k
      → Apart src base transfer
      → copy_to_sges k 0 sges block transfer src 0 m
        ≡ ok (memcpy base src (min transfer (k * block)) m)
  copy_to_sges_lem k transfer src m fits laid apart =
      let e : base + 0 ≡ base = omega arith in
      let e' : transfer - 0 ≡ transfer = omega arith in
      copy_to_sges_from k 0 transfer src 0 m fits (omega arith) laid (omega arith)
      ∙ ap ok (rw (e, e'))

  -- The whole loop of `SyncRead` scatters it to where the record stands.
  pub copy_from_sges_lem :
      (k transfer dst : ℕ) (m : Memory)
      → transfer < 2 ^ 64
      → Laid block base sges 0 k
      → Apart base dst transfer
      → copy_from_sges k 0 sges block transfer dst 0 m
        ≡ ok (memcpy dst base (min transfer (k * block)) m)
  copy_from_sges_lem k transfer dst m fits laid apart =
      let e : base + 0 ≡ base = omega arith in
      let e' : transfer - 0 ≡ transfer = omega arith in
      copy_from_sges_from k 0 transfer dst 0 m fits (omega arith) laid (omega arith)
      ∙ ap ok (rw (e, e'))
