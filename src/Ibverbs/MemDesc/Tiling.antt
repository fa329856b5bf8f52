-- ===== src/Ibverbs/MemDesc/Tiling.antt =====
-- comm_network/ibverbs/ibverbs_memory_desc.cpp: the blocks that the constructor registers.
use native.Mathlib.Nat.{div-eq-sub-div, div-eq_of_lt, div-lt_iff_lt-mul}
use comm_network.Prelude.{
  ℕ, zero, suc, ◌+◌, ◌-◌, ◌/◌, ◌%◌, ◌^◌, ◌≤◌, ◌<◌, min, ◌≡◌, refl, sym, ap, ◌∙◌, Option, some, List,
  [], ◌∷◌, ◌++◌, append-nil, append_assoc, true, ok, length, ◌==◌, leb, arith,
}
use comm_network.Prelude.Words.{add64, div64-pos}
use comm_network.Config.{CommNetConfig, sge_bytes}
use comm_network.Ibverbs.Verbs.{Sge, Mr}
use comm_network.Ibverbs.MemDesc.{MemDesc, register_blocks, new_mem_desc}

module _ (ibv_reg_mr : ℕ → ℕ → Option Mr) where
  -- Blocks of `block` bytes, the last of what is left, that make up n bytes from `ptr` on, each
  -- with the region that was registered for it.
  abbrev pub Tiles : ℕ → ℕ → ℕ → List Sge → List Mr → Type 0
  Tiles block ptr n [] [] = n ≡ 0
  Tiles block ptr n (s ∷ ss) [] = ⊥
  Tiles block ptr n [] (m ∷ ms) = ⊥
  Tiles block ptr n (s ∷ ss) (m ∷ ms) =
      (0 < n)
      × (s ≡ record { addr = ptr; length = min n block % 2 ^ 32; lkey = m.lkey })
      × (ibv_reg_mr ptr (min n block) ≡ some m)
      × Tiles block (ptr + min n block) (n - min n block) ss ms

  -- Every registration succeeds.
  abbrev pub Registers : Type 0
  Registers = (ptr n : ℕ) → (m : Mr) × (ibv_reg_mr ptr n ≡ some m)

  Tiles-length :
      (ss : List Sge) (ms : List Mr) (block ptr n : ℕ)
      → Tiles block ptr n ss ms
      → length ss ≡ length ms
  Tiles-length [] [] block ptr n t = refl
  Tiles-length [] (m ∷ ms) block ptr n t = elim t [ ]
  Tiles-length (s ∷ ss) [] block ptr n t = elim t [ ]
  Tiles-length (s ∷ ss) (m ∷ ms) block ptr n (_, _, _, t) =
      ap suc (Tiles-length ss ms block (ptr + min n block) (n - min n block) t)

  register_round :
      (fuel block ptr n : ℕ) (d : MemDesc) (m : Mr)
      → 0 < n
      → ibv_reg_mr ptr (min n block) ≡ some m
      → register_blocks ibv_reg_mr (suc fuel) block ptr n d
        ≡ register_blocks ibv_reg_mr fuel block (ptr + min n block) (n - min n block) (record {
          sge_vec =
              d.sge_vec ++ record { addr = ptr; length = min n block % 2 ^ 32; lkey = m.lkey } ∷ [];
          mr_vec = d.mr_vec ++ m ∷ [];
        })
  unfolding register_blocks
  register_round fuel block ptr n d m some_byte e = ground arith

  register_blocks_lem :
      (fuel block ptr n : ℕ) (d : MemDesc)
      → Registers
      → 0 < block
      → n ≤ fuel
      → (ss : List Sge) × (ms : List Mr) × (register_blocks ibv_reg_mr fuel block ptr n d
          ≡ ok (record { sge_vec = d.sge_vec ++ ss; mr_vec = d.mr_vec ++ ms }, 0))
        × Tiles block ptr n ss ms
  unfolding register_blocks
  register_blocks_lem zero block ptr n d reg wide le =
      ([], [], ground (arith, append-nil d.sge_vec, append-nil d.mr_vec), omega arith)
  register_blocks_lem (suc fuel) block ptr zero d reg wide le =
      ([], [], ground (arith, append-nil d.sge_vec, append-nil d.mr_vec), refl)
  register_blocks_lem (suc fuel) block ptr (suc n) d reg wide le =
      let cur : ℕ = min (suc n) block in
      let (m, registered) = reg ptr cur in
      let s : Sge = record { addr = ptr; length = cur % 2 ^ 32; lkey = m.lkey } in
      let (ss, ms, run, t) =
        register_blocks_lem fuel block (ptr + cur) (suc n - cur)
          (record { sge_vec = d.sge_vec ++ s ∷ []; mr_vec = d.mr_vec ++ m ∷ [] }) reg wide
          (omega arith) in
      (
        s ∷ ss,
        m ∷ ms,
        register_round fuel block ptr (suc n) d m (omega arith) registered
            ∙ (run ∙ (λ i. ok (
              record {
                sge_vec = append_assoc d.sge_vec (s ∷ []) ss i;
                mr_vec = append_assoc d.mr_vec (m ∷ []) ms i;
              },
              0,
            ))),
        (omega arith, refl, registered, t),
      )

  -- The number of blocks is the rounded-up quotient.
  Tiles-count :
      (ss : List Sge) (ms : List Mr) (block ptr n : ℕ)
      → 0 < block
      → 0 < n
      → Tiles block ptr n ss ms
      → length ss ≡ (n - 1) / block + 1
  Tiles-count [] [] block ptr n wide many t = absurd (omega arith)
  Tiles-count [] (m ∷ ms) block ptr n wide many t = elim t [ ]
  Tiles-count (s ∷ ss) [] block ptr n wide many t = elim t [ ]
  Tiles-count (s ∷ []) (m ∷ []) block ptr n wide many (_, _, _, t) =
      omega (arith, div-eq_of_lt {n = n - 1} {m = block} (omega (arith, t)))
  Tiles-count (s ∷ []) (m ∷ m' ∷ ms) block ptr n wide many (_, _, _, t) = elim t [ ]
  Tiles-count (s ∷ s' ∷ ss) (m ∷ []) block ptr n wide many (_, _, _, t) = elim t [ ]
  Tiles-count (s ∷ s' ∷ ss) (m ∷ m' ∷ ms) block ptr n wide many (_, _, _, t) =
      let left : ℕ = n - min n block in
      let e : left - 1 ≡ n - 1 - block = omega (arith, t.0) in
      let count : length (s' ∷ ss) ≡ (left - 1) / block + 1 =
        Tiles-count (s' ∷ ss) (m' ∷ ms) block (ptr + min n block) left wide t.0 t in
      ap suc count
      ∙ ap (λ k. suc (k / block + 1)) e
      ∙ omega (arith, div-eq-sub-div {m = block} {n = n - 1} wide (omega (arith, t.0)))

  add64-quotient :
      (n block : ℕ)
      → 0 < block
      → 0 < n
      → n < 2 ^ 64
      → add64 ((n - 1) / block) 1 ≡ (n - 1) / block + 1
  add64-quotient n block wide many fits =
      let le : (n - 1) / block < 2 ^ 64 - 1 =
        (div-lt_iff_lt-mul wide).1 (grind (arith, fits, wide)) in
      omega arith

  new_mem_desc_run :
      (c : CommNetConfig) (block ptr n : ℕ) (ss : List Sge) (ms : List Mr)
      → sge_bytes c ≡ ok block
      → 0 < block
      → 0 < n
      → n < 2 ^ 64
      → register_blocks ibv_reg_mr n block ptr n (record { sge_vec = []; mr_vec = [] })
        ≡ ok (record { sge_vec = ss; mr_vec = ms }, 0)
      → length ss ≡ (n - 1) / block + 1
      → length ms ≡ length ss
      → new_mem_desc ibv_reg_mr c ptr n ≡ ok (record { sge_vec = ss; mr_vec = ms })
  unfolding new_mem_desc
  new_mem_desc_run c block ptr n ss ms size wide many fits run count same =
      let some_byte : leb 1 n ≡ true = ground arith in
      let holds : ((n - 1) / block + 1 == (n - 1) / block + 1) ≡ true = ground arith in
      rw
        (
          some_byte,
          size,
          div64-pos (n - 1) block wide,
          run,
          add64-quotient n block wide many fits,
          same,
          count,
          holds,
        )
        refl

  -- The constructor ends with a descriptor whose blocks are the whole buffer, in order and without
  -- a gap: none of its CHECKs stops it, if registration succeeds and `SgeBytes()` is not 0.
  pub new_mem_desc_lem :
      (c : CommNetConfig) (block ptr n : ℕ)
      → Registers
      → sge_bytes c ≡ ok block
      → 0 < block
      → 0 < n
      → n < 2 ^ 64
      → (d : MemDesc) × (new_mem_desc ibv_reg_mr c ptr n ≡ ok d)
        × Tiles block ptr n d.sge_vec d.mr_vec
        × (length d.sge_vec ≡ (n - 1) / block + 1)
  unfolding new_mem_desc
  new_mem_desc_lem c block ptr n reg size wide many fits =
      let (ss, ms, run, t) =
        register_blocks_lem n block ptr n (record { sge_vec = []; mr_vec = [] }) reg wide
          (omega arith) in
      (
        record { sge_vec = ss; mr_vec = ms },
        new_mem_desc_run c block ptr n ss ms size wide many fits run
            (Tiles-count ss ms block ptr n wide many t) (sym (Tiles-length ss ms block ptr n t)),
        t,
        Tiles-count ss ms block ptr n wide many t,
      )
