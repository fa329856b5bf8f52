-- ===== src/Ibverbs/MemDesc/Fits.antt =====
-- comm_network/ibverbs/ibverbs_memory_desc.cpp: two buffers that the constructor registers on two
-- machines.
use comm_network.Prelude.{
  ℕ, zero, suc, ◌+◌, ◌-◌, ◌*◌, ◌%◌, ◌^◌, ◌<◌, min, ◌≡◌, refl, sym, ap, subst, ◌∙◌, Option, some,
  List, [], ◌∷◌, ok, get_elem?, get_elem?-map, arith,
}
use comm_network.Config.{CommNetConfig, buffer_bytes}
use comm_network.Ibverbs.Verbs.{Sge, Mr}
use comm_network.Ibverbs.MemDesc.{MemDesc, new_mem_desc, to_proto}
use comm_network.Ibverbs.MemDesc.Tiling.{Tiles, Registers, new_mem_desc_lem}
use comm_network.Ibverbs.Port.Writes.{Blocks}
use comm_network.Ibverbs.Chunk.Size.{Divides, sge_bytes-Divides, buffer_bytes-pos}

module _ (ibv_reg_mr : ℕ → ℕ → Option Mr) where
  -- Block j of a buffer of k whole blocks.
  Tiles-at :
      (ss : List Sge) (ms : List Mr) (block ptr k j : ℕ)
      → 0 < block
      → block < 2 ^ 32
      → j < k
      → Tiles ibv_reg_mr block ptr (k * block) ss ms
      → (m : Mr) × (get_elem? ms j ≡ some m)
        × (get_elem? ss j ≡ some (record { addr = ptr + j * block; length = block; lkey = m.lkey }))
  Tiles-at ss ms block ptr zero j wide few lt t = absurd (omega arith)
  Tiles-at [] [] block ptr (suc k) j wide few lt t = absurd (grind (arith, t))
  Tiles-at [] (m ∷ ms) block ptr (suc k) j wide few lt t = elim t [ ]
  Tiles-at (s ∷ ss) [] block ptr (suc k) j wide few lt t = elim t [ ]
  Tiles-at (s ∷ ss) (m ∷ ms) block ptr (suc k) zero wide few lt (_, at_s, _, t) =
      let f : suc k * block ≡ block + k * block = omega arith in
      let size : min (suc k * block) block % 2 ^ 32 ≡ block = omega (arith, f, few) in
      let place : ptr ≡ ptr + 0 * block = omega arith in
      (m, refl, ap some (at_s ∙ (λ i. record { addr = place i; length = size i; lkey = m.lkey })))
  Tiles-at (s ∷ ss) (m ∷ ms) block ptr (suc k) (suc j) wide few lt (_, at_s, _, t) =
      let f : suc k * block ≡ block + k * block = omega arith in
      let cur : min (suc k * block) block ≡ block = omega (arith, f) in
      let left : suc k * block - block ≡ k * block = omega (arith, f) in
      let rest =
        subst (λ n. Tiles ibv_reg_mr block (ptr + block) n ss ms) left
          (subst (λ c. Tiles ibv_reg_mr block (ptr + c) (suc k * block - c) ss ms) cur t) in
      let (m', at_m, at_j) = Tiles-at ss ms block (ptr + block) k j wide few (omega arith) rest in
      let g : suc j * block ≡ block + j * block = omega arith in
      let place : ptr + block + j * block ≡ ptr + suc j * block = omega (arith, g) in
      (m', at_m, at_j ∙ (λ i. some (record { addr = place i; length = block; lkey = m'.lkey })))

-- Two buffers registered by the constructor on two machines of one configuration, whose blocks fill
-- a buffer and are shorter than 2 ^ 32: both constructors end, and the sender's descriptor and what
-- `ToProto` publishes of the receiver's have the same blocks, one behind the other.
pub new_mem_desc-Blocks :
    (ibv_reg_mr ibv_reg_mr' : ℕ → ℕ → Option Mr) (c : CommNetConfig) (k block ptr ptr' : ℕ)
    → Registers ibv_reg_mr
    → Registers ibv_reg_mr'
    → Divides c k block
    → block < 2 ^ 32
    → (d : MemDesc) × (d' : MemDesc) × (new_mem_desc ibv_reg_mr c ptr (buffer_bytes c) ≡ ok d)
      × (new_mem_desc ibv_reg_mr' c ptr' (buffer_bytes c) ≡ ok d')
      × Blocks block ptr ptr' d (to_proto d') 0 k
unfolding to_proto
new_mem_desc-Blocks ibv_reg_mr ibv_reg_mr' c k block ptr ptr' reg reg' fills few =
    let size = sge_bytes-Divides fills in
    let wide = buffer_bytes-pos fills in
    let fits : buffer_bytes c < 2 ^ 64 = omega arith in
    let (d, made, t, _) =
      new_mem_desc_lem ibv_reg_mr c block ptr (buffer_bytes c) reg size fills.some_byte wide fits in
    let (d', made', t', _) =
      new_mem_desc_lem ibv_reg_mr' c block ptr' (buffer_bytes c) reg' size fills.some_byte wide
        fits in
    let u = subst (λ n. Tiles ibv_reg_mr block ptr n d.sge_vec d.mr_vec) (sym fills.even) t in
    let u' = subst (λ n. Tiles ibv_reg_mr' block ptr' n d'.sge_vec d'.mr_vec) (sym fills.even) t' in
    (
      d,
      d',
      made,
      made',
      λ j lo hi.
          let (m, _, at_s) =
            Tiles-at ibv_reg_mr d.sge_vec d.mr_vec block ptr k j fills.some_byte few (omega arith)
              u in
          let (m', at_m, at_s') =
            Tiles-at ibv_reg_mr' d'.sge_vec d'.mr_vec block ptr' k j fills.some_byte few
              (omega arith) u' in
          (
            m.lkey,
            m'.rkey,
            at_s,
            get_elem?-map (λ s. s.addr) d'.sge_vec j _ at_s',
            get_elem?-map (λ r. r.rkey) d'.mr_vec j m' at_m,
          ),
    )
