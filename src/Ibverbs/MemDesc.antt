-- ===== src/Ibverbs/MemDesc.antt =====
-- comm_network/ibverbs/ibverbs_memory_desc.{h,cpp} and ibverbs.proto: a buffer registered in
-- blocks of at most `SgeBytes()` bytes. `ibv_reg_mr` is a parameter: the region for an address and
-- a size, or none.
pub mod Tiling
pub mod Fits
mod Tests
use comm_network.Prelude.{
  ℕ, zero, suc, ◌+◌, ◌-◌, ◌%◌, ◌^◌, min, Option, List, [], ◌∷◌, ◌++◌, map, true, false, Result, ok,
  check, or_abort, check_failed, length, ◌==◌, leb, ◌>>=◌, ◌>>◌,
}
use comm_network.Prelude.Words.{add64, div64}
use comm_network.Config.{CommNetConfig, sge_bytes}
use comm_network.Ibverbs.Verbs.{Sge, Mr}

pub record MemDesc : Type 0 where
  pub sge_vec : List Sge
  pub mr_vec : List Mr

pub record MemDescProto : Type 0 where
  pub mem_ptr : List ℕ
  pub mr_rkey : List ℕ

module _ (ibv_reg_mr : ℕ → ℕ → Option Mr) where
  -- The `while` loop, with what is left of `byte_size` beside the blocks.
  register_blocks : ℕ → ℕ → ℕ → ℕ → MemDesc → Result (MemDesc × ℕ)
  register_blocks zero block ptr byte_size d = ok (d, byte_size)
  register_blocks (suc fuel) block ptr byte_size d = elim (byte_size == 0) [
    | true ↦ ok (d, byte_size)
    | false ↦
        let cur_size = min byte_size block in
        or_abort check_failed (ibv_reg_mr ptr cur_size) >>= λ mr.
        register_blocks fuel block (ptr + cur_size) (byte_size - cur_size) (record {
          sge_vec =
              d.sge_vec ++ record { addr = ptr; length = cur_size % 2 ^ 32; lkey = mr.lkey } ∷ [];
          mr_vec = d.mr_vec ++ mr ∷ [];
        })
  ]

  -- The constructor. `byte_size` rounds are enough: a block is not empty.
  pub new_mem_desc : CommNetConfig → ℕ → ℕ → Result MemDesc
  unfolding register_blocks
  new_mem_desc c mem_ptr byte_size = do
    check (leb 1 byte_size)
    block ← sge_bytes c
    quotient ← div64 (byte_size - 1) block
    let block_num = add64 quotient 1
    (d, left) ←
        register_blocks byte_size block mem_ptr byte_size (record { sge_vec = []; mr_vec = [] })
    check (left == 0)
    check (block_num == length d.sge_vec)
    check (block_num == length d.mr_vec)
    ok d

pub to_proto : MemDesc → MemDescProto
to_proto d = record { mem_ptr = map (λ s. s.addr) d.sge_vec; mr_rkey = map (λ m. m.rkey) d.mr_vec }
