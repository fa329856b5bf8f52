-- ===== src/Ibverbs/MemDesc/Tests.antt =====
-- Tests of comm_network/ibverbs/ibverbs_memory_desc.cpp.
use comm_network.Prelude.{ℕ, ◌+◌, ◌-◌, ◌/◌, ◌≡◌, refl, Option, some, ok, length, arith}
use comm_network.Config.{buffer_bytes}
use comm_network.Ibverbs.Verbs.{Mr}
use comm_network.Ibverbs.MemDesc.{MemDesc, new_mem_desc, to_proto}
use comm_network.Ibverbs.MemDesc.Tiling.{Tiles, Registers, new_mem_desc_lem}
use comm_network.Ibverbs.MemDesc.Fits.{new_mem_desc-Blocks}
use comm_network.Ibverbs.Chunk.Size.{sge_bytes-Divides}
use comm_network.Ibverbs.Port.Writes.{Blocks}
use comm_network.Ibverbs.Transfer.Setup.{config, config-Divides}

abbrev registering : ℕ → ℕ → Option Mr
registering ptr n = some (record { lkey = ptr + 1; rkey = ptr + 2 })

registering-Registers : Registers registering
registering-Registers ptr n = (record { lkey = ptr + 1; rkey = ptr + 2 }, refl)

new_mem_desc_lem_example :
    (d : MemDesc) × (new_mem_desc registering config 4096 600000 ≡ ok d)
    × Tiles registering 524288 4096 600000 d.sge_vec d.mr_vec
    × (length d.sge_vec ≡ (600000 - 1) / 524288 + 1)
new_mem_desc_lem_example =
    new_mem_desc_lem registering config 524288 4096 600000 registering-Registers
      (sge_bytes-Divides config-Divides) (omega arith) (omega arith) (omega arith)

new_mem_desc-Blocks_example :
    (d : MemDesc) × (d' : MemDesc) × (new_mem_desc registering config 4096 (buffer_bytes config)
      ≡ ok d)
    × (new_mem_desc registering config 8192 (buffer_bytes config) ≡ ok d')
    × Blocks 524288 4096 8192 d (to_proto d') 0 2
new_mem_desc-Blocks_example =
    new_mem_desc-Blocks registering registering config 2 524288 4096 8192 registering-Registers
      registering-Registers config-Divides (omega arith)
