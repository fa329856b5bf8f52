-- ===== src/Ibverbs/Chunk.antt =====
-- How a record is cut into chunks and a chunk into blocks: the lines that `DoCurWrite` of
-- comm_network/ibverbs/ibverbs_write_helper.cpp and `SyncRead` of
-- comm_network/ibverbs/ibverbs_read_helper.cpp share, and their two copy loops.
pub mod Copies
pub mod Size
use comm_network.Prelude.{ℕ, zero, suc, ◌+◌, min, List, Result, ok, ◌>>=◌}
use comm_network.Prelude.Int.{ℤ, pos, min_ℤ}
use comm_network.Prelude.Words.{add64, sub64, div64, to_int32}
use comm_network.Config.{CommNetConfig, buffer_bytes, sge_bytes}
use comm_network.Message.{WorkRecord}
use comm_network.Ibverbs.Verbs.{Memory, memcpy, Sge, at}

-- `transfer_bytes`: how much of a record the next chunk takes.
abbrev pub chunk_bytes : CommNetConfig → WorkRecord → ℕ
chunk_bytes config r = min (sub64 r.bytes r.offset) (buffer_bytes config)

-- `sge_num`: how many blocks a chunk takes.
unfoldable pub sge_count : CommNetConfig → ℕ → Result ℤ
sge_count config transfer_bytes = do
  block ← sge_bytes config
  quotient ← div64 (sub64 transfer_bytes 1) block
  ok (min_ℤ config.sge_num (to_int32 (add64 quotient 1)))

-- The loop of `DoCurWrite`: `n` rounds from block i, with `src_addr` and `transfer_record`.
unfoldable pub copy_to_sges : ℕ → ℕ → List Sge → ℕ → ℕ → ℕ → ℕ → Memory → Result Memory
copy_to_sges zero i sges block transfer_bytes src_addr transfer_record m = ok m
copy_to_sges (suc n) i sges block transfer_bytes src_addr transfer_record m =
    at sges (pos i) >>= λ cur_sge.
    let temp_bytes = min block (sub64 transfer_bytes transfer_record) in
    copy_to_sges n (i + 1) sges block transfer_bytes (src_addr + temp_bytes)
      (add64 transfer_record temp_bytes) (memcpy cur_sge.addr src_addr temp_bytes m)

-- The loop of `SyncRead`, with `dst_addr`.
unfoldable pub copy_from_sges : ℕ → ℕ → List Sge → ℕ → ℕ → ℕ → ℕ → Memory → Result Memory
copy_from_sges zero i sges block transfer_bytes dst_addr transfer_record m = ok m
copy_from_sges (suc n) i sges block transfer_bytes dst_addr transfer_record m =
    at sges (pos i) >>= λ cur_sge.
    let temp_bytes = min block (sub64 transfer_bytes transfer_record) in
    copy_from_sges n (i + 1) sges block transfer_bytes (dst_addr + temp_bytes)
      (add64 transfer_record temp_bytes) (memcpy dst_addr cur_sge.addr temp_bytes m)
