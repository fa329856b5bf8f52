-- ===== src/Ibverbs/Chunk/Size.antt =====
-- How many blocks a chunk takes, in comm_network/ibverbs/ibverbs_write_helper.cpp and
-- ibverbs_read_helper.cpp, and what they hold.
use native.Mathlib.Nat.{div-lt_iff_lt-mul, lt-div-mul-add, div-mul-le_self, le-div_iff_mul-le}
use comm_network.Prelude.{ℕ, ◌+◌, ◌-◌, ◌*◌, ◌/◌, ◌^◌, ◌≤◌, ◌<◌, min, ◌≡◌, ap, ◌∙◌, ok, arith}
use comm_network.Prelude.Int.{pos, min_ℤ}
use comm_network.Prelude.Words.{add64, sub64, div64-pos, to_int32, to_size}
use comm_network.Config.{CommNetConfig, buffer_bytes, sge_bytes}
use comm_network.Message.{WorkRecord}
use comm_network.Ibverbs.Chunk.{chunk_bytes, sge_count}

-- A configuration whose buffers hold n blocks, with nothing left over.
pub record Divides (config : CommNetConfig) (n block : ℕ) : Type 0 where
  pub sges : config.sge_num ≡ pos n
  pub few : n < 2 ^ 31
  pub some_sge : 0 < n
  pub some_byte : 0 < block
  pub even : n * block ≡ buffer_bytes config

pub sge_bytes_lem :
    (config : CommNetConfig) (n : ℕ)
    → config.sge_num ≡ pos n
    → 0 < n
    → n < 2 ^ 31
    → sge_bytes config ≡ ok (buffer_bytes config / n)
sge_bytes_lem config n e h lt =
    let size : to_size (pos n) ≡ n = omega arith in
    rw (e, size) (div64-pos (buffer_bytes config) n h)

module _ {config : CommNetConfig} {n block : ℕ} (d : Divides config n block) where
  block_lem : buffer_bytes config / n ≡ block
  block_lem = grind (arith, d.even, d.some_sge)

  pub buffer_bytes-pos : 0 < buffer_bytes config
  buffer_bytes-pos = grind (arith, d.even, d.some_sge, d.some_byte)

  pub sge_bytes-Divides : sge_bytes config ≡ ok block
  sge_bytes-Divides = sge_bytes_lem config n d.sges d.some_sge d.few ∙ ap ok block_lem

  -- The rounded-up quotient: at most n blocks, which hold the chunk, and no block too many.
  count-arith :
      (t : ℕ)
      → 0 < t
      → t ≤ n * block
      → let q = (t - 1) / block in (q < n) × (t ≤ (q + 1) * block) × (q * block < t)
  count-arith t h le = (
    (div-lt_iff_lt-mul d.some_byte).1 (omega arith),
    omega (arith, lt-div-mul-add {a = t - 1} d.some_byte),
    omega (arith, div-mul-le_self (t - 1) block),
  )

  min-first : (q : ℕ) → q < n → min_ℤ (pos n) (to_int32 (add64 q 1)) ≡ pos (q + 1)
  min-first q h = ground (arith, d.few)

  -- A chunk of a buffer at most takes as many blocks as hold it and no more, never more than the
  -- buffer has.
  pub sge_count_lem :
      (t : ℕ)
      → 0 < t
      → t ≤ buffer_bytes config
      → (q : ℕ) × (sge_count config t ≡ ok (pos (q + 1)))
        × (q < n)
        × (t ≤ (q + 1) * block)
        × (q * block < t)
  unfolding sge_count
  sge_count_lem t h le =
      let (lt, enough, tight) = count-arith t h (omega (arith, d.even)) in
      let e : sub64 t 1 ≡ t - 1 = omega arith in
      (
        (t - 1) / block,
        rw (sge_bytes-Divides, e, div64-pos (t - 1) block d.some_byte, d.sges)
            (ap ok (min-first ((t - 1) / block) lt)),
        lt,
        enough,
        tight,
      )

keeps_first : (n : ℕ) → n + 1 < 2 ^ 31 → min_ℤ (pos n) (to_int32 (add64 n 1)) ≡ pos n
keeps_first n h = ground arith

-- Where the blocks do not fill the buffer, a full chunk is given all n blocks, and they are too
-- small for it.
pub sge_count_short :
    (config : CommNetConfig) (n block : ℕ)
    → config.sge_num ≡ pos n
    → 0 < n
    → n + 1 < 2 ^ 31
    → n ≤ block
    → buffer_bytes config / n ≡ block
    → n * block < buffer_bytes config
    → sge_count config (buffer_bytes config) ≡ ok (pos n)
unfolding sge_count
sge_count_short config n block sges some few le e short =
    let full : ℕ = buffer_bytes config in
    let wide : 0 < block = omega arith in
    let e1 : sub64 full 1 ≡ full - 1 = omega arith in
    let at_least : n ≤ (full - 1) / block = (le-div_iff_mul-le wide).1 (omega arith) in
    let below : full < block * n + n = rw (← e) (lt-div-mul-add {a = full} some) in
    let at_most : (full - 1) / block < n + 1 = (div-lt_iff_lt-mul wide).1 (omega arith) in
    let q : (full - 1) / block ≡ n = omega arith in
    rw
      (
        sge_bytes_lem config n sges some (omega arith),
        e,
        e1,
        div64-pos (full - 1) block wide,
        sges,
        q,
      )
      (ap ok (keeps_first n few))

-- A record that is not finished.
abbrev pub IsOpen : WorkRecord → Type 0
IsOpen r = (r.offset < r.bytes) × (r.bytes < 2 ^ 64)

pub chunk_bytes_lem :
    (config : CommNetConfig) (r : WorkRecord)
    → IsOpen r
    → chunk_bytes config r ≡ min (r.bytes - r.offset) (buffer_bytes config)
chunk_bytes_lem config r h = ground arith
