-- ===== src/Ibverbs/MsgMr.antt =====
-- comm_network/ibverbs/ibverbs_qp.h: `MsgMR`, a registered buffer for one message: the length in its
-- first 8 bytes, the lowest byte first, then the payload.
pub mod RoundTrip
mod Tests
use comm_network.Prelude.{
  ℕ, zero, suc, ◌+◌, ◌-◌, ◌*◌, ◌/◌, ◌%◌, ◌&&◌, Option, Bool, Result, ok, check, leb, ltb, not,
  if◌then◌else◌, ◌>>=◌, ◌>>◌,
}
use comm_network.Prelude.Int.{ℤ, ltb_ℤ}
use comm_network.Prelude.Words.{sub64}
use comm_network.Config.{CommNetConfig, max_msg_size}
use comm_network.Message.{num_type}
use comm_network.Ibverbs.Verbs.{Memory, memcpy}

-- The i-th byte of a number.
byte_at : ℕ → ℕ → ℕ
byte_at n zero = n % 256
byte_at n (suc i) = byte_at (n / 256) i

-- `memcpy(ptr, &n, sizeof(size_t))`
pub store_size : ℕ → ℕ → Memory → Memory
unfolding byte_at
store_size ptr n m a = if leb ptr a && ltb a (ptr + 8) then byte_at n (a - ptr) else m a

-- The number in the next `k` bytes.
load_bytes : ℕ → ℕ → Memory → ℕ
load_bytes zero ptr m = 0
load_bytes (suc k) ptr m = m ptr + 256 * load_bytes k (ptr + 1) m

-- `memcpy(&n, ptr, sizeof(size_t))`
pub load_size : ℕ → Memory → ℕ
unfolding load_bytes
load_size ptr m = load_bytes 8 ptr m

pub record MsgMr : Type 0 where
  pub ptr : ℕ
  pub msg_type_key : ℤ
  pub cb : Option ℕ

pub set_msg : CommNetConfig → ℤ → ℕ → ℕ → Option ℕ → MsgMr → Memory → Result (MsgMr × Memory)
unfolding store_size
set_msg config msg_type_key ptr bytes cb mr memory = do
  check (leb bytes (sub64 (max_msg_size config) 8))
  ok (
    record mr { msg_type_key = msg_type_key; cb = cb },
    memcpy (mr.ptr + 8) ptr bytes (store_size mr.ptr bytes memory),
  )

abbrev pub msg_ptr : MsgMr → ℕ
msg_ptr mr = mr.ptr + 8

pub msg_bytes : MsgMr → Memory → ℕ
unfolding load_size
msg_bytes mr memory = load_size mr.ptr memory
