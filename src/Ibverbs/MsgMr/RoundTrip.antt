-- ===== src/Ibverbs/MsgMr/RoundTrip.antt =====
-- comm_network/ibverbs/ibverbs_qp.h: `set_msg` of `MsgMR`, and `msg_bytes` and `msg_ptr` after it.
use native.Mathlib.Decide.{dec_lt}
use native.Mathlib.Nat.{div-lt_iff_lt-mul}
use comm_network.Prelude.{
  ℕ, zero, suc, ◌+◌, ◌-◌, ◌*◌, ◌/◌, ◌%◌, ◌^◌, ◌≤◌, ◌<◌, ◌≡◌, refl, ap, ◌∙◌, Option, true, false, ok,
  abort, check_failed, arith, leb, ◌⊎◌, inl, inr,
}
use comm_network.Prelude.Int.{ℤ, pos, negsuc}
use comm_network.Prelude.Words.{sub64, to_size}
use comm_network.Config.{CommNetConfig, max_msg_size}
use comm_network.Ibverbs.Verbs.{Memory, memcpy}
use comm_network.Ibverbs.MsgMr.{
  byte_at, store_size, load_bytes, load_size, MsgMr, set_msg, msg_ptr, msg_bytes,
}

-- Memory with the bytes of a number from `ptr` on, k of them.
abbrev Holds : ℕ → ℕ → ℕ → Memory → Type 0
Holds zero ptr n m = Unit
Holds (suc k) ptr n m = (m ptr ≡ n % 256) × Holds k (ptr + 1) (n / 256) m

-- How many numbers k bytes tell apart.
abbrev span : ℕ → ℕ
span zero = 1
span (suc k) = span k * 256

load_bytes-Holds :
    (k ptr n : ℕ) (m : Memory) → n < span k → Holds k ptr n m → load_bytes k ptr m ≡ n
unfolding load_bytes
load_bytes-Holds zero ptr n m lt h = omega arith
load_bytes-Holds (suc k) ptr n m lt (at_ptr, h) =
    let small : n / 256 < span k = (div-lt_iff_lt-mul (omega arith)).1 lt in
    let rest : load_bytes k (ptr + 1) m ≡ n / 256 =
      load_bytes-Holds k (ptr + 1) (n / 256) m small h in
    omega (arith, at_ptr, rest)

-- A memory that agrees with a stored number on its 8 bytes.
stored-Holds :
    (k ptr n : ℕ) (m : Memory) → ((j : ℕ) → j < k → m (ptr + j) ≡ byte_at n j) → Holds k ptr n m
unfolding byte_at
stored-Holds zero ptr n m agrees = tt
stored-Holds (suc k) ptr n m agrees = (
  ap m (omega arith) ∙ agrees 0 (omega arith),
  stored-Holds k (ptr + 1) (n / 256) m (λ j lt. ap m (omega arith) ∙ agrees (suc j) (omega arith)),
)

module _ (p src bytes : ℕ) (memory : Memory) where
  abbrev written : Memory
  written = memcpy (p + 8) src bytes (store_size p bytes memory)

  size-at : (j : ℕ) → j < 8 → written (p + j) ≡ byte_at bytes j
  unfolding memcpy store_size
  size-at j lt = let e : p + j - p ≡ j = omega arith in ground (arith, ap (byte_at bytes) e)

  payload-at :
      (x : ℕ)
      → x < bytes
      → (src + bytes ≤ p) ⊎ (p + 8 ≤ src)
      → written (p + 8 + x) ≡ memory (src + x)
  unfolding memcpy store_size
  payload-at x lt apart =
      let e : src + (p + 8 + x - (p + 8)) ≡ src + x = omega arith in ground (arith, ap memory e)

  elsewhere : (a : ℕ) → (a < p) ⊎ (p + 8 + bytes ≤ a) → written a ≡ memory a
  unfolding memcpy store_size
  elsewhere a outside = ground arith

to_size-small : (z : ℤ) → to_size z < 2 ^ 64
to_size-small (pos n) = omega arith
to_size-small (negsuc n) = omega arith

max_msg_size-small : (config : CommNetConfig) → max_msg_size config < 2 ^ 64
max_msg_size-small config = to_size-small config.max_msg_bytes

sizes-pass :
    (max bytes : ℕ) → 8 ≤ max → max < 2 ^ 64 → bytes + 8 ≤ max → leb bytes (sub64 max 8) ≡ true
sizes-pass max bytes room small le = ground arith

sizes-fail :
    (max bytes : ℕ) → 8 ≤ max → max < 2 ^ 64 → max < bytes + 8 → leb bytes (sub64 max 8) ≡ false
sizes-fail max bytes room small lt = ground arith

-- `set_msg` of a message that fits stores it: the length and the payload are read back by
-- `msg_bytes` and from `msg_ptr`, nothing outside of the message's buffer changes, and the type and
-- the callback are kept. A message longer than the buffer less 8 bytes stops at the CHECK. (The
-- buffer has at least 8 bytes, and the payload is not in the buffer itself.)
pub set_msg_lem :
    (config : CommNetConfig) (key : ℤ) (src bytes : ℕ) (cb : Option ℕ) (mr : MsgMr)
    (memory : Memory)
    → 8 ≤ max_msg_size config
    → bytes < 2 ^ 64
    → (src + bytes ≤ mr.ptr) ⊎ (mr.ptr + max_msg_size config ≤ src)
    → ((bytes + 8 ≤ max_msg_size config)
        × ((mr' : MsgMr) × (memory' : Memory) × (set_msg config key src bytes cb mr memory
              ≡ ok (mr', memory'))
            × (msg_bytes mr' memory' ≡ bytes)
            × ((x : ℕ) → x < bytes → memory' (msg_ptr mr' + x) ≡ memory (src + x))
            × ((a : ℕ) → (a < mr.ptr) ⊎ (mr.ptr + max_msg_size config ≤ a) → memory' a ≡ memory a)
            × (mr' ≡ record { ptr = mr.ptr; msg_type_key = key; cb = cb })))
      ⊎ ((max_msg_size config < bytes + 8)
          × (set_msg config key src bytes cb mr memory ≡ abort check_failed))
unfolding set_msg msg_bytes load_size
set_msg_lem config key src bytes cb mr memory room fits apart =
    elim (dec_lt (max_msg_size config) (bytes + 8)) [
      | yes h ↦
          let fails : leb bytes (sub64 (max_msg_size config) 8) ≡ false =
            sizes-fail (max_msg_size config) bytes room (max_msg_size-small config) h in
          inr (h, rw fails refl)
      | no h ↦
          let le : bytes + 8 ≤ max_msg_size config = omega (arith, h) in
          let passes : leb bytes (sub64 (max_msg_size config) 8) ≡ true =
            sizes-pass (max_msg_size config) bytes room (max_msg_size-small config) le in
          inl (
            le,
            (
              record { ptr = mr.ptr; msg_type_key = key; cb = cb },
              written mr.ptr src bytes memory,
              rw passes refl,
              load_bytes-Holds 8 mr.ptr bytes (written mr.ptr src bytes memory) fits (
                  stored-Holds 8 mr.ptr bytes (written mr.ptr src bytes memory)
                    (size-at mr.ptr src bytes memory)),
              (λ x lt. payload-at mr.ptr src bytes memory x lt (omega (arith, apart, room))),
              (λ a outside. elsewhere mr.ptr src bytes memory a (omega (arith, outside, le))),
              refl,
            ),
          )
    ]
