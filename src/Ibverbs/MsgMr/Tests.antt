-- ===== src/Ibverbs/MsgMr/Tests.antt =====
-- Tests of `MsgMR` of comm_network/ibverbs/ibverbs_qp.h.
use comm_network.Prelude.{
  ℕ, ◌+◌, ◌≤◌, ◌<◌, ◌≡◌, ◌⊎◌, inr, none, some, ok, abort, check_failed, arith,
}
use comm_network.Prelude.Int.{pos}
use comm_network.Config.{max_msg_size}
use comm_network.Ibverbs.Verbs.{Memory}
use comm_network.Ibverbs.MsgMr.{MsgMr, set_msg, msg_ptr, msg_bytes}
use comm_network.Ibverbs.MsgMr.RoundTrip.{set_msg_lem}
use comm_network.Ibverbs.Transfer.Setup.{config, filled}

abbrev buffer : MsgMr
buffer = record { ptr = 500; msg_type_key = pos 0; cb = none }

set_msg_lem_example :
    ((5 + 8 ≤ max_msg_size config)
      × ((mr' : MsgMr) × (memory' : Memory) × (set_msg config (pos 4) 9000 5 (some 1) buffer filled
            ≡ ok (mr', memory'))
          × (msg_bytes mr' memory' ≡ 5)
          × ((x : ℕ) → x < 5 → memory' (msg_ptr mr' + x) ≡ filled (9000 + x))
          × ((a : ℕ) → (a < 500) ⊎ (500 + max_msg_size config ≤ a) → memory' a ≡ filled a)
          × (mr' ≡ record { ptr = 500; msg_type_key = pos 4; cb = some 1 })))
    ⊎ ((max_msg_size config < 5 + 8)
        × (set_msg config (pos 4) 9000 5 (some 1) buffer filled ≡ abort check_failed))
set_msg_lem_example =
    set_msg_lem config (pos 4) 9000 5 (some 1) buffer filled (omega arith) (omega arith)
      (inr (omega arith))
