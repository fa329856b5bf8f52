-- ===== src/Ibverbs/Queues/Slots.antt =====
-- comm_network/comm_network.cpp: who the peers are.
use Prim.Native.String.{String}
use comm_network.Prelude.{
  ℕ, zero, suc, ◌+◌, ◌≡◌, true, ok, length, ◌==◌, ltb, leb, ◌&&◌, not, if◌then◌else◌, arith,
  >>=-eq-ok, check, ◌>>◌,
}
use comm_network.Prelude.Int.{ℤ, pos, negsuc, ltb_ℤ}
use comm_network.Config.{CommNetConfig, total_machine_num, get_machine_id, scan_machines}
use comm_network.Ibverbs.Qp.Pool.{count}
use comm_network.Ibverbs.Queues.{insert_peers}

-- The peers are the machines but this one, each once.
pub count-insert_peers :
    (p this i n : ℕ)
    → count p (insert_peers (pos this) i n)
      ≡ (if leb i p && ltb p (i + n) && not (p == this) then 1 else 0)
unfolding insert_peers
count-insert_peers p this i zero = ground arith
count-insert_peers p this i (suc n) = ground (arith, count-insert_peers p this (i + 1) n)

pub length-insert_peers :
    (this i n : ℕ)
    → length (insert_peers (pos this) i n) + (if leb i this && ltb this (i + n) then 1 else 0) ≡ n
unfolding insert_peers
length-insert_peers this i zero = ground arith
length-insert_peers this i (suc n) = ground (arith, length-insert_peers this (i + 1) n)

checked_bound :
    (z : ℤ) (n this : ℕ) → (check (ltb_ℤ z (pos n)) >> ok z) ≡ ok (pos this) → ltb this n ≡ true
checked_bound (pos m) n this e = ground arith
checked_bound (negsuc m) n this e = ground arith

pub get_machine_id-lt :
    (config : CommNetConfig) (addr : String) (this : ℕ)
    → get_machine_id config addr ≡ ok (pos this)
    → ltb this (total_machine_num config) ≡ true
unfolding get_machine_id
get_machine_id-lt config addr this e =
    let (u, e1, e2) =
      >>=-eq-ok (check (not (ltb_ℤ (scan_machines addr 0 config.machine) (pos 0)))) _ e in
    checked_bound (scan_machines addr 0 config.machine) (length config.machine) this e2
