-- ===== src/Ibverbs/Verbs.antt =====
-- The data that comm_network/ibverbs exchanges with the verbs library: scatter entries, memory
-- regions and send requests, beside main memory with `memcpy`. A byte is a number, an address a
-- number, and memory a function from addresses.
use comm_network.Prelude.{
  ℕ, ◌+◌, ◌-◌, List, ◌&&◌, Result, abort, out_of_range, or_abort, get_elem?, get_elem?-set, set,
  Option, none, some, ok, ◌≡◌, ap, leb, ltb, if◌then◌else◌,
}
use comm_network.Prelude.Int.{ℤ, pos, negsuc, pos_part}

abbrev pub Memory : Type 0
Memory = ℕ → ℕ

unfoldable pub memcpy : ℕ → ℕ → ℕ → Memory → Memory
memcpy dst src n m a = if leb dst a && ltb a (dst + n) then m (src + (a - dst)) else m a

-- `ibv_sge`; the length is a `uint32_t`.
pub record Sge : Type 0 where
  pub addr : ℕ
  pub length : ℕ
  pub lkey : ℕ

-- What the program reads of an `ibv_mr`.
pub record Mr : Type 0 where
  pub lkey : ℕ
  pub rkey : ℕ

pub data Opcode : Type 0 where
  rdma_write_with_imm send_with_imm : Opcode

-- `ibv_send_wr` with its one scatter entry; the immediate is the `int32_t` that both ends read.
pub record SendWr : Type 0 where
  pub wr_id : ℕ
  pub sge : Sge
  pub opcode : Opcode
  pub imm_data : ℤ
  pub remote_addr : ℕ
  pub rkey : ℕ

-- `v.at(i)`, and `v[i]` with the undefined access counted as a stop.
abbrev pub at {ℓ} : {A : Type ℓ} → List A → ℤ → Result A
at l (pos i) = or_abort out_of_range (get_elem? l i)
at l (negsuc _) = abort out_of_range

or_abort-ok {ℓ} : {A : Type ℓ} (o : Option A) {a : A} → or_abort out_of_range o ≡ ok a → o ≡ some a
or_abort-ok none e = cc
or_abort-ok (some a) e = cc

pub at-set {ℓ} :
    {A : Type ℓ} (l : List A) (i : ℤ) (a : A) {x : A}
    → at l i ≡ ok x
    → at (set l (pos_part i) a) i ≡ ok a
at-set l (pos i) a {x} e =
    ap (or_abort out_of_range) (get_elem?-set l i a {x = x} (or_abort-ok (get_elem? l i) e))
at-set l (negsuc i) a e = cc
