-- ===== src/Ibverbs/Transfer/Whole.antt =====
-- A read of any length between two machines that use one registered buffer: each time the buffer
-- comes back, `FreeBuffer` of comm_network/ibverbs/ibverbs_write_helper.cpp writes the next chunk,
-- and `SyncRead` of ibverbs_read_helper.cpp takes it in and answers with the buffer.
pub mod Round
pub mod Next
pub mod Arrives
mod Tests
use comm_network.Prelude.{
  ℕ, zero, suc, ◌+◌, ◌-◌, ◌≤◌, ◌<◌, ◌≡◌, List, [], ◌∷◌, Option, some, true, false, Result, ok,
  abort, or_abort, null_pointer, out_of_fuel, length, ◌>>=◌, ◌⊎◌,
}
use comm_network.Prelude.Int.{ℤ}
use comm_network.Config.{CommNetConfig}
use comm_network.Message.{WorkRecord, FreeBufferPair}
use comm_network.Ibverbs.Verbs.{Memory, SendWr, at}
use comm_network.Ibverbs.MemDesc.{MemDesc, MemDescProto}
use comm_network.Ibverbs.Port.Writes.{Accepts, Blocks}
use comm_network.Ibverbs.Chunk.Copies.{Laid}
use comm_network.Ibverbs.Chunk.Size.{Divides, IsOpen}
use comm_network.Ibverbs.WriteHelper.OneBuffer.{IsWaiting}
use comm_network.Ibverbs.Transfer.Arrival.{IsOutside}
use comm_network.Ibverbs.Port.{Port}
use comm_network.Ibverbs.WriteHelper.{State, Machine, free_buffer}
use comm_network.Ibverbs.ReadHelper.{sync_read}
use comm_network.Ibverbs.Transfer.{deliver, IsRdmaWrite}

-- What a queue has beyond its first n entries.
drop {ℓ} : {A : Type ℓ} → ℕ → List A → List A
drop zero l = l
drop (suc n) [] = []
drop (suc n) (x ∷ l) = drop n l

abbrev port_of : ℤ → List (Option Port) → Result Port
port_of i qps = at qps i >>= λ entry. or_abort null_pointer entry

module _ (config : CommNetConfig) (ibv_post_send : List SendWr → SendWr → ℕ)
    (rdma_write : SendWr → Memory → Memory → Memory) (writer : ℤ) (desc : MemDesc) where
  -- One round: the source gets the buffer back, the network carries out what that has posted to the
  -- reader, and the reader takes the chunk in.
  pub round_trip : ℤ → State → Machine → Result (State × Machine × FreeBufferPair)
  round_trip buffer_id s d = do
    s' ← free_buffer config ibv_post_send buffer_id s
    before ← port_of s.cur_record.machine_id s.machine.qp_vec
    after ← port_of s.cur_record.machine_id s'.machine.qp_vec
    let requests = drop (length before.posted) after.posted
    (d', msg) ←
        sync_read config writer buffer_id desc
          (record d { memory = deliver rdma_write requests s'.machine.memory d.memory })
    ok (s', d', msg)

  -- Round after round with the buffer that the answer frees, until an answer is marked last.
  pub whole_read : ℕ → ℤ → State → Machine → Result (State × Machine)
  unfolding round_trip
  whole_read zero buffer_id s d = abort out_of_fuel
  whole_read (suc fuel) buffer_id s d = round_trip buffer_id s d >>= λ r. elim r.2.last_piece [
    | true ↦ ok (r.0, r.1)
    | false ↦ whole_read fuel r.2.buffer_id r.0 r.1
  ]

-- n bytes that lie outside of a buffer.
abbrev pub IsClear : ℕ → ℕ → ℕ → ℕ → Type 0
IsClear a n base size = (a + n ≤ base) ⊎ (base + size ≤ a)

-- What the two machines have in common while a record is read.
pub record Facing (config : CommNetConfig) (ibv_post_send : List SendWr → SendWr → ℕ)
    (rdma_write : SendWr → Memory → Memory → Memory) (n block base rbase : ℕ) (local : MemDesc)
    (remote : MemDescProto) (desc : MemDesc) : Type 0 where
  pub divides : Divides config n block
  pub room : Accepts ibv_post_send
  pub law : IsRdmaWrite rdma_write
  pub blocks : Blocks block base rbase local remote 0 n
  pub laid : Laid block rbase desc.sge_vec 0 n

-- A source whose record waits for a buffer, and a target whose oldest read is at the same place:
-- what is left of it lies outside of the registered buffer, on both machines.
pub record Reading (size base rbase : ℕ) (local : MemDesc) (remote : MemDescProto) (b writer : ℤ)
    (s : State) (d : Machine) (p p' : Port) (r' : WorkRecord) (rest : List WorkRecord)
    : Type 0 where
  pub waiting : IsWaiting s
  pub pair : at s.send_recv_pair b ≡ ok (local, remote)
  pub port : at s.machine.qp_vec s.cur_record.machine_id ≡ ok (some p)
  pub is_open : IsOpen s.cur_record
  pub clear :
      IsClear
        (s.cur_record.begin_addr + s.cur_record.offset)
        (s.cur_record.bytes - s.cur_record.offset)
        base
        size
  pub port' : at d.qp_vec writer ≡ ok (some p')
  pub front' : p'.read_queue ≡ r' ∷ rest
  pub same_bytes : r'.bytes ≡ s.cur_record.bytes
  pub same_offset : r'.offset ≡ s.cur_record.offset
  pub clear' :
      IsClear (r'.begin_addr + r'.offset) (s.cur_record.bytes - s.cur_record.offset) rbase size

-- What is left of the record is at its place; nothing else has changed but the registered buffer;
-- and the read stands at its end.
abbrev pub Arrived :
    ℕ → ℕ → ℤ → State → Machine → Port → WorkRecord → List WorkRecord → State × Machine → Type 0
Arrived rbase size writer s d p' r' rest after =
    let left = s.cur_record.bytes - s.cur_record.offset in
    ((x : ℕ)
      → x < left
      → after.1.memory (r'.begin_addr + r'.offset + x)
        ≡ s.machine.memory (s.cur_record.begin_addr + s.cur_record.offset + x))
    × ((a : ℕ)
        → IsOutside a (r'.begin_addr + r'.offset) left
        → IsOutside a rbase size
        → after.1.memory a ≡ d.memory a)
    × (at after.1.qp_vec writer
        ≡ ok (some (record p' { read_queue = record r' { offset = r'.bytes } ∷ rest })))
