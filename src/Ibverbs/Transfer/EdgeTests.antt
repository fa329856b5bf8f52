-- ===== src/Ibverbs/Transfer/EdgeTests.antt =====
-- A buffer of three blocks, which do not fill it, and a read of no bytes.
use comm_network.Prelude.{
  zero, suc, ◌+◌, ◌*◌, ◌<◌, ◌≡◌, refl, [], ◌∷◌, some, none, true, ok, set, arith, inl,
}
use comm_network.Prelude.Int.{pos}
use comm_network.Config.{CommNetConfig, buffer_bytes}
use comm_network.Message.{WorkRecord}
use comm_network.Ibverbs.Verbs.{memcpy}
use comm_network.Ibverbs.MemDesc.{MemDesc, MemDescProto}
use comm_network.Ibverbs.Port.Writes.{requested, Blocks}
use comm_network.Ibverbs.WriteHelper.{State, init_write_handle, write_chunk}
use comm_network.Ibverbs.WriteHelper.Shortfall.{write_chunk_short}
use comm_network.Ibverbs.WriteHelper.Empty.{write_chunk_empty}
use comm_network.Ibverbs.Transfer.Setup.{
  config, config-Divides, accepting, accepting-Accepts, local, remote, port, filled, source,
}

-- Three blocks of 349525 bytes in a buffer of 1048576.
abbrev uneven : CommNetConfig
uneven = record config { sge_num = pos 3 }

abbrev uneven_local : MemDesc
uneven_local = record {
  sge_vec =
      record { addr = 10000000; length = 349525; lkey = 1 }
      ∷ record { addr = 10349525; length = 349525; lkey = 1 }
      ∷ record { addr = 10699050; length = 349525; lkey = 1 }
      ∷ [];
  mr_vec = [];
}

abbrev uneven_remote : MemDescProto
uneven_remote = record { mem_ptr = 30000000 ∷ 30349525 ∷ 30699050 ∷ []; mr_rkey = 7 ∷ 8 ∷ 9 ∷ [] }

uneven-Blocks : Blocks 349525 10000000 30000000 uneven_local uneven_remote 0 3
uneven-Blocks zero lo hi = (1, 7, refl, refl, refl)
uneven-Blocks (suc zero) lo hi = (1, 8, refl, refl, refl)
uneven-Blocks (suc (suc zero)) lo hi = (1, 9, refl, refl, refl)
uneven-Blocks (suc (suc (suc j))) lo hi = absurd (omega arith)

abbrev large_record : WorkRecord
large_record = record {
  machine_id = pos 1;
  begin_addr = 1000;
  bytes = 2000000;
  offset = 0;
  cb = none;
}

abbrev uneven_source : State
uneven_source = record source {
  helper = record (source.helper) {
    cur_record = large_record;
    send_recv_pair = (uneven_local, uneven_remote) ∷ [];
  };
}

write_chunk_short_example :
    (s' : State) × (write_chunk uneven accepting uneven_source ≡ ok (true, s'))
    × (s'.machine.memory ≡ memcpy 10000000 (1000 + 0) (3 * 349525) filled)
    × (s'.cur_record.offset ≡ 0 + buffer_bytes uneven)
    × (3 * 349525 < buffer_bytes uneven)
write_chunk_short_example =
    write_chunk_short uneven accepting 2 349525 uneven_source 10000000 30000000 uneven_local
      uneven_remote (port []) refl (omega arith) (omega arith) refl (omega arith) accepting-Accepts
      refl uneven-Blocks refl (omega arith, omega arith) (omega arith) (inl (omega arith))

-- A read of no bytes, in blocks of 524288 = 2 ^ 32 / 8192.
abbrev empty_source : State
empty_source = record source {
  helper = record (source.helper) {
    cur_record = record { machine_id = pos 1; begin_addr = 1000; bytes = 0; offset = 0; cb = none };
  };
}

write_chunk_empty_example :
    (s' : State) × (write_chunk config accepting empty_source ≡ ok (true, s'))
    × (s'.cur_write_handle ≡ init_write_handle)
    × (s'.idle_buffer_queue ≡ empty_source.idle_buffer_queue)
    × (s'.machine.memory ≡ empty_source.machine.memory)
    × (s'.machine.qp_vec ≡ set empty_source.machine.qp_vec 1 (some (requested 0 [] (port []))))
write_chunk_empty_example =
    write_chunk_empty config accepting config-Divides 8192 empty_source local remote (port []) refl
      refl refl refl (omega arith)
