-- ===== src/Ibverbs/Transfer/Whole/Tests.antt =====
-- A read of 2500000 bytes through one buffer of two blocks of 512 KB.
use comm_network.Prelude.{◌*◌, ◌≡◌, refl, [], ◌∷◌, some, ok, arith, inl}
use comm_network.Prelude.Int.{pos}
use comm_network.Message.{WorkRecord}
use comm_network.Ibverbs.WriteHelper.{State, Machine, request_buffer}
use comm_network.Ibverbs.Transfer.Setup.{
  config, config-Divides, accepting, accepting-Accepts, writing, writing-IsRdmaWrite, local, remote,
  remote_desc, buffer-Blocks, remote-Laid, sent_record, asked_record, port, source, target,
}
use comm_network.Ibverbs.Transfer.Whole.{Facing, Reading, whole_read, Arrived}
use comm_network.Ibverbs.Transfer.Whole.Arrives.{whole_read_lem}

abbrev long_read : WorkRecord
long_read = record asked_record { bytes = 2500000 }

abbrev long_source : State
long_source = record source {
  helper = record (source.helper) {
    cur_write_handle = request_buffer;
    cur_record = record sent_record { bytes = 2500000 };
  };
}

abbrev long_target : Machine
long_target = record target { qp_vec = some (port (long_read ∷ [])) ∷ [] }

facing : Facing config accepting writing 2 524288 10000000 30000000 local remote remote_desc
facing = record {
  divides = config-Divides;
  room = accepting-Accepts;
  law = writing-IsRdmaWrite;
  blocks = buffer-Blocks;
  laid = remote-Laid;
}

long_source-Reading :
    Reading
      (2 * 524288)
      10000000
      30000000
      local
      remote
      (pos 0)
      (pos 0)
      long_source
      long_target
      (port [])
      (port (long_read ∷ []))
      long_read
      []
long_source-Reading = record {
  waiting = record { waits = refl; no_idle = refl };
  pair = refl;
  port = refl;
  is_open = (omega arith, omega arith);
  clear = inl (omega arith);
  port' = refl;
  front' = refl;
  same_bytes = refl;
  same_offset = refl;
  clear' = inl (omega arith);
}

whole_read_lem_example :
    (s' : State) × (d' : Machine) × (whole_read config accepting writing
        (pos 0)
        remote_desc
        3
        (pos 0)
        long_source
        long_target
      ≡ ok (s', d'))
    × Arrived 30000000
        (2 * 524288)
        (pos 0)
        long_source
        long_target
        (port (long_read ∷ []))
        long_read
        []
        (s', d')
whole_read_lem_example =
    whole_read_lem config accepting writing facing 3 long_source-Reading (omega arith)
