-- ===== src/Ibverbs/Transfer/Tests.antt =====
-- A transfer of 600000 bytes through buffers of two blocks of 512 KB.
use comm_network.Prelude.{
  ℕ, ◌+◌, ◌*◌, ◌≤◌, ◌<◌, ◌≡◌, refl, ◌↔◌, List, [], ◌∷◌, some, true, false, ok, length, set, arith,
  ◌==◌, if◌then◌else◌, ltb, inl, inr, Ends,
}
use comm_network.Prelude.Int.{pos, pos_part}
use comm_network.Prelude.Words.{add64, int_max}
use comm_network.Message.{FreeBufferPair}
use comm_network.Ibverbs.Verbs.{memcpy, SendWr}
use comm_network.Ibverbs.Port.{post_write_request}
use comm_network.Ibverbs.Port.Writes.{requested, Writes, post_write_request_lem}
use comm_network.Ibverbs.Chunk.{chunk_bytes}
use comm_network.Ibverbs.WriteHelper.{
  State, Machine, init_write_handle, write_chunk, after_chunk, Event, please_write, buffer_freed,
  handle_events,
}
use comm_network.Ibverbs.WriteHelper.Quiet.{IsQuiet, handle_events-IsQuiet}
use comm_network.Ibverbs.WriteHelper.Sends.{write_chunk_lem}
use comm_network.Ibverbs.ReadHelper.{sync_read}
use comm_network.Ibverbs.ReadHelper.Takes.{advanced, sync_read_lem}
use comm_network.Ibverbs.Transfer.{deliver}
use comm_network.Ibverbs.Transfer.Arrival.{IsOutside, chunk_arrives}
use comm_network.Ibverbs.Transfer.Setup.{
  config, config-Divides, accepting, accepting-Accepts, writing, writing-IsRdmaWrite, local, remote,
  remote_desc, buffer-Blocks, remote-Laid, sent_record, asked_record, port, source, target,
  source-target-Linked,
}

chunk_arrives_example :
    let r = source.cur_record in
    let t = chunk_bytes config r in
    (ws : List SendWr) × (s' : State) × (d' : Machine) × (msg : FreeBufferPair) × (write_chunk
        config accepting source
      ≡ ok (true, s'))
    × (s'.machine.qp_vec
        ≡ set source.machine.qp_vec
            (pos_part r.machine_id)
            (some (requested (length ws) ws (port []))))
    × (sync_read config
          (pos 0)
          source.buffer_id
          remote_desc
          (record target { memory = deliver writing ws s'.machine.memory target.memory })
        ≡ ok (d', msg))
    × ((x : ℕ) → x < t → d'.memory (5000 + 0 + x) ≡ source.machine.memory (1000 + 0 + x))
    × ((a : ℕ)
        → IsOutside a (5000 + 0) t
        → IsOutside a 30000000 (2 * 524288)
        → d'.memory a ≡ target.memory a)
    × (s'.cur_record.offset ≡ 0 + t)
    × (d'.qp_vec
        ≡ set target.qp_vec 0 (some (advanced t asked_record [] (port (asked_record ∷ [])))))
    × ((msg.last_piece ≡ true) ↔ (0 + t ≡ 600000))
chunk_arrives_example =
    chunk_arrives config accepting writing writing-IsRdmaWrite source-target-Linked

write_chunk_lem_example :
    let t = chunk_bytes config source.cur_record in
    (q : ℕ) × (ws : List SendWr) × (write_chunk config accepting source
      ≡ ok (
        true,
        after_chunk t source (record {
          memory = memcpy 10000000 (1000 + 0) t source.machine.memory;
          qp_vec = set source.machine.qp_vec 1 (some (requested (q + 1) ws (port [])));
        }),
      ))
    × (length ws ≡ q + 1)
    × (q < 2)
    × (t ≤ (q + 1) * 524288)
    × Writes 524288 10000000 30000000 (λ j. if j == q then pos 0 else pos int_max) 3 0 ws
write_chunk_lem_example =
    write_chunk_lem config accepting config-Divides source 10000000 30000000 local remote (port [])
      accepting-Accepts refl buffer-Blocks refl (omega arith, omega arith) (inl (omega arith))

sync_read_lem_example :
    sync_read config (pos 0) (pos 0) remote_desc target
    ≡ ok (
      record {
        memory = memcpy (5000 + 0) 30000000 600000 target.memory;
        qp_vec =
            set target.qp_vec 0 (some (advanced 600000 asked_record [] (port (asked_record ∷ []))));
      },
      record {
        src_machine_id = pos 0;
        buffer_id = pos 0;
        last_piece = if ltb (add64 0 600000) 600000 then false else true;
      },
    )
sync_read_lem_example =
    sync_read_lem config config-Divides (pos 0) (pos 0) remote_desc target 30000000
      (port (asked_record ∷ [])) asked_record [] 600000 refl refl refl (omega arith, omega arith)
      remote-Laid (inr (omega arith))

post_write_request_lem_example :
    (ws : List SendWr) × (post_write_request accepting remote local (pos 0) (pos (1 + 1)) (port [])
      ≡ ok (requested (1 + 1) ws (port [])))
    × (length ws ≡ 1 + 1)
    × Writes 524288 10000000 30000000 (λ j. if j == 1 then pos 0 else pos int_max) 3 0 ws
post_write_request_lem_example =
    post_write_request_lem accepting 524288 10000000 30000000 local remote (pos 0) 1 (port [])
      accepting-Accepts (omega arith) buffer-Blocks

-- A helper with nothing to do, an empty idle queue, and a peer that asks twice.
abbrev idle : State
idle = record source { helper = record (source.helper) { cur_write_handle = init_write_handle } }

abbrev events : List Event
events = please_write sent_record ∷ please_write sent_record ∷ buffer_freed (pos 0) ∷ []

handle_events-IsQuiet_example : Ends IsQuiet (handle_events config accepting events idle)
handle_events-IsQuiet_example =
    handle_events-IsQuiet config accepting events idle (inl (refl, refl, refl))
