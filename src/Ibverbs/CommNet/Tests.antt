-- ===== src/Ibverbs/CommNet/Tests.antt =====
-- Tests of the messages between two machines.
use comm_network.Prelude.{ℕ, ◌≡◌, refl, List, [], ◌∷◌, none, some, true, ok, Ends, Any, arith}
use comm_network.Prelude.Int.{pos}
use comm_network.Message.{UserMsg, WorkRecord, FreeBufferPair, please_write_key, free_buffer_key}
use comm_network.Ibverbs.WriteHelper.{push_buffer, async_write, free_buffer}
use comm_network.Ibverbs.Transfer.Setup.{config, accepting}
use comm_network.Ibverbs.Qp.{called_handler, read_bytes}
use comm_network.Ibverbs.Qp.Sending.{sending}
use comm_network.Ibverbs.CommNet.{
  put_endpoint, call, find_handler, send_msg, do_read, register2_normal_done, recv_done,
}
use comm_network.Ibverbs.CommNet.Receiving.{recycled}
use comm_network.Ibverbs.CommNet.Handled.{helper_state, read_done, Follows}
use comm_network.Ibverbs.WriteHelper.Quiet.{IsQuiet}
use comm_network.Ibverbs.WriteHelper.Starts.{begun}
use comm_network.Ibverbs.CommNet.Exchange.{recv_done-send_msg}
use comm_network.Ibverbs.CommNet.Reading.{request_of, noted, write_record, recv_done-do_read}
use comm_network.Ibverbs.CommNet.Finishing.{finished, recv_done-register2_normal_done}
use comm_network.Ibverbs.CommNet.Setup.{
  env, layout-IsLayout, env-AcceptsRecv, buf_of, end_of, reader, holder, reader_end, holder_end,
  end-Ready, end-Completes,
}

abbrev user : UserMsg
user = record { msg_type = pos 2; ptr = 7; bytes = 3 }

holder-Handles :
    (payload : List ℕ) → find_handler (pos 2) (holder payload).msg_handlers ≡ some (some 70)
unfolding find_handler
holder-Handles payload = refl

user-Carried : 7 ∷ 8 ∷ 9 ∷ [] ≡ read_bytes 7 3 (λ a. a)
unfolding read_bytes
user-Carried = refl

recv_done-send_msg_example :
    (send_msg env (pos 1) user (some 9) (reader [])
      ≡ ok (
          put_endpoint
            (pos 1)
            (sending
              (pos 5)
              (read_bytes 7 3 (λ a. a))
              (some 9)
              0
              []
              (buf_of [])
              (end_of (pos 0) (pos 1) [] []))
            (reader [])))
    × (recv_done env (pos 0) 4 (pos 5) (holder (7 ∷ 8 ∷ 9 ∷ []))
        ≡ ok (
            put_endpoint
              (pos 0)
              (recycled 4 1 (record (end_of (pos 1) (pos 0) [] (7 ∷ 8 ∷ 9 ∷ [])) {
                called = called_handler 70 (read_bytes 7 3 (λ a. a)) ∷ [];
              }))
              (call (called_handler 70 (read_bytes 7 3 (λ a. a))) (holder (7 ∷ 8 ∷ 9 ∷ [])))))
recv_done-send_msg_example =
    recv_done-send_msg env (pos 1) (pos 0) user (some 9) (reader []) (holder (7 ∷ 8 ∷ 9 ∷ [])) 2 70
      4 0 [] (buf_of []) (end_of (pos 0) (pos 1) [] []) (reader_end [])
      (end-Ready (pos 0) (pos 1) [] []) refl (omega arith) (ground arith) (omega arith)
      (omega arith) (holder_end (7 ∷ 8 ∷ 9 ∷ []))
      (end-Completes (pos 1) (pos 0) [] (7 ∷ 8 ∷ 9 ∷ [])) user-Carried env-AcceptsRecv
      (holder-Handles (7 ∷ 8 ∷ 9 ∷ []))

abbrev asked : List ℕ
asked = 0 ∷ 0 ∷ 40 ∷ 8 ∷ []

abbrev noted_read : WorkRecord
noted_read = record { machine_id = pos 1; begin_addr = 60; bytes = 8; offset = 0; cb = some 9 }

recv_done-do_read_example :
    let p = request_of 40 8 (end_of (pos 0) (pos 1) [] []) in
    (do_read env (pos 1) 40 8 60 (some 9) (reader [])
      ≡ ok (
          put_endpoint
            (pos 1)
            (sending please_write_key asked none 0 []
              (buf_of [])
              (noted noted_read (end_of (pos 0) (pos 1) [] [])))
            (reader [])))
    × (let e' = end_of (pos 1) (pos 0) [] asked in
        let started =
          async_write config accepting (write_record p) (helper_state e' (holder asked)) in
        (started ≡ ok (begun (write_record p) (helper_state e' (holder asked))))
        × Ends Any started
        × Follows
            (pos 0)
            4
            1
            e'
            (holder asked)
            (λ e1. e1)
            started
            (recv_done env (pos 0) 4 please_write_key (holder asked)))
recv_done-do_read_example =
    recv_done-do_read env (pos 1) (pos 0) 40 8 60 (some 9) (reader []) (holder asked) 4 0 []
      (buf_of []) (end_of (pos 0) (pos 1) [] []) layout-IsLayout (reader_end [])
      (end-Ready (pos 0) (pos 1) [] []) refl (holder_end asked)
      (end-Completes (pos 1) (pos 0) [] asked) (omega arith) env-AcceptsRecv refl

abbrev last : FreeBufferPair
last = record { src_machine_id = pos 1; buffer_id = pos 0; last_piece = true }

abbrev freed : List ℕ
freed = 0 ∷ 1 ∷ 0 ∷ 0 ∷ 1 ∷ []

recv_done-register2_normal_done_example :
    (register2_normal_done env last (reader (noted_read ∷ []))
      ≡ ok (
          put_endpoint
            (pos 1)
            (sending free_buffer_key freed none 0 []
              (buf_of [])
              (finished noted_read [] (end_of (pos 0) (pos 1) (noted_read ∷ []) [])))
            (reader (noted_read ∷ []))))
    × (let e' = end_of (pos 1) (pos 0) [] freed in
        let done = free_buffer config accepting (pos 0) (helper_state e' (holder freed)) in
        (done ≡ ok (push_buffer (pos 0) (helper_state e' (holder freed))))
        × Ends IsQuiet done
        × Follows
            (pos 0)
            4
            1
            e'
            (holder freed)
            (read_done true 30 [])
            done
            (recv_done env (pos 0) 4 free_buffer_key (holder freed)))
recv_done-register2_normal_done_example =
    recv_done-register2_normal_done env (pos 0) last (reader (noted_read ∷ [])) (holder freed)
      noted_read [] 4 0 [] (buf_of []) (end_of (pos 0) (pos 1) (noted_read ∷ []) []) layout-IsLayout
      (reader_end (noted_read ∷ [])) refl (end-Ready (pos 0) (pos 1) (noted_read ∷ []) []) refl
      (holder_end freed) (end-Completes (pos 1) (pos 0) [] freed) (omega arith) env-AcceptsRecv refl
      refl
