-- ===== src/Ibverbs/Qp/Tests.antt =====
-- Tests of the messages of one queue pair.
use comm_network.Prelude.{◌≡◌, refl, List, [], ◌∷◌, some, Result, ok, abort, arith}
use comm_network.Prelude.Int.{pos}
use comm_network.Message.{UserMsg, user_message}
use comm_network.Ibverbs.Port.{
  find_id, erase_id, delete_work_request_id, new_work_request_id, post_send,
}
use comm_network.Ibverbs.Qp.{
  Endpoint, called_cb, run_steps, read_steps, deal_work_record, read_bytes, read_msg,
  get_one_send_msg_mr_from_buf, set_msg_buf, post_msg, post_send_request, post_recv_request, msg_of,
  delete_id, send_done, recycle,
}
use comm_network.Ibverbs.Qp.Sending.{sending, sent_state, send_done-post_send_request}
use comm_network.Ibverbs.Qp.Pool.{KeepsBuffers, MsgOp, posts, sent, received, run_op, run_ops}
use comm_network.Ibverbs.Qp.Pool.Kept.{run_ops-KeepsBuffers}
use comm_network.Ibverbs.CommNet.Setup.{env, memory, buf_of, end_of, end-Ready}
use comm_network.Prelude.{ℕ, none, true, false, ◌>>=◌, get_elem?}
use comm_network.Message.{WorkRecord, please_write_key}
use comm_network.Ibverbs.Verbs.{SendWr}
use comm_network.Ibverbs.Qp.Sending.{Ready, filled}
use comm_network.Ibverbs.Qp.Crossing.{interleave, reads-cross}
use comm_network.Ibverbs.CommNet.Setup.{layout-IsLayout}

abbrev user : UserMsg
user = record { msg_type = pos 2; ptr = 7; bytes = 3 }

abbrev before : Endpoint
before = end_of (pos 0) (pos 1) [] []

send_done-post_send_request_example :
    (post_send_request env memory (user_message user (some 9)) before
      ≡ ok (sending (pos 5) (read_bytes 7 3 memory) (some 9) 0 [] (buf_of []) before))
    × (send_done env 5 (sending (pos 5) (read_bytes 7 3 memory) (some 9) 0 [] (buf_of []) before)
        ≡ ok (
            sent_state env
              (pos 5)
              (read_bytes 7 3 memory)
              (some 9)
              0
              []
              (buf_of [])
              before
              (called_cb 9 ∷ [])))
send_done-post_send_request_example =
    send_done-post_send_request env memory user (some 9) before 0 [] (buf_of [])
      (end-Ready (pos 0) (pos 1) [] []) (omega arith) (ground arith) (omega arith) (omega arith)

before-KeepsBuffers : KeepsBuffers before
before-KeepsBuffers b = ground arith

-- A message is posted, another comes in, and the first is sent.
abbrev ops : List MsgOp
ops = posts memory (user_message user (some 9)) ∷ received 4 ∷ sent 5 ∷ []

abbrev result : Result Endpoint → Endpoint
result (ok e) = e
result (abort _) = before

ops-ok : run_ops env ops before ≡ ok (result (run_ops env ops before))
unfolding run_ops run_op read_bytes read_msg get_one_send_msg_mr_from_buf set_msg_buf post_msg
    post_send_request post_recv_request msg_of delete_id send_done recycle find_id erase_id
    delete_work_request_id new_work_request_id post_send
ops-ok = refl

run_ops-KeepsBuffers_example : KeepsBuffers (result (run_ops env ops before))
run_ops-KeepsBuffers_example = run_ops-KeepsBuffers env ops before before-KeepsBuffers ops-ok

-- Two free buffers, and two reads.
abbrev roomy : Endpoint
roomy = record before {
  qp = record (before.qp) {
    msg_mrs = buf_of [] ∷ buf_of [] ∷ buf_of [] ∷ [];
    send_msg_buf = 0 ∷ 2 ∷ [];
  };
}

roomy-Ready : Ready env roomy 0 (2 ∷ []) (buf_of [])
roomy-Ready = record { pool = refl; there = refl; room = λ l w. refl }

abbrev read_of : ℕ → WorkRecord
read_of dst = record { machine_id = pos 1; begin_addr = dst; bytes = 8; offset = 0; cb = none }

reads-cross_example :
    (run_steps env memory
        (interleave
          (true ∷ true ∷ false ∷ false ∷ [])
          (read_steps (read_of 60) 40)
          (read_steps (read_of 70) 50))
        roomy
      ≡ (deal_work_record env memory (read_of 60) 40 roomy >>= λ e2.
          deal_work_record env memory (read_of 70) 50 e2))
    × ((e' : Endpoint) × (run_steps env memory
            (interleave
              (true ∷ false ∷ false ∷ true ∷ [])
              (read_steps (read_of 60) 40)
              (read_steps (read_of 70) 50))
            roomy
          ≡ ok e')
        × (e'.port.read_queue ≡ read_of 60 ∷ read_of 70 ∷ [])
        × ((w1 w2 : SendWr) × (e'.port.posted ≡ w2 ∷ w1 ∷ [])
            × (e'.port.live
                ≡ (w1.wr_id, record { outstanding_sge_cnt = pos 0; msg_mr = some 2 })
                  ∷ (w2.wr_id, record { outstanding_sge_cnt = pos 0; msg_mr = some 0 })
                  ∷ roomy.port.live)
            × (get_elem? e'.qp.msg_mrs 0
                ≡ some (filled please_write_key (0 ∷ 0 ∷ 50 ∷ 8 ∷ []) none (buf_of [])))
            × (get_elem? e'.qp.msg_mrs 2
                ≡ some (filled please_write_key (0 ∷ 0 ∷ 40 ∷ 8 ∷ []) none (buf_of [])))))
reads-cross_example =
    reads-cross env memory (read_of 60) (read_of 70) 40 50 0 2 [] (buf_of []) (buf_of []) roomy
      layout-IsLayout roomy-Ready refl (omega arith) refl
