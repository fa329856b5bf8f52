-- ===== src/Common/Channel/Tests.antt =====
-- Tests of comm_network/common/channel.h.
use comm_network.Prelude.{ℕ, ◌≡◌, refl, true, List, [], ◌∷◌}
use comm_network.Common.Channel.{
  send, receive, receive_many, close, Call, sends, receives, receives_many, closes, History, step,
  run, start,
}
use comm_network.Common.Channel.Order.{InOrder, run-InOrder}

abbrev calls : List (Call ℕ)
calls = sends 5 ∷ sends 6 ∷ receives ∷ sends 7 ∷ closes ∷ sends 8 ∷ receives_many ∷ receives ∷ []

calls-run : (run start calls).delivered ≡ 5 ∷ 6 ∷ 7 ∷ []
unfolding run start step send receive receive_many close
calls-run = refl

run-InOrder_example : InOrder (run start calls)
unfolding start
run-InOrder_example = run-InOrder start calls refl

abbrev closed_with_one : History ℕ
closed_with_one = record {
  channel = record { queue = 4 ∷ []; is_closed = true };
  accepted = 4 ∷ [];
  delivered = [];
}
