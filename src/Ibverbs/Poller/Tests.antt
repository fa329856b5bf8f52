-- ===== src/Ibverbs/Poller/Tests.antt =====
-- Tests of comm_network/ibverbs/ibverbs_poller.cpp.
use comm_network.Prelude.{List, [], ◌∷◌}
use comm_network.Ibverbs.Poller.{start, Move, polls, stops, run}
use comm_network.Ibverbs.Poller.Exit.{Exits, poller-Exits}

-- The poller is between its test and its clear when `Stop` first tries.
abbrev moves : List Move
moves = polls ∷ stops ∷ polls ∷ stops ∷ polls ∷ []

poller-Exits_example : Exits (run moves start)
poller-Exits_example = poller-Exits moves
