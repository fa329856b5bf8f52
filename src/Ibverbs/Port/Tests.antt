-- ===== src/Ibverbs/Port/Tests.antt =====
-- Tests of the work request ids of comm_network/ibverbs/ibverbs_qp.cpp.
use comm_network.Prelude.{ℕ, suc, ◌-◌, ◌<◌, ◌≡◌, refl, [], ok, abort, null_pointer, none}
use comm_network.Ibverbs.Port.{find_id, rdma_write_done}
use comm_network.Ibverbs.Port.Writes.{requested}
use comm_network.Ibverbs.Port.Lifetime.{completions, completed, completions_lem}
use comm_network.Ibverbs.Transfer.Setup.{port}

port-fresh : find_id (port []).next_id (port []).live ≡ none
unfolding find_id
port-fresh = refl

completions_lem_example :
    ((i : ℕ)
      → i < suc 2
      → completions i 3 (requested (suc 2) [] (port [])) ≡ ok (requested (suc 2 - i) [] (port [])))
    × (completions (suc 2) 3 (requested (suc 2) [] (port [])) ≡ ok (completed [] (port [])))
    × (rdma_write_done 3 (completed [] (port [])) ≡ abort null_pointer)
completions_lem_example = completions_lem 2 [] (port []) port-fresh
