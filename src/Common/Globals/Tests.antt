-- ===== src/Common/Globals/Tests.antt =====
-- Tests of the singletons.
use comm_network.Prelude.{◌+◌, ◌≡◌, refl, List, [], ◌∷◌, true, Result, ok, leb}
use comm_network.Common.Globals.{
  void_kind, other_kind, Globals, no_globals, GlobalOp, news, deletes, run_global_ops,
}
use comm_network.Common.Globals.Owners.{holds, alive_count, run_global_ops_lem}

abbrev ops : List GlobalOp
ops = news other_kind ∷ news void_kind ∷ deletes void_kind ∷ news void_kind ∷ []

abbrev or_none : Result Globals → Globals
or_none (ok g) = g
or_none _ = no_globals

after_ops : Globals
unfolding run_global_ops
after_ops = or_none (run_global_ops ops no_globals)

reached : run_global_ops ops no_globals ≡ ok after_ops
unfolding run_global_ops after_ops
reached = refl

run_global_ops_lem_example :
    (alive_count 2 after_ops.alive ≡ holds 2 after_ops.plain + holds 2 after_ops.kinded)
    × (leb (alive_count 2 after_ops.alive) 1 ≡ true)
run_global_ops_lem_example = run_global_ops_lem ops 2 reached
