-- ===== src/Common/IndexSequence/Tests.antt =====
-- Tests of comm_network/common/cplusplus_14.h.
use comm_network.Prelude.{◌≡◌, refl, [], ◌∷◌, range_from}
use comm_network.Common.IndexSequence.Laws.{make_index_sequence_lem}
use comm_network.Common.IndexSequence.{make_index_sequence}

make_five : make_index_sequence 5 ≡ 0 ∷ 1 ∷ 2 ∷ 3 ∷ 4 ∷ []
unfolding make_index_sequence
make_five = refl

make_index_sequence_lem_example : make_index_sequence 6 ≡ range_from 0 6
make_index_sequence_lem_example = make_index_sequence_lem 6
