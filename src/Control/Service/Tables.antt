-- ===== src/Control/Service/Tables.antt =====
-- comm_network/control/ctrl_service.{h,cpp}: that the tables agree.
use Prim.Native.String.{String}
use comm_network.Prelude.{
  ℕ, zero, suc, ◌+◌, ◌<◌, ◌≡◌, refl, ap, ◌∙◌, List, [], ◌∷◌, ◌++◌, map, some, length, length-map,
  subst, get_elem?, All, range_from, get_elem?-map, StartsAt, StartsAt-zero, StartsAt-head,
  StartsAt-next, append_assoc, append-nil, ltb, arith, true,
}
use comm_network.Common.IndexSequence.Laws.{make_index_sequence_lem}
use comm_network.Common.Preprocessor.Variadic.{Arg, word}
use comm_network.Common.Preprocessor.Seq.{limit}
use comm_network.Common.Preprocessor.Seq.Iteration.{flat_map, seq_size_lem, seq_for_each_lem}
use comm_network.Control.Service.{
  method_seq, apply_tuple, for_each_tuple, cat_request, cat_response, cat_enum, cat_name, MetaData,
  make_meta_data, ctrl_request, ctrl_response, build_rpc_methods, new_stub, add_methods,
  new_async_service, call_method, ctrl_method_num,
}

length-method_seq : (names : List String) → length (method_seq names) ≡ length names
length-method_seq [] = refl
length-method_seq (x ∷ names) = ap suc (length-method_seq names)

-- What the macro makes of a tuple.
abbrev made : (String → String) → List Arg → List String
made m (word x ∷ []) = m x ∷ []
made m _ = []

apply_tuple_lem :
    (m : String → String) (names : List String)
    → All (λ t. apply_tuple m t ≡ some (made m t)) (method_seq names)
apply_tuple_lem m [] = tt
apply_tuple_lem m (x ∷ names) = (refl, apply_tuple_lem m names)

flat_map-made :
    (m : String → String) (names : List String) → flat_map (made m) (method_seq names) ≡ map m names
flat_map-made m [] = refl
flat_map-made m (x ∷ names) = ap (λ l. m x ∷ l) (flat_map-made m names)

for_each_tuple_lem :
    (m : String → String) (names : List String)
    → length names < limit
    → for_each_tuple m (method_seq names) ≡ some (map m names)
unfolding for_each_tuple
for_each_tuple_lem m names few =
    let row : ltb (length (method_seq names)) limit ≡ true =
      ground (arith, length-method_seq names, few) in
    (seq_for_each_lem (apply_tuple m) (made m) (method_seq names) (apply_tuple_lem m names)).1
    ∙ rw (row, flat_map-made m names) refl

abbrev pub meta_of : List String → MetaData
meta_of names = record {
  ctrl_method = map cat_enum names;
  g_method_name = map cat_name names;
  ctrl_request_tuple = map cat_request names ++ "void" ∷ [];
  ctrl_response_tuple = map cat_response names ++ "void" ∷ [];
}

make_meta_data_lem :
    (names : List String)
    → length names < limit
    → make_meta_data (method_seq names) ≡ some (meta_of names)
unfolding make_meta_data
make_meta_data_lem names few =
    rw
      (
        for_each_tuple_lem cat_enum names few,
        for_each_tuple_lem cat_name names few,
        for_each_tuple_lem cat_request names few,
        for_each_tuple_lem cat_response names few,
      )
      refl

module _ (meta : MetaData) where
  build_rpc_methods_lem :
      (rest : List String) (i : ℕ)
      → StartsAt meta.g_method_name i rest
      → build_rpc_methods meta (range_from i (length rest)) ≡ some rest
  unfolding build_rpc_methods
  build_rpc_methods_lem [] i from_i = refl
  build_rpc_methods_lem (x ∷ rest) i from_i =
      let here : get_elem? meta.g_method_name i ≡ some x =
        StartsAt-head meta.g_method_name (x ∷ rest) i from_i in
      let next = StartsAt-next meta.g_method_name x rest i from_i in
      rw (here, build_rpc_methods_lem rest (i + 1) next) refl

  add_methods_lem :
      (rest : List String) (i : ℕ) (methods : List String)
      → StartsAt meta.g_method_name i rest
      → add_methods meta i (length rest) methods ≡ some (methods ++ rest)
  unfolding add_methods
  add_methods_lem [] i methods from_i = rw (append-nil methods) refl
  add_methods_lem (x ∷ rest) i methods from_i =
      let here : get_elem? meta.g_method_name i ≡ some x =
        StartsAt-head meta.g_method_name (x ∷ rest) i from_i in
      let next = StartsAt-next meta.g_method_name x rest i from_i in
      rw (here, add_methods_lem rest (i + 1) (methods ++ x ∷ []) next)
        (ap some (append_assoc methods (x ∷ []) rest))

-- The row of a table that stands at the index of a name.
table_row :
    (m : String → String) (names : List String) (i : ℕ) (x : String)
    → get_elem? names i ≡ some x
    → get_elem? (map m names ++ "void" ∷ []) i ≡ some (m x)
table_row m (y ∷ names) zero x at_i = ground (arith, at_i)
table_row m (y ∷ names) (suc i) x at_i = table_row m names i x at_i
table_row m [] i x at_i = ground (arith, at_i)

-- For at most 511 names of methods: the macros write their tables, the client's stub and the
-- server's service get the same list of paths, one for each name in the order of the names, and at
-- the index of a name stand its path, its request and its response; so a call through the stub goes
-- to the method that the service has at the same index.
pub tables_lem :
    (names : List String) (i : ℕ) (x : String)
    → length names < limit
    → get_elem? names i ≡ some x
    → (meta : MetaData) × (make_meta_data (method_seq names) ≡ some meta)
      × (ctrl_method_num (method_seq names) ≡ some (length names))
      × (get_elem? meta.ctrl_method i ≡ some (cat_enum x))
      × (ctrl_request meta i ≡ some (cat_request x))
      × (ctrl_response meta i ≡ some (cat_response x))
      × (new_stub meta (length names) ≡ some (map cat_name names))
      × (new_async_service meta (length names) ≡ some (map cat_name names))
      × (call_method (map cat_name names) i ≡ some (cat_name x))
unfolding new_stub new_async_service
tables_lem names i x few at_i =
    let meta : MetaData = meta_of names in
    let same : length (map cat_name names) ≡ length names = length-map cat_name names in
    let from_0 = StartsAt-zero (map cat_name names) in
    let size : ltb (length (method_seq names)) limit ≡ true =
      ground (arith, length-method_seq names, few) in
    (
      meta,
      make_meta_data_lem names few,
      seq_size_lem (method_seq names) ∙ rw (size, length-method_seq names) refl,
      get_elem?-map cat_enum names i x at_i,
      table_row cat_request names i x at_i,
      table_row cat_response names i x at_i,
      ap (build_rpc_methods meta) (make_index_sequence_lem (length names))
          ∙ subst (λ n. build_rpc_methods meta (range_from 0 n) ≡ some (map cat_name names)) same
              (build_rpc_methods_lem meta (map cat_name names) 0 from_0),
      subst (λ n. add_methods meta 0 n [] ≡ some (map cat_name names)) same
          (add_methods_lem meta (map cat_name names) 0 [] from_0),
      get_elem?-map cat_name names i x at_i,
    )
