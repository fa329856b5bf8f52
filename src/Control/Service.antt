-- ===== src/Control/Service.antt =====
-- comm_network/control/ctrl_service.{h,cpp}: the tables of the methods, which macros write from one
-- sequence of names, the client's stub and the service of the server. A type is its name, and a
-- method of gRPC the path it is found under; a read past the end of a table is none.
pub mod Tables
mod Tests
use Prim.Native.String.{String, ◌++◌ as append}
use comm_network.Prelude.{ℕ, zero, suc, ◌+◌, List, [], ◌∷◌, ◌++◌, Option, none, some, get_elem?}
use comm_network.Prelude.Options.{◌>>=◌}
use comm_network.Common.IndexSequence.{make_index_sequence}
use comm_network.Common.Preprocessor.Variadic.{Arg, blank, word, parens}
use comm_network.Common.Preprocessor.Seq.{seq_size, d1_seq_for_each}
use comm_network.Control.Server.{CtrlMethod, load_server, barrier, push_kv, clear_kv, pull_kv}

-- `MAKE_TUPLE_SEQ`, and one call of it behind the other.
abbrev pub make_tuple_seq : String → List (List Arg)
make_tuple_seq x = (word x ∷ []) ∷ []

abbrev pub method_seq : List String → List (List Arg)
method_seq [] = []
method_seq (x ∷ names) = make_tuple_seq x ++ method_seq names

abbrev pub method_names : List String
method_names = "LoadServer" ∷ "Barrier" ∷ "PushKV" ∷ "ClearKV" ∷ "PullKV" ∷ []

-- `CTRL_METHOD_SEQ`
abbrev pub ctrl_method_seq : List (List Arg)
ctrl_method_seq = method_seq method_names

-- `APPLY_TUPLE` of a macro with one parameter.
abbrev pub apply_tuple : (String → String) → List Arg → Option (List String)
apply_tuple m (word x ∷ []) = some (m x ∷ [])
apply_tuple m _ = none

-- `FOR_EACH_TUPLE`
unfoldable pub for_each_tuple : (String → String) → List (List Arg) → Option (List String)
unfolding d1_seq_for_each
for_each_tuple m s = d1_seq_for_each (apply_tuple m) s

abbrev pub cat_request : String → String
cat_request method = append method "Request"

abbrev pub cat_response : String → String
cat_response method = append method "Response"

abbrev pub cat_enum : String → String
cat_enum method = append "k" method

abbrev pub cat_name : String → String
cat_name method = append "/comm_network.CtrlService/" method

pub record MetaData : Type 0 where
  pub ctrl_method : List String
  pub g_method_name : List String
  pub ctrl_request_tuple : List String
  pub ctrl_response_tuple : List String

-- `MAKE_META_DATA`
unfoldable pub make_meta_data : List (List Arg) → Option MetaData
unfolding for_each_tuple
make_meta_data s = do
  methods ← for_each_tuple cat_enum s
  names ← for_each_tuple cat_name s
  requests ← for_each_tuple cat_request s
  responses ← for_each_tuple cat_response s
  some (record {
    ctrl_method = methods;
    g_method_name = names;
    ctrl_request_tuple = requests ++ "void" ∷ [];
    ctrl_response_tuple = responses ++ "void" ∷ [];
  })

-- `kCtrlMethodNum`
abbrev pub ctrl_method_num : List (List Arg) → Option ℕ
ctrl_method_num s = seq_size s

-- `static_cast<size_t>(ctrl_method)`
abbrev pub index_of : CtrlMethod → ℕ
index_of load_server = 0
index_of barrier = 1
index_of push_kv = 2
index_of clear_kv = 3
index_of pull_kv = 4

module _ (meta : MetaData) where
  abbrev pub ctrl_request : ℕ → Option String
  ctrl_request i = get_elem? meta.ctrl_request_tuple i

  abbrev pub ctrl_response : ℕ → Option String
  ctrl_response i = get_elem? meta.ctrl_response_tuple i

  abbrev pub get_method_name : ℕ → Option String
  get_method_name i = get_elem? meta.g_method_name i

  abbrev pub build_one_rpc_method : ℕ → Option String
  build_one_rpc_method method_index = get_method_name method_index

  unfoldable pub build_rpc_methods : List ℕ → Option (List String)
  build_rpc_methods [] = some []
  build_rpc_methods (i ∷ method_indices) = do
    method ← build_one_rpc_method i
    methods ← build_rpc_methods method_indices
    some (method ∷ methods)

  -- The constructor of `Stub`.
  unfoldable pub new_stub : ℕ → Option (List String)
  unfolding build_rpc_methods
  new_stub num = build_rpc_methods (make_index_sequence num)

  -- The loop of the constructor of `AsyncService`, from i on, behind the methods added before.
  unfoldable pub add_methods : ℕ → ℕ → List String → Option (List String)
  add_methods i zero methods = some methods
  add_methods i (suc rounds) methods =
      get_method_name i >>= λ name. add_methods (i + 1) rounds (methods ++ name ∷ [])

  unfoldable pub new_async_service : ℕ → Option (List String)
  unfolding add_methods
  new_async_service num = add_methods 0 num []

-- `CallMethod`: the method of the stub that is called.
abbrev pub call_method : List String → ℕ → Option String
call_method rpcmethods i = get_elem? rpcmethods i
