-- ===== src/Control/Service/Tests.antt =====
-- Tests of the tables of methods.
use comm_network.Prelude.{◌≡◌, refl, some, map, arith}
use comm_network.Control.Server.{pull_kv}
use comm_network.Control.Service.{
  method_names, ctrl_method_seq, cat_name, MetaData, make_meta_data, ctrl_method_num, index_of,
  ctrl_request, ctrl_response, new_stub, new_async_service, call_method,
}
use comm_network.Control.Service.Tables.{tables_lem}
use comm_network.Prelude.{get_elem?}

tables_lem_example :
    (meta : MetaData) × (make_meta_data ctrl_method_seq ≡ some meta)
    × (ctrl_method_num ctrl_method_seq ≡ some 5)
    × (get_elem? meta.ctrl_method (index_of pull_kv) ≡ some "kPullKV")
    × (ctrl_request meta (index_of pull_kv) ≡ some "PullKVRequest")
    × (ctrl_response meta (index_of pull_kv) ≡ some "PullKVResponse")
    × (new_stub meta 5 ≡ some (map cat_name method_names))
    × (new_async_service meta 5 ≡ some (map cat_name method_names))
    × (call_method (map cat_name method_names) (index_of pull_kv)
        ≡ some "/comm_network.CtrlService/PullKV")
tables_lem_example = tables_lem method_names (index_of pull_kv) "PullKV" (omega arith) refl
