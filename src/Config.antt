-- ===== src/Config.antt =====
-- comm_network/comm_network_config.proto and comm_network_config_desc.{h,cpp}: the configuration
-- and what the program reads from it.
pub mod MachineId
mod Tests
use Prim.Native.String.{String}
use text.Mathlib.Text.{◌==◌ as str_eq}
use comm_network.Prelude.{
  ℕ, ◌+◌, Bool, true, false, List, [], ◌∷◌, Result, ok, check, or_abort, out_of_range, length,
  get_elem?, if◌then◌else◌, ◌>>=◌, ◌>>◌, not,
}
use comm_network.Prelude.Int.{ℤ, pos, negsuc, ltb_ℤ}
use comm_network.Prelude.Words.{mul64, div64, to_size}

pub record Machine : Type 0 where
  pub id : ℤ
  pub addr : String
  pub ctrl_port_agent : ℤ
  pub data_port_agent : ℤ

-- The fields of the message, with the integers that an `int32` or `int64` field holds.
pub record CommNetConfig : Type 0 where
  pub machine : List Machine
  pub ctrl_port : ℤ
  pub data_port : ℤ
  pub use_rdma : Bool
  pub poller_num : ℤ
  pub register_buffer_num : ℤ
  pub per_register_buffer_mbytes : ℕ
  pub sge_num : ℤ
  pub max_msg_bytes : ℤ

abbrev pub total_machine_num : CommNetConfig → ℕ
total_machine_num c = length c.machine

-- `PerRegisterBufferMBytes() * 1024 * 1024`
abbrev pub buffer_bytes : CommNetConfig → ℕ
buffer_bytes c = mul64 (mul64 c.per_register_buffer_mbytes 1024) 1024

abbrev pub sge_bytes : CommNetConfig → Result ℕ
sge_bytes c = div64 (buffer_bytes c) (to_size c.sge_num)

abbrev pub max_msg_size : CommNetConfig → ℕ
max_msg_size c = to_size c.max_msg_bytes

-- The loop of `GetMachineId` from the machine with index i on, with `machine_id` still -1.
unfoldable pub scan_machines : String → ℕ → List Machine → ℤ
scan_machines addr i [] = negsuc 0
scan_machines addr i (m ∷ ms) = if str_eq addr m.addr then pos i else scan_machines addr (i + 1) ms

unfoldable pub get_machine_id : CommNetConfig → String → Result ℤ
unfolding scan_machines
get_machine_id c addr = do
  let machine_id = scan_machines addr 0 c.machine
  check (not (ltb_ℤ machine_id (pos 0)))
  check (ltb_ℤ machine_id (pos (length c.machine)))
  ok machine_id
