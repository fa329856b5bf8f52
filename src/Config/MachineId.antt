-- ===== src/Config/MachineId.antt =====
-- comm_network/comm_network_config_desc.cpp: which machine `GetMachineId` names.
use Prim.Native.String.{String}
use text.Mathlib.Text.{◌==◌ as str_eq}
use text.Mathlib.TextEquality.{eq_iff}
use comm_network.Prelude.{
  ℕ, zero, suc, ◌+◌, ◌<◌, ◌≡◌, ◌≢◌, ◌⊎◌, inl, inr, List, [], ◌∷◌, ok, abort, check_failed, length,
  All, arith, Bool-cases, refl, ap,
}
use comm_network.Prelude.Int.{pos, negsuc}
use comm_network.Config.{Machine, CommNetConfig, scan_machines, get_machine_id}

-- The machine with index k is the first of the list with that address.
abbrev pub FirstAt : String → List Machine → ℕ → Type 0
FirstAt addr [] k = ⊥
FirstAt addr (m ∷ ms) zero = addr ≡ m.addr
FirstAt addr (m ∷ ms) (suc k) = (addr ≢ m.addr) × FirstAt addr ms k

abbrev pub NoneAt : String → List Machine → Type 0
NoneAt addr ms = All (λ m. addr ≢ m.addr) ms

abbrev Scanned : String → ℕ → List Machine → Type 0
Scanned addr i ms =
    (NoneAt addr ms × (scan_machines addr i ms ≡ negsuc 0))
    ⊎ ((k : ℕ) × FirstAt addr ms k × (k < length ms) × (scan_machines addr i ms ≡ pos (k + i)))

scan_machines-Scanned : (addr : String) (i : ℕ) (ms : List Machine) → Scanned addr i ms
unfolding scan_machines
scan_machines-Scanned addr i [] = inl (tt, refl)
scan_machines-Scanned addr i (m ∷ ms) = elim (Bool-cases (str_eq addr m.addr)) [
  | inl e ↦ rw e (inr (0, (eq_iff addr m.addr).0 e, omega arith, ap pos (omega arith)))
  | inr e ↦ elim (scan_machines-Scanned addr (i + 1) ms) [
    | inl (absent, r) ↦
        rw (e, r) (inl ((λ q. ground (arith, (eq_iff addr m.addr).1 q), absent), refl))
    | inr (k, first, lt, r) ↦
        rw (e, r)
          (inr (
            suc k,
            ((λ q. ground (arith, (eq_iff addr m.addr).1 q)), first),
            omega arith,
            ap pos (omega arith),
          ))
  ]
]

-- `GetMachineId` gives the index of the first machine with the address, and stops at its CHECK
-- exactly when there is none.
pub get_machine_id_lem :
    (c : CommNetConfig) (addr : String)
    → (NoneAt addr c.machine × (get_machine_id c addr ≡ abort check_failed))
      ⊎ ((k : ℕ) × FirstAt addr c.machine k × (get_machine_id c addr ≡ ok (pos k)))
unfolding get_machine_id
get_machine_id_lem c addr = elim (scan_machines-Scanned addr 0 c.machine) [
  | inl (absent, r) ↦ inl (absent, rw (r, get_machine_id))
  | inr (k, first, lt, r) ↦
      inr (k, first, let e : k + 0 ≡ k = omega arith in rw (r, e, get_machine_id) (ground arith))
]
