-- ===== src/Common/Globals.antt =====
-- comm_network/common/global.h: the singletons of one type. An object is a number, and `alive` are
-- the objects that exist. With a `Kind` other than `void` each access first checks that the plain
-- singleton of the type is not in use.
pub mod Owners
mod Tests
use comm_network.Prelude.{
  ℕ, suc, List, [], ◌∷◌, Option, none, some, Bool, true, false, Result, ok, check, ◌==◌,
  if◌then◌else◌, ◌>>=◌, ◌>>◌,
}

abbrev pub is_null : Option ℕ → Bool
is_null none = true
is_null (some _) = false

pub data Kind : Type 0 where
  void_kind other_kind : Kind

pub record Globals : Type 0 where
  pub plain : Option ℕ
  pub kinded : Option ℕ
  pub alive : List ℕ
  pub next : ℕ

abbrev pub no_globals : Globals
no_globals = record { plain = none; kinded = none; alive = []; next = 0 }

-- `CheckKind` and `GetPPtr`
abbrev pub check_kind : Kind → Globals → Result (Unit {0})
check_kind void_kind g = ok tt
check_kind other_kind g = check (is_null g.plain)

abbrev pub slot : Kind → Globals → Option ℕ
slot void_kind g = g.plain
slot other_kind g = g.kinded

abbrev pub put_slot : Kind → Option ℕ → Globals → Globals
put_slot void_kind p g = record g { plain = p }
put_slot other_kind p g = record g { kinded = p }

unfoldable pub get_global : Kind → Globals → Result (Option ℕ)
get_global kind g = check_kind kind g >> ok (slot kind g)

unfoldable pub set_allocated : Kind → Option ℕ → Globals → Result Globals
set_allocated kind val g = check_kind kind g >> ok (put_slot kind val g)

-- `New`, in which `GetPPtr` checks the kind before and after the constructor runs.
unfoldable pub new_global : Kind → Globals → Result Globals
unfolding get_global
new_global kind g = do
  p ← get_global kind g
  check (is_null p)
  check_kind kind g
  ok (put_slot kind (some g.next) (record g { alive = g.next ∷ g.alive; next = suc g.next }))

abbrev pub destroy : ℕ → List ℕ → List ℕ
destroy x [] = []
destroy x (y ∷ l) = let rest = destroy x l in if y == x then rest else y ∷ rest

abbrev pub delete_at : Kind → Option ℕ → Globals → Globals
delete_at kind none g = g
delete_at kind (some x) g = put_slot kind none (record g { alive = destroy x g.alive })

unfoldable pub delete_global : Kind → Globals → Result Globals
unfolding get_global
delete_global kind g = get_global kind g >>= λ p. ok (delete_at kind p g)

pub data GlobalOp : Type 0 where
  news deletes : Kind → GlobalOp

unfoldable pub run_global_ops : List GlobalOp → Globals → Result Globals
unfolding new_global delete_global
run_global_ops [] g = ok g
run_global_ops (news kind ∷ ops) g = new_global kind g >>= λ g'. run_global_ops ops g'
run_global_ops (deletes kind ∷ ops) g = delete_global kind g >>= λ g'. run_global_ops ops g'
