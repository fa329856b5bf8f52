-- ===== src/Common/Globals/Owners.antt =====
-- comm_network/common/global.h: that each object has one owner.
use comm_network.Prelude.{
  ℕ, ◌+◌, ◌≡◌, refl, List, [], ◌∷◌, Option, none, some, true, ok, ◌==◌, leb, if◌then◌else◌, arith,
  >>=-eq-ok, ◌>>◌, subst, ok-injective,
}
use comm_network.Common.Globals.{
  Kind, void_kind, other_kind, Globals, no_globals, check_kind, slot, get_global, new_global,
  destroy, delete_at, delete_global, GlobalOp, news, deletes, run_global_ops,
}

abbrev pub holds : ℕ → Option ℕ → ℕ
holds x none = 0
holds x (some y) = if y == x then 1 else 0

-- How often an object exists.
abbrev pub alive_count : ℕ → List ℕ → ℕ
alive_count x [] = 0
alive_count x (y ∷ l) = (if y == x then 1 else 0) + alive_count x l

alive_count-destroy :
    (x y : ℕ) (l : List ℕ) → alive_count x (destroy y l) ≡ (if y == x then 0 else alive_count x l)
alive_count-destroy x y [] = ground arith
alive_count-destroy x y (z ∷ l) = ground (arith, alive_count-destroy x y l)

-- Each object that exists is in one of the two slots, once, and the next number is new.
abbrev IsOwned : Globals → Type 0
IsOwned g =
    (x : ℕ)
    → (alive_count x g.alive ≡ holds x g.plain + holds x g.kinded)
      × (leb (alive_count x g.alive) 1 ≡ true)
      × (leb g.next x ≡ true → alive_count x g.alive ≡ 0)

new_global-IsOwned :
    (kind : Kind) (g : Globals) {g' : Globals} → IsOwned g → new_global kind g ≡ ok g' → IsOwned g'
unfolding new_global get_global
new_global-IsOwned void_kind g h e x = ground (arith, h x, h g.next)
new_global-IsOwned other_kind g h e x = ground (arith, h x, h g.next)

delete_at-IsOwned :
    (kind : Kind) (p : Option ℕ) (g : Globals)
    → slot kind g ≡ p
    → IsOwned g
    → IsOwned (delete_at kind p g)
delete_at-IsOwned kind none g at h x = h x
delete_at-IsOwned void_kind (some y) g at h x =
    ground (arith, h x, h y, alive_count-destroy x y g.alive)
delete_at-IsOwned other_kind (some y) g at h x =
    ground (arith, h x, h y, alive_count-destroy x y g.alive)

-- `Delete` that passes its check deletes what the slot holds.
got-delete_at :
    (kind : Kind) (g : Globals) {g' : Globals}
    → delete_global kind g ≡ ok g'
    → (check_kind kind g >> ok (delete_at kind (slot kind g) g)) ≡ ok g'
unfolding delete_global get_global
got-delete_at void_kind g e = e
got-delete_at other_kind g e = ground (arith, e)

run_global_ops-IsOwned :
    (ops : List GlobalOp) (g : Globals) {g' : Globals}
    → IsOwned g
    → run_global_ops ops g ≡ ok g'
    → IsOwned g'
unfolding run_global_ops delete_global get_global
run_global_ops-IsOwned [] g h e = subst IsOwned (ok-injective g _ e) h
run_global_ops-IsOwned (news kind ∷ ops) g h e =
    let (g1, e1, e2) = >>=-eq-ok (new_global kind g) _ e in
    run_global_ops-IsOwned ops g1 (new_global-IsOwned kind g h e1) e2
run_global_ops-IsOwned (deletes kind ∷ ops) g h e =
    let (g1, e1, e2) = >>=-eq-ok (delete_global kind g) _ e in
    let (u, e3, e4) = >>=-eq-ok (check_kind kind g) _ (got-delete_at kind g e1) in
    let deleted = delete_at-IsOwned kind (slot kind g) g refl h in
    run_global_ops-IsOwned ops g1 (subst IsOwned (ok-injective _ g1 e4) deleted) e2

-- After any calls of `New` and `Delete` that pass their CHECKs, with either kind: each object that
-- was made exists as often as the two slots of its type hold it, and that is at most once, so that
-- none is lost and none is deleted twice.
pub run_global_ops_lem :
    (ops : List GlobalOp) (x : ℕ) {g : Globals}
    → run_global_ops ops no_globals ≡ ok g
    → (alive_count x g.alive ≡ holds x g.plain + holds x g.kinded)
      × (leb (alive_count x g.alive) 1 ≡ true)
run_global_ops_lem ops x reached =
    let (one, few, _) = run_global_ops-IsOwned ops no_globals (λ y. ground arith) reached x in
    (one, few)
