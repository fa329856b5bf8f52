-- ===== src/Control/Server/Rpcs/Counts.antt =====
-- How often a call stands among the objects, the tags and the waiting calls of `HandleRpcs`
-- (comm_network/control/ctrl_server.cpp).
use comm_network.Prelude.{
  ℕ, suc, ◌+◌, ◌≡◌, refl, List, [], ◌∷◌, ◌++◌, none, some, true, ◌==◌, leb, if◌then◌else◌, arith,
}
use comm_network.Control.Server.{CtrlServer, CtrlResponse}
use comm_network.Control.Server.Answers.{count, answered}
use comm_network.Prelude.Assoc.Totals.{total}
use comm_network.Control.Server.Rpcs.{
  Status, before_handle_request, before_delete, find_call, delete_call, mark, take_tag, tags_of,
}

-- How many objects stand under a number.
abbrev pub live : ℕ → List (ℕ × Status) → ℕ
live c [] = 0
live c ((call, st) ∷ calls) = if call == c then suc (live c calls) else live c calls

-- One if the call is still to be answered.
abbrev pub one_if_open : Status → ℕ
one_if_open before_handle_request = 1
one_if_open before_delete = 0

-- How many of them are still to be answered.
abbrev pub unanswered : ℕ → List (ℕ × Status) → ℕ
unanswered c [] = 0
unanswered c ((call, st) ∷ calls) =
    if call == c then one_if_open st + unanswered c calls else unanswered c calls

-- How often the server keeps a call, for a value or at a barrier.
abbrev pub waiting : ℕ → CtrlServer → ℕ
waiting c s = total (count c) s.pending_kv_calls + total (λ e. count c e.0) s.barrier_calls

pub live-mark :
    (c : ℕ) (rs : List (ℕ × CtrlResponse)) (calls : List (ℕ × Status))
    → live c (mark rs calls) ≡ live c calls
live-mark c rs [] = refl
live-mark c rs ((call, st) ∷ calls) = ground (arith, live-mark c rs calls)

pub unanswered-mark :
    (c : ℕ) (rs : List (ℕ × CtrlResponse)) (calls : List (ℕ × Status))
    → unanswered c (mark rs calls) ≡ (if answered c rs == 0 then unanswered c calls else 0)
unanswered-mark c rs [] = ground arith
unanswered-mark c rs ((call, st) ∷ calls) = ground (arith, unanswered-mark c rs calls)

pub live-delete_call :
    (c d : ℕ) (calls : List (ℕ × Status))
    → live c (delete_call d calls) ≡ (if d == c then 0 else live c calls)
live-delete_call c d [] = ground arith
live-delete_call c d ((call, st) ∷ calls) = ground (arith, live-delete_call c d calls)

pub unanswered-delete_call :
    (c d : ℕ) (calls : List (ℕ × Status))
    → unanswered c (delete_call d calls) ≡ (if d == c then 0 else unanswered c calls)
unanswered-delete_call c d [] = ground arith
unanswered-delete_call c d ((call, st) ∷ calls) = ground (arith, unanswered-delete_call c d calls)

pub count-take_tag :
    (c d : ℕ) (tags : List ℕ) → count c (take_tag d tags) ≡ (if d == c then 0 else count c tags)
count-take_tag c d [] = ground arith
count-take_tag c d (tag ∷ tags) = ground (arith, count-take_tag c d tags)

pub count-tags_of :
    (c : ℕ) (rs : List (ℕ × CtrlResponse)) (tags : List ℕ)
    → count c (tags_of rs ++ tags) ≡ answered c rs + count c tags
count-tags_of c [] tags = omega arith
count-tags_of c ((call, r) ∷ rs) tags = ground (arith, count-tags_of c rs tags)

pub unanswered-live :
    (c : ℕ) (calls : List (ℕ × Status)) → leb (unanswered c calls) (live c calls) ≡ true
unanswered-live c [] = refl
unanswered-live c ((call, before_handle_request) ∷ calls) = ground (arith, unanswered-live c calls)
unanswered-live c ((call, before_delete) ∷ calls) = ground (arith, unanswered-live c calls)

pub live-find_call :
    (c : ℕ) (calls : List (ℕ × Status)) → find_call c calls ≡ none → live c calls ≡ 0
live-find_call c [] e = refl
live-find_call c ((call, st) ∷ calls) e = ground (arith, live-find_call c calls)

pub unanswered-find_call :
    (c : ℕ) (calls : List (ℕ × Status))
    → find_call c calls ≡ some before_handle_request
    → leb 1 (unanswered c calls) ≡ true
unanswered-find_call c [] e = cc
unanswered-find_call c ((call, before_handle_request) ∷ calls) e =
    ground (arith, unanswered-find_call c calls)
unanswered-find_call c ((call, before_delete) ∷ calls) e =
    ground (arith, unanswered-find_call c calls)
