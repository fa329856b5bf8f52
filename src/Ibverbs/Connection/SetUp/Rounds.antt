-- ===== src/Ibverbs/Connection/SetUp/Rounds.antt =====
-- comm_network/ibverbs: the rounds of the set-up, each from its parts.
use Prim.Native.String.{String}
use comm_network.Prelude.{
  ℕ, ◌+◌, ◌≡◌, refl, ap, ◌∙◌, sym, subst, List, [], ◌∷◌, ◌++◌, none, some, ok, map, length,
  length-append, append_assoc, get_elem?, get_elem?-right, or_abort, out_of_range, arith,
}
use comm_network.Prelude.Int.{pos}
use comm_network.Prelude.Assoc.{lookup, assign, erase}
use comm_network.Ibverbs.Verbs.{at}
use comm_network.Ibverbs.MemDesc.{MemDesc, MemDescProto, to_proto}
use comm_network.Ibverbs.Qp.{Env}
use comm_network.Ibverbs.Connection.{
  Device, Link, Kv, Value, ConnectionInfo, QpAttr, init_attr, rtr_attr, rts_attr, push_value,
  clear_value, modify_qp, connect,
}
use comm_network.Ibverbs.Connection.SetUp.{recv_protos, pair_up}

-- An element behind the first p.
at-append : {A : Type 0} (p : List A) (a : A) (q : List A) → at (p ++ a ∷ q) (pos (length p)) ≡ ok a
at-append p a q = ap (or_abort out_of_range) (
    get_elem?-right p (a ∷ q) (length p) (omega arith)
    ∙ ap (get_elem? (a ∷ q)) {y = 0} (omega arith))

recv_protos_from :
    (p q : List (MemDesc × MemDesc))
    → recv_protos (length p) (length q) (p ++ q) ≡ ok (map (λ m. to_proto (m.1)) q)
unfolding recv_protos
recv_protos_from p [] = refl
recv_protos_from p (m ∷ q) =
    let next : length (p ++ m ∷ []) ≡ length p + 1 = length-append p (m ∷ []) in
    let rest : recv_protos (length p + 1) (length q) (p ++ m ∷ q)
        ≡ ok (map (λ m. to_proto (m.1)) q) =
      subst (λ n. recv_protos n (length q) (p ++ m ∷ q) ≡ ok (map (λ m. to_proto (m.1)) q)) next
        (subst
          (λ l. recv_protos (length (p ++ m ∷ [])) (length q) l ≡ ok (map (λ m. to_proto (m.1)) q))
          (append_assoc p (m ∷ []) q) (recv_protos_from (p ++ m ∷ []) q)) in
    rw (at-append p m q, rest) refl

pub recv_protos_lem :
    (n : ℕ) (l : List (MemDesc × MemDesc))
    → length l ≡ n
    → recv_protos 0 n l ≡ ok (map (λ m. to_proto (m.1)) l)
recv_protos_lem n l len = ap (λ k. recv_protos 0 k l) (sym len) ∙ recv_protos_from [] l

-- Each send buffer with the proto of the same number.
abbrev pub paired : List (MemDesc × MemDesc) → List MemDescProto → List (MemDesc × MemDescProto)
paired [] protos = []
paired (m ∷ l) [] = []
paired (m ∷ l) (r ∷ protos) = (m.0, r) ∷ paired l protos

pair_up_from :
    (p : List (MemDesc × MemDesc)) (p' : List MemDescProto) (q : List (MemDesc × MemDesc))
    (q' : List MemDescProto)
    → length p ≡ length p'
    → length q ≡ length q'
    → pair_up (length p) (length q) (p ++ q) (p' ++ q') ≡ ok (paired q q')
unfolding pair_up
pair_up_from p p' [] q' same len = refl
pair_up_from p p' (m ∷ q) [] same len = absurd (omega (arith, len))
pair_up_from p p' (m ∷ q) (r ∷ q') same len =
    let next : length (p ++ m ∷ []) ≡ length p + 1 = length-append p (m ∷ []) in
    let next' : length (p' ++ r ∷ []) ≡ length p' + 1 = length-append p' (r ∷ []) in
    let rest : pair_up (length p + 1) (length q) (p ++ m ∷ q) (p' ++ r ∷ q') ≡ ok (paired q q') =
      subst (λ n. pair_up n (length q) (p ++ m ∷ q) (p' ++ r ∷ q') ≡ ok (paired q q')) next
        (subst (λ l. pair_up (length (p ++ m ∷ [])) (length q) l (p' ++ r ∷ q') ≡ ok (paired q q'))
          (append_assoc p (m ∷ []) q)
          (subst
            (λ l.
              pair_up (length (p ++ m ∷ [])) (length q) ((p ++ m ∷ []) ++ q) l ≡ ok (paired q q'))
            (append_assoc p' (r ∷ []) q')
            (pair_up_from (p ++ m ∷ []) (p' ++ r ∷ []) q q' (omega (arith, next, next', same))
              (omega (arith, len))))) in
    let there : at (p' ++ r ∷ q') (pos (length p)) ≡ ok r =
      ap (λ (n : ℕ). at (p' ++ r ∷ q') (pos n)) same ∙ at-append p' r q' in
    rw (at-append p m q, there, rest) refl

pub pair_up_lem :
    (n : ℕ) (l : List (MemDesc × MemDesc)) (protos : List MemDescProto)
    → length l ≡ n
    → length protos ≡ n
    → pair_up 0 n l protos ≡ ok (paired l protos)
pair_up_lem n l protos len len' =
    ap (λ k. pair_up 0 k l protos) (sym len) ∙ pair_up_from [] [] l protos refl (len ∙ sym len')

pub push_value_lem :
    (k : String) (v : Value) (kv : Kv) → lookup k kv ≡ none → push_value k v kv ≡ ok (assign k v kv)
unfolding push_value
push_value_lem k v kv absent = rw (absent, push_value) refl

pub clear_value_lem :
    (k : String) (kv : Kv) {v : Value} → lookup k kv ≡ some v → clear_value k kv ≡ ok (erase k kv)
unfolding clear_value
clear_value_lem k kv held = rw (held, clear_value) refl

-- `ibv_modify_qp` succeeds.
abbrev pub Modifies : Device → Type 0
Modifies dev = (l : List QpAttr) (a : QpAttr) → dev.ibv_modify_qp l a ≡ 0

-- The three states, in their order.
abbrev pub three_states : Device → ConnectionInfo → List QpAttr
three_states dev info = init_attr ∷ rtr_attr dev.active_mtu info ∷ rts_attr ∷ []

pub connect_lem :
    (env : Env) (dev : Device) (info : ConnectionInfo) (l : Link)
    → Modifies dev
    → connect env dev info l ≡ ok (record l { modified = l.modified ++ three_states dev info })
unfolding connect modify_qp
connect_lem env dev info l accepts =
    let rtr = rtr_attr dev.active_mtu info in
    rw
      (
        accepts l.modified init_attr,
        accepts (l.modified ++ init_attr ∷ []) rtr,
        accepts ((l.modified ++ init_attr ∷ []) ++ rtr ∷ []) rts_attr,
        append_assoc (l.modified ++ init_attr ∷ []) (rtr ∷ []) (rts_attr ∷ []),
        append_assoc l.modified (init_attr ∷ []) (rtr ∷ rts_attr ∷ []),
      )
      refl
