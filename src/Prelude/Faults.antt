-- ===== src/Prelude/Faults.antt =====
-- Code that can stop the process: a failed CHECK of glog, a `LOG(FATAL)`, a throwing `at`, or
-- undefined behaviour (a null pointer, the front of an empty queue, an index or divisor out of
-- range), which the model also counts as a stop. `out_of_fuel` stands for a loop of the model that
-- was given too few rounds, and for one of the source that does not end.
use mathlib.Core.Path.{◌≡◌, refl, ap}
use mathlib.Core.Logic.{◌≢◌, ◌⊎◌, inl, inr}
use mathlib.Core.Bool.{Bool, true, false}
use mathlib.Core.Option.{Option, none, some}

pub data Fault : Type 0 where
  check_failed log_fatal out_of_range null_pointer empty_queue divide_by_zero out_of_fuel : Fault

pub data Result {ℓ} (A : Type ℓ) : Type ℓ where
  ok : A → Result A
  abort : Fault → Result A

infixl 5 ◌>>=◌ ◌>>◌
abbrev pub ◌>>=◌ {ℓ κ} : {A : Type ℓ} {B : Type κ} → Result A → (A → Result B) → Result B
ok a >>= k = k a
abort f >>= k = abort f

abbrev pub ◌>>◌ {ℓ} : {B : Type ℓ} → Result (Unit {0}) → Result B → Result B
m >> k = m >>= λ _. k

-- `CHECK(b)`
abbrev pub check : Bool → Result (Unit {0})
check true = ok tt
check false = abort check_failed

-- The value of an optional read, or the fault of its absence.
abbrev pub or_abort {ℓ} : {A : Type ℓ} → Fault → Option A → Result A
or_abort f none = abort f
or_abort f (some a) = ok a

pub >>=-eq-ok {ℓ κ} :
    {A : Type ℓ} {B : Type κ} (m : Result A) (k : A → Result B) {b : B}
    → (m >>= k) ≡ ok b
    → (a : A) × (m ≡ ok a) × (k a ≡ ok b)
>>=-eq-ok (ok a) k h = (a, refl, h)
>>=-eq-ok (abort f) k h = cc

abbrev from_ok {ℓ} : {A : Type ℓ} → A → Result A → A
from_ok a (ok b) = b
from_ok a (abort f) = a

pub ok-injective {ℓ} : {A : Type ℓ} (a b : A) → ok a ≡ ok b → a ≡ b
ok-injective a b e = ap (from_ok a) e

-- What a run comes to: a result with P, or a stop of the program itself, never the model's lack of
-- rounds.
pub data Ends {ℓ} {A : Type ℓ} (P : A → Type 0) : Result A → Type ℓ where
  ended : {a : A} → P a → Ends P (ok a)
  stopped : {f : Fault} → f ≢ out_of_fuel → Ends P (abort f)

abbrev pub Any {ℓ} : {A : Type ℓ} → A → Type 0
Any a = Unit

module _ {ℓ κ} {A : Type ℓ} {B : Type κ} {P : A → Type 0} {Q : B → Type 0} where
  pub Ends-bind :
      {m : Result A} {k : A → Result B}
      → Ends P m
      → ((a : A) → P a → Ends Q (k a))
      → Ends Q (m >>= k)
  Ends-bind (ended h) next = next _ h
  Ends-bind (stopped own) next = stopped own

module _ {ℓ} {A : Type ℓ} where
  -- A read or a CHECK brings no lack of rounds.
  pub Ends-or_abort : (f : Fault) (o : Option A) → f ≢ out_of_fuel → Ends Any (or_abort f o)
  Ends-or_abort f none own = stopped own
  Ends-or_abort f (some a) own = ended tt

pub Ends-check : (b : Bool) → Ends Any (check b)
Ends-check true = ended tt
Ends-check false = stopped (λ e. cc)

pub Result-cases {ℓ} :
    {A : Type ℓ} (r : Result A) → ((a : A) × (r ≡ ok a)) ⊎ ((f : Fault) × (r ≡ abort f))
Result-cases (ok a) = inl (a, refl)
Result-cases (abort f) = inr (f, refl)

-- A property of what a run leaves, where it does not stop.
pub data WhenOk {ℓ} {A : Type ℓ} (P : A → Type 0) : Result A → Type ℓ where
  leaves : {a : A} → P a → WhenOk P (ok a)
  stops : {f : Fault} → WhenOk P (abort f)

module _ {ℓ κ} {A : Type ℓ} {B : Type κ} {P : A → Type 0} {Q : B → Type 0} where
  pub WhenOk-bind :
      {m : Result A} {k : A → Result B}
      → WhenOk P m
      → ((a : A) → P a → WhenOk Q (k a))
      → WhenOk Q (m >>= k)
  WhenOk-bind (leaves h) next = next _ h
  WhenOk-bind stops next = stops

module _ {ℓ κ} {A : Type ℓ} {B : Type κ} {Q : B → Type 0} where
  pub WhenOk-then :
      (m : Result A) {k : A → Result B} → ((a : A) → m ≡ ok a → WhenOk Q (k a)) → WhenOk Q (m >>= k)
  WhenOk-then (ok a) next = next a refl
  WhenOk-then (abort f) next = stops
