-- ===== src/Control/Client/Retries.antt =====
-- comm_network/control/ctrl_client.cpp: the attempts of `LoadServer`.
use native.Mathlib.Decide.{dec_lt}
use comm_network.Prelude.{
  ℕ, zero, suc, ◌+◌, ◌<◌, ◌≤◌, ◌≡◌, refl, ap, subst, ◌∙◌, ◌⊎◌, inl, inr, ok, abort, check_failed,
  log_fatal, ltb, true, arith,
}
use comm_network.Control.Client.{
  StatusCode, status_ok, unavailable, other_status, retry, load_server,
}

-- Attempts lo, ..., i - 1 found the server unavailable.
abbrev pub DownUntil : (ℕ → StatusCode) → ℕ → ℕ → Type 0
DownUntil call_method lo i = (j : ℕ) → lo ≤ j → j < i → call_method j ≡ unavailable

abbrev Retried : (ℕ → StatusCode) → ℕ → ℕ → Type 0
Retried call_method n lo =
    ((i : ℕ) × (i < lo + n)
      × DownUntil call_method lo i
      × (call_method i ≡ status_ok)
      × (retry call_method n lo ≡ ok i))
    ⊎ ((i : ℕ) × (i < lo + n)
        × DownUntil call_method lo i
        × (call_method i ≡ other_status)
        × (retry call_method n lo ≡ abort log_fatal))
    ⊎ (DownUntil call_method lo (lo + n) × (retry call_method n lo ≡ ok (lo + n)))

status-cases : (c : StatusCode) → (c ≡ status_ok) ⊎ (c ≡ unavailable) ⊎ (c ≡ other_status)
status-cases status_ok = inl refl
status-cases unavailable = inr (inl refl)
status-cases other_status = inr (inr refl)

before :
    (call_method : ℕ → StatusCode) (lo i : ℕ)
    → call_method lo ≡ unavailable
    → DownUntil call_method (lo + 1) i
    → DownUntil call_method lo i
before call_method lo i e down j ge lt = elim (dec_lt lo j) [
  | yes h ↦ down j (omega arith) lt
  | no h ↦ let same : j ≡ lo = omega (arith, h) in ap call_method same ∙ e
]

goes_on :
    (call_method : ℕ → StatusCode) (n lo : ℕ)
    → call_method lo ≡ unavailable
    → Retried call_method n (lo + 1)
    → Retried call_method (suc n) lo
unfolding retry
goes_on call_method n lo e (inl (i, lt, down, found, run)) =
    inl (i, omega arith, before call_method lo i e down, found, ground arith)
goes_on call_method n lo e (inr (inl (i, lt, down, found, run))) =
    inr (inl (i, omega arith, before call_method lo i e down, found, ground arith))
goes_on call_method n lo e (inr (inr (down, run))) =
    let same : lo + 1 + n ≡ lo + suc n = omega arith in
    inr (
      inr (
        subst (DownUntil call_method lo) same (before call_method lo (lo + 1 + n) e down),
        ground (arith, run),
      ))

retry-Retried : (call_method : ℕ → StatusCode) (n lo : ℕ) → Retried call_method n lo
unfolding retry
retry-Retried call_method zero lo =
    inr (inr ((λ j ge lt. absurd (omega arith)), ap ok (omega arith)))
retry-Retried call_method (suc n) lo = elim (status-cases (call_method lo)) [
  | inl e ↦ inl (lo, omega arith, (λ j ge lt. absurd (omega arith)), e, ground arith)
  | inr (inr e) ↦ inr (inl (lo, omega arith, (λ j ge lt. absurd (omega arith)), e, ground arith))
  | inr (inl e) ↦ goes_on call_method n lo e (retry-Retried call_method n (lo + 1))
]

below : (i : ℕ) → i < 60 → ltb i 60 ≡ true
below i lt = ground arith

-- `LoadServer` returns exactly if one of its 60 attempts gets through and all before it found the
-- server unavailable; it stops by LOG(FATAL) if another status comes first, and at its CHECK if
-- all 60 attempts found the server unavailable.
pub load_server_lem :
    (call_method : ℕ → StatusCode)
    → ((i : ℕ) × (i < 60)
        × DownUntil call_method 0 i
        × (call_method i ≡ status_ok)
        × (load_server call_method ≡ ok tt))
      ⊎ ((i : ℕ) × (i < 60)
          × DownUntil call_method 0 i
          × (call_method i ≡ other_status)
          × (load_server call_method ≡ abort log_fatal))
      ⊎ (DownUntil call_method 0 60 × (load_server call_method ≡ abort check_failed))
unfolding load_server
load_server_lem call_method = elim (retry-Retried call_method 60 0) [
  | inl (i, lt, down, found, run) ↦ inl (i, lt, down, found, rw (run, below i lt) refl)
  | inr (inl (i, lt, down, found, run)) ↦ inr (inl (i, lt, down, found, rw run refl))
  | inr (inr (down, run)) ↦ inr (inr (down, rw run refl))
]
