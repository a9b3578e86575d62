-- ===== src/Connection/Machine/Retry.antt =====
-- The schedule of reconnects: how long a delay is, and how many attempts are made.
use rez_sdk.Common.{
  ℕ, zero, suc, ◌+◌, ◌-◌, ◌*◌, ◌^◌, min, ◌≡◌, ◌≤◌, ◌<◌, true, false, none, some, List, [], ◌∷◌,
  ◌++◌, length, length-append, subst, is_some, arith,
}
use native.Mathlib.Nat.{pow-suc, add-zero}
use rez_sdk.Connection.Machine.{failed, Machine, Reconnect, delay}
use rez_sdk.Connection.Machine.Steps.{handle, handle_all, Event, run_settles, timer_fires}

power-pos : (n : ℕ) → 1 ≤ 2 ^ n
power-pos zero = omega arith
power-pos (suc n) = rw pow-suc (omega (arith, power-pos n))

half_backoff : (b r : ℕ) {p : ℕ} → 1 ≤ p → b * 2 ^ 52 ≤ b * p * (2 ^ 52 + r)
half_backoff b r {p} h = grind arith

-- A delay is never longer than the cap, and never shorter than the smaller of the cap and half of
-- the backoff.
pub delay_bounds :
    (c : Reconnect) (attempts r : ℕ)
    → (min (c.backoff_cap_ms * 2 ^ 53) (c.backoff_ms * 2 ^ 52) ≤ delay c attempts r)
      × (delay c attempts r ≤ c.backoff_cap_ms * 2 ^ 53)
delay_bounds c attempts r =
    (grind (arith, half_backoff c.backoff_ms r (power-pos (attempts - 1))), omega arith)

-- The timer fires, the old transport is closed, and the new connection fails.
abbrev pub failing_attempt : ℕ → List Event
failing_attempt r = timer_fires ∷ run_settles 0 true r ∷ run_settles 0 false r ∷ []

-- A machine that waits for its next attempt, with `n` attempts counted.
pub record IsWaiting (limit n : ℕ) (m : Machine) : Type 0 where
  pub armed : is_some m.timer ≡ true
  pub is_open : m.closed ≡ false
  pub idle : m.runs ≡ []
  pub counted : m.attempts ≡ n
  pub limited : m.reconnect.max_attempts ≡ some limit

failing_attempt-IsWaiting :
    (limit n r : ℕ) (m : Machine)
    → n < limit
    → IsWaiting limit n m
    → IsWaiting limit (n + 1) (handle_all (failing_attempt r) m)
unfolding handle_all handle
failing_attempt-IsWaiting limit n r m h w = ground arith

failing_attempt_last :
    (limit r : ℕ) (m : Machine)
    → IsWaiting limit limit m
    → ((handle_all (failing_attempt r) m).state ≡ failed)
      × ((handle_all (failing_attempt r) m).timer ≡ none)
unfolding handle_all handle
failing_attempt_last limit r m w = ground arith

unfoldable pub failing_attempts : List ℕ → List Event
failing_attempts [] = []
failing_attempts (r ∷ rs) =
    timer_fires ∷ run_settles 0 true r ∷ run_settles 0 false r ∷ failing_attempts rs

failing_attempts_last :
    (limit n : ℕ) (rs : List ℕ) (m : Machine)
    → IsWaiting limit n m
    → n ≤ limit
    → n + length rs ≡ limit + 1
    → ((handle_all (failing_attempts rs) m).state ≡ failed)
      × ((handle_all (failing_attempts rs) m).timer ≡ none)
unfolding failing_attempts handle_all
failing_attempts_last limit n [] m w b e = absurd (omega arith)
failing_attempts_last limit n (r ∷ []) m w b e =
    let last : n ≡ limit = omega arith in
    failing_attempt_last limit r m (subst (λ x. IsWaiting limit x m) last w)
failing_attempts_last limit n (r ∷ r' ∷ rs) m w b e =
    failing_attempts_last limit (n + 1) (r' ∷ rs) (handle_all (failing_attempt r) m)
      (failing_attempt-IsWaiting limit n r m (omega arith) w) (omega arith) (omega arith)

-- Up to that point the machine waits again after each failure.
failing_attempts-IsWaiting :
    (limit n : ℕ) (rs : List ℕ) (m : Machine)
    → IsWaiting limit n m
    → n + length rs ≤ limit
    → IsWaiting limit (n + length rs) (handle_all (failing_attempts rs) m)
unfolding failing_attempts handle_all
failing_attempts-IsWaiting limit n [] m w e = rw add-zero w
failing_attempts-IsWaiting limit n (r ∷ rs) m w e =
    let rest =
      failing_attempts-IsWaiting limit (n + 1) rs (handle_all (failing_attempt r) m)
        (failing_attempt-IsWaiting limit n r m (omega arith) w) (omega arith) in
    let sum : n + suc (length rs) ≡ n + 1 + length rs = omega arith in rw sum rest

-- A machine that waits for a reconnect with `n` attempts counted, of `limit` allowed: after every number of
-- attempts that fail, up to `limit - n`, it waits for the next one, with as many more counted; and at the
-- failure after these it gives up, so that it is `failed` and no timer is armed.
pub failing_attempts-failed :
    (limit n : ℕ) (before after : List ℕ) (r : ℕ) (m : Machine)
    → IsWaiting limit n m
    → n + length (before ++ after) ≡ limit
    → IsWaiting limit (n + length before) (handle_all (failing_attempts before) m)
      × ((handle_all (failing_attempts (before ++ after ++ r ∷ [])) m).state ≡ failed)
      × ((handle_all (failing_attempts (before ++ after ++ r ∷ [])) m).timer ≡ none)
failing_attempts-failed limit n before after r m w e =
    let split = length-append before after in
    let all = length-append (before ++ after) (r ∷ []) in
    let (state, timer) =
      failing_attempts_last limit n (before ++ after ++ r ∷ []) m w (omega (arith, split, e))
        (omega (arith, split, all, e)) in
    (failing_attempts-IsWaiting limit n before m w (omega (arith, split, e)), state, timer)
