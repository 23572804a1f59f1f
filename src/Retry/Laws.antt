-- ===== src/Retry/Laws.antt =====
-- The backoff of RetryManager.ts.
use native.Mathlib.Nat.{pow-suc}
use native.Mathlib.Numerals.{towards_suc}
use queueway.Retry.{RetryManager, get_retry_delay}
use queueway.Base.{ap, arith, ◌^◌, ◌*◌, min, ◌≡◌, ◌+◌, ◌≤◌, ℕ}

-- The retry delay never falls from one attempt to the next, doubles until it meets the limit, and
-- never passes the limit.
get_retry_delay_grows :
    (m : RetryManager) (k : ℕ)
    → (get_retry_delay m k ≤ get_retry_delay m (k + 1))
      × (get_retry_delay m (k + 1) ≡ min (2 * get_retry_delay m k) m.max_delay)
      × (get_retry_delay m k ≤ m.max_delay)
unfolding get_retry_delay
get_retry_delay_grows m k =
    let e : 2 ^ (k + 1) ≡ 2 ^ k * 2 = simp towards_suc (pow-suc 2 k) in
    let d : m.base_delay * 2 ^ (k + 1) ≡ 2 * (m.base_delay * 2 ^ k) =
      omega (arith, ap (λ (t : ℕ). m.base_delay * t) e) in
    omega (arith, d)
