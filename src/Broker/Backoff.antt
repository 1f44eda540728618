-- ===== src/Broker/Backoff.antt =====
-- The retry schedule.
use native.Mathlib.Nat.{min-eq_left}
use busd.Prelude.{ℕ, suc, ◌+◌, ◌-◌, ◌*◌, ◌^◌, ◌≤◌, ◌<◌, ◌≡◌, some, arith, leb, false}
use busd.Protocol.Types.{RetryPolicy}
use busd.Broker.Reliability.{retry_next, u64_max}

-- At a time that is a u64 the next attempt is not before now, at most a minute away, and at a u64.
pub retry_next_bounds :
    (backoff max_attempts now attempts t : ℕ)
    → now ≤ u64_max
    → retry_next (RetryPolicy.exponential backoff max_attempts) now attempts ≡ some t
    → (now ≤ t) × (t ≤ now + 60000) × (t ≤ u64_max)
unfolding retry_next
retry_next_bounds backoff max_attempts now attempts t h e = ground arith

-- While attempts are left, the retry after attempt n + 1 waits the initial backoff doubled n times,
-- n at most 16, where that is at most a minute and a minute from now is a u64.
pub retry_next_doubles :
    (backoff max_attempts now n : ℕ)
    → n ≤ 16
    → suc n < max_attempts
    → backoff * 2 ^ n ≤ 60000
    → now + 60000 ≤ u64_max
    → retry_next (RetryPolicy.exponential backoff max_attempts) now (suc n)
      ≡ some (now + backoff * 2 ^ n)
unfolding retry_next
retry_next_doubles backoff max_attempts now n h k fits room =
    let q : leb max_attempts (suc n) ≡ false = ground arith in
    let e : suc n - 1 ≡ n = omega arith in rw (q, e, min-eq_left h) (ground arith)
