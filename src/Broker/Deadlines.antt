-- ===== src/Broker/Deadlines.antt =====
-- What `tick` does to each retained delivery.
use busd.Prelude.{
  ℕ, ◌+◌, ◌-◌, ◌*◌, ◌^◌, ◌%◌, min, Bool, false, Option, none, some, leb, if◌then◌else◌,
}
use busd.Order.{bytes_order}
use busd.Map.{Map}
use busd.Protocol.Types.{RetryPolicy}
use busd.Broker.Types.{Broker, PendingDelivery}
use busd.Broker.Tick.{retry_of}

-- When the attempt after `attempts` others is due: at once after the last, and otherwise after the
-- initial backoff, doubled once for each attempt after the first but at most 16 times, and at most a
-- minute from now.
abbrev pub retry_time : ℕ → ℕ → ℕ → ℕ → ℕ
retry_time now initial_backoff_ms max_attempts attempts =
    if leb max_attempts attempts
    then now
    else min (now + min (initial_backoff_ms * 2 ^ min (attempts - 1) 16) 60000) (2 ^ 64 - 1)

-- The delivery with one attempt more. Attempts are counted in a byte.
abbrev pub tried_again : ℕ → ℕ → ℕ → PendingDelivery → PendingDelivery
tried_again now initial_backoff_ms max_attempts d =
    let attempts = (d.attempts + 1) % 256 in
    record d {
      attempts = attempts;
      next_retry_ms = some (retry_time now initial_backoff_ms max_attempts attempts);
    }

-- The delivery after the retry of a due delivery, if any is left.
abbrev pub after_retry : ℕ → PendingDelivery → RetryPolicy → Option PendingDelivery
after_retry now d RetryPolicy.none = some d
after_retry now d (RetryPolicy.exponential initial_backoff_ms max_attempts) =
    if leb max_attempts d.attempts
    then none
    else some (tried_again now initial_backoff_ms max_attempts d)

-- The delivery is due for a retry at `now`.
abbrev pub is_due : ℕ → Option ℕ → Bool
is_due now none = false
is_due now (some t) = leb t now

-- What one delivery becomes by a tick at `now`, whatever the other deliveries are.
abbrev pub after_tick : ℕ → Option PendingDelivery → Option PendingDelivery
after_tick now none = none
after_tick now (some d) =
    if leb d.deadline_ms now
    then none
    else if is_due now d.next_retry_ms
    then after_retry now d (retry_of d.message)
    else some d
