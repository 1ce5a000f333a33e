-- ===== src/Relay/Waits.antt =====
-- How long KeepFresh of relay.go waits.
use ggscale_go.Prelude.{ℕ, ◌*◌, ◌<◌, ◌≤◌, ◌^◌, ◌≡◌, true, arith}
use ggscale_go.Prelude.Int.{ℤ, pos, negsuc, ltb_ℤ, mul64_pos, quot64, ◌≤ℤ◌}
use ggscale_go.Errors.{Duration, GoError}
use ggscale_go.StdNet.Policy.{second}
use ggscale_go.Relay.{fresh_wait, retry_wait, next_backoff, relay_retry_min, relay_retry_max}

-- A TTL of two seconds or more that does not overflow is waited for at exactly 80% of it: for at
-- least a second, and for less than the TTL, so that new credentials are asked for before the old ones expire.
pub fresh_wait-early :
    (ttl : ℕ)
    → 2 ≤ ttl
    → ttl * 8_000_000_000 < 2 ^ 63
    → (w : ℕ) × (fresh_wait (pos ttl) ≡ pos w)
      × (w * 10 ≡ ttl * second * 8)
      × (second ≤ w)
      × (w < ttl * second)
unfolding fresh_wait quot64
fresh_wait-early ttl h k =
    let a = mul64_pos ttl second (omega arith) in
    let b = mul64_pos (ttl * second) 8 (omega arith) in
    rw (a, b) (ttl * 800_000_000, ground arith, omega arith, omega arith, omega arith)

-- Between a second and half a minute
abbrev pub InRange : Duration → Type 0
InRange b = (relay_retry_min ≤ℤ b) × (b ≤ℤ relay_retry_max)

pub next_backoff-InRange : (b : Duration) → InRange b → InRange (next_backoff b)
unfolding next_backoff
next_backoff-InRange (pos b) h = let m = mul64_pos b 2 (omega (arith, h.1)) in ground (arith, m, h)
next_backoff-InRange (negsuc b) h = ground (arith, h)

pub fresh_wait_positive : (ttl : ℤ) → ltb_ℤ (pos 0) (fresh_wait ttl) ≡ true
unfolding fresh_wait
fresh_wait_positive ttl = ground arith

pub retry_wait_positive :
    (b : Duration) (e : GoError) → InRange b → ltb_ℤ (pos 0) (retry_wait b e) ≡ true
unfolding retry_wait
retry_wait_positive b e h = ground (arith, h)
