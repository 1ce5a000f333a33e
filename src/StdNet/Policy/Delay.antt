-- ===== src/StdNet/Policy/Delay.antt =====
-- The delays that retryDelay of transport_stdnet.go and reconnectDelay of realtime.go choose.
use native.Mathlib.Nat.{pow-suc}
use ggscale_go.Prelude.{
  ℕ, zero, suc, ◌+◌, ◌-◌, ◌*◌, ◌^◌, ◌≤◌, ◌<◌, min, ◌≡◌, refl, ◌⊎◌, arith, inl, inr, Option, none,
  some, Option-cases,
}
use ggscale_go.Prelude.Int.{ℤ, pos, negsuc, pos_part, mul64_pos, add64_pos, quot64, ◌≤ℤ◌}
use ggscale_go.Errors.{Duration}
use ggscale_go.StdNet.{Net, RetryPolicy}
use ggscale_go.StdNet.Policy.{
  retry_defaults, positive_or, backoff_cap, at_most, clamp_jitter, full_jitter, jittered,
  retry_delay,
}

pow_pos : (n : ℕ) → 0 < 2 ^ n
pow_pos zero = omega arith
pow_pos (suc n) = omega (arith, pow_pos n, pow-suc 2 n)

le-mul-pow : (b n : ℕ) → b ≤ b * 2 ^ n
le-mul-pow b n = grind (arith, pow_pos n)

double_pow : (b n : ℕ) → b * 2 ^ suc n ≡ b * 2 * 2 ^ n
double_pow b n = grind (arith, pow-suc 2 n)

-- The doubling loop gives the base times a power of two, held to the maximum; within int64 it does
-- not overflow, whatever the number of rounds.
pub backoff_cap-eq-min :
    (n b m : ℕ)
    → 0 < b
    → m < 2 ^ 63
    → at_most (pos m) (backoff_cap n (pos m) (pos b)) ≡ pos (min (b * 2 ^ n) m)
unfolding backoff_cap quot64
backoff_cap-eq-min zero b m hb hm = ground arith
backoff_cap-eq-min (suc n) b m hb hm =
    ground
      (arith, mul64_pos b 2, backoff_cap-eq-min n (b * 2) m, double_pow b n, le-mul-pow (b * 2) n)

abbrev pub Within : ℕ → Duration → Type 0
Within cap d = (pos 0 ≤ℤ d) × (d ≤ℤ pos cap)

clamp_jitter-Within : (cap : ℕ) (d : Duration) → Within cap (clamp_jitter (pos cap) d)
unfolding clamp_jitter
clamp_jitter-Within cap d = ground arith

-- crypto/rand.Int of a positive bound is below it.
abbrev pub DrawsWithin : {W : Type 0} → Net W → Type 0
DrawsWithin {W} net =
    (bound : ℕ) (w : W) (n : ℕ) → 0 < bound → (net.draw (pos bound) w).0 ≡ some n → n < bound

module _ {W : Type 0} (net : Net W) (draws : DrawsWithin net) where
  full_jitter-Within :
      (cap : ℕ) (w : W) → cap + 1 < 2 ^ 63 → Within cap (full_jitter net (pos cap) w).0
  unfolding full_jitter quot64
  full_jitter-Within cap w h =
      let bound = add64_pos cap 1 h in
      elim (Option-cases (net.draw (pos (cap + 1)) w).0) [
        | inl e ↦ rw bound (ground (arith, e))
        | inr (n, e) ↦ rw bound (ground (arith, e, draws (cap + 1) w n (omega arith) e))
      ]

  pub jittered-Within :
      (j : Option (Duration → Duration)) (cap : ℕ) (w : W)
      → cap + 1 < 2 ^ 63
      → Within cap (jittered net j (pos cap) w).0
  jittered-Within none cap w h = full_jitter-Within cap w h
  jittered-Within (some jitter) cap w h = clamp_jitter-Within cap (jitter (pos cap))

  delay_at :
      (p : RetryPolicy) (attempt b m : ℕ) (w : W)
      → 0 < b
      → m + 1 < 2 ^ 63
      → Within (min (b * 2 ^ (attempt - 1)) m) (retry_delay net p attempt (pos b) (pos m) w).0
  unfolding retry_delay
  delay_at p attempt b m w hb hm =
      rw (backoff_cap-eq-min (attempt - 1) b m hb (omega (arith, hm)))
        (jittered-Within p.jitter (min (b * 2 ^ (attempt - 1)) m) w (omega (arith, hm)))

-- What is not positive gives way to a positive default.
pub positive_or_pos :
    (n : ℤ) (k : ℕ)
    → 0 < k
    → (b : ℕ) × (positive_or n (pos k) ≡ pos b) × (0 < b) × ((b ≡ k) ⊎ (n ≡ pos b))
positive_or_pos (negsuc n) k h = (k, ground arith, h, inl refl)
positive_or_pos (pos zero) k h = (k, ground arith, h, inl refl)
positive_or_pos (pos (suc n)) k h = (suc n, ground arith, omega arith, inr refl)

-- What an attempt may wait at most under a policy.
abbrev pub delay_limit : RetryPolicy → ℕ → ℕ
unfolding retry_defaults
delay_limit p attempt =
    let r = retry_defaults p in min (pos_part r.base * 2 ^ (attempt - 1)) (pos_part r.maximum)

max_in_range :
    (d : Duration) (m : ℕ)
    → d ≤ℤ pos (2 ^ 63 - 2)
    → (m ≡ 10_000_000_000) ⊎ (d ≡ pos m)
    → m + 1 < 2 ^ 63
max_in_range d m h from = ground arith

-- The delay before the next attempt lies between 0 and the base delay doubled once for each attempt
-- made before, held to the policy's maximum. Where base or maximum are not positive, the defaults
-- count. It is so for every maximum below the largest int64, every attempt, and any jitter of the
-- caller's, or, where there is none, a source of randomness that draws below a positive bound.
pub retry_delay-Within :
    {W : Type 0} (net : Net W) (p : RetryPolicy) (attempt : ℕ) (w : W)
    → DrawsWithin net
    → p.max_delay ≤ℤ pos (2 ^ 63 - 2)
    → Within
        (delay_limit p attempt)
        (retry_delay net p attempt (retry_defaults p).base (retry_defaults p).maximum w).0
unfolding retry_delay retry_defaults
retry_delay-Within net p attempt w draws h =
    let (b, eb, hb, _) = positive_or_pos p.base_delay 250_000_000 (omega arith) in
    let (m, em, hm, from) = positive_or_pos p.max_delay 10_000_000_000 (omega arith) in
    rw (eb, em) (delay_at net draws p attempt b m w hb (max_in_range p.max_delay m h from))
