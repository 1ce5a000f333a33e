-- ===== src/Realtime/Delay.antt =====
-- The delay that reconnectDelay of realtime.go chooses.
use ggscale_go.Prelude.{
  ℕ, ◌+◌, ◌-◌, arith, ◌*◌, ◌^◌, ◌<◌, min, ◌≡◌, ltb, if◌then◌else◌, inl, inr, Bool-cases,
}
use ggscale_go.Prelude.Int.{pos}
use ggscale_go.StdNet.{Net}
use ggscale_go.StdNet.Policy.Delay.{Within, DrawsWithin, backoff_cap-eq-min, jittered-Within}
use ggscale_go.Client.New.{ReconnectPolicy}
use ggscale_go.Realtime.{reconnect_delay}

-- Under a policy of positive delays, and a random source that draws within its bound, the first
-- attempt to reconnect waits at most FirstDelayMax, and a later one at most the base delay doubled
-- for each attempt after the second, held to MaxDelay, for delays below the largest int64 and
-- whatever the jitter is.
pub reconnect_delay-Within :
    {W : Type 0} (net : Net W)
    → DrawsWithin net
    → (p : ReconnectPolicy) (attempt f b m : ℕ) (w : W) → p.first_delay_max ≡ pos f
    → p.base_delay ≡ pos b
    → p.max_delay ≡ pos m
    → 0 < b
    → m + 1 < 2 ^ 63
    → f + 1 < 2 ^ 63
    → Within
        (if ltb 1 attempt then min (b * 2 ^ (attempt - 2)) m else f)
        (reconnect_delay net p attempt w).0
unfolding reconnect_delay
reconnect_delay-Within net draws p attempt f b m w hf hb hm pos_b small first_small =
    elim (Bool-cases (ltb 1 attempt)) [
      | inl later ↦
          rw (later, hb, hm, backoff_cap-eq-min (attempt - 2) b m pos_b (omega (arith, small)))
            (jittered-Within net draws p.jitter (min (b * 2 ^ (attempt - 2)) m) w
              (omega (arith, small)))
      | inr first ↦ rw (first, hf) (jittered-Within net draws p.jitter f w first_small)
    ]
