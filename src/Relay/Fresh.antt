-- ===== src/Relay/Fresh.antt =====
-- That KeepFresh of relay.go neither spins nor gives up early.
use ggscale_go.Prelude.{
  ℕ, zero, suc, ◌+◌, ◌≤◌, ◌≡◌, refl, true, false, [], ◌∷◌, ◌++◌, Option, none, some, arith, length,
  length-append, All, All-append, subst, List,
}
use ggscale_go.Prelude.Int.{pos, ltb_ℤ}
use ggscale_go.Errors.{Duration, Sentinel, GoError}
use ggscale_go.Transport.{Result, ok, err, Out, Context, context_err}
use ggscale_go.Client.{Env, Client}
use ggscale_go.Relay.{
  Credentials, RelayOption, Keeping, Kept, again, stopped, Surroundings, keep_round, keep_rounds,
  keep_fresh, relay_retryable, relay_retry_min, fresh_wait, retry_wait, next_backoff,
  get_credentials, paused, pause_for, after_round, deliver, answered,
}
use ggscale_go.Relay.Waits.{InRange, next_backoff-InRange, fresh_wait_positive, retry_wait_positive}

abbrev pub Positive : Duration → Type 0
Positive d = ltb_ℤ (pos 0) d ≡ true

-- What holds after `n` rounds: each has waited once, for a positive time, unless the last one stopped
-- the loop, by an error that cannot pass.
abbrev pub Keeps : {W : Type 0} → ℕ → Kept W → Type 0
Keeps n (again s) = (length s.waits ≡ n) × All Positive s.waits × InRange s.backoff
Keeps n (stopped e s) = (length s.waits ≤ n) × All Positive s.waits × (relay_retryable e ≡ false)

-- A state before a round that follows `n` others.
abbrev Before : {W : Type 0} → ℕ → Keeping W → Type 0
Before n s = (length s.waits ≡ n) × All Positive s.waits × InRange s.backoff

module _ {W : Type 0} (env : Env W) (out : Out Credentials) (around : Surroundings W)
    (ctx : Context) (o : List RelayOption) where
  sentinel-stays : (x : Sentinel) → relay_retryable (GoError.sentinel x) ≡ false
  unfolding relay_retryable
  sentinel-stays x = refl

  paused-Keeps :
      (n : ℕ) (s : Keeping W) (p : Option Sentinel × Client W)
      → Before n s
      → Keeps n (paused env out around ctx o s p)
  paused-Keeps n s (none, c) h = h
  paused-Keeps n s (some x, c) h = (omega (arith, h.0), h.1, sentinel-stays x)

  pause-Keeps :
      (n : ℕ) (d : Duration) (s : Keeping W)
      → Positive d
      → Before n s
      → Keeps (n + 1) (pause_for env out around ctx o d s)
  pause-Keeps n d s p h =
      paused-Keeps (n + 1) (record s { waits = s.waits ++ d ∷ [] }) (around.pause ctx d s.client)
        (
          omega (arith, length-append s.waits (d ∷ []), h.0),
          All-append Positive s.waits (d ∷ []) h.1 (p, tt),
          h.2,
        )

  -- The end of the context stops the loop.
  ended-Keeps :
      (n : ℕ) (s : Keeping W) (k : Keeping W → Kept W) (x : Option Sentinel)
      → Before n s
      → Keeps (n + 1) (k s)
      → Keeps (n + 1) (elim x [ some y ↦ stopped (GoError.sentinel y) s | none ↦ k s ])
  ended-Keeps n s k none h r = r
  ended-Keeps n s k (some y) h r = (omega (arith, h.0), h.1, sentinel-stays y)

  deliver-Keeps :
      (n : ℕ) (creds : Credentials) (s : Keeping W)
      → Before n s
      → Keeps (n + 1) (deliver env out around ctx o creds s)
  deliver-Keeps n creds s h =
      let s' : Keeping W = record s {
        given = s.given ++ creds ∷ [];
        client = around.on_credentials creds s.client;
      } in
      ended-Keeps n s'
        (λ t.
          pause_for env out around ctx o (fresh_wait creds.ttl)
            (record t { backoff = relay_retry_min }))
        (context_err env.clock ctx s'.client.world) h
        (pause-Keeps n (fresh_wait creds.ttl) (record s' { backoff = relay_retry_min })
          (fresh_wait_positive creds.ttl) (h.0, h.1, (omega arith, omega arith)))

  answered-Keeps :
      (n : ℕ) (r : Result Credentials) (s : Keeping W)
      → Before n s
      → Keeps (n + 1) (answered env out around ctx o r s)
  answered-Keeps n (ok creds) s h = deliver-Keeps n creds s h
  answered-Keeps n (err e) s h =
      let p =
        pause-Keeps n (retry_wait s.backoff e) (record s { backoff = next_backoff s.backoff })
          (retry_wait_positive s.backoff e h.2) (h.0, h.1, next_backoff-InRange s.backoff h.2) in
      ground (arith, p, h)

  round-Keeps :
      (n : ℕ) (s : Keeping W) → Before n s → Keeps (n + 1) (keep_round env out around ctx o s)
  unfolding keep_round
  round-Keeps n s h =
      let a = get_credentials env out ctx o s.client in
      let s' : Keeping W = record s { client = a.1 } in
      ended-Keeps n s' (answered env out around ctx o a.0)
        (context_err env.clock ctx s'.client.world) h (answered-Keeps n a.0 s' h)

  next-Keeps :
      (n m : ℕ) (k : Keeping W → Kept W) (a : Kept W)
      → Keeps (n + 1) a
      → ((s : Keeping W) → Before (n + 1) s → Keeps (n + suc m) (k s))
      → Keeps (n + suc m) (after_round k a)
  next-Keeps n m k (again s) h r = r s h
  next-Keeps n m k (stopped e s) h r = (omega (arith, h.0), h.1, h.2)

  rounds-Keeps :
      (n m : ℕ) (s : Keeping W) → Before n s → Keeps (n + m) (keep_rounds env out around ctx o m s)
  unfolding keep_rounds
  rounds-Keeps n zero s h = (omega (arith, h.0), h.1, h.2)
  rounds-Keeps n (suc m) s h =
      next-Keeps n m (keep_rounds env out around ctx o m) (keep_round env out around ctx o s)
        (round-Keeps n s h)
        (λ t k.
          subst (λ i. Keeps i (keep_rounds env out around ctx o m t)) (omega arith)
            (rounds-Keeps (n + 1) m t k))

  -- Whatever the server and the callback do, KeepFresh waits once in each round, for a positive time,
  -- and its backoff stays between a second and half a minute. It returns within its first n rounds
  -- only by an error that relayRetryable refuses, such as the end of its context.
  pub Keeps-keep_fresh : (n : ℕ) (c : Client W) → Keeps n (keep_fresh env out around ctx o n c)
  unfolding keep_fresh
  Keeps-keep_fresh n c =
      subst (λ i. Keeps i (keep_fresh env out around ctx o n c)) (omega arith)
        (rounds-Keeps 0 n (record { backoff = relay_retry_min; waits = []; given = []; client = c })
          (refl, tt, (omega arith, omega arith)))
