-- ===== src/StdNet/Call/Writes.antt =====
-- What Call of transport_stdnet.go promises of the attempts of one request.
use ggscale_go.Prelude.{
  ℕ, zero, suc, ◌+◌, ◌≤◌, ◌<◌, ◌≡◌, refl, false, String, List, [], ◌∷◌, ◌++◌, some, arith, ◌⊎◌, inl,
  inr, length, length-append, All, All-append, if◌then◌else◌,
}
use ggscale_go.Prelude.Int.{pos_part}
use ggscale_go.Transport.{Request, Out, Context, Result, ok}
use ggscale_go.StdNet.{StdNetTransport, Net}
use ggscale_go.StdNet.Policy.{retry_defaults, request_is_replayable, with_call_timeout}
use ggscale_go.StdNet.Policy.Delay.{positive_or_pos}
use ggscale_go.StdNet.Wire.{build_request}
use ggscale_go.StdNet.Call.Rounds.{
  may_have_reached, state_of, Continues, rounding, refused, sends, round-Sends,
}
use ggscale_go.StdNet.Attempt.{Attempt, Run, Round, return, continue, round}
use ggscale_go.StdNet.Call.{rounds, call, chosen_id, start}

-- How many attempts may have reached the server.
abbrev pub reached : List Attempt → ℕ
reached [] = 0
reached (a ∷ l) = (if may_have_reached a.outcome then 1 else 0) + reached l

reached-append : (xs ys : List Attempt) → reached (xs ++ ys) ≡ reached xs + reached ys
reached-append [] ys = omega arith
reached-append (x ∷ xs) ys = omega (arith, reached-append xs ys)

Round-cases :
    {A W : Type 0} (x : Round A W)
    → ((r : Result A) × (s : Run W) × (x ≡ return r s)) ⊎ ((s : Run W) × (x ≡ continue s))
Round-cases (return r s) = inl (r, s, refl)
Round-cases (continue s) = inr (s, refl)

module _ {W : Type 0} (net : Net W) (t : StdNetTransport) (ctx : Context) (req : Request)
    (request_id : String) {A : Type 0} (out : Out A) where
  abbrev step : ℕ → Run W → Round A W
  step = rounding net t ctx req request_id out

  abbrev after : ℕ → Run W → Run W
  after n s = state_of net t ctx req request_id (step n s)

  abbrev GoesOn : ℕ → Run W → Type 0
  GoesOn n s = Continues net t ctx req request_id (step n s)

  abbrev run_loop : ℕ → ℕ → Run W → Result A × Run W
  run_loop = rounds net t ctx req request_id out

  -- The rule for the loop: what holds before every round, and what holds at the end.
  rounds_inv :
      (P : ℕ → Run W → Type 0) (Q : Run W → Type 0)
      → ((n : ℕ) (s : Run W) → P n s → Q s × Q (after n s))
      → ((n : ℕ) (s : Run W) → P n s → GoesOn n s → P (n + 1) (after n s))
      → (left n : ℕ) (s : Run W) → P n s
      → Q (run_loop left n s).1
  unfolding rounds
  rounds_inv P Q done keep zero n s p = (done n s p).0
  rounds_inv P Q done keep (suc left) n s p = elim (Round-cases (step n s)) [
    | inl (r, s', e) ↦ rw (e, rounds) (rw e at (done n s p).1)
    | inr (s', e) ↦
        rw (e, rounds) (rounds_inv P Q done keep left (n + 1) s' (rw e at (keep n s p (rw e tt))))
  ]

  -- The attempts that may have reached the server, where a request may not be repeated.
  after-reached :
      (n : ℕ) (s : Run W)
      → request_is_replayable req ≡ false
      → reached s.sent ≡ 0
      → (reached (after n s).sent ≤ 1) × (GoesOn n s → reached (after n s).sent ≡ 0)
  after-reached n s h z = elim (round-Sends net t ctx req request_id out n s) [
    | refused e stop ↦ (rw e (omega arith), λ g. absurd (stop g))
    | sends a b e c ↦
        let split = reached-append s.sent (a ∷ []) in
        (rw (e, split) (ground arith), λ g. rw (e, split) (ground (arith, c g)))
  ]

  -- The attempts are at most those of the policy, and all send the same request.
  abbrev limit : ℕ
  limit = pos_part (retry_defaults t.retry_policy).attempts

  abbrev pub IsBuilt : Attempt → Type 0
  IsBuilt a = build_request net t req request_id ≡ ok a.request

  GoesOn-lt : (n : ℕ) (s : Run W) → GoesOn n s → n < limit
  GoesOn-lt n s g = elim (round-Sends net t ctx req request_id out n s) [
    | refused e stop ↦ absurd (stop g)
    | sends a built e c ↦ ground (arith, c g)
  ]

  after-limit :
      (n : ℕ) (s : Run W)
      → (length s.sent < n) × (n ≤ limit) × All IsBuilt s.sent
      → (length (after n s).sent ≤ n) × All IsBuilt (after n s).sent
  after-limit n s (l, m, b) = elim (round-Sends net t ctx req request_id out n s) [
    | refused e stop ↦ (rw e (omega arith), rw e b)
    | sends a built e c ↦ (
      rw (e, length-append s.sent (a ∷ [])) (omega arith),
      rw e (All-append IsBuilt s.sent (a ∷ []) b (built, tt)),
    )
  ]

  rounds-reached :
      (left n : ℕ) (s : Run W)
      → request_is_replayable req ≡ false
      → reached s.sent ≡ 0
      → reached (run_loop left n s).1.sent ≤ 1
  rounds-reached left n s h =
      rounds_inv (λ n s. reached s.sent ≡ 0) (λ s. reached s.sent ≤ 1)
        (λ n s z. (omega arith, (after-reached n s h z).0)) (λ n s z g. (after-reached n s h z).1 g)
        left n s

  rounds-limit :
      (left n : ℕ) (s : Run W)
      → (length s.sent < n) × (n ≤ limit) × All IsBuilt s.sent
      → (length (run_loop left n s).1.sent ≤ limit) × All IsBuilt (run_loop left n s).1.sent
  rounds-limit =
      rounds_inv (λ n s. (length s.sent < n) × (n ≤ limit) × All IsBuilt s.sent)
        (λ s. (length s.sent ≤ limit) × All IsBuilt s.sent)
        (λ n s p.
          ((omega arith, p.2), (omega (arith, (after-limit n s p).0), (after-limit n s p).1)))
        (λ n s p g. (
          omega (arith, (after-limit n s p).0),
          omega (arith, GoesOn-lt n s g),
          (after-limit n s p).1,
        ))

  -- With a round for each attempt that the policy allows, the loop ends by a return.
  rounds-return :
      (left n : ℕ) (s : Run W)
      → n + left ≡ limit + 1
      → 0 < left
      → (k : ℕ) × (s0 : Run W) × (k ≤ limit)
        × (step k s0 ≡ return (run_loop left n s).0 (run_loop left n s).1)
  unfolding rounds
  rounds-return zero n s e h = absurd (omega arith)
  rounds-return (suc left) n s e h = elim (Round-cases (step n s)) [
    | inl (r, s', d) ↦ (n, s, omega arith, rw (d, rounds))
    | inr (s', d) ↦
        let room = GoesOn-lt n s (rw d tt) in
        let (k, s0, l, q) = rounds-return left (n + 1) s' (omega arith) (omega arith) in
        (k, s0, l, rw (d, rounds) q)
  ]

module _ {W : Type 0} (net : Net W) (t : StdNetTransport) {A : Type 0} (out : Out A)
    (parent : Context) (req : Request) (w : W) where
  -- The context, the request id and the world that the attempts of a call start with.
  abbrev pub id_of : String
  id_of = (chosen_id net t req w).0

  abbrev pub context_of : Context
  context_of = with_call_timeout net.clock parent t.call_timeout (chosen_id net t req w).1

  abbrev pub attempt_limit : ℕ
  attempt_limit = pos_part (retry_defaults t.retry_policy).attempts

  pub call-reached :
      request_is_replayable req ≡ false → reached (call net t out parent (some req) w).1.sent ≤ 1
  unfolding call
  call-reached h =
      rounds-reached net t context_of req id_of out attempt_limit 1
        (start (chosen_id net t req w).1) h refl

  limit_pos : 0 < attempt_limit
  unfolding retry_defaults
  limit_pos =
      let (n, e, h, _) = positive_or_pos t.retry_policy.max_attempts 3 (omega arith) in rw e h

  -- A call sends its request at most as often as the policy says, three times by default, and every
  -- attempt is the same request, under one X-Request-Id.
  pub call-limit :
      (length (call net t out parent (some req) w).1.sent ≤ attempt_limit)
      × All (IsBuilt net t context_of req id_of out) (call net t out parent (some req) w).1.sent
  unfolding call
  call-limit =
      rounds-limit net t context_of req id_of out attempt_limit 1 (start (chosen_id net t req w).1)
        (omega arith, omega (arith, limit_pos), tt)

  -- Every call ends by a return from one of the rounds that the policy allows: the error "retry loop
  -- exhausted" behind the loop is never reached.
  pub call-return :
      (k : ℕ) × (s s' : Run W) × (k ≤ attempt_limit)
      × (round net t context_of req id_of out k s
          ≡ return (call net t out parent (some req) w).0 s')
  unfolding call
  call-return =
      let first = start (chosen_id net t req w).1 in
      let (k, s, l, e) =
        rounds-return net t context_of req id_of out attempt_limit 1 first (omega arith)
          limit_pos in
      (k, s, (rounds net t context_of req id_of out attempt_limit 1 first).1, l, e)
