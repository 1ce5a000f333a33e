-- ===== src/StdNet/Call/Rounds.antt =====
-- What one round of Call in transport_stdnet.go does to the list of attempts.
use ggscale_go.Prelude.{
  ℕ, ◌≡◌, refl, Bool, true, false, not, String, ◌∙◌, [], ◌∷◌, ◌++◌, arith, ◌⊎◌, inl, inr, Option,
  none, some,
}
use ggscale_go.Prelude.Text.{str_eq}
use ggscale_go.Errors.{GoError, Error, NetFault}
use ggscale_go.Transport.{Request, Out, Context, Result, ok, err}
use ggscale_go.StdNet.{StdNetTransport, HttpRequest, HttpResponse, Outcome, failed, responded, Net}
use ggscale_go.StdNet.Policy.{request_is_replayable, request_not_sent}
use ggscale_go.StdNet.Wire.{build_request}
use ggscale_go.StdNet.Attempt.{
  Attempt, Run, Round, return, continue, more_attempts, after_failure, after_api_error,
  after_response, after_outcome, round,
}

-- The documented operation of the *net.OpError of a connection that was not opened.
abbrev is_dial : Option String → Bool
is_dial none = false
is_dial (some op) = str_eq op "dial"

-- Whether an attempt may have reached the server: it may after any answer, and after any error but one
-- of opening the connection.
abbrev pub may_have_reached : Outcome → Bool
may_have_reached (failed f) = not (is_dial f.op_error)
may_have_reached (responded r) = true

module _ {W : Type 0} (net : Net W) (t : StdNetTransport) (ctx : Context) (req : Request)
    (request_id : String) where
  abbrev more : ℕ → Bool
  more = more_attempts net t ctx req request_id

  -- What a round leaves behind, whether it returns or goes on.
  abbrev pub state_of : {A : Type 0} → Round A W → Run W
  state_of (return r s) = s
  state_of (continue s) = s

  abbrev pub Continues : {A : Type 0} → Round A W → Type 0
  Continues (return r s) = ⊥
  Continues (continue s) = Unit

  module _ {A : Type 0} (out : Out A) where
    abbrev failing : ℕ → NetFault → Run W → Round A W
    failing = after_failure net t ctx req request_id

    sent-after_failure :
        (attempt : ℕ) (fault : NetFault) (s : Run W)
        → (state_of (failing attempt fault s)).sent ≡ s.sent
    unfolding after_failure
    sent-after_failure attempt fault s = ground arith

    after_failure-Continues :
        (attempt : ℕ) (fault : NetFault) (s : Run W)
        → Continues (failing attempt fault s)
        → (more attempt ≡ true)
          × ((request_is_replayable req ≡ true) ⊎ (is_dial fault.op_error ≡ true))
    unfolding after_failure request_not_sent
    after_failure-Continues attempt fault s c = ground arith

    abbrev erring : ℕ → String → Error → Run W → Round A W
    erring = after_api_error net t ctx req request_id out

    sent-after_api_error :
        (attempt : ℕ) (id : String) (e : Error) (s : Run W)
        → (state_of (erring attempt id e s)).sent ≡ s.sent
    unfolding after_api_error
    sent-after_api_error attempt id e s = ground arith

    after_api_error-Continues :
        (attempt : ℕ) (id : String) (e : Error) (s : Run W)
        → Continues (erring attempt id e s)
        → (more attempt ≡ true) × (request_is_replayable req ≡ true)
    unfolding after_api_error
    after_api_error-Continues attempt id e s c = ground arith

    abbrev responding : ℕ → HttpResponse → Run W → Round A W
    responding = after_response net t ctx req request_id out

    sent-after_response :
        (attempt : ℕ) (resp : HttpResponse) (s : Run W)
        → (state_of (responding attempt resp s)).sent ≡ s.sent
    unfolding after_response
    sent-after_response attempt resp s = ground arith

    after_response-Continues :
        (attempt : ℕ) (resp : HttpResponse) (s : Run W)
        → Continues (responding attempt resp s)
        → (more attempt ≡ true) × (request_is_replayable req ≡ true)
    unfolding after_response
    after_response-Continues attempt resp s c = ground arith

    abbrev pub rounding : ℕ → Run W → Round A W
    rounding = round net t ctx req request_id out

    -- A round sends at most one attempt, the request that buildRequest makes, and nothing else; it
    -- goes on only where the policy has attempts left and the request may be sent again.
    pub data Sends (attempt : ℕ) (s : Run W) : Type 0 where
      refused :
          (state_of (rounding attempt s)).sent ≡ s.sent
          → (Continues (rounding attempt s) → ⊥)
          → Sends attempt s
      sends :
          (a : Attempt)
          → build_request net t req request_id ≡ ok a.request
          → (state_of (rounding attempt s)).sent ≡ s.sent ++ a ∷ []
          → (Continues (rounding attempt s)
              → (more attempt ≡ true)
                × ((request_is_replayable req ≡ true) ⊎ (may_have_reached a.outcome ≡ false)))
          → Sends attempt s

    Result-cases :
        {B : Type 0} (r : Result B) → ((e : GoError) × (r ≡ err e)) ⊎ ((b : B) × (r ≡ ok b))
    Result-cases (err e) = inl (e, refl)
    Result-cases (ok b) = inr (b, refl)

    dispatch-Sends :
        (attempt : ℕ) (s s1 : Run W) (hr : HttpRequest) (o : Outcome)
        → build_request net t req request_id ≡ ok hr
        → s1.sent ≡ s.sent ++ record { request = hr; outcome = o } ∷ []
        → rounding attempt s ≡ after_outcome net t ctx req request_id out attempt o s1
        → Sends attempt s
    dispatch-Sends attempt s s1 hr (failed fault) b e r =
        sends (record { request = hr; outcome = failed fault }) b
          (rw r (sent-after_failure attempt fault s1 ∙ e))
          λ c. ground (arith, after_failure-Continues attempt fault s1 (rw r at c))
    dispatch-Sends attempt s s1 hr (responded resp) b e r =
        sends (record { request = hr; outcome = responded resp }) b
          (rw r (sent-after_response attempt resp s1 ∙ e))
          λ c. ground (arith, after_response-Continues attempt resp s1 (rw r at c))

    pub round-Sends : (attempt : ℕ) (s : Run W) → Sends attempt s
    unfolding round
    round-Sends attempt s = elim (Result-cases (build_request net t req request_id)) [
      | inl (e, b) ↦ refused (rw (b, round)) (λ c. rw (b, round) at c)
      | inr (hr, b) ↦
          let (o, w) = net.round_trip ctx hr s.world in
          dispatch-Sends attempt s
            (record s {
              world = w;
              attempts = attempt;
              sent = s.sent ++ record { request = hr; outcome = o } ∷ [];
            })
            hr o b refl (rw (b, round))
    ]
