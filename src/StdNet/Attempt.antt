-- ===== src/StdNet/Attempt.antt =====
-- The attempts that (*StdNetTransport).Call of transport_stdnet.go makes: one round of its loop, one
-- function for each of its branches.
use ggscale_go.Prelude.{
  ℕ, Bool, not, ◌&&◌, ◌||◌, String, List, [], ◌∷◌, ◌++◌, Option, none, some, ltb, leb, ◌==◌,
  if◌then◌else◌,
}
use ggscale_go.Prelude.Int.{ℤ, pos, ltb_ℤ}
use ggscale_go.Prelude.Text.{is_empty}
use ggscale_go.Errors.{Bytes, Duration, Sentinel, GoError, FailureKind, Error, NetFault, error_is}
use ggscale_go.Transport.{
  Request, Out, Result, ok, err, Context, ResponseMetadata, context_err, header_get,
}
use ggscale_go.StdNet.{
  StdNetTransport, LogEvent, HttpRequest, HttpResponse, Outcome, failed, responded, Net,
}
use ggscale_go.StdNet.Policy.{
  retry_defaults, retry_delay, retry_fits_deadline, request_is_replayable, retryable_status,
  request_not_sent, retryable_transport_error, classify_transport_error, classify_context_error,
  classify_build_error,
}
use ggscale_go.StdNet.Response.{
  max_body_bytes, read_response_body, first_non_empty, populate_response_metadata, parse_error,
}
use ggscale_go.StdNet.Wire.{build_request}

-- One attempt that reached the HTTP client.
pub record Attempt : Type 0 where
  pub request : HttpRequest
  pub outcome : Outcome

-- The variables of a call in progress: `attempts` and `lastStatus`, the response metadata, and what
-- the call has done so far, its attempts and its log events, each list with the oldest first.
pub record Run (W : Type 0) : Type 0 where
  pub world : W
  pub attempts : ℕ
  pub last_status : ℕ
  pub metadata : ResponseMetadata
  pub sent : List Attempt
  pub events : List LogEvent

-- What a round of the loop ends with: a return from Call, or the next round.
pub data Round (A W : Type 0) : Type 0 where
  return : Result A → Run W → Round A W
  continue : Run W → Round A W

-- wrapRequestError
abbrev pub wrap_request_error : {A : Type 0} → Request → String → FailureKind → GoError → Result A
wrap_request_error req request_id kind e = err (GoError.request kind req.operation_id request_id e)

module _ {W : Type 0} (net : Net W) (t : StdNetTransport) (ctx : Context) (req : Request)
    (request_id : String) where
  abbrev pub max_attempts : ℤ
  max_attempts = (retry_defaults t.retry_policy).attempts

  abbrev pub more_attempts : ℕ → Bool
  more_attempts attempt = ltb_ℤ (pos attempt) max_attempts

  abbrev pub delay_after : ℕ → W → Duration × W
  delay_after attempt w =
      let r = retry_defaults t.retry_policy in
      retry_delay net t.retry_policy attempt r.base r.maximum w

  -- logRetry
  abbrev pub retry_event : ℕ → String → Duration → ℕ → LogEvent
  retry_event attempt reason delay status = record {
    level = "debug";
    event = "http.retry";
    operation_id = req.operation_id;
    method = req.method;
    status = status;
    duration = pos 0;
    attempt = attempt;
    attempts = 0;
    request_id = request_id;
    retry_reason = reason;
    retry_delay = delay;
    error_kind = none;
  }

  -- sleepContext: a delay that is not positive does not look at the context.
  abbrev pub sleep_context : Duration → W → Option Sentinel × W
  sleep_context delay w = if ltb_ℤ (pos 0) delay then net.sleep ctx delay w else (none, w)

  abbrev pub slept : {A : Type 0} → String → Run W → Option Sentinel × W → Round A W
  slept id s (none, w) = continue (record s { world = w })
  slept id s (some c, w) =
      return (wrap_request_error req id (classify_context_error c) (GoError.sentinel c))
        (record s { world = w })

  -- The log line and the wait before the next round.
  unfoldable pub wait_and_retry :
      {A : Type 0} → ℕ → String → String → ℕ → Duration → Run W → Round A W
  wait_and_retry attempt id reason status delay s =
      slept id (record s { events = s.events ++ retry_event attempt reason delay status ∷ [] })
        (sleep_context delay s.world)

  -- The branch of the loop for an error of the HTTP client.
  unfoldable pub after_failure : {A : Type 0} → ℕ → NetFault → Run W → Round A W
  unfolding wait_and_retry
  after_failure attempt fault s = elim (context_err net.clock ctx s.world) [
    | some c ↦
        return (wrap_request_error req request_id (classify_context_error c) (GoError.sentinel c)) s
    | none ↦
        if more_attempts attempt
          && retryable_transport_error fault
          && (request_is_replayable req || request_not_sent fault)
        then (let (delay, w) = delay_after attempt s.world in
            wait_and_retry attempt request_id "transport" 0 delay (record s { world = w }))
        else return
            (wrap_request_error req request_id (classify_transport_error fault) (GoError.net fault))
            s
  ]

  module _ {A : Type 0} (out : Out A) where
    -- What a successful response returns.
    abbrev pub decoded : String → Bytes → Result A
    decoded id [] = ok out.zero_value
    decoded id (c ∷ cs) =
        if out.wanted
        then elim (out.unmarshal (c ∷ cs)) [
          | none ↦
              wrap_request_error req id FailureKind.decode (GoError.text "json: cannot unmarshal")
          | some a ↦ ok a
        ]
        else ok out.zero_value

    abbrev pub with_request_id : String → Error → Error
    with_request_id id e = if is_empty e.request_id then record e { request_id = id } else e

    abbrev pub longer : Duration → Duration → Duration
    longer a b = if ltb_ℤ b a then a else b

    -- An error response: whether to try again, and after how long.
    unfoldable pub after_api_error : ℕ → String → Error → Run W → Round A W
    unfolding wait_and_retry
    after_api_error attempt id e s =
        if more_attempts attempt
          && request_is_replayable req
          && retryable_status e.status
          && not (error_is e Sentinel.party_enqueue_disabled)
        then (let (delay, w) = delay_after attempt s.world in
            if ltb_ℤ (pos 0) e.retry_after
              && not (retry_fits_deadline net.clock ctx e.retry_after w)
            then return (err (GoError.api e)) (record s { world = w })
            else wait_and_retry attempt id (net.status_text e.status) e.status
                (longer e.retry_after delay) (record s { world = w }))
        else return (err (GoError.api e)) s

    abbrev pub is_success : ℕ → Bool
    is_success status =
        (leb 200 status && ltb status 300) || status == 304 && req.allow_not_modified

    abbrev pub body_failed : String → GoError → Run W → Round A W
    body_failed id e s = elim (context_err net.clock ctx s.world) [
      | some c ↦
          return (wrap_request_error req id (classify_context_error c) (GoError.sentinel c)) s
      | none ↦ return (wrap_request_error req id FailureKind.protocol e) s
    ]

    abbrev pub with_body : ℕ → HttpResponse → String → Run W → Result Bytes → Round A W
    with_body attempt resp id s (err e) = body_failed id e s
    with_body attempt resp id s (ok body) =
        if is_success resp.status_code
        then return (decoded id body) s
        else after_api_error attempt id
            (with_request_id id (parse_error net resp body (net.clock.now s.world))) s

    -- The branch of the loop for a response.
    unfoldable pub after_response : ℕ → HttpResponse → Run W → Round A W
    unfolding after_api_error
    after_response attempt resp s =
        let id = first_non_empty (header_get resp.header "X-Request-Id" ∷ request_id ∷ []) in
        with_body attempt resp id
          (record s {
            last_status = resp.status_code;
            metadata = populate_response_metadata resp id;
          })
          (read_response_body resp.content resp.breaks (max_body_bytes t))

    abbrev pub after_outcome : ℕ → Outcome → Run W → Round A W
    after_outcome attempt (failed fault) s = after_failure attempt fault s
    after_outcome attempt (responded resp) s = after_response attempt resp s

    -- What is sent is recorded with its outcome.
    abbrev pub dispatch : ℕ → HttpRequest → Outcome × W → Run W → Round A W
    dispatch attempt hr (o, w) s =
        after_outcome attempt o
          (record s { world = w; sent = s.sent ++ record { request = hr; outcome = o } ∷ [] })

    -- One round of the loop.
    unfoldable pub round : ℕ → Run W → Round A W
    unfolding after_failure after_response
    round attempt s = elim (build_request net t req request_id) [
      | err e ↦
          return (wrap_request_error req request_id (classify_build_error e) e)
            (record s { attempts = attempt })
      | ok hr ↦
          dispatch attempt hr (net.round_trip ctx hr s.world) (record s { attempts = attempt })
    ]
