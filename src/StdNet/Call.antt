-- ===== src/StdNet/Call.antt =====
-- (*StdNetTransport).Call of transport_stdnet.go: the loop over the attempts of one request.
pub mod Rounds
pub mod Writes
use ggscale_go.Prelude.{
  ℕ, zero, suc, ◌+◌, ◌-◌, Bool, true, false, not, ◌&&◌, ◌||◌, String, List, [], ◌∷◌, ◌++◌, Option,
  none, some, ltb, leb, ◌==◌, if◌then◌else◌,
}
use ggscale_go.Prelude.Int.{ℤ, pos, pos_part, ltb_ℤ, sub_ℕ}
use ggscale_go.Prelude.Text.{is_empty}
use ggscale_go.Errors.{Bytes, Duration, Sentinel, GoError, FailureKind, Error, NetFault, error_is}
use ggscale_go.Transport.{
  Json, Request, Out, Answer, Result, ok, err, Context, ResponseMetadata, no_metadata, context_err,
  header_get, Transport,
}
use ggscale_go.StdNet.{
  StdNetTransport, RetryPolicy, LogEvent, HttpRequest, HttpResponse, Outcome, failed, responded,
  Net,
}
use ggscale_go.StdNet.Policy.{
  Retries, retry_defaults, retry_delay, with_call_timeout, retry_fits_deadline,
  request_is_replayable, retryable_status, request_not_sent, retryable_transport_error,
  classify_transport_error, classify_context_error, classify_build_error, failure_kind,
}
use ggscale_go.StdNet.Response.{
  max_body_bytes, read_response_body, first_non_empty, populate_response_metadata, parse_error,
}
use ggscale_go.StdNet.Wire.{build_request}
use ggscale_go.StdNet.Attempt.{
  Attempt, Round, Run, after_api_error, after_failure, after_outcome, after_response, body_failed,
  continue, decoded, delay_after, dispatch, is_success, longer, max_attempts, more_attempts,
  retry_event, return, round, sleep_context, slept, wait_and_retry, with_body, with_request_id,
  wrap_request_error,
}

module _ {W : Type 0} (net : Net W) (t : StdNetTransport) (ctx : Context) (req : Request)
    (request_id : String) where
  module _ {A : Type 0} (out : Out A) where
    abbrev exhausted : Result A
    exhausted =
        wrap_request_error req request_id FailureKind.protocol (GoError.text "retry loop exhausted")

    -- The loop, with the number of rounds that are left.
    unfoldable pub rounds : ℕ → ℕ → Run W → Result A × Run W
    unfolding round
    rounds zero attempt s = (exhausted, s)
    rounds (suc left) attempt s = elim (round net t ctx req request_id out attempt s) [
      | return r s' ↦ (r, s')
      | continue s' ↦ rounds left (attempt + 1) s'
    ]

  -- The event that the deferred function logs when Call returns.
  abbrev complete_event : {A : Type 0} → Result A → Run W → W → LogEvent
  complete_event r s started = record {
    level = "info";
    event = "http.complete";
    operation_id = req.operation_id;
    method = req.method;
    status = s.last_status;
    duration = sub_ℕ (net.clock.now s.world) (net.clock.now started);
    attempt = 0;
    attempts = s.attempts;
    request_id = request_id;
    retry_reason = "";
    retry_delay = pos 0;
    error_kind = failure_kind (elim r [ ok a ↦ none | err e ↦ some e ]);
  }

abbrev start : {W : Type 0} → W → Run W
start w = record {
  world = w;
  attempts = 0;
  last_status = 0;
  metadata = no_metadata;
  sent = [];
  events = [];
}

module _ {W : Type 0} (net : Net W) (t : StdNetTransport) where
  abbrev finish :
      {A : Type 0} → Context → Request → String → W → Result A × Run W → Result A × Run W
  finish ctx req id started (r, s) =
      (r, record s { events = s.events ++ complete_event net t ctx req id r s started ∷ [] })

  abbrev chosen_id : Request → W → String × W
  chosen_id req w = if is_empty req.request_id then net.fresh_id w else (req.request_id, w)

  -- Call, with the attempts and log events of the call
  unfoldable pub call : {A : Type 0} → Out A → Context → Option Request → W → Result A × Run W
  unfolding rounds with_call_timeout retry_defaults failure_kind
  call out parent none w =
      (err (GoError.request FailureKind.protocol "" "" (GoError.text "nil request")), start w)
  call out parent (some req) w =
      let (id, w') = chosen_id req w in
      let ctx = with_call_timeout net.clock parent t.call_timeout w' in
      finish ctx req id w' (
        rounds net t ctx req id out (pos_part (retry_defaults t.retry_policy).attempts) 1
          (start w'))

  abbrev answer : {A : Type 0} → Result A × Run W → Answer A W
  answer (r, s) = record { result = r; metadata = s.metadata; world = s.world }

  -- The Transport that StdNetTransport implements.
  abbrev pub as_transport : Transport W
  as_transport = record { call = λ A out ctx req w. answer (call out ctx (some req) w) }
