-- ===== src/StdNet/Policy.antt =====
-- How transport_stdnet.go decides whether and when to try again.
pub mod Delay
use ggscale_go.Prelude.{
  ℕ, zero, suc, ◌-◌, ◌*◌, Bool, true, false, ◌&&◌, ◌||◌, not, String, Option, none, some, ◌==◌,
  if◌then◌else◌,
}
use ggscale_go.Prelude.Int.{ℤ, pos, pos_part, ltb_ℤ, leb_ℤ, mul64, add64, quot64}
use ggscale_go.Prelude.Text.{str_eq, is_empty}
use ggscale_go.Errors.{
  Duration, NetFault, FailureKind, Sentinel, GoError, errors_is, as_request, index,
}
use ggscale_go.Transport.{Request, Context, Clock, header_get, with_timeout, time_until}
use ggscale_go.StdNet.{RetryPolicy, StdNetTransport, Net}

abbrev pub second : ℕ
second = 1_000_000_000

abbrev pub default_timeout : Duration
default_timeout = pos (30 * second)

abbrev pub default_max_response_body_bytes : ℤ
default_max_response_body_bytes = pos 67_108_864

abbrev pub max_diagnostic_body_bytes : ℕ
max_diagnostic_body_bytes = 4096

-- The attempts, the base delay and the cap of a policy: what is not positive selects a default.
pub record Retries : Type 0 where
  pub attempts : ℤ
  pub base : Duration
  pub maximum : Duration

abbrev pub positive_or : ℤ → ℤ → ℤ
positive_or n default = if leb_ℤ n (pos 0) then default else n

unfoldable pub retry_defaults : RetryPolicy → Retries
retry_defaults p = record {
  attempts = positive_or p.max_attempts (pos 3);
  base = positive_or p.base_delay (pos 250_000_000);
  maximum = positive_or p.max_delay (pos (10 * second));
}

-- The doubling loop of retryDelay and reconnectDelay, for a number of rounds.
unfoldable pub backoff_cap : ℕ → Duration → Duration → Duration
backoff_cap zero maximum cap = cap
backoff_cap (suc rounds) maximum cap =
    let doubled = backoff_cap rounds maximum (mul64 cap 2) in
    if ltb_ℤ cap maximum then (if ltb_ℤ (quot64 maximum 2) cap then maximum else doubled) else cap

abbrev pub at_most : Duration → Duration → Duration
at_most maximum cap = if ltb_ℤ maximum cap then maximum else cap

-- What a caller's jitter gives is held to the range from 0 to the cap.
unfoldable pub clamp_jitter : Duration → Duration → Duration
clamp_jitter cap d = if ltb_ℤ d (pos 0) then pos 0 else if ltb_ℤ cap d then cap else d

module _ {W : Type 0} (net : Net W) where
  abbrev drawn : Duration → Option ℕ × W → Duration × W
  drawn cap (some n, w) = (pos n, w)
  drawn cap (none, w) = (quot64 cap 2, w)

  -- fullJitter. The bound overflows at the largest int64.
  unfoldable pub full_jitter : Duration → W → Duration × W
  unfolding add64
  full_jitter cap w =
      if leb_ℤ cap (pos 0) then (pos 0, w) else drawn cap (net.draw (add64 cap (pos 1)) w)

  abbrev pub jittered : Option (Duration → Duration) → Duration → W → Duration × W
  jittered (some jitter) cap w = (clamp_jitter cap (jitter cap), w)
  jittered none cap w = full_jitter cap w

  -- retryDelay
  unfoldable pub retry_delay : RetryPolicy → ℕ → Duration → Duration → W → Duration × W
  retry_delay p attempt base maximum w =
      jittered p.jitter (at_most maximum (backoff_cap (attempt - 1) maximum base)) w

-- withCallTimeout
unfoldable pub with_call_timeout : {W : Type 0} → Clock W → Context → Duration → W → Context
unfolding with_timeout
with_call_timeout clock parent configured w =
    if ltb_ℤ (pos 0) configured
    then with_timeout clock parent configured w
    else elim parent.deadline [
      | some d ↦ parent
      | none ↦ with_timeout clock parent default_timeout w
    ]

-- retryFitsDeadline
unfoldable pub retry_fits_deadline : {W : Type 0} → Clock W → Context → Duration → W → Bool
retry_fits_deadline clock ctx delay w = elim ctx.deadline [
  | none ↦ true
  | some d ↦
      let remaining = time_until clock d w in ltb_ℤ (pos 0) remaining && ltb_ℤ delay remaining
]

-- requestIsReplayable
unfoldable pub request_is_replayable : Request → Bool
unfolding header_get
request_is_replayable req =
    if str_eq req.method "GET" || str_eq req.method "HEAD"
    then true
    else if str_eq req.method "POST"
        || str_eq req.method "PUT"
        || str_eq req.method "PATCH"
        || str_eq req.method "DELETE"
    then req.replay_safe || not (is_empty (header_get req.header "Idempotency-Key"))
    else false

-- retryableStatus
unfoldable pub retryable_status : ℕ → Bool
retryable_status status =
    status == 408 || status == 429 || status == 502 || status == 503 || status == 504

-- requestNotSent
unfoldable pub request_not_sent : NetFault → Bool
request_not_sent f = elim f.op_error [ none ↦ false | some op ↦ str_eq op "dial" ]

abbrev is_some : {A : Type 0} → Option A → Bool
is_some none = false
is_some (some a) = true

-- retryableTransportError
unfoldable pub retryable_transport_error : NetFault → Bool
retryable_transport_error f = if f.is_tls then false else elim f.dns_error [
  | some (timeout, temporary) ↦ timeout || temporary
  | none ↦ elim f.net_error [
    | some timeout ↦ if timeout then true else is_some f.op_error
    | none ↦ false
  ]
]

abbrev timed_out : Option Bool → Bool
timed_out none = false
timed_out (some timeout) = timeout

-- classifyTransportError
unfoldable pub classify_transport_error : NetFault → FailureKind
classify_transport_error f =
    if f.is_redirect_limit
    then FailureKind.protocol
    else if f.is_tls
    then FailureKind.tls
    else if is_some f.dns_error
    then FailureKind.dns
    else if timed_out f.net_error
    then FailureKind.timeout
    else FailureKind.connect

-- classifyContextError
unfoldable pub classify_context_error : Sentinel → FailureKind
classify_context_error s =
    if index s == index Sentinel.deadline_exceeded
    then FailureKind.timeout
    else FailureKind.canceled

-- classifyBuildError
unfoldable pub classify_build_error : GoError → FailureKind
classify_build_error (GoError.wrapped m e) =
    if str_eq m "encode request body" then FailureKind.encode else FailureKind.protocol
classify_build_error _ = FailureKind.protocol

-- failureKind, of a returned error
unfoldable pub failure_kind : Option GoError → Option FailureKind
unfolding as_request
failure_kind none = none
failure_kind (some e) = as_request e
