-- ===== src/StdNet.antt =====
-- transport_stdnet.go: the default transport. This file has its configuration and what it asks of
-- the world: the HTTP client, timers, randomness and the JSON codec.
pub mod Policy
pub mod Response
pub mod Wire
pub mod Attempt
pub mod Call
pub mod Simulation
pub mod Examples
use ggscale_go.Prelude.{ℕ, Bool, String, List, Option, none, some}
use ggscale_go.Prelude.Int.{ℤ}
use ggscale_go.Errors.{Bytes, Duration, Sentinel, FailureKind, ErrorDetail, NetFault}
use ggscale_go.Transport.{Json, Context, Clock, Header}

-- RetryPolicy. Jitter is a function that the caller supplies.
pub record RetryPolicy : Type 0 where
  pub max_attempts : ℤ
  pub base_delay : Duration
  pub max_delay : Duration
  pub jitter : Option (Duration → Duration)

-- The settings of StdNetTransport. Whether a Logger is set only decides if the events are seen.
pub record StdNetTransport : Type 0 where
  pub base_url : String
  pub user_agent : String
  pub call_timeout : Duration
  pub max_response_body_bytes : ℤ
  pub retry_policy : RetryPolicy

-- LogEvent. An event carries no URL, header or body.
pub record LogEvent : Type 0 where
  pub level : String
  pub event : String
  pub operation_id : String
  pub method : String
  pub status : ℕ
  pub duration : Duration
  pub attempt : ℕ
  pub attempts : ℕ
  pub request_id : String
  pub retry_reason : String
  pub retry_delay : Duration
  pub error_kind : Option FailureKind

-- errBody
pub record ErrBody : Type 0 where
  pub type : String
  pub title : String
  pub status : ℤ
  pub detail : String
  pub instance_uri : String
  pub code : String
  pub errors : List ErrorDetail
  pub error : String
  pub message : String
  pub retry_after_seconds : ℤ
  pub version : ℤ
  pub current_version : ℤ

-- *http.Request as buildRequest leaves it
pub record HttpRequest : Type 0 where
  pub method : String
  pub url : String
  pub headers : List (String × String)
  pub body : Option Bytes

-- *http.Response. The body yields its bytes and then ends, or fails with an error.
pub record HttpResponse : Type 0 where
  pub status_code : ℕ
  pub header : Header
  pub content : Bytes
  pub breaks : Bool

pub data Outcome : Type 0 where
  failed : NetFault → Outcome
  responded : HttpResponse → Outcome

-- What the transport calls in the standard library and the network behind it.
pub record Net (W : Type 0) : Type 0 where
  pub clock : Clock W
  -- (*http.Client).Do
  pub round_trip : Context → HttpRequest → W → Outcome × W
  -- a timer, unless the context ends first
  pub sleep : Context → Duration → W → Option Sentinel × W
  -- crypto/rand.Int below a bound; `none` is an error of the source of randomness. For a bound that is
  -- not positive it panics, which is no value of this function.
  pub draw : ℤ → W → Option ℕ × W
  -- newRequestID
  pub fresh_id : W → String × W
  -- json.Marshal
  pub marshal : Json → Option Bytes
  -- json.Unmarshal into an errBody
  pub unmarshal_problem : Bytes → Option ErrBody
  -- url.Values.Encode, and whether http.NewRequest accepts a method and a URL
  pub encode_query : List (String × String) → String
  pub accepts : String → String → Bool
  -- strconv.Atoi after strings.TrimSpace, and http.ParseTime
  pub atoi : String → Option ℤ
  pub parse_time : String → Option ℕ
  -- http.StatusText
  pub status_text : ℕ → String
  -- string(b)
  pub text_of : Bytes → String
