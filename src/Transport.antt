-- ===== src/Transport.antt =====
-- The Transport interface of transport.go, with the requests that it takes, and the calls of package
-- context that the client and its transport make.
pub mod Build
use ggscale_go.Prelude.{
  ℕ, ◌+◌, Bool, true, false, ◌&&◌, String, List, [], ◌∷◌, Option, none, some, ltb, leb,
  if◌then◌else◌,
}
use ggscale_go.Prelude.Int.{ℤ, pos_part, sub_ℕ}
use ggscale_go.Prelude.Text.{str_eq}
use ggscale_go.Errors.{Bytes, Duration, Sentinel, GoError}

-- What encoding/json is asked to marshal, with the fields of a struct in their order.
mutual
  pub data Json : Type 0 where
    null : Json
    bool : Bool → Json
    int : ℤ → Json
    -- a float64, by its text
    float : String → Json
    string : String → Json
    -- a json.RawMessage
    raw : Bytes → Json
    array : Items → Json
    object : Fields → Json

  pub data Items : Type 0 where
    end : Items
    item : Json → Items → Items

  pub data Fields : Type 0 where
    done : Fields
    field : String → Json → Fields → Fields

pub data Result (A : Type 0) : Type 0 where
  ok : A → Result A
  err : GoError → Result A

infixl 5 ◌>>=◌
abbrev pub ◌>>=◌ : {A B : Type 0} → Result A → (A → Result B) → Result B
ok a >>= f = f a
err e >>= f = err e

-- http.Header: a name and its values, the names as they are stored.
abbrev pub Header : Type 0
Header = List (String × List String)

-- The first of several values, or "".
abbrev first_value : List String → String
first_value [] = ""
first_value (v ∷ vs) = v

-- http.Header.Get at a name that is spelled canonically
unfoldable pub header_get : Header → String → String
header_get [] name = ""
header_get ((n, vs) ∷ h) name = if str_eq n name then first_value vs else header_get h name

-- Request. Its Response pointer is the metadata that an answer carries.
pub record Request : Type 0 where
  pub operation_id : String
  pub method : String
  pub path : String
  pub query : List (String × String)
  pub body : Option Json
  pub api_key : String
  pub session_token : String
  pub if_match : String
  pub if_none_match : String
  pub header : Header
  pub replay_safe : Bool
  pub request_id : String
  pub allow_not_modified : Bool

-- A request of which only the first fields are given: the others have Go's zero values.
abbrev pub request : String → String → String → Request
request operation_id method path = record {
  operation_id = operation_id;
  method = method;
  path = path;
  query = [];
  body = none;
  api_key = "";
  session_token = "";
  if_match = "";
  if_none_match = "";
  header = [];
  replay_safe = false;
  request_id = "";
  allow_not_modified = false;
}

pub record ResponseMetadata : Type 0 where
  pub status_code : ℕ
  pub request_id : String
  pub etag : String
  pub cache_control : String
  pub not_modified : Bool

abbrev pub no_metadata : ResponseMetadata
no_metadata = record {
  status_code = 0;
  request_id = "";
  etag = "";
  cache_control = "";
  not_modified = false;
}

-- Where an answer is decoded to: the value before the call, and json.Unmarshal at its type, which
-- fails by `none`. A nil `out` is not wanted.
pub record Out (A : Type 0) : Type 0 where
  pub wanted : Bool
  pub zero_value : A
  pub unmarshal : Bytes → Option A

abbrev pub no_out : Out (Unit {0})
no_out = record { wanted = false; zero_value = tt; unmarshal = λ b. some tt }

-- A context: its deadline, in nanoseconds since the epoch, and whether the caller can cancel it.
pub record Context : Type 0 where
  pub deadline : Option ℕ
  pub cancellable : Bool

pub record Answer (A W : Type 0) : Type 0 where
  pub result : Result A
  pub metadata : ResponseMetadata
  pub world : W

-- interface Transport. A world is everything outside of the client: servers, clocks, callers.
pub record Transport (W : Type 0) : Type 1 where
  pub call : (A : Type 0) → Out A → Context → Request → W → Answer A W

-- The clock and the callers' cancellations, as the world has them at a moment.
pub record Clock (W : Type 0) : Type 0 where
  pub now : W → ℕ
  -- since when the caller's context is cancelled
  pub cancelled_at : W → Option ℕ

module _ {W : Type 0} (clock : Clock W) where
  abbrev deadline_passed : Option ℕ → W → Bool
  deadline_passed none w = false
  deadline_passed (some d) w = leb d (clock.now w)

  abbrev cancelled_before : Option ℕ → ℕ → Bool
  cancelled_before none c = true
  cancelled_before (some d) c = ltb c d

  abbrev cancelled : Context → W → Bool
  cancelled ctx w = elim (clock.cancelled_at w) [
    | none ↦ false
    | some c ↦ ctx.cancellable && leb c (clock.now w) && cancelled_before ctx.deadline c
  ]

  -- ctx.Err(): the first of the two that happened stays.
  unfoldable pub context_err : Context → W → Option Sentinel
  context_err ctx w =
      if cancelled ctx w
      then some Sentinel.context_canceled
      else if deadline_passed ctx.deadline w
      then some Sentinel.deadline_exceeded
      else none

  -- context.WithTimeout: an earlier deadline of the parent stays.
  abbrev earlier : Option ℕ → ℕ → ℕ
  earlier none d = d
  earlier (some p) d = if ltb p d then p else d

  unfoldable pub with_timeout : Context → Duration → W → Context
  with_timeout ctx d w = record ctx {
    deadline = some (earlier ctx.deadline (clock.now w + pos_part d));
  }

  -- time.Until
  abbrev pub time_until : ℕ → W → Duration
  time_until t w = sub_ℕ t (clock.now w)
