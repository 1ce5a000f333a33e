-- ===== src/Relay.antt =====
-- relay.go: TURN credentials, and the loop of KeepFresh that renews them.
pub mod Waits
pub mod Fresh
pub mod Examples
use ggscale_go.Prelude.{
  ℕ, zero, suc, ◌*◌, Bool, true, false, not, ◌&&◌, ◌||◌, String, List, [], ◌∷◌, ◌++◌, Option, none,
  some, ◌==◌, leb, if◌then◌else◌,
}
use ggscale_go.Prelude.Int.{ℤ, pos, ltb_ℤ, mul64, quot64}
use ggscale_go.Prelude.Text.{is_empty}
use ggscale_go.Errors.{Duration, FailureKind, Sentinel, GoError, Error, as_api, as_request}
use ggscale_go.Transport.{Result, ok, err, Request, request, Out, Context, context_err}
use ggscale_go.Transport.Build.{Query, with_param}
use ggscale_go.StdNet.Policy.{second}
use ggscale_go.Client.{Env, Client, M, call_protected}

pub record Credentials : Type 0 where
  pub username : String
  pub password : String
  pub ttl : ℤ
  pub realm : String
  pub urls : List String
  pub stun_urls : List String
  pub region : String

-- relayOptions
pub record RelayOptions : Type 0 where
  pub match_id : String
  pub region : String

abbrev pub RelayOption : Type 0
RelayOption = RelayOptions → RelayOptions

-- WithMatch and WithRegion
abbrev pub with_match : String → RelayOption
with_match id o = record o { match_id = id }

abbrev pub with_region : String → RelayOption
with_region region o = record o { region = region }

-- The loop over the options of GetCredentials.
unfoldable pub relay_configured : List RelayOption → RelayOptions → RelayOptions
relay_configured [] o = o
relay_configured (f ∷ fs) o = relay_configured fs (f o)

abbrev no_options : RelayOptions
no_options = record { match_id = ""; region = "" }

abbrev credentials_query : RelayOptions → Query
credentials_query o = with_param "match_id" o.match_id (with_param "region" o.region [])

-- The request of GetCredentials
unfoldable pub credentials_request : List RelayOption → Request
unfolding relay_configured
credentials_request opts = record (request "issueRelayCredentials" "POST" "/v1/relay/credentials") {
  replay_safe = true;
  query = credentials_query (relay_configured opts no_options);
}

-- relayRetryMin and relayRetryMax
abbrev pub relay_retry_min : Duration
relay_retry_min = pos second

abbrev pub relay_retry_max : Duration
relay_retry_max = pos (30 * second)

abbrev min_ℤ : ℤ → ℤ → ℤ
min_ℤ a b = if ltb_ℤ b a then b else a

abbrev max_ℤ : ℤ → ℤ → ℤ
max_ℤ a b = if ltb_ℤ a b then b else a

abbrev is_coding : FailureKind → Bool
is_coding FailureKind.encode = true
is_coding FailureKind.decode = true
is_coding _ = false

-- relayRetryable
unfoldable pub relay_retryable : GoError → Bool
unfolding as_api as_request
relay_retryable e = elim (as_request e) [
  | some k ↦ not (is_coding k)
  | none ↦ elim (as_api e) [
    | none ↦ false
    | some a ↦ a.status == 408 || a.status == 429 || leb 500 a.status
  ]
]

-- How long KeepFresh waits after new credentials: 80% of their TTL, at least a second.
unfoldable pub fresh_wait : ℤ → Duration
fresh_wait ttl = max_ℤ (quot64 (mul64 (mul64 ttl second) 8) 10) relay_retry_min

-- How long it waits after an error that can pass.
unfoldable pub retry_wait : Duration → GoError → Duration
unfolding as_api
retry_wait backoff e = elim (as_api e) [
  | none ↦ backoff
  | some a ↦ if ltb_ℤ (pos 0) a.retry_after then a.retry_after else backoff
]

unfoldable pub next_backoff : Duration → Duration
next_backoff backoff = min_ℤ (mul64 backoff 2) relay_retry_max

-- The state of KeepFresh: `waits` and `given` are the waits that it began and the credentials that it
-- passed to the callback, the oldest first.
pub record Keeping (W : Type 0) : Type 0 where
  pub backoff : Duration
  pub waits : List Duration
  pub given : List Credentials
  pub client : Client W

-- What a round of its loop comes to.
pub data Kept (W : Type 0) : Type 0 where
  again : Keeping W → Kept W
  stopped : GoError → Keeping W → Kept W

abbrev pub after_round : {W : Type 0} → (Keeping W → Kept W) → Kept W → Kept W
after_round k (again s) = k s
after_round k (stopped e s) = stopped e s

-- The callback, and the select between the context and the timer: the error of the context if it
-- ended first.
pub record Surroundings (W : Type 0) : Type 0 where
  pub on_credentials : Credentials → Client W → Client W
  pub pause : Context → Duration → Client W → Option Sentinel × Client W

-- GetCredentials, with its options applied
unfoldable pub get_credentials :
    {W : Type 0} → Env W → Out Credentials → Context → List RelayOption → M W Credentials
unfolding credentials_request
get_credentials env out ctx o = call_protected env out ctx (credentials_request o)

module _ {W : Type 0} (env : Env W) (out : Out Credentials) (around : Surroundings W)
    (ctx : Context) (o : List RelayOption) where
  abbrev pub paused : Keeping W → Option Sentinel × Client W → Kept W
  paused s (none, c) = again (record s { client = c })
  paused s (some x, c) = stopped (GoError.sentinel x) (record s { client = c })

  abbrev pub pause_for : Duration → Keeping W → Kept W
  pause_for d s = paused (record s { waits = s.waits ++ d ∷ [] }) (around.pause ctx d s.client)

  abbrev pub unless_ended : (Keeping W → Kept W) → Keeping W → Kept W
  unless_ended k s = elim (context_err env.clock ctx s.client.world) [
    | some x ↦ stopped (GoError.sentinel x) s
    | none ↦ k s
  ]

  abbrev pub deliver : Credentials → Keeping W → Kept W
  deliver creds s =
      unless_ended
        (λ s'. pause_for (fresh_wait creds.ttl) (record s' { backoff = relay_retry_min }))
        (record s { given = s.given ++ creds ∷ []; client = around.on_credentials creds s.client })

  abbrev pub answered : Result Credentials → Keeping W → Kept W
  answered (ok creds) s = deliver creds s
  answered (err e) s =
      if relay_retryable e
      then pause_for (retry_wait s.backoff e) (record s { backoff = next_backoff s.backoff })
      else stopped e s

  abbrev pub received : Keeping W → Result Credentials × Client W → Kept W
  received s (r, c) = unless_ended (answered r) (record s { client = c })

  -- One round of the loop
  unfoldable pub keep_round : Keeping W → Kept W
  unfolding get_credentials relay_retryable fresh_wait retry_wait next_backoff context_err
  keep_round s = received s (get_credentials env out ctx o s.client)

  -- The first rounds of the loop
  unfoldable pub keep_rounds : ℕ → Keeping W → Kept W
  unfolding keep_round
  keep_rounds zero s = again s
  keep_rounds (suc n) s = after_round (keep_rounds n) (keep_round s)

  -- KeepFresh, up to the given number of rounds
  unfoldable pub keep_fresh : ℕ → Client W → Kept W
  unfolding keep_rounds
  keep_fresh n c =
      keep_rounds n (record { backoff = relay_retry_min; waits = []; given = []; client = c })
