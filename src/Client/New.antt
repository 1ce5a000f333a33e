-- ===== src/Client/New.antt =====
-- NewClient of client.go: what it refuses, and the settings of the client that it makes. url.Parse is
-- a parameter.
use ggscale_go.Prelude.{
  ◌*◌, ◌^◌, ◌≡◌, refl, arith, inl, inr, Bool-cases, Bool, true, false, not, ◌&&◌, ◌||◌, String,
  Option, none, some, if◌then◌else◌,
}
use ggscale_go.Prelude.Int.{ℤ, pos, ltb_ℤ}
use ggscale_go.Prelude.Text.{str_eq, is_empty, trim_slashes}
use ggscale_go.Errors.{Duration, GoError}
use ggscale_go.Transport.{Result, ok, err}
use ggscale_go.StdNet.{RetryPolicy, StdNetTransport}
use ggscale_go.StdNet.Policy.{second}

-- What NewClient reads of a url.URL.
pub record Url : Type 0 where
  pub scheme : String
  pub host : String
  pub has_user : Bool
  pub raw_query : String
  pub fragment : String

-- ReconnectPolicy of realtime_options.go. A Jitter that is set is not called here.
pub record ReconnectPolicy : Type 0 where
  pub disabled : Bool
  pub max_attempts : ℤ
  pub first_delay_max : Duration
  pub base_delay : Duration
  pub max_delay : Duration
  pub jitter : Option (Duration → Duration)

-- Options, without the values that NewClient passes on unread: Logger, HTTPClient and the hooks.
pub record Options : Type 0 where
  -- whether a Transport is set
  pub has_transport : Bool
  pub base_url : String
  pub api_key : String
  pub user_agent : String
  pub call_timeout : Duration
  pub max_response_body_bytes : ℤ
  pub retry_policy : RetryPolicy
  pub web_socket_handshake_timeout : Duration
  pub realtime_read_limit : ℤ
  pub reconnect_policy : ReconnectPolicy

-- The fields of the new Client that do not change: `std` is its StdNetTransport, unless it was given
-- a transport.
pub record Settings : Type 0 where
  pub std : Option StdNetTransport
  pub api_key : String
  pub base_url : String
  pub call_timeout : Duration
  pub web_socket_handshake_timeout : Duration
  pub realtime_read_limit : ℤ
  pub reconnect_policy : ReconnectPolicy

abbrev default_if_not_positive : ℤ → ℤ → ℤ
default_if_not_positive n d = if ltb_ℤ (pos 0) n then n else d

abbrev with_defaults : ReconnectPolicy → ReconnectPolicy
with_defaults p = record p {
  max_attempts = default_if_not_positive p.max_attempts (pos 5);
  first_delay_max = default_if_not_positive p.first_delay_max (pos (5 * second));
  base_delay = default_if_not_positive p.base_delay (pos second);
  max_delay = default_if_not_positive p.max_delay (pos (30 * second));
}

abbrev pub is_absolute : Url → Bool
is_absolute u = not (is_empty u.host) && (str_eq u.scheme "http" || str_eq u.scheme "https")

abbrev pub is_plain : Url → Bool
is_plain u = not u.has_user && is_empty u.raw_query && is_empty u.fragment

abbrev not_absolute : Result String
not_absolute = err (GoError.text "ggscale: BaseURL must be an absolute http or https URL")

abbrev not_plain : Result String
not_plain = err (GoError.text "ggscale: BaseURL must not contain credentials, query, or fragment")

abbrev pub Positive : ℤ → Type 0
Positive n = ltb_ℤ (pos 0) n ≡ true

default-Positive : (n d : ℤ) → Positive d → Positive (default_if_not_positive n d)
default-Positive n d h = elim (Bool-cases (ltb_ℤ (pos 0) n)) [ inl e ↦ rw e e | inr e ↦ rw e h ]

module _ (parse : String → Option Url) where
  abbrev parsed : String → Option Url → Result String
  parsed base none = not_absolute
  parsed base (some u) =
      if not (is_absolute u)
      then not_absolute
      else if not (is_plain u)
      then not_plain
      else ok (trim_slashes base)

  -- The base URL as NewClient keeps it.
  unfoldable pub checked_base_url : String → Result String
  checked_base_url base = if is_empty base then ok base else parsed base (parse base)

  abbrev std_transport : Options → String → StdNetTransport
  std_transport o base = record {
    base_url = base;
    user_agent = o.user_agent;
    call_timeout = o.call_timeout;
    max_response_body_bytes = o.max_response_body_bytes;
    retry_policy = o.retry_policy;
  }

  abbrev settings : Options → String → Option StdNetTransport → Settings
  settings o base t = record {
    std = t;
    api_key = o.api_key;
    base_url = base;
    call_timeout = o.call_timeout;
    web_socket_handshake_timeout =
        default_if_not_positive o.web_socket_handshake_timeout (pos (15 * second));
    realtime_read_limit = default_if_not_positive o.realtime_read_limit (pos (2 ^ 20));
    reconnect_policy = with_defaults o.reconnect_policy;
  }

  -- By whether the caller gives a transport.
  abbrev chosen : Options → String → Bool → Result Settings
  chosen o base true = ok (settings o base none)
  chosen o base false =
      if is_empty base
      then err (GoError.text "ggscale: either Transport or BaseURL is required")
      else ok (settings o base (some (std_transport o base)))

  abbrev with_base : Options → Result String → Result Settings
  with_base o (err e) = err e
  with_base o (ok base) = chosen o base o.has_transport

  -- NewClient
  unfoldable pub new_client : Options → Result Settings
  unfolding checked_base_url
  new_client o =
      if is_empty o.api_key
      then err (GoError.text "ggscale: APIKey is required")
      else with_base o (checked_base_url o.base_url)

  -- What a client can rely on.
  pub record Usable (o : Options) (s : Settings) : Type 0 where
    pub has_key : is_empty s.api_key ≡ false
    pub timeout : Positive s.web_socket_handshake_timeout
    pub limit : Positive s.realtime_read_limit
    -- CallTimeout is left to withCallTimeout, which reads 0 as no setting
    pub call : s.call_timeout ≡ o.call_timeout
    pub attempts : Positive s.reconnect_policy.max_attempts
    pub first : Positive s.reconnect_policy.first_delay_max
    pub base : Positive s.reconnect_policy.base_delay
    pub longest : Positive s.reconnect_policy.max_delay
    -- a default transport has the same address as the client
    pub address :
        o.has_transport ≡ false
        → (t : StdNetTransport) × (s.std ≡ some t) × (t.base_url ≡ s.base_url)

  abbrev pub UsableResult : Options → Result Settings → Type 0
  UsableResult o (err e) = Unit
  UsableResult o (ok s) = Usable o s

  settings-Usable :
      (o : Options) (b : String) (t : Option StdNetTransport)
      → is_empty o.api_key ≡ false
      → (o.has_transport ≡ false → t ≡ some (std_transport o b))
      → Usable o (settings o b t)
  settings-Usable o b t h k = record {
    has_key = h;
    timeout = default-Positive o.web_socket_handshake_timeout (pos (15 * second)) refl;
    limit = default-Positive o.realtime_read_limit (pos (2 ^ 20)) refl;
    call = refl;
    attempts = default-Positive o.reconnect_policy.max_attempts (pos 5) refl;
    first = default-Positive o.reconnect_policy.first_delay_max (pos (5 * second)) refl;
    base = default-Positive o.reconnect_policy.base_delay (pos second) refl;
    longest = default-Positive o.reconnect_policy.max_delay (pos (30 * second)) refl;
    address = λ e. (std_transport o b, k e, refl);
  }

  chosen-Usable :
      (o : Options) (b : String) (given : Bool)
      → is_empty o.api_key ≡ false
      → o.has_transport ≡ given
      → UsableResult o (chosen o b given)
  chosen-Usable o b true h g = settings-Usable o b none h (λ e. absurd (ground (arith, g, e)))
  chosen-Usable o b false h g = elim (Bool-cases (is_empty b)) [
    | inl empty ↦ rw empty tt
    | inr there ↦ rw there (settings-Usable o b (some (std_transport o b)) h (λ e. refl))
  ]

  with_base-Usable :
      (o : Options) (r : Result String)
      → is_empty o.api_key ≡ false
      → UsableResult o (with_base o r)
  with_base-Usable o (err e) h = tt
  with_base-Usable o (ok b) h = chosen-Usable o b o.has_transport h refl

  -- A client that NewClient makes has an API key; its handshake timeout, its read limit and the
  -- attempts and delays of its reconnects are positive, whatever the options say; its call timeout is
  -- the one of the options, which may be 0; and without a transport of the caller it has a StdNetTransport for the
  -- base URL that it keeps itself.
  pub new_client-Usable : (o : Options) → UsableResult o (new_client o)
  unfolding new_client
  new_client-Usable o = elim (Bool-cases (is_empty o.api_key)) [
    | inl empty ↦ rw empty tt
    | inr there ↦ rw there (with_base-Usable o (checked_base_url o.base_url) there)
  ]
