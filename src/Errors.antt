-- ===== src/Errors.antt =====
-- The error values of transport.go, and those of matchmaker.go, parties.go, realtime_options.go,
-- pagination.go and transport_stdnet.go that callers compare with errors.Is.
pub mod Families
pub mod Examples
use ggscale_go.Prelude.{
  ℕ, suc, Bool, true, false, ◌&&◌, ◌||◌, String, List, [], ◌∷◌, Option, none, some, ◌==◌,
  if◌then◌else◌,
}
use ggscale_go.Prelude.Int.{ℤ, pos}
use ggscale_go.Prelude.Text.{str_eq}

abbrev pub Bytes : Type 0
Bytes = List ℕ

-- time.Duration, in nanoseconds
abbrev pub Duration : Type 0
Duration = ℤ

-- The value is the raw JSON of the entry.
pub record ErrorDetail : Type 0 where
  pub message : String
  pub location : String
  pub value : Bytes

pub record Error : Type 0 where
  pub status : ℕ
  pub type : String
  pub title : String
  pub detail : String
  pub instance_uri : String
  pub code : String
  pub message : String
  pub request_id : String
  pub retry_after : Duration
  pub conflict_version : ℤ
  pub diagnostic_body : String
  pub details : List ErrorDetail

pub data FailureKind : Type 0 where
  canceled timeout dns connect tls encode decode protocol : FailureKind

-- What a caller can compare an error with: the values made by errors.New, and the two of package
-- context.
pub data Sentinel : Type 0 where
  unauthorized forbidden not_found conflict rate_limited bad_request validation : Sentinel
  ticket_active stale_version party_enqueue_disabled code_cooldown : Sentinel
  delete_requested_by_team : Sentinel
  match_cancelled not_party_member watch_done cursor_did_not_advance : Sentinel
  redirect_limit connection_closed context_canceled deadline_exceeded : Sentinel

-- The place of a sentinel in their list, by which two of them are compared.
abbrev pub index : Sentinel → ℕ
index Sentinel.unauthorized = 0
index Sentinel.forbidden = 1
index Sentinel.not_found = 2
index Sentinel.conflict = 3
index Sentinel.rate_limited = 4
index Sentinel.bad_request = 5
index Sentinel.validation = 6
index Sentinel.ticket_active = 7
index Sentinel.stale_version = 8
index Sentinel.party_enqueue_disabled = 9
index Sentinel.code_cooldown = 10
index Sentinel.delete_requested_by_team = 11
index Sentinel.match_cancelled = 12
index Sentinel.not_party_member = 13
index Sentinel.watch_done = 14
index Sentinel.cursor_did_not_advance = 15
index Sentinel.redirect_limit = 16
index Sentinel.connection_closed = 17
index Sentinel.context_canceled = 18
index Sentinel.deadline_exceeded = 19

-- What errors.As finds in the chain of an error of net/http, crypto/tls or crypto/x509: a TLS or
-- certificate error, the redirect limit of this package, a *net.DNSError, a net.Error and the Op of
-- a *net.OpError.
pub record NetFault : Type 0 where
  pub is_tls : Bool
  pub is_redirect_limit : Bool
  -- IsTimeout and IsTemporary of the *net.DNSError
  pub dns_error : Option (Bool × Bool)
  -- Timeout() of the net.Error
  pub net_error : Option Bool
  pub op_error : Option String

-- A value of Go's `error`: what the package makes, with the error that it wraps.
pub data GoError : Type 0 where
  sentinel : Sentinel → GoError
  text : String → GoError
  net : NetFault → GoError
  api : Error → GoError
  -- RequestError: the kind, the operation and the request id
  request : FailureKind → String → String → GoError → GoError
  -- fmt.Errorf("…: %w", err)
  wrapped : String → GoError → GoError
  match_failed : String → GoError
  -- RealtimeDialError and RealtimeError
  dial : ℕ → Duration → GoError → GoError
  realtime : ℤ → GoError → GoError

-- (*Error).hasSlug
unfoldable pub has_slug : Error → String → Bool
has_slug e slug = str_eq e.code slug || str_eq e.message slug

-- (*Error).Is
unfoldable pub error_is : Error → Sentinel → Bool
error_is e Sentinel.unauthorized = e.status == 401
error_is e Sentinel.forbidden = e.status == 403
error_is e Sentinel.not_found = e.status == 404
error_is e Sentinel.conflict = e.status == 412 || e.status == 409
error_is e Sentinel.rate_limited = e.status == 429
error_is e Sentinel.bad_request = e.status == 400
error_is e Sentinel.validation = e.status == 422
error_is e Sentinel.ticket_active = e.status == 409 && has_slug e "ticket_already_active"
error_is e Sentinel.stale_version = e.status == 409 && has_slug e "stale_version"
error_is e Sentinel.party_enqueue_disabled = e.status == 503 && has_slug e "party_enqueue_disabled"
error_is e Sentinel.code_cooldown = e.status == 429 && has_slug e "code_redemption_cooldown"
error_is e Sentinel.delete_requested_by_team =
    e.status == 403 && has_slug e "delete_requested_by_team"
error_is e _ = false

-- errors.Is: an error matches a sentinel that it is, by its own Is method, or through what it wraps.
unfoldable pub errors_is : GoError → Sentinel → Bool
errors_is (GoError.sentinel s) t = index s == index t
errors_is (GoError.text m) t = false
errors_is (GoError.net f) t = f.is_redirect_limit && index t == index Sentinel.redirect_limit
errors_is (GoError.api e) t = error_is e t
errors_is (GoError.request k op id e) t = errors_is e t
errors_is (GoError.wrapped m e) t = errors_is e t
errors_is (GoError.match_failed r) t = false
errors_is (GoError.dial status after e) t = errors_is e t
errors_is (GoError.realtime close e) t =
    index t == index Sentinel.connection_closed || errors_is e t

-- errors.As at a *Error
unfoldable pub as_api : GoError → Option Error
as_api (GoError.api e) = some e
as_api (GoError.request k op id e) = as_api e
as_api (GoError.wrapped m e) = as_api e
as_api (GoError.dial status after e) = as_api e
as_api (GoError.realtime close e) = as_api e
as_api _ = none

-- errors.As at a *RequestError: the kind of the first one
unfoldable pub as_request : GoError → Option FailureKind
as_request (GoError.request k op id e) = some k
as_request (GoError.wrapped m e) = as_request e
as_request (GoError.dial status after e) = as_request e
as_request (GoError.realtime close e) = as_request e
as_request _ = none

-- The loop of (*Error).ActiveTicketID. `int64` is json.Unmarshal into an int64: `none` is an error.
unfoldable pub active_ticket_of : (Bytes → Option ℤ) → List ErrorDetail → ℤ
active_ticket_of int64 [] = pos 0
active_ticket_of int64 (d ∷ ds) =
    let rest = active_ticket_of int64 ds in
    if str_eq d.location "active_ticket_id"
    then (elim (int64 d.value) [ some id ↦ id | none ↦ rest ])
    else rest

unfoldable pub active_ticket_id : (Bytes → Option ℤ) → Error → ℤ
active_ticket_id int64 e = active_ticket_of int64 e.details
