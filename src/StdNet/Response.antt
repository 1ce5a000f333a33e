-- ===== src/StdNet/Response.antt =====
-- What transport_stdnet.go makes of a response: its body, its metadata, and the error that it states.
pub mod Body
pub mod Problem
use ggscale_go.Prelude.{
  ℕ, zero, suc, ◌+◌, Bool, true, false, ◌&&◌, ◌||◌, not, String, List, [], ◌∷◌, Option, none, some,
  length, take, leb, ltb, ◌==◌, if◌then◌else◌,
}
use ggscale_go.Prelude.Int.{ℤ, pos, negsuc, pos_part, ltb_ℤ, leb_ℤ, add64, mul64, sub_ℕ}
use ggscale_go.Prelude.Text.{is_empty}
use ggscale_go.Errors.{Bytes, Duration, GoError, Error}
use ggscale_go.Transport.{Result, ok, err, Request, ResponseMetadata, header_get}
use ggscale_go.StdNet.{StdNetTransport, ErrBody, HttpResponse, Net}
use ggscale_go.StdNet.Policy.{second, default_max_response_body_bytes, max_diagnostic_body_bytes}

-- maxBodyBytes
unfoldable pub max_body_bytes : StdNetTransport → ℤ
max_body_bytes t =
    if ltb_ℤ (pos 0) t.max_response_body_bytes
    then t.max_response_body_bytes
    else default_max_response_body_bytes

-- io.ReadAll(io.LimitReader(body, limit)): a reader whose limit is used up ends without a look at the
-- body below it, so that an error that comes later is not seen.
unfoldable pub read_limited : Bytes → Bool → ℤ → Option Bytes
read_limited content breaks limit =
    if leb_ℤ limit (pos 0)
    then some []
    else if leb (pos_part limit) (length content)
    then some (take (pos_part limit) content)
    else if breaks
    then none
    else some content

abbrev too_long : ℤ → Bytes → Result Bytes
too_long maximum b =
    if ltb_ℤ maximum (pos (length b))
    then err (GoError.text "response body exceeds the maximum")
    else ok b

-- readResponseBody
unfoldable pub read_response_body : Bytes → Bool → ℤ → Result Bytes
unfolding read_limited add64
read_response_body content breaks maximum =
    elim (read_limited content breaks (add64 maximum (pos 1))) [
      | none ↦ err (GoError.text "read body")
      | some b ↦ too_long maximum b
    ]

-- firstNonEmpty
unfoldable pub first_non_empty : List String → String
first_non_empty [] = ""
first_non_empty (v ∷ vs) = if is_empty v then first_non_empty vs else v

-- populateResponseMetadata
unfoldable pub populate_response_metadata : HttpResponse → String → ResponseMetadata
unfolding header_get
populate_response_metadata resp request_id = record {
  status_code = resp.status_code;
  request_id = request_id;
  etag = header_get resp.header "Etag";
  cache_control = header_get resp.header "Cache-Control";
  not_modified = resp.status_code == 304;
}

-- parseRetryAfter. A number of seconds that overflows int64 nanoseconds wraps, as in Go.
module _ {W : Type 0} (net : Net W) where
  abbrev from_date : Option ℕ → ℕ → Duration
  from_date none now = pos 0
  from_date (some d) now = if ltb now d then sub_ℕ d now else pos 0

  unfoldable pub parse_retry_after : String → ℕ → Duration
  parse_retry_after value now = if is_empty value then pos 0 else elim (net.atoi value) [
    | some seconds ↦ if ltb_ℤ (pos 0) seconds then mul64 seconds second else pos 0
    | none ↦ from_date (net.parse_time value) now
  ]

-- bytes.TrimSpace, on ASCII
abbrev is_space : ℕ → Bool
is_space c = c == 32 || (leb 9 c && leb c 13)

unfoldable pub trim_left : Bytes → Bytes
trim_left [] = []
trim_left (c ∷ cs) = if is_space c then trim_left cs else c ∷ cs

unfoldable pub trim_right : Bytes → Bytes
trim_right [] = []
trim_right (c ∷ cs) = elim (trim_right cs) [
  | [] ↦ if is_space c then [] else c ∷ []
  | d ∷ ds ↦ c ∷ d ∷ ds
]

unfoldable pub trim_space : Bytes → Bytes
unfolding trim_left trim_right
trim_space b = trim_right (trim_left b)

-- The fields of an *Error that a parsed body fills in.
unfoldable pub fill_problem : ErrBody → Error → Error
unfolding first_non_empty
fill_problem p e =
    let detail = first_non_empty (p.detail ∷ p.message ∷ []) in
    record e {
      type = p.type;
      title = p.title;
      detail = detail;
      instance_uri = p.instance_uri;
      code = first_non_empty (p.code ∷ p.error ∷ []);
      message = first_non_empty (detail ∷ p.title ∷ []);
      details = p.errors;
      conflict_version =
          if ltb_ℤ (pos 0) p.version
          then p.version
          else if ltb_ℤ (pos 0) p.current_version
          then p.current_version
          else e.conflict_version;
      retry_after =
          if ltb_ℤ (pos 0) p.retry_after_seconds
          then mul64 p.retry_after_seconds second
          else e.retry_after;
    }

abbrev pub fresh_error : HttpResponse → Error
fresh_error resp = record {
  status = resp.status_code;
  type = "";
  title = "";
  detail = "";
  instance_uri = "";
  code = "";
  message = "";
  request_id = header_get resp.header "X-Request-Id";
  retry_after = pos 0;
  conflict_version = pos 0;
  diagnostic_body = "";
  details = [];
}

module _ {W : Type 0} (net : Net W) where
  unfoldable pub filled : Bytes → Error → Error
  filled [] e = e
  filled (c ∷ cs) e = elim (net.unmarshal_problem (c ∷ cs)) [ none ↦ e | some p ↦ fill_problem p e ]

  unfoldable pub diagnosed : Bytes → Error → Error
  unfolding trim_space
  diagnosed [] e = e
  diagnosed (c ∷ cs) e =
      let diagnostic = net.text_of (take max_diagnostic_body_bytes (trim_space (c ∷ cs))) in
      if is_empty e.message && is_empty e.code
      then record e { diagnostic_body = diagnostic; message = diagnostic }
      else e

  unfoldable pub later_retry : Duration → Error → Error
  later_retry d e = if ltb_ℤ e.retry_after d then record e { retry_after = d } else e

  -- parseError, at the time `now`
  unfoldable pub parse_error : HttpResponse → Bytes → ℕ → Error
  unfolding fill_problem parse_retry_after header_get filled diagnosed later_retry
  parse_error resp body now =
      later_retry (parse_retry_after net (header_get resp.header "Retry-After") now)
        (diagnosed body (filled body (fresh_error resp)))
