-- ===== src/StdNet/Wire.antt =====
-- How transport_stdnet.go puts a Request on the wire, and what it lets a redirect carry.
pub mod Credentials
pub mod Carried
use ggscale_go.Prelude.{
  ℕ, Bool, true, false, not, ◌&&◌, ◌||◌, String, List, [], ◌∷◌, ◌++◌, Option, none, some, length,
  leb, ltb, if◌then◌else◌,
}
use ggscale_go.Prelude.Text.{str_eq, is_empty, ◌+s◌, trim_slashes, equal_fold, has_leading_slash}
use ggscale_go.Errors.{Bytes, Sentinel, GoError}
use ggscale_go.Transport.{Json, Header, Request, Result, ok, err, ◌>>=◌}
use ggscale_go.StdNet.{StdNetTransport, HttpRequest, Net}

-- The header of an *http.Request. Its names are canonical there, so two of them are one where they
-- differ in case only.
abbrev pub Headers : Type 0
Headers = List (String × String)

unfoldable pub values : String → Headers → List String
values name [] = []
values name ((n, v) ∷ h) = let rest = values name h in if equal_fold n name then v ∷ rest else rest

-- Header.Del
unfoldable pub del : String → Headers → Headers
del name [] = []
del name ((n, v) ∷ h) = let rest = del name h in if equal_fold n name then rest else (n, v) ∷ rest

-- Header.Set and Header.Add
unfoldable pub set : String → String → Headers → Headers
unfolding del
set name v h = del name h ++ (name, v) ∷ []

unfoldable pub add : String → String → Headers → Headers
add name v h = h ++ (name, v) ∷ []

abbrev pub set_if : Bool → String → String → Headers → Headers
set_if b name v h = if b then set name v h else h

unfoldable pub add_values : String → List String → Headers → Headers
unfolding add
add_values name [] h = h
add_values name (v ∷ vs) h = add_values name vs (add name v h)

unfoldable pub add_all : Header → Headers → Headers
unfolding add_values
add_all [] h = h
add_all ((name, vs) ∷ more) h = add_all more (add_values name vs h)

abbrev pub user_agent : String
user_agent = "ggscale-go/0.7.3"

abbrev is_some : {A : Type 0} → Option A → Bool
is_some none = false
is_some (some a) = true

-- The header lines that the transport itself sets.
unfoldable pub own_headers : StdNetTransport → Request → String → Headers
unfolding set
own_headers t req request_id =
    let ua = if is_empty t.user_agent then user_agent else t.user_agent in
    set_if (not (is_empty req.if_none_match)) "If-None-Match" req.if_none_match (
      set_if (not (is_empty req.if_match)) "If-Match" req.if_match (
        set_if (not (is_empty req.session_token)) "X-Session-Token" req.session_token (
          set_if (not (is_empty req.api_key)) "Authorization" ("Bearer " +s req.api_key) (
            set_if (is_some req.body) "Content-Type" "application/json"
              (set "X-Request-Id" request_id (set "User-Agent" ua []))))))

module _ {W : Type 0} (net : Net W) where
  abbrev encoded_body : Option Json → Result (Option Bytes)
  encoded_body none = ok none
  encoded_body (some j) = elim (net.marshal j) [
    | none ↦ err (GoError.wrapped "encode request body" (GoError.text "json"))
    | some b ↦ ok (some b)
  ]

  abbrev pub request_url : StdNetTransport → Request → String
  request_url t req =
      let plain = trim_slashes t.base_url +s req.path in
      elim req.query [ [] ↦ plain | q ∷ qs ↦ plain +s ("?" +s net.encode_query (q ∷ qs)) ]

  -- buildRequest
  unfoldable pub build_request : StdNetTransport → Request → String → Result HttpRequest
  unfolding own_headers add_all has_leading_slash trim_slashes
  build_request t req request_id =
      if is_empty req.path || not (has_leading_slash req.path)
      then err (GoError.text "request path must start with /")
      else do
        body ← encoded_body req.body
        if net.accepts req.method (request_url t req)
            then ok (record {
              method = req.method;
              url = request_url t req;
              headers = add_all req.header (own_headers t req request_id);
              body = body;
            })
            else err (GoError.text "net/http: invalid method or URL")

-- The parts of a URL that an origin is made of.
pub record Origin : Type 0 where
  pub scheme : String
  pub host : String

-- sameOrigin
unfoldable pub same_origin : Origin → Origin → Bool
unfolding equal_fold
same_origin a b = equal_fold a.scheme b.scheme && equal_fold a.host b.host

abbrev pub strip_credentials : Headers → Headers
strip_credentials h = del "X-Session-Token" (del "Authorization" h)

-- The request that a redirect is about to make.
pub record NextRequest : Type 0 where
  pub origin : Origin
  pub headers : Headers

-- The CheckRedirect of the caller's client, which may change the request that it is given, and the
-- world: it returns the request as it leaves it.
abbrev pub RedirectCheck : Type 0 → Type 0
RedirectCheck W = List Origin → NextRequest → W → Result NextRequest × W

abbrev within_limit : List Origin → NextRequest → Result NextRequest
within_limit via next =
    if leb 10 (length via) then err (GoError.sentinel Sentinel.redirect_limit) else elim via [
      | [] ↦ ok next
      | first ∷ rest ↦
          if same_origin first next.origin
          then ok next
          else ok (record next { headers = strip_credentials next.headers })
    ]

module _ {W : Type 0} where
  -- The request as the caller's check leaves it.
  abbrev pub checked :
      Option (RedirectCheck W) → List Origin → NextRequest → W → Result NextRequest × W
  checked none via next w = (ok next, w)
  checked (some check) via next w = check via next w

  abbrev pub limited : List Origin → Result NextRequest × W → Result NextRequest × W
  limited via (err e, w) = (err e, w)
  limited via (ok next, w) = (within_limit via next, w)

  -- The CheckRedirect that client() installs, after the one of the caller's client. `via` is the chain
  -- of requests made so far, the first one first.
  unfoldable pub check_redirect :
      Option (RedirectCheck W) → List Origin → NextRequest → W → Result NextRequest × W
  unfolding same_origin del
  check_redirect previous via next w = limited via (checked previous via next w)
