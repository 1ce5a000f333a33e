-- ===== src/StdNet/Wire/Carried.antt =====
-- The header lines that buildRequest of transport_stdnet.go sends with a request.
use ggscale_go.Prelude.{◌≡◌, Bool, not, String, List, [], ◌∷◌, arith, if◌then◌else◌}
use ggscale_go.Prelude.Text.{is_empty, ◌+s◌, equal_fold}
use ggscale_go.Transport.{Request, Result, ok, err}
use ggscale_go.StdNet.{StdNetTransport, HttpRequest, Net}
use ggscale_go.StdNet.Wire.{Headers, values, set, del, own_headers, add_all, build_request}

-- A line that is there once, unless its value is empty.
abbrev pub line : Bool → String → List String
line b v = if b then v ∷ [] else []

-- The lines that a request asks for: its key, its session, its two versions and its request id.
abbrev pub Carries : Request → String → Headers → Type 0
Carries req id h =
    (values "Authorization" h ≡ line (not (is_empty req.api_key)) ("Bearer " +s req.api_key))
    × (values "X-Session-Token" h ≡ line (not (is_empty req.session_token)) req.session_token)
    × (values "If-Match" h ≡ line (not (is_empty req.if_match)) req.if_match)
    × (values "If-None-Match" h ≡ line (not (is_empty req.if_none_match)) req.if_none_match)
    × (values "X-Request-Id" h ≡ id ∷ [])

own_headers-Carries :
    (t : StdNetTransport) (req : Request) (id : String) → Carries req id (own_headers t req id)
unfolding own_headers values set del equal_fold
own_headers-Carries t req id =
    (ground arith, ground arith, ground arith, ground arith, ground arith)

module _ {W : Type 0} (net : Net W) where
  -- Of an HTTP request that was built.
  abbrev pub Built : Request → String → Result HttpRequest → Type 0
  Built req id (err e) = Unit
  Built req id (ok hr) = Carries req id hr.headers

  -- A request that brings no header of its own goes out, if it is built, with each of its key, its
  -- session token, its If-Match and its If-None-Match in one line, or in none when it is empty, and
  -- with the one request id that the call has chosen.
  pub build_request-Carries :
      (t : StdNetTransport) (req : Request) (id : String)
      → req.header ≡ []
      → Built req id (build_request net t req id)
  unfolding build_request add_all
  build_request-Carries t req id h = let c = own_headers-Carries t req id in ground (arith, c, h)
