-- ===== src/StdNet/Response/Body.antt =====
-- The limit on response bodies of transport_stdnet.go.
use ggscale_go.Prelude.{
  ℕ, ◌+◌, ◌-◌, ◌^◌, ◌<◌, ◌≡◌, refl, Bool, arith, leb, length, length-take, if◌then◌else◌, true,
  false, [],
}
use ggscale_go.Prelude.Int.{pos}
use ggscale_go.Errors.{Bytes, GoError}
use ggscale_go.Transport.{Result, ok, err}
use ggscale_go.StdNet.Response.{read_response_body}

abbrev pub read_whole : Bool → Bytes → Result Bytes
read_whole true content = err (GoError.text "read body")
read_whole false content = ok content

-- Under a limit below the largest int64 a body is returned whole exactly when it has at most that many
-- bytes and its reader does not break; a longer one is refused as too long, before or after a break, and
-- no body is ever cut short.
pub read_response_body_exact :
    (content : Bytes) (breaks : Bool) (m : ℕ)
    → m < 2 ^ 63 - 1
    → read_response_body content breaks (pos m) ≡ (
        if leb (length content) m
        then read_whole breaks content
        else err (GoError.text "response body exceeds the maximum"))
unfolding read_response_body
read_response_body_exact content breaks m h = ground (arith, length-take (m + 1) content)

-- At the largest int64 the limit overflows: every body, whatever it holds, is read as an empty one.
pub read_response_body_overflow :
    (content : Bytes) (breaks : Bool) → read_response_body content breaks (pos (2 ^ 63 - 1)) ≡ ok []
unfolding read_response_body
read_response_body_overflow content breaks = refl
