-- ===== src/StdNet/Examples.antt =====
-- The theorems on transport_stdnet.go, at concrete inputs.
use ggscale_go.Prelude.{
  ℕ, ◌+◌, ◌≤◌, ◌-◌, ◌^◌, ◌++◌, ◌≡◌, refl, false, [], ◌∷◌, some, arith, length, All, ◌<◌,
}
use ggscale_go.Prelude.Int.{pos}
use ggscale_go.Transport.{request, Request, ok, no_out, context_err}
use ggscale_go.StdNet.{Net, ErrBody, HttpResponse, failed}
use ggscale_go.StdNet.Policy.{
  retry_delay, retry_defaults, request_is_replayable, retryable_transport_error, request_not_sent,
  full_jitter, backoff_cap,
}
use ggscale_go.StdNet.Policy.Delay.{DrawsWithin, Within, delay_limit, retry_delay-Within}
use ggscale_go.StdNet.Response.{max_body_bytes, read_response_body}
use ggscale_go.StdNet.Response.Body.{read_response_body_exact, read_response_body_overflow}
use ggscale_go.StdNet.Wire.Carried.{Built, build_request-Carries}
use ggscale_go.StdNet.Wire.{
  build_request, Headers, Origin, check_redirect, NextRequest, RedirectCheck, checked,
}
use ggscale_go.StdNet.Wire.Credentials.{Sent, check_redirect_safe}
use ggscale_go.StdNet.Attempt.{Run, round, return}
use ggscale_go.StdNet.Call.{call}
use ggscale_go.StdNet.Call.Writes.{
  IsBuilt, id_of, context_of, attempt_limit, call-limit, call-return,
}
use ggscale_go.StdNet.Simulation.{
  Sim, sim_net, default_transport, no_deadline, signup_post, dial_fault, respond,
}

sim_draws : DrawsWithin sim_net
sim_draws bound w n h e = ground (arith, h, e)

retry_delay-Within_example :
    Within
      (delay_limit default_transport.retry_policy 3)
      (retry_delay sim_net default_transport.retry_policy 3
        (retry_defaults default_transport.retry_policy).base
        (retry_defaults default_transport.retry_policy).maximum
        (record { time = 0; script = [] })).0
retry_delay-Within_example =
    retry_delay-Within sim_net default_transport.retry_policy 3 (record { time = 0; script = [] })
      sim_draws (omega arith)

third_delay : delay_limit default_transport.retry_policy 3 ≡ 1_000_000_000
unfolding retry_defaults
third_delay = refl

read_response_body_exact_example : read_response_body (1 ∷ 2 ∷ []) false (pos 2) ≡ ok (1 ∷ 2 ∷ [])
read_response_body_exact_example = read_response_body_exact (1 ∷ 2 ∷ []) false 2 (omega arith)

read_response_body_overflow_example :
    read_response_body (1 ∷ 2 ∷ []) false (pos (2 ^ 63 - 1)) ≡ ok []
read_response_body_overflow_example = read_response_body_overflow (1 ∷ 2 ∷ []) false

-- The legacy envelope {"error": "stale_version"}.
abbrev stale_problem : ErrBody
stale_problem = record {
  type = "";
  title = "";
  status = pos 0;
  detail = "";
  instance_uri = "";
  code = "stale_version";
  errors = [];
  error = "";
  message = "";
  retry_after_seconds = pos 0;
  version = pos 7;
  current_version = pos 0;
}

abbrev stale_net : Net Sim
stale_net = record sim_net { unmarshal_problem = λ b. some stale_problem }

abbrev conflict_response : HttpResponse
conflict_response = record { status_code = 409; header = []; content = 123 ∷ []; breaks = false }

abbrev api_origin : Origin
api_origin = record { scheme = "https"; host = "api.example" }

abbrev other_origin : Origin
other_origin = record { scheme = "https"; host = "evil.example" }

abbrev bearer : Headers
bearer = ("Authorization", "Bearer k") ∷ ("X-Session-Token", "t") ∷ ("User-Agent", "u") ∷ []

-- A check of the caller's that adds a header to each redirect.
abbrev tagging : RedirectCheck ℕ
tagging via next w = (ok (record next { headers = next.headers ++ ("X-Hop", "1") ∷ [] }), w + 1)

abbrev redirected : NextRequest
redirected = record { origin = other_origin; headers = bearer }

abbrev stripped : NextRequest
stripped = record redirected { headers = ("User-Agent", "u") ∷ ("X-Hop", "1") ∷ [] }

check_redirect_safe_example :
    (length {A = Origin} [] < 9)
    × ((left : NextRequest) × ((checked (some tagging) (api_origin ∷ []) redirected 0).0 ≡ ok left)
        × Sent api_origin [] stripped left)
unfolding check_redirect
check_redirect_safe_example =
    check_redirect_safe api_origin [] stripped (some tagging) redirected 0 refl

-- A connection that could not be opened, and then a 503.
abbrev flaky : Sim
flaky = record { time = 0; script = failed dial_fault ∷ respond 503 ∷ respond 200 ∷ [] }

call_sends_twice :
    length (call sim_net default_transport no_out no_deadline (some signup_post) flaky).1.sent ≡ 2
unfolding call build_request context_err retryable_transport_error request_is_replayable
    request_not_sent retry_delay full_jitter backoff_cap read_response_body max_body_bytes
call_sends_twice = refl

call-limit_example :
    (length (call sim_net default_transport no_out no_deadline (some signup_post) flaky).1.sent
      ≤ attempt_limit sim_net default_transport no_out no_deadline signup_post flaky)
    × All
        (IsBuilt sim_net default_transport
          (context_of sim_net default_transport no_out no_deadline signup_post flaky)
          signup_post
          (id_of sim_net default_transport no_out no_deadline signup_post flaky)
          no_out)
        (call sim_net default_transport no_out no_deadline (some signup_post) flaky).1.sent
call-limit_example = call-limit sim_net default_transport no_out no_deadline signup_post flaky

call-return_example :
    (k : ℕ) × (s s' : Run Sim) × (k
      ≤ attempt_limit sim_net default_transport no_out no_deadline signup_post flaky)
    × (round sim_net default_transport
          (context_of sim_net default_transport no_out no_deadline signup_post flaky)
          signup_post
          (id_of sim_net default_transport no_out no_deadline signup_post flaky)
          no_out
          k
          s
        ≡ return (call sim_net default_transport no_out no_deadline (some signup_post) flaky).0 s')
call-return_example = call-return sim_net default_transport no_out no_deadline signup_post flaky

abbrev guarded_put : Request
guarded_put = record (request "putStorageObject" "PUT" "/v1/storage/objects/save") {
  api_key = "k";
  session_token = "s";
  if_match = "3";
}

build_request-Carries_example :
    Built sim_net guarded_put "r1" (build_request sim_net default_transport guarded_put "r1")
build_request-Carries_example =
    build_request-Carries sim_net default_transport guarded_put "r1" refl
