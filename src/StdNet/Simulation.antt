-- ===== src/StdNet/Simulation.antt =====
-- A small world for tests of transport_stdnet.go: a clock, and the outcomes that the network has left
-- to give.
use ggscale_go.Prelude.{ℕ, ◌+◌, ◌-◌, true, false, List, [], ◌∷◌, none, some}
use ggscale_go.Prelude.Int.{pos, pos_part}
use ggscale_go.Errors.{NetFault}
use ggscale_go.Transport.{Context, Request, request}
use ggscale_go.StdNet.{StdNetTransport, Outcome, failed, responded, Net}

pub record Sim : Type 0 where
  pub time : ℕ
  pub script : List Outcome

abbrev pub dial_fault : NetFault
dial_fault = record {
  is_tls = false;
  is_redirect_limit = false;
  dns_error = none;
  net_error = some false;
  op_error = some "dial";
}

abbrev pub respond : ℕ → Outcome
respond status =
    responded (record { status_code = status; header = []; content = []; breaks = false })

abbrev next : List Outcome → ℕ → Outcome × Sim
next [] now = (failed dial_fault, record { time = now; script = [] })
next (o ∷ os) now = (o, record { time = now + 1; script = os })

abbrev pub sim_net : Net Sim
sim_net = record {
  clock = record { now = λ w. w.time; cancelled_at = λ w. none };
  round_trip = λ ctx hr w. next w.script w.time;
  sleep = λ ctx d w. (none, record w { time = w.time + pos_part d });
  draw = λ bound w. (some (pos_part bound - 1), w);
  fresh_id = λ w. ("r1", w);
  marshal = λ j. some [];
  unmarshal_problem = λ b. none;
  encode_query = λ q. "";
  accepts = λ method url. true;
  atoi = λ s. none;
  parse_time = λ s. none;
  status_text = λ n. "";
  text_of = λ b. "";
}

abbrev pub default_transport : StdNetTransport
default_transport = record {
  base_url = "https://api.example";
  user_agent = "";
  call_timeout = pos 0;
  max_response_body_bytes = pos 0;
  retry_policy = record {
    max_attempts = pos 0;
    base_delay = pos 0;
    max_delay = pos 0;
    jitter = none;
  };
}

abbrev pub no_deadline : Context
no_deadline = record { deadline = none; cancellable = true }

abbrev pub signup_post : Request
signup_post = request "authSignup" "POST" "/v1/auth/signup_post"
