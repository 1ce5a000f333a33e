-- ===== src/Realtime/Examples.antt =====
-- The theorems on realtime.go, at a socket that breaks, and a server that takes it back at the second
-- attempt.
use ggscale_go.Prelude.{
  suc, ◌+◌, ◌-◌, ◌*◌, ◌^◌, min, ◌≡◌, refl, true, false, List, [], ◌∷◌, none, some, ltb, ◌==◌, arith,
  if◌then◌else◌,
}
use ggscale_go.Prelude.Int.{pos}
use ggscale_go.Errors.{GoError}
use ggscale_go.Transport.{ok, err, no_metadata}
use ggscale_go.StdNet.Simulation.{Sim, sim_net, no_deadline}
use ggscale_go.StdNet.Policy.{
  second, retry_fits_deadline, full_jitter, retryable_status, backoff_cap,
}
use ggscale_go.StdNet.Policy.Delay.{Within, DrawsWithin}
use ggscale_go.Client.{Env}
use ggscale_go.Client.New.{ReconnectPolicy}
use ggscale_go.Client.Examples.{old_session, new_session}
use ggscale_go.Realtime.{Realtime, close, connection_closed, reconnect_delay}
use ggscale_go.Realtime.Dial.{Dialer, opened, refused}
use ggscale_go.Realtime.Read.{Socket, bytes, broken, elapsed, read_message}
use ggscale_go.Realtime.Once.{Use, reading, closing, read_message-close}
use ggscale_go.Realtime.Delay.{reconnect_delay-Within}

abbrev policy : ReconnectPolicy
policy = record {
  disabled = false;
  max_attempts = pos 5;
  first_delay_max = pos (5 * second);
  base_delay = pos second;
  max_delay = pos (30 * second);
  jitter = none;
}

abbrev env : Env Sim
env = record {
  transport = record {
    call =
        λ A out ctx req w. record { result = ok out.zero_value; metadata = no_metadata; world = w };
  };
  clock = record { now = λ w. w.time; cancelled_at = λ w. none };
  fresh_id = λ w. ("r1", w);
  session_out = record { wanted = true; zero_value = new_session; unmarshal = λ b. none };
  api_key = "k";
  call_timeout = pos 0;
}

-- The server refuses until eight seconds have passed.
abbrev dialer : Dialer Sim
dialer = record {
  socket_url = ok "wss://api.example/v1/ws";
  handshake = λ ctx url id token w. (
    if ltb w.time (8 * second) then refused 503 (pos second) (GoError.text "busy") else opened 2,
    w,
  );
  timeout = pos (15 * second);
  policy = policy;
}

-- Connection 1 is broken, and connection 2 has a message.
abbrev socket : Socket Sim
socket = record {
  read = λ conn ctx w. (if conn == 1 then broken (pos 1006) else bytes [], w);
  pause = λ ctx d w. (elapsed, record w { time = w.time + 6 * second });
  close_called = λ w. false;
  decode = λ b. some (record { type = "presence"; payload = [] });
}

abbrev connected : Realtime Sim
connected = record {
  conn = some 1;
  reconnect_policy = policy;
  closed = false;
  done_closes = 0;
  trials = [];
  connected_at = 0;
  reconnect_count = 0;
  request_id = "r1";
  owner = record {
    session = some (record old_session { refresh_token = "" });
    updates = [];
    requests = [];
    world = record { time = 0; script = [] };
  };
}

abbrev uses : List Use
uses = reading no_deadline 3 ∷ closing ∷ closing ∷ reading no_deadline 1 ∷ []

attempts_of : (read_message sim_net env dialer socket no_deadline 3 connected).1.reconnect_count ≡ 2
unfolding read_message retry_fits_deadline full_jitter retryable_status backoff_cap
attempts_of = refl

read_message-close_example :
    read_message sim_net env dialer socket no_deadline (suc 3) (close connected)
    ≡ (some (err connection_closed), close connected)
read_message-close_example = read_message-close sim_net env dialer socket no_deadline 3 connected

draws_within : DrawsWithin sim_net
draws_within bound w n h e = ground (arith, h, e)

reconnect_delays :
    Within
      (if ltb 1 4 then min (second * 2 ^ (4 - 2)) (30 * second) else 5 * second)
      (reconnect_delay sim_net policy 4 (record { time = 0; script = [] })).0
reconnect_delays =
    reconnect_delay-Within sim_net draws_within policy 4 (5 * second) second (30 * second)
      (record { time = 0; script = [] }) refl refl refl (omega arith) (omega arith) (omega arith)
