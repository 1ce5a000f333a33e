-- ===== src/Client/Examples.antt =====
-- The theorems on client.go, at a server that answers every refresh with a new session.
use ggscale_go.Prelude.{
  ℕ, ◌+◌, ◌≤◌, ◌≡◌, refl, true, false, [], none, some, length, String, Option, ◌∷◌,
}
use ggscale_go.Prelude.Int.{pos, negsuc}
use ggscale_go.Prelude.Text.{trim_slashes}
use ggscale_go.StdNet.Simulation.{default_transport, Sim, sim_net, dial_fault, respond}
use ggscale_go.StdNet.{failed}
use ggscale_go.StdNet.Call.{as_transport}
use ggscale_go.Transport.{
  Result, ok, err, no_out, Context, request, Request, Transport, no_metadata,
}
use ggscale_go.Client.{
  Session, Env, Client, call_protected, auth_refresh, refresh_after_unauthorized,
}
use ggscale_go.Client.New.{Url, Options, Settings, new_client, UsableResult, new_client-Usable}
use ggscale_go.Client.Persistence.{
  InSync, InSync-call_protected, LateNotification, late_notification,
}
use ggscale_go.Client.Protected.{Spends, Spends-call_protected}
use ggscale_go.Client.Sent.{Adds, Sent, Adds-call_protected}
use ggscale_go.Client.Calls.{id_of}
use ggscale_go.Client.Refresh.{herd, Rotates, RotatesOnce, herd-updates}

abbrev pub old_session : Session
old_session = record {
  access_token = "old";
  refresh_token = "r0";
  player_id = pos 7;
  expires_at = 100_000_000_000;
}

abbrev pub new_session : Session
new_session = record old_session { access_token = "new"; refresh_token = "r1" }

-- Every answer is what its decoder makes of a body; the world counts the calls.
abbrev pub server : Transport ℕ
server = record {
  call = λ A out ctx req w. record {
    result = ok out.zero_value;
    metadata = no_metadata;
    world = w + 1;
  };
}

abbrev pub client_env : Env ℕ
client_env = record {
  transport = server;
  clock = record { now = λ w. w; cancelled_at = λ w. none };
  fresh_id = λ w. ("r1", w);
  session_out = record {
    wanted = true;
    zero_value = new_session;
    unmarshal = λ b. some new_session;
  };
  api_key = "k";
  call_timeout = pos 0;
}

abbrev pub logged_in : Client ℕ
logged_in = record { session = some old_session; updates = []; requests = []; world = 0 }

abbrev pub background : Context
background = record { deadline = none; cancellable = false }

server-Rotates : Rotates client_env background "old"
unfolding auth_refresh
server-Rotates token c s e = let p : s ≡ new_session = cc in rw p

herd-updates_example :
    (length (herd client_env background 5 "old" logged_in).updates ≤ 0 + 1)
    × RotatesOnce client_env background 5 "old" logged_in
herd-updates_example = herd-updates client_env background 5 "old" logged_in refl server-Rotates

one_refresh : length (herd client_env background 5 "old" logged_in).requests ≡ 1
unfolding herd refresh_after_unauthorized
one_refresh = refl

Spends-call_protected_example :
    Spends 2 4 logged_in
      (call_protected client_env no_out background
        (request "getProfile" "GET" "/v1/profile")
        logged_in).1
Spends-call_protected_example =
    Spends-call_protected client_env no_out background (request "getProfile" "GET" "/v1/profile")
      logged_in

Adds-call_protected_example :
    let req = request "getProfile" "GET" "/v1/profile" in
    Adds
      (Sent client_env req (id_of client_env req logged_in))
      logged_in
      (call_protected client_env no_out background req logged_in).1
Adds-call_protected_example =
    Adds-call_protected client_env no_out background (request "getProfile" "GET" "/v1/profile")
      logged_in

abbrev told : Client ℕ
told = record logged_in { updates = some old_session ∷ [] }

InSync-call_protected_example :
    InSync
      (call_protected client_env no_out background
        (request "getProfile" "GET" "/v1/profile")
        told).1
InSync-call_protected_example =
    InSync-call_protected client_env no_out background (request "getProfile" "GET" "/v1/profile")
      told refl

late_notification_example : LateNotification (some old_session) none logged_in
late_notification_example = late_notification (some old_session) none logged_in

abbrev options : Options
options = record {
  has_transport = false;
  base_url = "https://api.example/";
  api_key = "k";
  user_agent = "";
  call_timeout = pos 0;
  max_response_body_bytes = pos 0;
  retry_policy = default_transport.retry_policy;
  web_socket_handshake_timeout = pos 0;
  realtime_read_limit = negsuc 3;
  reconnect_policy = record {
    disabled = false;
    max_attempts = pos 0;
    first_delay_max = pos 0;
    base_delay = pos 7;
    max_delay = pos 0;
    jitter = none;
  };
}

-- What url.Parse returns for that address.
abbrev parse : String → Option Url
parse u = some (record {
  scheme = "https";
  host = "api.example";
  has_user = false;
  raw_query = "";
  fragment = "";
})

new_client-Usable_example : UsableResult parse options (new_client parse options)
new_client-Usable_example = new_client-Usable parse options

abbrev kept_url : Result Settings → String
kept_url (ok s) = s.base_url
kept_url (err e) = ""

is_trimmed : kept_url (new_client parse options) ≡ "https://api.example"
unfolding new_client trim_slashes
is_trimmed = refl

-- A client over the default transport, and a network whose first attempt gets no connection.
abbrev pub sim_env : Env Sim
sim_env = record {
  transport = as_transport sim_net default_transport;
  clock = sim_net.clock;
  fresh_id = sim_net.fresh_id;
  session_out = client_env.session_out;
  api_key = "k";
  call_timeout = pos 0;
}

abbrev pub sim_client : Client (Sim × ℕ)
sim_client = record {
  session = some (record old_session { expires_at = 1_000_000_000_000 });
  updates = [];
  requests = [];
  world = (record { time = 0; script = failed dial_fault ∷ respond 401 ∷ respond 204 ∷ [] }, 0);
}

abbrev presence_put : Request
presence_put = request "updatePresence" "PUT" "/v1/presence"
