-- ===== src/Realtime/Dial.antt =====
-- dialRealtime and dialRealtimeOnce of realtime.go. websocket.Dial is a parameter.
use ggscale_go.Prelude.{ℕ, false, String, Option, none, some, ◌==◌, if◌then◌else◌, []}
use ggscale_go.Prelude.Text.{str_eq}
use ggscale_go.Errors.{Duration, GoError}
use ggscale_go.Transport.{Result, ok, err, Context, with_timeout}
use ggscale_go.Client.{
  Session, Env, Client, no_session, refresh_if_needed, refresh_after_unauthorized,
}
use ggscale_go.Client.New.{ReconnectPolicy}
use ggscale_go.Realtime.{Conn, Realtime}

-- What a handshake comes to: a connection, or an error with the status and the Retry-After of the
-- response, 0 when there is none.
pub data Handshake : Type 0 where
  opened : Conn → Handshake
  refused : ℕ → Duration → GoError → Handshake

-- What the client knows for a dial: the address, or why there is none, the handshake itself with a
-- request id and an access token, and the fields of the client that it reads.
pub record Dialer (W : Type 0) : Type 0 where
  pub socket_url : Result String
  pub handshake : Context → String → String → String → W → Handshake × W
  pub timeout : Duration
  pub policy : ReconnectPolicy

-- The scheme of the socket's address.
unfoldable pub socket_scheme : String → Result String
socket_scheme s =
    if str_eq s "http"
    then ok "ws"
    else if str_eq s "https"
    then ok "wss"
    else err (GoError.text "unsupported WebSocket base URL scheme")

-- What dialRealtimeOnce returns: a client, or an error; with the status and the access token used.
pub record Dialed (W : Type 0) : Type 0 where
  pub result : Result (Realtime W)
  pub status : ℕ
  pub used : String
  pub client : Client W

module _ {W : Type 0} (env : Env W) (dialer : Dialer W) where
  abbrev dial_failed : GoError → Client W → Dialed W
  dial_failed e c = record { result = err e; status = 0; used = ""; client = c }

  abbrev shaken : String → String → Client W → Handshake × W → Dialed W
  shaken id token c (opened conn, w) = record {
    result = ok (record {
      conn = some conn;
      reconnect_policy = dialer.policy;
      closed = false;
      done_closes = 0;
      trials = [];
      connected_at = env.clock.now w;
      reconnect_count = 0;
      request_id = id;
      owner = record c { world = w };
    });
    status = 0;
    used = token;
    client = record c { world = w };
  }
  shaken id token c (refused status after e, w) = record {
    result = err (GoError.dial status after (GoError.wrapped "dial websocket" e));
    status = status;
    used = token;
    client = record c { world = w };
  }

  abbrev with_player : Context → String → String → Client W → Option Session → Dialed W
  with_player ctx id url c none = dial_failed no_session c
  with_player ctx id url c (some s) =
      shaken id s.access_token c (dialer.handshake ctx url id s.access_token c.world)

  abbrev at_url : Context → String → Client W → Result String → Dialed W
  at_url ctx id c (err e) = dial_failed e c
  at_url ctx id c (ok url) = with_player ctx id url c c.session

  -- dialRealtimeOnce
  unfoldable pub dial_realtime_once : Context → String → Client W → Dialed W
  dial_realtime_once ctx id c = at_url ctx id c dialer.socket_url

  abbrev result_of : Dialed W → Result (Realtime W) × Client W
  result_of d = (d.result, d.client)

  abbrev redialed :
      Context → String → GoError → Result (Unit {0}) × Client W → Result (Realtime W) × Client W
  redialed ctx id e (err x, c) = (err e, c)
  redialed ctx id e (ok u, c) = result_of (dial_realtime_once ctx id c)

  abbrev first_dial : Context → String → Dialed W → Result (Realtime W) × Client W
  first_dial ctx id d = elim d.result [
    | ok r ↦ (ok r, d.client)
    | err e ↦
        if d.status == 401
        then redialed ctx id e (refresh_after_unauthorized env ctx d.used d.client)
        else (err e, d.client)
  ]

  abbrev refreshed_dial :
      Context → String → Result (Unit {0}) × Client W → Result (Realtime W) × Client W
  refreshed_dial ctx id (err e, c) = (err e, c)
  refreshed_dial ctx id (ok u, c) = first_dial ctx id (dial_realtime_once ctx id c)

  -- dialRealtime
  unfoldable pub dial_realtime : Context → String → Client W → Result (Realtime W) × Client W
  unfolding dial_realtime_once refresh_if_needed refresh_after_unauthorized with_timeout
  dial_realtime parent id c =
      let ctx = with_timeout env.clock parent dialer.timeout c.world in
      refreshed_dial ctx id (refresh_if_needed env ctx c)

  -- DialRealtime
  unfoldable pub dial_with_fresh_id : Context → Client W → Result (Realtime W) × Client W
  unfolding dial_realtime
  dial_with_fresh_id ctx c =
      let (id, w) = env.fresh_id c.world in dial_realtime ctx id (record c { world = w })
