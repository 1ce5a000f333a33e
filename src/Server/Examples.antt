-- ===== src/Server/Examples.antt =====
-- The theorem on server.go, at a heartbeat with no room for players and at valid scores.
use ggscale_go.Prelude.{◌≡◌, refl, true, false, List, [], none}
use ggscale_go.Prelude.Int.{pos}
use ggscale_go.Transport.{Out, err}
use ggscale_go.Client.Examples.{client_env, logged_in, background}
use ggscale_go.Storage.Examples.{object_out, page_out}
use ggscale_go.Players.{RemoteAddr}
use ggscale_go.Server.{
  PlayerVerifyResult, Heartbeat, verify_session, fleet_heartbeat, submit_score, player_addrs,
  storage_get, storage_put, storage_list, invalid,
}
use ggscale_go.Server.Sessionless.{SendsIf, SendsOne, server-Sends}

abbrev verified_out : Out PlayerVerifyResult
verified_out = record {
  wanted = true;
  zero_value = record { player_id = pos 0; external_id = ""; email = "" };
  unmarshal = λ b. none;
}

abbrev pub addrs_out : Out (List RemoteAddr)
addrs_out = record { wanted = true; zero_value = []; unmarshal = λ b. none }

abbrev full_server : Heartbeat
full_server = record {
  agones_name = "gs-1";
  fleet = "eu";
  address = "10.0.0.1:7777";
  region = "eu";
  name = "one";
  current_players = pos 0;
  max_players = pos 0;
  game_mode = "duel";
  level = "";
  version = "1";
}

server-Sends_example :
    SendsIf client_env true (verify_session client_env background verified_out "jwt") logged_in
    × SendsIf client_env false (fleet_heartbeat client_env background full_server) logged_in
    × SendsIf client_env true
        (submit_score client_env background (pos 7) (pos 1) (pos 90) [])
        logged_in
    × SendsOne client_env (player_addrs client_env background addrs_out (pos 7)) logged_in
    × SendsOne client_env (storage_get client_env background object_out (pos 7) "save") logged_in
    × SendsOne client_env
        (storage_put client_env background object_out (pos 7) "save" none [])
        logged_in
    × SendsOne client_env
        (storage_list client_env background page_out
          (pos 7)
          (record { key_prefix = ""; limit = pos 0; cursor = "" }))
        logged_in
server-Sends_example =
    server-Sends client_env background logged_in verified_out "jwt" full_server (pos 7) (pos 1)
      (pos 90) [] addrs_out object_out "save" none [] page_out
      (record { key_prefix = ""; limit = pos 0; cursor = "" })

no_room :
    (fleet_heartbeat client_env background full_server logged_in).0
    ≡ err (invalid "heartbeat max_players must be > 0")
unfolding fleet_heartbeat
no_room = refl
