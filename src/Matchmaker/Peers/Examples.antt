-- ===== src/Matchmaker/Peers/Examples.antt =====
-- ConnectP2P of matchmaker.go, at a relay whose answer cannot be read.
use ggscale_go.Prelude.{true, [], none}
use ggscale_go.Prelude.Int.{pos}
use ggscale_go.Transport.{Out}
use ggscale_go.Client.Protected.{Spends}
use ggscale_go.Client.Examples.{logged_in, background}
use ggscale_go.Matchmaker.Wait.{wait_for_match}
use ggscale_go.Matchmaker.Peers.{connect_p2p}
use ggscale_go.Matchmaker.Peers.Outcome.{Outcome, connect_p2p-Outcome}
use ggscale_go.Relay.{Credentials}
use ggscale_go.GameSessions.{GameSession, GameSessionAddr}
use ggscale_go.Matchmaker.Examples.{match_env, codec, a_request, dial_works, events}

abbrev creds_out : Out Credentials
creds_out = record {
  wanted = true;
  zero_value = record {
    username = "";
    password = "";
    ttl = pos 0;
    realm = "";
    urls = [];
    stun_urls = [];
    region = "";
  };
  unmarshal = λ b. none;
}

abbrev session_out : Out GameSession
session_out = record {
  wanted = true;
  zero_value = record { session_id = ""; join_code = ""; state = ""; expires_at = 0; peers = [] };
  unmarshal = λ b. none;
}

abbrev self_addr : GameSessionAddr
self_addr = record { ip = "10.0.0.7"; port = pos 7777 }

-- The relay's answer cannot be read, and the match is returned all the same.
connect_p2p-Outcome_example :
    Outcome
      (wait_for_match match_env codec background a_request dial_works events logged_in).0
      (connect_p2p match_env codec creds_out session_out background self_addr a_request dial_works
        events logged_in).0
    × Spends 4 8
        (wait_for_match match_env codec background a_request dial_works events logged_in).1
        (connect_p2p match_env codec creds_out session_out background self_addr a_request dial_works
          events logged_in).1
connect_p2p-Outcome_example =
    connect_p2p-Outcome match_env codec creds_out session_out background self_addr a_request
      dial_works events logged_in
