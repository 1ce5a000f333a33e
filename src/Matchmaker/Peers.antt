-- ===== src/Matchmaker/Peers.antt =====
-- ConnectP2P of matchmaker.go: what a player needs to reach its peers after a match.
pub mod Outcome
pub mod Examples
use ggscale_go.Prelude.{
  Bool, false, not, ◌&&◌, String, List, Option, none, some, if◌then◌else◌, [], ◌∷◌,
}
use ggscale_go.Prelude.Int.{eq_ℤ}
use ggscale_go.Prelude.Text.{str_eq, is_empty}
use ggscale_go.Errors.{GoError}
use ggscale_go.Matchmaker.Criteria.{MatchRequest}
use ggscale_go.Transport.{Result, ok, err, Out, Context}
use ggscale_go.Client.{Session, Env, Client}
use ggscale_go.Relay.{Credentials, RelayOption, with_match, get_credentials}
use ggscale_go.GameSessions.{GameSession, GameSessionAddr, join_session}
use ggscale_go.Matchmaker.{MatchResult, Settlement, pending, settled, Codec}
use ggscale_go.Matchmaker.Wait.{Event, wait_for_match}

pub record P2PMatch : Type 0 where
  pub result : MatchResult
  pub relay : Option Credentials
  pub relay_error : Option GoError
  pub session : Option GameSession
  pub is_host : Bool

-- ModeFleetAllocation and ModeGameSession
abbrev pub fleet_allocation : String
fleet_allocation = "fleet_allocation"

abbrev pub game_session : String
game_session = "game_session"

abbrev pub not_for_fleets : GoError
not_for_fleets =
    GoError.text
      "ggscale: ConnectP2P does not apply to fleet_allocation matches; use MatchResult.Address"

abbrev pub hosts : MatchResult → Option Session → Bool
hosts r none = false
hosts r (some s) = eq_ℤ r.host_player_id s.player_id

-- The match as it is before the calls that follow it.
abbrev pub found_match : MatchResult → Option Session → P2PMatch
found_match r s = record {
  result = r;
  relay = none;
  relay_error = none;
  session = none;
  is_host = hosts r s;
}

abbrev pub with_relay : P2PMatch → Result Credentials → P2PMatch
with_relay p (ok creds) = record p { relay = some creds }
with_relay p (err e) = record p { relay_error = some e }

abbrev pub match_options : MatchResult → List RelayOption
match_options r = with_match r.match_id ∷ []

abbrev pub joins : MatchResult → Bool
joins r = str_eq r.mode game_session && not (is_empty r.session_id)

module _ {W : Type 0} (env : Env W) (codec : Codec) (creds : Out Credentials)
    (joined : Out GameSession) (ctx : Context) (self : GameSessionAddr) where
  abbrev pub with_session : P2PMatch → Result GameSession × Client W → Result P2PMatch × Client W
  with_session p (ok s, c) = (ok (record p { session = some s }), c)
  with_session p (err e, c) = (err (GoError.wrapped "join match session" e), c)

  abbrev pub after_relay : P2PMatch → Result Credentials × Client W → Result P2PMatch × Client W
  after_relay p (r, c) =
      if joins p.result
      then with_session (with_relay p r) (join_session env ctx joined p.result.session_id self c)
      else (ok (with_relay p r), c)

  -- What follows a match.
  unfoldable pub connect : MatchResult → Client W → Result P2PMatch × Client W
  unfolding join_session get_credentials
  connect r c =
      if str_eq r.mode fleet_allocation
      then (err not_for_fleets, c)
      else after_relay (found_match r c.session) (get_credentials env creds ctx (match_options r) c)

  -- It still waits, or has returned.
  abbrev returned : Result P2PMatch × Client W → Option (Result P2PMatch) × Client W
  returned (r, c) = (some r, c)

  abbrev pub after_wait : Settlement × Client W → Option (Result P2PMatch) × Client W
  after_wait (pending, c) = (none, c)
  after_wait (settled (err e), c) = (some (err e), c)
  after_wait (settled (ok r), c) = returned (connect r c)

  -- ConnectP2P, `none` while it waits
  unfoldable pub connect_p2p :
      MatchRequest
      → (Client W → Bool × Client W)
      → List Event
      → Client W
      → Option (Result P2PMatch) × Client W
  unfolding connect wait_for_match
  connect_p2p req dial es c = after_wait (wait_for_match env codec ctx req dial es c)
