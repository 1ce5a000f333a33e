-- ===== src/GameSessions.antt =====
-- game_sessions.go: player-hosted games. Their signals are in Signals.
pub mod Signals
use ggscale_go.Prelude.{ℕ, Bool, String, List, [], ◌∷◌, Option}
use ggscale_go.Prelude.Int.{ℤ}
use ggscale_go.Prelude.Text.{◌+s◌}
use ggscale_go.Errors.{Bytes}
use ggscale_go.Transport.{
  Json, object, field, int, string, done, Request, request, Result, ok, err, Out, no_out, Context,
}
use ggscale_go.Transport.Build.{
  Query, with_body, with_param, with_positive, omit_nil, omit_raw, omit_empty, omit_zero,
  omit_false,
}
use ggscale_go.Url.{path_escape}
use ggscale_go.Client.{Env, Client, M, call_protected}
use ggscale_go.Pagination.Listing.{all_pages, Listing}

pub record GameSessionAddr : Type 0 where
  pub ip : String
  pub port : ℤ

pub record GameSessionPeer : Type 0 where
  pub player_id : ℤ
  pub xuid : String
  pub display_name : String
  pub addr : GameSessionAddr

pub record GameSession : Type 0 where
  pub session_id : String
  pub join_code : String
  pub state : String
  pub expires_at : ℕ
  pub peers : List GameSessionPeer

pub record PublicGameSession : Type 0 where
  pub session_id : String
  pub title_id : String
  pub props : Bytes
  pub player_count : ℤ
  pub max_players : ℤ
  pub host_player_id : ℤ
  pub host_display_name : String
  pub created_at : ℕ

pub record GameSessionListOptions : Type 0 where
  pub title_id : String
  pub limit : ℤ
  pub cursor : String

pub record GameSessionPage : Type 0 where
  pub items : List PublicGameSession
  pub next_cursor : String

pub record GameSessionCreate : Type 0 where
  pub title_id : String
  pub public_addr : GameSessionAddr
  pub props : Bytes
  pub max_players : ℤ
  pub is_private : Bool

-- gameSessionHeartbeatResponse
pub record HeartbeatResponse : Type 0 where
  pub is_ok : Bool
  pub peers : List GameSessionPeer

abbrev addr_json : GameSessionAddr → Json
addr_json a = object (field "ip" (string a.ip) (field "port" (int a.port) done))

abbrev create_json : GameSessionCreate → Json
create_json r = object (
    omit_empty "title_id" r.title_id (
      field "public_addr" (addr_json r.public_addr) (
        omit_raw "props" r.props
          (omit_zero "max_players" r.max_players (omit_false "private" r.is_private done)))))

-- gameSessionJoinBody
abbrev join_json : GameSessionAddr → Json
join_json a = object (field "public_addr" (addr_json a) done)

-- The path of a session, with what follows its id.
unfoldable pub game_session_path : String → String → String
unfolding path_escape
game_session_path id suffix = "/v1/game-session/" +s (path_escape id +s suffix)

unfoldable pub create_session_request : GameSessionCreate → Request
create_session_request r =
    with_body (request "createGameSession" "POST" "/v1/game-session") (create_json r)

unfoldable pub get_session_request : String → Request
unfolding game_session_path
get_session_request id = request "getGameSession" "GET" (game_session_path id "")

unfoldable pub resolve_session_request : String → Request
resolve_session_request join_code = record (request "resolveGameSession" "GET" "/v1/game-session") {
  query = ("joinCode", join_code) ∷ [];
}

unfoldable pub join_session_request : String → GameSessionAddr → Request
unfolding game_session_path
join_session_request id addr =
    with_body (request "joinGameSession" "POST" (game_session_path id "/join")) (join_json addr)

unfoldable pub heartbeat_session_request : String → Option Bytes → Request
unfolding game_session_path
heartbeat_session_request id qos =
    with_body (request "heartbeatGameSession" "POST" (game_session_path id "/heartbeat"))
      (object (omit_nil "qos" qos done))

unfoldable pub leave_session_request : String → Request
unfolding game_session_path
leave_session_request id = request "leaveGameSession" "DELETE" (game_session_path id "")

abbrev list_query : GameSessionListOptions → Query
list_query o =
    with_param "cursor" o.cursor
      (with_positive "limit" o.limit (with_param "title_id" o.title_id []))

unfoldable pub list_sessions_request : GameSessionListOptions → Request
list_sessions_request o = record (request "listGameSessions" "GET" "/v1/game-sessions") {
  query = list_query o;
}

-- A response that has one field is decoded as this field.
module _ {W : Type 0} (env : Env W) (ctx : Context) where
  -- Create
  unfoldable pub create_session : Out GameSession → GameSessionCreate → M W GameSession
  unfolding create_session_request
  create_session out r = call_protected env out ctx (create_session_request r)

  -- Get
  unfoldable pub get_session : Out GameSession → String → M W GameSession
  unfolding get_session_request
  get_session out id = call_protected env out ctx (get_session_request id)

  -- Resolve
  unfoldable pub resolve_session : Out String → String → M W String
  unfolding resolve_session_request
  resolve_session out join_code = call_protected env out ctx (resolve_session_request join_code)

  -- Join
  unfoldable pub join_session : Out GameSession → String → GameSessionAddr → M W GameSession
  unfolding join_session_request
  join_session out id addr = call_protected env out ctx (join_session_request id addr)

  abbrev peers_of : Result HeartbeatResponse × Client W → Result (List GameSessionPeer) × Client W
  peers_of (ok r, c) = (ok r.peers, c)
  peers_of (err e, c) = (err e, c)

  -- Heartbeat
  unfoldable pub heartbeat_session :
      Out HeartbeatResponse → String → Option Bytes → M W (List GameSessionPeer)
  unfolding heartbeat_session_request
  heartbeat_session out id qos c =
      peers_of (call_protected env out ctx (heartbeat_session_request id qos) c)

  -- Leave
  unfoldable pub leave_session : String → M W (Unit {0})
  unfolding leave_session_request
  leave_session id = call_protected env no_out ctx (leave_session_request id)

  -- List
  unfoldable pub list_sessions : Out GameSessionPage → GameSessionListOptions → M W GameSessionPage
  unfolding list_sessions_request
  list_sessions out o = call_protected env out ctx (list_sessions_request o)

  -- All
  unfoldable pub all_sessions :
      Out GameSessionPage → GameSessionListOptions → Listing PublicGameSession W
  unfolding list_sessions all_pages
  all_sessions out o =
      all_pages o.cursor (λ cursor. list_sessions out (record o { cursor = cursor })) (λ p. p.items)
        (λ p. p.next_cursor)
