-- ===== src/Server.antt =====
-- server.go and fleets.go: what a trusted backend asks for with a secret key and no session, and the
-- list of live servers that a player asks for.
pub mod Sessionless
pub mod Examples
use ggscale_go.Prelude.{Bool, ◌||◌, String, List, [], ◌∷◌, Option, if◌then◌else◌}
use ggscale_go.Prelude.Int.{ℤ, pos, leb_ℤ}
use ggscale_go.Prelude.Text.{◌+s◌, format_int, is_empty}
use ggscale_go.Errors.{Bytes, GoError}
use ggscale_go.Transport.{
  Json, object, field, int, string, done, Request, request, Out, no_out, Context,
}
use ggscale_go.Transport.Build.{Query, with_body, with_param, with_positive, omit_raw}
use ggscale_go.Url.{path_escape}
use ggscale_go.Client.{Env, M, fail, send, call_protected}
use ggscale_go.Pagination.Listing.{all_pages, Listing}
use ggscale_go.Storage.{
  Object, ObjectPage, StorageObjectMetadata, ListOptions, PutOption, configured, no_condition,
  put_body, list_query,
}
use ggscale_go.Leaderboards.{ScoreOption, with_options}
use ggscale_go.Players.{RemoteAddr}

pub record PlayerVerifyResult : Type 0 where
  pub player_id : ℤ
  pub external_id : String
  pub email : String

-- Heartbeat of fleets.go
pub record Heartbeat : Type 0 where
  pub agones_name : String
  pub fleet : String
  pub address : String
  pub region : String
  pub name : String
  pub current_players : ℤ
  pub max_players : ℤ
  pub game_mode : String
  pub level : String
  pub version : String

-- Server of fleets.go
pub record LiveServer : Type 0 where
  pub name : String
  pub address : String
  pub region : String
  pub current_players : ℤ
  pub max_players : ℤ
  pub game_mode : String
  pub level : String
  pub version : String

abbrev heartbeat_json : Heartbeat → Json
heartbeat_json h = object (
    field "agones_name" (string h.agones_name) (
      field "fleet" (string h.fleet) (
        field "address" (string h.address) (
          field "region" (string h.region) (
            field "name" (string h.name) (
              field "current_players" (int h.current_players) (
                field "max_players" (int h.max_players) (
                  field "game_mode" (string h.game_mode) (
                    field "level" (string h.level)
                      (field "version" (string h.version) done))))))))))

-- serverSubmitScoreRequest
abbrev server_score_json : ℤ → ℤ → Bytes → Json
server_score_json player score metadata =
    object (
      field "player_id" (int player)
        (field "score" (int score) (omit_raw "metadata" metadata done)))

abbrev player_path : ℤ → String → String
player_path player suffix = "/v1/server/players/" +s (format_int player +s suffix)

-- serverStoragePath
unfoldable pub server_storage_path : ℤ → String → String
unfolding format_int
server_storage_path player key = player_path player ("/storage/objects/" +s path_escape key)

-- The error of an argument that a method refuses.
abbrev pub invalid : String → GoError
invalid why = GoError.text ("ggscale: " +s why)

unfoldable pub list_servers_request : String → Request
unfolding path_escape
list_servers_request fleet =
    request "fleetServersList" "GET" ("/v1/fleets/" +s (path_escape fleet +s "/servers"))

module _ {W : Type 0} (env : Env W) where
  abbrev keyed : Request → Request
  keyed r = record r { api_key = env.api_key }

  unfoldable pub verify_session_request : String → Request
  verify_session_request token =
      with_body (keyed (request "verifyPlayerSession" "POST" "/v1/server/player-sessions/verify"))
        (object (field "session_token" (string token) done))

  unfoldable pub fleet_heartbeat_request : Heartbeat → Request
  fleet_heartbeat_request hb =
      with_body (keyed (request "fleetHeartbeat" "POST" "/v1/fleets/heartbeat")) (heartbeat_json hb)

  unfoldable pub submit_score_request : ℤ → ℤ → ℤ → List ScoreOption → Request
  unfolding with_options format_int
  submit_score_request player board score opts =
      with_body
        (keyed (
          request "serverSubmitScore" "POST"
            ("/v1/server/leaderboards/" +s (format_int board +s "/scores"))))
        (server_score_json player score
          (with_options opts (record { score = score; metadata = [] })).metadata)

  unfoldable pub player_addrs_request : ℤ → Request
  unfolding format_int
  player_addrs_request player =
      keyed (request "serverGetPlayerRemoteAddrs" "GET" (player_path player "/remote-addrs"))

  unfoldable pub storage_get_request : ℤ → String → Request
  unfolding server_storage_path
  storage_get_request player key =
      keyed (request "serverGetStorageObject" "GET" (server_storage_path player key))

  unfoldable pub storage_put_request : ℤ → String → Option Json → List PutOption → Request
  unfolding server_storage_path configured
  storage_put_request player key value opts =
      record (with_body
        (keyed (request "serverPutStorageObject" "PUT" (server_storage_path player key)))
        (put_body value)) { if_match = (configured opts no_condition).if_match }

  unfoldable pub storage_list_request : ℤ → ListOptions → Request
  unfolding format_int
  storage_list_request player o =
      record (keyed
        (request "serverListStorageObjects" "GET" (player_path player "/storage/objects"))) {
          query = list_query o;
        }

  module _ (ctx : Context) where
    -- VerifySession
    unfoldable pub verify_session : Out PlayerVerifyResult → String → M W PlayerVerifyResult
    unfolding verify_session_request
    verify_session out token =
        if is_empty token
        then fail (invalid "session token is required")
        else send env out ctx (verify_session_request token)

    -- FleetHeartbeat
    unfoldable pub fleet_heartbeat : Heartbeat → M W (Unit {0})
    unfolding fleet_heartbeat_request
    fleet_heartbeat hb =
        if is_empty hb.agones_name || is_empty hb.fleet || is_empty hb.address
        then fail (invalid "heartbeat requires agones_name, fleet, and address")
        else if leb_ℤ hb.max_players (pos 0)
        then fail (invalid "heartbeat max_players must be > 0")
        else send env no_out ctx (fleet_heartbeat_request hb)

    -- SubmitScore
    unfoldable pub submit_score : ℤ → ℤ → ℤ → List ScoreOption → M W (Unit {0})
    unfolding submit_score_request
    submit_score player board score opts =
        if leb_ℤ player (pos 0)
        then fail (invalid "player ID must be greater than zero")
        else send env no_out ctx (submit_score_request player board score opts)

    -- PlayerRemoteAddrs
    unfoldable pub player_addrs : Out (List RemoteAddr) → ℤ → M W (List RemoteAddr)
    unfolding player_addrs_request
    player_addrs out player = send env out ctx (player_addrs_request player)

    -- StorageGet
    unfoldable pub storage_get : Out Object → ℤ → String → M W Object
    unfolding storage_get_request
    storage_get out player key = send env out ctx (storage_get_request player key)

    -- StoragePut
    unfoldable pub storage_put : Out Object → ℤ → String → Option Json → List PutOption → M W Object
    unfolding storage_put_request
    storage_put out player key value opts =
        send env out ctx (storage_put_request player key value opts)

    -- StorageList
    unfoldable pub storage_list : Out ObjectPage → ℤ → ListOptions → M W ObjectPage
    unfolding storage_list_request
    storage_list out player o = send env out ctx (storage_list_request player o)

    -- StorageAll
    unfoldable pub storage_all : Out ObjectPage → ℤ → ListOptions → Listing StorageObjectMetadata W
    unfolding storage_list all_pages
    storage_all out player o =
        all_pages o.cursor (λ cursor. storage_list out player (record o { cursor = cursor }))
          (λ p. p.items) (λ p. p.next_cursor)

    -- SendHeartbeat of fleets.go
    unfoldable pub send_heartbeat : Heartbeat → M W (Unit {0})
    unfolding fleet_heartbeat
    send_heartbeat hb = fleet_heartbeat hb

    -- ListServers of fleets.go
    unfoldable pub list_servers : Out (List LiveServer) → String → M W (List LiveServer)
    unfolding list_servers_request
    list_servers out fleet =
        if is_empty fleet
        then fail (invalid "ListServers requires fleet")
        else call_protected env out ctx (list_servers_request fleet)
