-- ===== src/Routes.antt =====
-- The paths of storage.go, server.go, fleets.go, game_sessions.go, signals.go and players.go that hold a
-- text of the caller's, as a server reads them.
pub mod Examples
use ggscale_go.Prelude.{ℕ, ◌≡◌, refl, ap, sym, ◌∙◌, String, List, [], ◌∷◌, ◌++◌, map}
use mathlib.Core.List.{append-nil}
use ggscale_go.Prelude.Int.{ℤ}
use ggscale_go.Prelude.Text.{codes, ◌+s◌, format_int}
use ggscale_go.Prelude.Text.Decimal.{codes-append}
use ggscale_go.Transport.{Request}
use ggscale_go.Url.{utf8, path_escape}
use ggscale_go.Url.Escape.{
  route, segments, unescape, segments-path_escape, segments-format_int, unescape-path_escape,
  unescape-format_int,
}
use ggscale_go.Storage.{storage_path}
use ggscale_go.Server.{server_storage_path, list_servers_request}
use ggscale_go.GameSessions.{game_session_path}
use ggscale_go.Players.{friend_code_request}

-- An escaped text that ends a path.
last-escape : (s : String) → segments (codes (path_escape s)) ≡ codes (path_escape s) ∷ []
unfolding segments
last-escape s =
    ap segments (sym (append-nil (codes (path_escape s)))) ∙ segments-path_escape [] [] refl s

storage_path-route :
    (key : String)
    → route (storage_path key) ≡ [] ∷ codes "v1" ∷ codes "storage" ∷ codes "objects" ∷ utf8 key ∷ []
unfolding route storage_path segments
storage_path-route key = rw (
  codes-append "/v1/storage/objects/" (path_escape key),
  last-escape key,
  unescape-path_escape key,
)

game_session_path-route :
    (id suffix : String) (segs : List (List ℕ))
    → segments (codes suffix) ≡ [] ∷ segs
    → route (game_session_path id suffix)
      ≡ [] ∷ codes "v1" ∷ codes "game-session" ∷ utf8 id ∷ map unescape segs
unfolding route game_session_path segments
game_session_path-route id suffix segs h = rw (
  codes-append "/v1/game-session/" (path_escape id +s suffix),
  codes-append (path_escape id) suffix,
  segments-path_escape (codes suffix) segs h id,
  unescape-path_escape id,
)

game_session_bare :
    (id : String)
    → route (game_session_path id "") ≡ [] ∷ codes "v1" ∷ codes "game-session" ∷ utf8 id ∷ []
unfolding route game_session_path segments
game_session_bare id = rw (
  codes-append "/v1/game-session/" (path_escape id +s ""),
  codes-append (path_escape id) "",
  append-nil (codes (path_escape id)),
  last-escape id,
  unescape-path_escape id,
)

server_storage_path-route :
    (player : ℤ) (key : String)
    → route (server_storage_path player key)
      ≡ []
        ∷ codes "v1"
        ∷ codes "server"
        ∷ codes "players"
        ∷ codes (format_int player)
        ∷ codes "storage"
        ∷ codes "objects"
        ∷ utf8 key
        ∷ []
unfolding route server_storage_path segments
server_storage_path-route player key = rw (
  codes-append "/v1/server/players/"
      (format_int player +s ("/storage/objects/" +s path_escape key)),
  codes-append (format_int player) ("/storage/objects/" +s path_escape key),
  codes-append "/storage/objects/" (path_escape key),
  segments-format_int (codes "/storage/objects/" ++ codes (path_escape key))
      (codes "storage" ∷ codes "objects" ∷ codes (path_escape key) ∷ []) (rw (last-escape key))
      player,
  unescape-format_int player,
  unescape-path_escape key,
)

friend_code-route :
    (code : String)
    → route (friend_code_request code).path
      ≡ [] ∷ codes "v1" ∷ codes "players" ∷ codes "by-code" ∷ utf8 code ∷ []
unfolding route friend_code_request segments
friend_code-route code = rw (
  codes-append "/v1/players/by-code/" (path_escape code),
  last-escape code,
  unescape-path_escape code,
)

list_servers-route :
    (fleet : String)
    → route (list_servers_request fleet).path
      ≡ [] ∷ codes "v1" ∷ codes "fleets" ∷ utf8 fleet ∷ codes "servers" ∷ []
unfolding route list_servers_request segments
list_servers-route fleet = rw (
  codes-append "/v1/fleets/" (path_escape fleet +s "/servers"),
  codes-append (path_escape fleet) "/servers",
  segments-path_escape (codes "/servers") (codes "servers" ∷ []) refl fleet,
  unescape-path_escape fleet,
)

-- Whatever text a caller gives for a key, a session, a friend code or a fleet, with slashes, question
-- marks, per cent signs or none of ASCII: a server that cuts the path at its slashes, up to a query or
-- a fragment, and unescapes each segment finds the route that the method means, and in it one segment
-- that is the UTF-8 of this text. So it is for the objects of a player and of another player by id, for
-- a session with each of its suffixes, for friend codes and for fleets.
pub paths-route :
    (key id code fleet : String) (player : ℤ)
    → (route (storage_path key)
        ≡ [] ∷ codes "v1" ∷ codes "storage" ∷ codes "objects" ∷ utf8 key ∷ [])
      × (route (server_storage_path player key)
          ≡ []
            ∷ codes "v1"
            ∷ codes "server"
            ∷ codes "players"
            ∷ codes (format_int player)
            ∷ codes "storage"
            ∷ codes "objects"
            ∷ utf8 key
            ∷ [])
      × (route (game_session_path id "") ≡ [] ∷ codes "v1" ∷ codes "game-session" ∷ utf8 id ∷ [])
      × (route (game_session_path id "/join")
          ≡ [] ∷ codes "v1" ∷ codes "game-session" ∷ utf8 id ∷ codes "join" ∷ [])
      × (route (game_session_path id "/heartbeat")
          ≡ [] ∷ codes "v1" ∷ codes "game-session" ∷ utf8 id ∷ codes "heartbeat" ∷ [])
      × (route (game_session_path id "/signals")
          ≡ [] ∷ codes "v1" ∷ codes "game-session" ∷ utf8 id ∷ codes "signals" ∷ [])
      × (route (friend_code_request code).path
          ≡ [] ∷ codes "v1" ∷ codes "players" ∷ codes "by-code" ∷ utf8 code ∷ [])
      × (route (list_servers_request fleet).path
          ≡ [] ∷ codes "v1" ∷ codes "fleets" ∷ utf8 fleet ∷ codes "servers" ∷ [])
unfolding segments unescape
paths-route key id code fleet player = (
  storage_path-route key,
  server_storage_path-route player key,
  game_session_bare id,
  game_session_path-route id "/join" (codes "join" ∷ []) refl,
  game_session_path-route id "/heartbeat" (codes "heartbeat" ∷ []) refl,
  game_session_path-route id "/signals" (codes "signals" ∷ []) refl,
  friend_code-route code,
  list_servers-route fleet,
)
