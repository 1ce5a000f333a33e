-- ===== src/Routes/Examples.antt =====
-- Paths that hold texts of the caller's, as a server reads them.
use ggscale_go.Prelude.{◌≡◌, refl, [], ◌∷◌}
use ggscale_go.Prelude.Int.{negsuc}
use ggscale_go.Prelude.Text.{codes, format_int}
use ggscale_go.Url.{utf8}
use ggscale_go.Url.Escape.{route}
use ggscale_go.Storage.{storage_path}
use ggscale_go.Server.{server_storage_path, list_servers_request}
use ggscale_go.GameSessions.{game_session_path}
use ggscale_go.Players.{friend_code_request}
use ggscale_go.Routes.{paths-route}

paths-route_example :
    (route (storage_path "a/../b?c")
      ≡ [] ∷ codes "v1" ∷ codes "storage" ∷ codes "objects" ∷ utf8 "a/../b?c" ∷ [])
    × (route (server_storage_path (negsuc 4) "a/../b?c")
        ≡ []
          ∷ codes "v1"
          ∷ codes "server"
          ∷ codes "players"
          ∷ codes (format_int (negsuc 4))
          ∷ codes "storage"
          ∷ codes "objects"
          ∷ utf8 "a/../b?c"
          ∷ [])
    × (route (game_session_path "s#1" "")
        ≡ [] ∷ codes "v1" ∷ codes "game-session" ∷ utf8 "s#1" ∷ [])
    × (route (game_session_path "s#1" "/join")
        ≡ [] ∷ codes "v1" ∷ codes "game-session" ∷ utf8 "s#1" ∷ codes "join" ∷ [])
    × (route (game_session_path "s#1" "/heartbeat")
        ≡ [] ∷ codes "v1" ∷ codes "game-session" ∷ utf8 "s#1" ∷ codes "heartbeat" ∷ [])
    × (route (game_session_path "s#1" "/signals")
        ≡ [] ∷ codes "v1" ∷ codes "game-session" ∷ utf8 "s#1" ∷ codes "signals" ∷ [])
    × (route (friend_code_request "ü 1").path
        ≡ [] ∷ codes "v1" ∷ codes "players" ∷ codes "by-code" ∷ utf8 "ü 1" ∷ [])
    × (route (list_servers_request "100%").path
        ≡ [] ∷ codes "v1" ∷ codes "fleets" ∷ utf8 "100%" ∷ codes "servers" ∷ [])
paths-route_example = paths-route "a/../b?c" "s#1" "ü 1" "100%" (negsuc 4)

two_bytes : utf8 "ü" ≡ 195 ∷ 188 ∷ []
unfolding utf8
two_bytes = refl
