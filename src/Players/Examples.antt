-- ===== src/Players/Examples.antt =====
-- The theorem on the ids of players.go.
use ggscale_go.Prelude.{◌≡◌, refl, [], ◌∷◌}
use ggscale_go.Prelude.Int.{pos, negsuc}
use ggscale_go.Players.{resolve_players_request, join_ids}
use ggscale_go.Players.Ids.{ids_of, resolve_players_request-ids}

resolve_players_request-ids_example :
    ids_of (resolve_players_request (pos 12 ∷ pos 0 ∷ negsuc 4 ∷ [])).query
    ≡ pos 12 ∷ pos 0 ∷ negsuc 4 ∷ []
resolve_players_request-ids_example = resolve_players_request-ids (pos 12) (pos 0 ∷ negsuc 4 ∷ [])

three_ids : join_ids (pos 12 ∷ pos 0 ∷ negsuc 4 ∷ []) ≡ "12,0,-5"
unfolding join_ids
three_ids = refl
