-- ===== src/Server/Sessionless.antt =====
-- What the operations of server.go leave alone, and what they refuse to send.
use ggscale_go.Prelude.{
  ◌≡◌, refl, Bool, true, false, ◌||◌, String, List, [], ◌∷◌, ◌++◌, Option, not, ◌&&◌, if◌then◌else◌,
}
use ggscale_go.Prelude.Int.{ℤ, pos, leb_ℤ}
use ggscale_go.Prelude.Text.{is_empty}
use ggscale_go.Errors.{GoError}
use ggscale_go.Transport.{Json, Result, err, Request, Out, no_out, Context}
use ggscale_go.Client.{Session, Env, Client, M, fail, send}
use ggscale_go.Storage.{Object, ObjectPage, ListOptions, PutOption}
use ggscale_go.Leaderboards.{ScoreOption}
use ggscale_go.Players.{RemoteAddr}
use ggscale_go.Server.{
  PlayerVerifyResult, Heartbeat, verify_session, fleet_heartbeat, submit_score, player_addrs,
  storage_get, storage_put, storage_list, verify_session_request, fleet_heartbeat_request,
  submit_score_request, player_addrs_request, storage_get_request, storage_put_request,
  storage_list_request,
}

module _ {W : Type 0} (env : Env W) where
  -- Under the client's key, and with no player's session.
  abbrev pub IsKeyed : Request → Type 0
  IsKeyed r = (r.api_key ≡ env.api_key) × (r.session_token ≡ "")

  abbrev pub with_session :
      {A : Type 0} → Option Session → Result A × Client W → Result A × Client W
  with_session o (r, c) = (r, record c { session = o })

  -- An operation makes one request, does not touch the session, and does not read it: under any other
  -- session it does the same.
  pub record SendsOne {A : Type 0} (m : M W A) (c : Client W) : Type 0 where
    pub sent : Request
    pub is_keyed : IsKeyed sent
    pub appended : (m c).1.requests ≡ c.requests ++ sent ∷ []
    pub session_kept : (m c).1.session ≡ c.session
    pub updates_kept : (m c).1.updates ≡ c.updates
    pub unread : (o : Option Session) → m (record c { session = o }) ≡ with_session o (m c)

  -- A call whose arguments are refused fails and leaves all as it was; another one makes a request.
  abbrev pub SendsIf : {A : Type 0} → Bool → M W A → Client W → Type 0
  SendsIf false m c = ((e : GoError) × ((m c).0 ≡ err e)) × ((m c).1 ≡ c)
  SendsIf true m c = SendsOne m c

  sends :
      {A : Type 0} (out : Out A) (ctx : Context) (r : Request) (c : Client W)
      → IsKeyed r
      → SendsOne (send env out ctx r) c
  sends out ctx r c h = record {
    sent = r;
    is_keyed = h;
    appended = refl;
    session_kept = refl;
    updates_kept = refl;
    unread = λ o. refl;
  }

  -- A guard in front of a request.
  guarded :
      {A : Type 0} (b : Bool) (e : GoError) (k : M W A) (c : Client W)
      → SendsOne k c
      → SendsIf (not b) (if b then fail e else k) c
  guarded true e k c h = ((e, refl), refl)
  guarded false e k c h = h

  abbrev pub complete : Heartbeat → Bool
  complete hb =
      not (is_empty hb.agones_name || is_empty hb.fleet || is_empty hb.address)
      && not (leb_ℤ hb.max_players (pos 0))

  heartbeat_guards :
      (b d : Bool) (e f : GoError) (k : M W (Unit {0})) (c : Client W)
      → SendsOne k c
      → SendsIf (not b && not d) (if b then fail e else if d then fail f else k) c
  heartbeat_guards true d e f k c h = ((e, refl), refl)
  heartbeat_guards false d e f k c h = guarded d f k c h

  -- VerifySession, FleetHeartbeat, SubmitScore, PlayerRemoteAddrs, StorageGet, StoragePut and StorageList
  -- each make one request, under the client's key and with no session, and neither change the session
  -- that the client holds nor read it: under another one they return the same and do the same. But
  -- VerifySession of no token, FleetHeartbeat without a name, a fleet, an address or room for a player,
  -- and SubmitScore for an id that is not positive fail and send nothing at all.
  pub server-Sends :
      (ctx : Context) (c : Client W) (verified : Out PlayerVerifyResult) (token : String)
      (hb : Heartbeat) (player board score : ℤ) (scored : List ScoreOption)
      (addrs : Out (List RemoteAddr)) (object : Out Object) (key : String) (value : Option Json)
      (opts : List PutOption) (page : Out ObjectPage) (o : ListOptions)
      → SendsIf (not (is_empty token)) (verify_session env ctx verified token) c
        × SendsIf (complete hb) (fleet_heartbeat env ctx hb) c
        × SendsIf (not (leb_ℤ player (pos 0))) (submit_score env ctx player board score scored) c
        × SendsOne (player_addrs env ctx addrs player) c
        × SendsOne (storage_get env ctx object player key) c
        × SendsOne (storage_put env ctx object player key value opts) c
        × SendsOne (storage_list env ctx page player o) c
  unfolding verify_session fleet_heartbeat submit_score player_addrs storage_get storage_put
      storage_list
  server-Sends ctx c verified token hb player board score scored addrs object key value opts page
        o =
      (
        guarded (is_empty token) _ (send env verified ctx (verify_session_request env token)) c
            (sends verified ctx (verify_session_request env token) c (refl, refl)),
        heartbeat_guards _ _ _ _ (send env no_out ctx (fleet_heartbeat_request env hb)) c
            (sends no_out ctx (fleet_heartbeat_request env hb) c (refl, refl)),
        guarded (leb_ℤ player (pos 0)) _
            (send env no_out ctx (submit_score_request env player board score scored)) c
            (sends no_out ctx (submit_score_request env player board score scored) c (refl, refl)),
        sends addrs ctx (player_addrs_request env player) c (refl, refl),
        sends object ctx (storage_get_request env player key) c (refl, refl),
        sends object ctx (storage_put_request env player key value opts) c (refl, refl),
        sends page ctx (storage_list_request env player o) c (refl, refl),
      )
