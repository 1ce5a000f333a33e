-- ===== src/Replay.antt =====
-- Every request that the SDK's methods make, sorted by whether transport_stdnet.go may repeat it after
-- a failure that the server may have acted on.
pub mod Sound
pub mod Examples
use ggscale_go.Prelude.{Bool, String, List, Option}
use ggscale_go.Prelude.Int.{ℤ}
use ggscale_go.Errors.{Bytes}
use ggscale_go.Transport.{Json, Request}
use ggscale_go.Client.{Env, refresh_request}
use ggscale_go.Auth.{
  signup_request, verify_request, logout_request, resend_request, reset_request,
  confirm_reset_request, cancel_delete_request, login_request, custom_token_request, steam_request,
  link_email_request, link_steam_request, change_password_request, disable_request, delete_request,
}
use ggscale_go.Auth.Anonymous.{anonymous_request}
use ggscale_go.Config.{config_request}
use ggscale_go.Friends.{
  FriendsListOptions, list_friends_request, request_friend_request, accept_friend_request,
  reject_friend_request, remove_friend_request, block_friend_request, unblock_friend_request,
  friend_addrs_request, create_invite_request, list_game_invites_request, delete_invite_request,
  presence_request,
}
use ggscale_go.GameSessions.{
  GameSessionCreate, GameSessionAddr, GameSessionListOptions, create_session_request,
  get_session_request, resolve_session_request, join_session_request, heartbeat_session_request,
  leave_session_request, list_sessions_request,
}
use ggscale_go.GameSessions.Signals.{
  SendGameSessionSignal, send_signal_request, poll_signals_request,
}
use ggscale_go.Leaderboards.{
  ScoreOption, LeaderboardPeriodsOptions, list_leaderboards_request, submit_request, top_request,
  around_me_request, friends_scores_request, periods_request, period_top_request,
}
use ggscale_go.Matchmaker.Criteria.{MatchRequest}
use ggscale_go.Matchmaker.{create_ticket_request, get_ticket_request, cancel_ticket_request}
use ggscale_go.Parties.{PartyProperties}
use ggscale_go.Parties.Requests.{
  create_request, current_request, get_request, update_request, disband_request, heartbeat_request,
  join_request, leave_request, ready_request, kick_request, create_code_request,
  revoke_code_request, invite_friend_request, list_invites_request, accept_invite_request,
  decline_invite_request, queue_request, cancel_queue_request, rematch_request,
}
use ggscale_go.Players.{
  ProfilePatch, RemoteAddr, get_player_request, resolve_players_request, friend_code_request,
  get_profile_request, update_profile_request, regenerate_code_request, account_addrs_request,
  set_addrs_request, health_request,
}
use ggscale_go.Realtime.Socket.{create_realtime_ticket_request}
use ggscale_go.Relay.{RelayOption, credentials_request}
use ggscale_go.Server.{
  Heartbeat, list_servers_request, verify_session_request, fleet_heartbeat_request,
  submit_score_request, player_addrs_request, storage_get_request, storage_put_request,
  storage_list_request,
}
use ggscale_go.Storage.{
  PutOption, ListOptions, get_object_request, put_object_request, delete_object_request,
  list_objects_request,
}

-- The requests that read.
pub data Reads {W : Type 0} (env : Env W) : Request → Type 0 where
  reads_config : (key etag : String) → Reads env (config_request key etag)
  reads_friends : (o : FriendsListOptions) → Reads env (list_friends_request o)
  reads_friend_addrs : (player : ℤ) → Reads env (friend_addrs_request player)
  reads_game_invites : Reads env list_game_invites_request
  reads_session : (id : String) → Reads env (get_session_request id)
  reads_join_code : (code : String) → Reads env (resolve_session_request code)
  reads_sessions : (o : GameSessionListOptions) → Reads env (list_sessions_request o)
  reads_signals : (id : String) (after_id : ℤ) → Reads env (poll_signals_request id after_id)
  reads_leaderboards : Reads env list_leaderboards_request
  reads_top : (id limit : ℤ) → Reads env (top_request id limit)
  reads_around_me : (id radius : ℤ) → Reads env (around_me_request id radius)
  reads_friends_scores : (id : ℤ) → Reads env (friends_scores_request id)
  reads_periods : (id : ℤ) (o : LeaderboardPeriodsOptions) → Reads env (periods_request id o)
  reads_period_top : (id period limit : ℤ) → Reads env (period_top_request id period limit)
  reads_ticket : (id : ℤ) → Reads env (get_ticket_request id)
  reads_current_party : Reads env current_request
  reads_party : (id : ℤ) → Reads env (get_request id)
  reads_party_invites : Reads env list_invites_request
  reads_player : (id : ℤ) → Reads env (get_player_request id)
  reads_players : (ids : List ℤ) → Reads env (resolve_players_request ids)
  reads_friend_code : (code : String) → Reads env (friend_code_request code)
  reads_profile : Reads env get_profile_request
  reads_account_addrs : Reads env account_addrs_request
  reads_health : Reads env health_request
  reads_servers : (fleet : String) → Reads env (list_servers_request fleet)
  reads_player_addrs : (id : ℤ) → Reads env (player_addrs_request env id)
  reads_server_object : (id : ℤ) (key : String) → Reads env (storage_get_request env id key)
  reads_server_objects : (id : ℤ) (o : ListOptions) → Reads env (storage_list_request env id o)
  reads_object : (key : String) → Reads env (get_object_request key)
  reads_objects : (o : ListOptions) → Reads env (list_objects_request o)

-- The writes that say that they may be repeated, by a mark or by an Idempotency-Key. The parameter is
-- the text that newRequestID returns when the caller gives no key.
pub data Repeated (fresh : String) : Request → Type 0 where
  repeats_credentials : (o : List RelayOption) → Repeated fresh (credentials_request o)
  repeats_queue :
      (id version : ℤ) (key : String) → Repeated fresh (queue_request fresh id version key)
  repeats_rematch :
      (id version : ℤ) (last_match key : String)
      → Repeated fresh (rematch_request fresh id version last_match key)

-- The other writes that callProtected makes for a player.
pub data PlayerWrites : Request → Type 0 where
  writes_link_email : (email password : String) → PlayerWrites (link_email_request email password)
  writes_link_steam : (ticket : String) → PlayerWrites (link_steam_request ticket)
  writes_change_password : (old new : String) → PlayerWrites (change_password_request old new)
  writes_disable : (password : String) → PlayerWrites (disable_request password)
  writes_delete_player : (password : String) → PlayerWrites (delete_request password)
  writes_request_friend : (p : ℤ) → PlayerWrites (request_friend_request p)
  writes_accept_friend : (p : ℤ) → PlayerWrites (accept_friend_request p)
  writes_reject_friend : (p : ℤ) → PlayerWrites (reject_friend_request p)
  writes_remove_friend : (p : ℤ) → PlayerWrites (remove_friend_request p)
  writes_block_friend : (p : ℤ) → PlayerWrites (block_friend_request p)
  writes_unblock_friend : (p : ℤ) → PlayerWrites (unblock_friend_request p)
  writes_create_invite : (id email : String) → PlayerWrites (create_invite_request id email)
  writes_delete_invite : (id : ℤ) → PlayerWrites (delete_invite_request id)
  writes_set_presence :
      (status : String) (id : Option String) → PlayerWrites (presence_request status id)
  writes_create_session : (r : GameSessionCreate) → PlayerWrites (create_session_request r)
  writes_join_session :
      (id : String) (a : GameSessionAddr) → PlayerWrites (join_session_request id a)
  writes_heartbeat_session :
      (id : String) (qos : Option Bytes) → PlayerWrites (heartbeat_session_request id qos)
  writes_leave_session : (id : String) → PlayerWrites (leave_session_request id)
  writes_send_signal :
      (id : String) (s : SendGameSessionSignal) → PlayerWrites (send_signal_request id s)
  writes_submit :
      (id score : ℤ) (opts : List ScoreOption) → PlayerWrites (submit_request id score opts)
  writes_create_ticket : (r : MatchRequest) → PlayerWrites (create_ticket_request r)
  writes_cancel_ticket : (id : ℤ) → PlayerWrites (cancel_ticket_request id)
  writes_create_party : (settings : MatchRequest) → PlayerWrites (create_request settings)
  writes_update_party :
      (id v : ℤ) (settings : MatchRequest) → PlayerWrites (update_request id v settings)
  writes_disband : (id v : ℤ) → PlayerWrites (disband_request id v)
  writes_heartbeat : (id v : ℤ) → PlayerWrites (heartbeat_request id v)
  writes_join_party : (code : String) → PlayerWrites (join_request code)
  writes_leave_party : (id v : ℤ) → PlayerWrites (leave_request id v)
  writes_ready :
      (id v : ℤ) (flag : Bool) (props : PartyProperties)
      → PlayerWrites (ready_request id v flag props)
  writes_kick : (id v player : ℤ) → PlayerWrites (kick_request id v player)
  writes_create_code : (id v uses : ℤ) → PlayerWrites (create_code_request id v uses)
  writes_revoke_code : (id v code : ℤ) → PlayerWrites (revoke_code_request id v code)
  writes_invite_friend : (id v player : ℤ) → PlayerWrites (invite_friend_request id v player)
  writes_accept_invite : (invite v : ℤ) → PlayerWrites (accept_invite_request invite v)
  writes_decline_invite : (invite v : ℤ) → PlayerWrites (decline_invite_request invite v)
  writes_cancel_queue : (id v : ℤ) → PlayerWrites (cancel_queue_request id v)
  writes_update_profile : (p : ProfilePatch) → PlayerWrites (update_profile_request p)
  writes_regenerate_code : PlayerWrites regenerate_code_request
  writes_set_addrs : (addrs : Option (List RemoteAddr)) → PlayerWrites (set_addrs_request addrs)
  writes_realtime_ticket : PlayerWrites create_realtime_ticket_request
  writes_put_object :
      (key : String) (value : Option Json) (opts : List PutOption)
      → PlayerWrites (put_object_request key value opts)
  writes_delete_object : (key : String) → PlayerWrites (delete_object_request key)

-- The other writes under the API key alone, which no session is needed for.
pub data KeyWrites {W : Type 0} (env : Env W) : Request → Type 0 where
  writes_refresh : (token : String) → KeyWrites env (refresh_request env token)
  writes_signup : (email password : String) → KeyWrites env (signup_request env email password)
  writes_verify : (email code : String) → KeyWrites env (verify_request env email code)
  writes_logout : (token : String) → KeyWrites env (logout_request env token)
  writes_resend : (email : String) → KeyWrites env (resend_request env email)
  writes_reset : (email : String) → KeyWrites env (reset_request env email)
  writes_confirm_reset :
      (email code password : String) → KeyWrites env (confirm_reset_request env email code password)
  writes_cancel_delete :
      (email password : String) → KeyWrites env (cancel_delete_request env email password)
  writes_login : (email password : String) → KeyWrites env (login_request env email password)
  writes_custom_token : (token : String) → KeyWrites env (custom_token_request env token)
  writes_steam : (ticket : String) → KeyWrites env (steam_request env ticket)
  writes_anonymous : (key : String) → KeyWrites env (anonymous_request key)
  writes_verify_session : (token : String) → KeyWrites env (verify_session_request env token)
  writes_fleet_heartbeat : (hb : Heartbeat) → KeyWrites env (fleet_heartbeat_request env hb)
  writes_submit_score :
      (player board score : ℤ) (opts : List ScoreOption)
      → KeyWrites env (submit_score_request env player board score opts)
  writes_server_put :
      (player : ℤ) (key : String) (value : Option Json) (opts : List PutOption)
      → KeyWrites env (storage_put_request env player key value opts)
