-- ===== src/Friends.antt =====
-- friends.go, invites.go and presence.go: friends of the player, invites into game sessions, presence.
use ggscale_go.Prelude.{ℕ, String, List, [], Option}
use ggscale_go.Prelude.Int.{ℤ}
use ggscale_go.Prelude.Text.{◌+s◌, format_int}
use ggscale_go.Transport.{object, field, string, done, Request, request, Out, no_out, Context}
use ggscale_go.Transport.Build.{Query, with_body, with_param, with_positive, text_or_null}
use ggscale_go.Client.{Env, M, call_protected}
use ggscale_go.Pagination.Listing.{all_pages, Listing}
use ggscale_go.Players.{RemoteAddr}

pub record FriendPresence : Type 0 where
  pub status : String
  pub session_id : Option String

pub record Friend : Type 0 where
  pub id : ℤ
  pub account_id : String
  pub player_id : Option ℤ
  pub status : String
  pub email : Option String
  pub display_name : Option String
  pub presence : Option FriendPresence
  pub created_at : ℕ
  pub updated_at : ℕ

pub record FriendsPage : Type 0 where
  pub items : List Friend
  pub next_cursor : String

pub record FriendsListOptions : Type 0 where
  pub status : String
  pub limit : ℤ
  pub cursor : String

pub record Invite : Type 0 where
  pub invite_id : ℤ
  pub from_email : String
  pub from_xuid : String
  pub session_id : String
  pub join_code : String
  pub expires_at : ℕ

-- friendPath
unfoldable pub friend_path : ℤ → String
unfolding format_int
friend_path player = "/v1/friends/" +s format_int player

abbrev list_query : FriendsListOptions → Query
list_query o =
    with_param "cursor" o.cursor (with_positive "limit" o.limit (with_param "status" o.status []))

unfoldable pub list_friends_request : FriendsListOptions → Request
list_friends_request o = record (request "listFriends" "GET" "/v1/friends") { query = list_query o }

unfoldable pub request_friend_request : ℤ → Request
unfolding friend_path
request_friend_request p = request "requestFriend" "POST" (friend_path p +s "/request")

unfoldable pub accept_friend_request : ℤ → Request
unfolding friend_path
accept_friend_request p = request "acceptFriend" "POST" (friend_path p +s "/accept")

unfoldable pub reject_friend_request : ℤ → Request
unfolding friend_path
reject_friend_request p = request "rejectFriend" "POST" (friend_path p +s "/reject")

unfoldable pub remove_friend_request : ℤ → Request
unfolding friend_path
remove_friend_request p = request "deleteFriend" "DELETE" (friend_path p)

unfoldable pub block_friend_request : ℤ → Request
unfolding friend_path
block_friend_request p = request "blockFriend" "POST" (friend_path p +s "/block")

unfoldable pub unblock_friend_request : ℤ → Request
unfolding friend_path
unblock_friend_request p = request "unblockFriend" "POST" (friend_path p +s "/unblock")

unfoldable pub friend_addrs_request : ℤ → Request
unfolding friend_path
friend_addrs_request p = request "getFriendRemoteAddrs" "GET" (friend_path p +s "/remote-addrs")

-- Create of invites.go, with inviteCreateBody
unfoldable pub create_invite_request : String → String → Request
create_invite_request session_id to_email =
    with_body (request "createGameInvite" "POST" "/v1/invite")
      (object (field "to_email" (string to_email) (field "session_id" (string session_id) done)))

unfoldable pub list_game_invites_request : Request
list_game_invites_request = request "listGameInvites" "GET" "/v1/invite"

unfoldable pub delete_invite_request : ℤ → Request
unfolding format_int
delete_invite_request id = request "deleteGameInvite" "DELETE" ("/v1/invite/" +s format_int id)

-- Set of presence.go, with presenceUpdateBody
unfoldable pub presence_request : String → Option String → Request
presence_request status session_id =
    with_body (request "updatePresence" "PUT" "/v1/presence")
      (object (field "status" (string status) (field "session_id" (text_or_null session_id) done)))

-- A response that has one field is decoded as this field.
module _ {W : Type 0} (env : Env W) (ctx : Context) where
  -- List
  unfoldable pub list_friends : Out FriendsPage → FriendsListOptions → M W FriendsPage
  unfolding list_friends_request
  list_friends out o = call_protected env out ctx (list_friends_request o)

  -- All
  unfoldable pub all_friends : Out FriendsPage → FriendsListOptions → Listing Friend W
  unfolding list_friends all_pages
  all_friends out o =
      all_pages o.cursor (λ cursor. list_friends out (record o { cursor = cursor })) (λ p. p.items)
        (λ p. p.next_cursor)

  -- Request
  unfoldable pub request_friend : Out String → ℤ → M W String
  unfolding request_friend_request
  request_friend out p = call_protected env out ctx (request_friend_request p)

  -- Accept
  unfoldable pub accept_friend : ℤ → M W (Unit {0})
  unfolding accept_friend_request
  accept_friend p = call_protected env no_out ctx (accept_friend_request p)

  -- Reject
  unfoldable pub reject_friend : ℤ → M W (Unit {0})
  unfolding reject_friend_request
  reject_friend p = call_protected env no_out ctx (reject_friend_request p)

  -- Remove
  unfoldable pub remove_friend : ℤ → M W (Unit {0})
  unfolding remove_friend_request
  remove_friend p = call_protected env no_out ctx (remove_friend_request p)

  -- Block
  unfoldable pub block_friend : ℤ → M W (Unit {0})
  unfolding block_friend_request
  block_friend p = call_protected env no_out ctx (block_friend_request p)

  -- Unblock
  unfoldable pub unblock_friend : ℤ → M W (Unit {0})
  unfolding unblock_friend_request
  unblock_friend p = call_protected env no_out ctx (unblock_friend_request p)

  -- RemoteAddrs
  unfoldable pub friend_addrs : Out (List RemoteAddr) → ℤ → M W (List RemoteAddr)
  unfolding friend_addrs_request
  friend_addrs out p = call_protected env out ctx (friend_addrs_request p)

  -- Create of invites.go
  unfoldable pub create_invite : Out ℤ → String → String → M W ℤ
  unfolding create_invite_request
  create_invite out session_id to_email =
      call_protected env out ctx (create_invite_request session_id to_email)

  -- List of invites.go
  unfoldable pub list_game_invites : Out (List Invite) → M W (List Invite)
  unfolding list_game_invites_request
  list_game_invites out = call_protected env out ctx list_game_invites_request

  -- Delete of invites.go
  unfoldable pub delete_invite : ℤ → M W (Unit {0})
  unfolding delete_invite_request
  delete_invite id = call_protected env no_out ctx (delete_invite_request id)

  -- Set of presence.go
  unfoldable pub set_presence : String → Option String → M W (Unit {0})
  unfolding presence_request
  set_presence status session_id =
      call_protected env no_out ctx (presence_request status session_id)
