-- ===== src/Players.antt =====
-- players.go, profile.go, remote_addrs.go and health.go: public players, the player's own profile and
-- addresses, and the liveness of the server.
pub mod Ids
pub mod Examples
use ggscale_go.Prelude.{ℕ, String, List, [], ◌∷◌, Option, none, some}
use ggscale_go.Prelude.Int.{ℤ}
use ggscale_go.Prelude.Text.{◌+s◌, format_int}
use ggscale_go.Transport.{
  Json, Items, end, item, array, null, object, field, string, done, Request, request, Out, no_out,
  Context,
}
use ggscale_go.Transport.Build.{with_body, omit_empty, omit_nil_text}
use ggscale_go.Url.{path_escape}
use ggscale_go.Client.{Env, M, send, call_protected}

pub record PublicPlayer : Type 0 where
  pub id : ℤ
  pub display_name : String
  pub created_at : ℕ

pub record Profile : Type 0 where
  pub id : ℤ
  pub project_id : ℤ
  pub external_id : String
  pub email : String
  pub xuid : String
  pub display_name : String
  pub friend_code : String
  pub email_verified_at : Option ℕ
  pub created_at : ℕ

pub record ProfilePatch : Type 0 where
  pub email : Option String
  pub xuid : Option String
  pub display_name : Option String

pub record RemoteAddr : Type 0 where
  pub type : String
  pub scope : String
  pub address : String

pub record Health : Type 0 where
  pub status : String
  pub version : String
  pub commit : String

-- strings.Join, with the decimal texts of ids, at ","
unfoldable pub join_ids : List ℤ → String
unfolding format_int
join_ids [] = ""
join_ids (n ∷ []) = format_int n
join_ids (n ∷ m ∷ ns) = format_int n +s ("," +s join_ids (m ∷ ns))

abbrev addr_json : RemoteAddr → Json
addr_json a = object (
    field "type" (string a.type)
      (omit_empty "scope" a.scope (field "address" (string a.address) done)))

abbrev addr_items : List RemoteAddr → Items
addr_items [] = end
addr_items (a ∷ l) = item (addr_json a) (addr_items l)

abbrev patch_json : ProfilePatch → Json
patch_json p = object (
    omit_nil_text "email" p.email
      (omit_nil_text "xuid" p.xuid (omit_nil_text "display_name" p.display_name done)))

unfoldable pub get_player_request : ℤ → Request
unfolding format_int
get_player_request id = request "getPlayer" "GET" ("/v1/players/" +s format_int id)

unfoldable pub resolve_players_request : List ℤ → Request
unfolding join_ids
resolve_players_request ids = record (request "resolvePlayers" "GET" "/v1/players") {
  query = ("ids", join_ids ids) ∷ [];
}

unfoldable pub friend_code_request : String → Request
unfolding path_escape
friend_code_request code =
    request "resolveFriendCode" "GET" ("/v1/players/by-code/" +s path_escape code)

unfoldable pub get_profile_request : Request
get_profile_request = request "getProfile" "GET" "/v1/profile"

unfoldable pub update_profile_request : ProfilePatch → Request
update_profile_request p = with_body (request "patchProfile" "PATCH" "/v1/profile") (patch_json p)

unfoldable pub regenerate_code_request : Request
regenerate_code_request = request "regenerateFriendCode" "POST" "/v1/profile/friend-code"

unfoldable pub account_addrs_request : Request
account_addrs_request = request "getAccountRemoteAddrs" "GET" "/v1/account/remote-addrs"

-- A slice of addresses, `none` where it is nil
abbrev addrs_json : Option (List RemoteAddr) → Json
addrs_json none = null
addrs_json (some l) = array (addr_items l)

unfoldable pub set_addrs_request : Option (List RemoteAddr) → Request
set_addrs_request addrs =
    with_body (request "putAccountRemoteAddrs" "PUT" "/v1/account/remote-addrs")
      (object (field "addresses" (addrs_json addrs) done))

unfoldable pub health_request : Request
health_request = request "healthz" "GET" "/v1/healthz"

-- A response that has one field is decoded as this field.
module _ {W : Type 0} (env : Env W) (ctx : Context) where
  -- Get of players.go
  unfoldable pub get_player : Out PublicPlayer → ℤ → M W PublicPlayer
  unfolding get_player_request
  get_player out id = call_protected env out ctx (get_player_request id)

  -- Resolve
  unfoldable pub resolve_players : Out (List PublicPlayer) → List ℤ → M W (List PublicPlayer)
  unfolding resolve_players_request
  resolve_players out ids = call_protected env out ctx (resolve_players_request ids)

  -- ResolveFriendCode
  unfoldable pub resolve_friend_code : Out PublicPlayer → String → M W PublicPlayer
  unfolding friend_code_request
  resolve_friend_code out code = call_protected env out ctx (friend_code_request code)

  -- Get of profile.go
  unfoldable pub get_profile : Out Profile → M W Profile
  unfolding get_profile_request
  get_profile out = call_protected env out ctx get_profile_request

  -- Update
  unfoldable pub update_profile : ProfilePatch → M W (Unit {0})
  unfolding update_profile_request
  update_profile p = call_protected env no_out ctx (update_profile_request p)

  -- RegenerateFriendCode
  unfoldable pub regenerate_friend_code : Out String → M W String
  unfolding regenerate_code_request
  regenerate_friend_code out = call_protected env out ctx regenerate_code_request

  -- RemoteAddrs of AccountService
  unfoldable pub account_addrs : Out (List RemoteAddr) → M W (List RemoteAddr)
  unfolding account_addrs_request
  account_addrs out = call_protected env out ctx account_addrs_request

  -- SetRemoteAddrs
  unfoldable pub set_account_addrs :
      Out (List RemoteAddr) → Option (List RemoteAddr) → M W (List RemoteAddr)
  unfolding set_addrs_request
  set_account_addrs out addrs = call_protected env out ctx (set_addrs_request addrs)

  -- Get of health.go, by the transport alone
  unfoldable pub health : Out Health → M W Health
  unfolding health_request
  health out = send env out ctx health_request
