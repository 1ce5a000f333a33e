-- ===== src/Parties/Requests.antt =====
-- The requests of PartiesService in parties.go: each method makes one, and sends it by callProtected.
use ggscale_go.Prelude.{Bool, String, [], ◌∷◌, if◌then◌else◌}
use ggscale_go.Prelude.Int.{ℤ, pos}
use ggscale_go.Prelude.Text.{◌+s◌, format_int, is_empty}
use ggscale_go.Transport.{Json, done, field, object, int, bool, string, Header, Request, request}
use ggscale_go.Transport.Build.{with_body, omit_zero}
use ggscale_go.Matchmaker.Criteria.{MatchRequest, match_request_json, properties_fields}
use ggscale_go.Parties.{PartyProperties}

-- partyPath and partyInvitePath
unfoldable pub party_path : ℤ → String → String
party_path id suffix = "/v1/parties/" +s (format_int id +s suffix)

unfoldable pub party_invite_path : ℤ → String → String
party_invite_path id suffix = "/v1/party-invites/" +s (format_int id +s suffix)

-- partyVersionBody
abbrev version_body : ℤ → Json
version_body v = object (field "expected_version" (int v) done)

-- partySettingsBody
abbrev settings_body : ℤ → MatchRequest → Json
settings_body v settings =
    object (omit_zero "expected_version" v (field "settings" (match_request_json settings) done))

abbrev properties_json : PartyProperties → Json
properties_json p = object (properties_fields p.string_properties p.numeric_properties p.attributes)

-- partyReadyBody
abbrev ready_body : ℤ → Bool → PartyProperties → Json
ready_body v is_ready props = object (
    field "expected_version" (int v)
      (field "ready" (bool is_ready) (field "properties" (properties_json props) done)))

-- partyInviteBody
abbrev invite_body : ℤ → ℤ → Json
invite_body v player =
    object (field "expected_version" (int v) (field "player_id" (int player) done))

-- partyCodeBody
abbrev code_body : ℤ → ℤ → Json
code_body v max_uses =
    object (field "expected_version" (int v) (omit_zero "max_uses" max_uses done))

-- partyJoinBody
abbrev join_body : String → Json
join_body code = object (field "code" (string code) done)

-- partyRematchBody
abbrev rematch_body : ℤ → String → Json
rematch_body v last_match =
    object (field "expected_version" (int v) (field "last_match_id" (string last_match) done))

-- idempotencyHeader, with what newRequestID returns when there is no key
unfoldable pub idempotency_header : String → String → Header
idempotency_header fresh key = ("Idempotency-Key", (if is_empty key then fresh else key) ∷ []) ∷ []

unfoldable pub create_request : MatchRequest → Request
unfolding match_request_json
create_request settings =
    with_body (request "createParty" "POST" "/v1/parties") (settings_body (pos 0) settings)

unfoldable pub current_request : Request
current_request = request "getCurrentParty" "GET" "/v1/parties/current"

unfoldable pub get_request : ℤ → Request
unfolding party_path
get_request id = request "getParty" "GET" (party_path id "")

unfoldable pub update_request : ℤ → ℤ → MatchRequest → Request
unfolding party_path match_request_json
update_request id version settings =
    with_body (request "updateParty" "PATCH" (party_path id "")) (settings_body version settings)

unfoldable pub disband_request : ℤ → ℤ → Request
unfolding party_path
disband_request id version =
    with_body (request "disbandParty" "DELETE" (party_path id "")) (version_body version)

unfoldable pub heartbeat_request : ℤ → ℤ → Request
unfolding party_path
heartbeat_request id version =
    with_body (request "heartbeatParty" "POST" (party_path id "/heartbeat")) (version_body version)

unfoldable pub join_request : String → Request
join_request code = with_body (request "joinPartyCode" "POST" "/v1/parties/join") (join_body code)

unfoldable pub leave_request : ℤ → ℤ → Request
unfolding party_path
leave_request id version =
    with_body (request "leaveParty" "DELETE" (party_path id "/members/me")) (version_body version)

unfoldable pub ready_request : ℤ → ℤ → Bool → PartyProperties → Request
unfolding party_path
ready_request id version is_ready props =
    with_body (request "readyPartyMember" "PUT" (party_path id "/members/me/ready"))
      (ready_body version is_ready props)

unfoldable pub kick_request : ℤ → ℤ → ℤ → Request
unfolding party_path
kick_request id version player =
    with_body
      (request "kickPartyMember" "DELETE" (party_path id ("/members/" +s format_int player)))
      (version_body version)

unfoldable pub create_code_request : ℤ → ℤ → ℤ → Request
unfolding party_path
create_code_request id version max_uses =
    with_body (request "createPartyCode" "POST" (party_path id "/invite-codes"))
      (code_body version max_uses)

unfoldable pub revoke_code_request : ℤ → ℤ → ℤ → Request
unfolding party_path
revoke_code_request id version code =
    with_body
      (request "revokePartyCode" "DELETE" (party_path id ("/invite-codes/" +s format_int code)))
      (version_body version)

unfoldable pub invite_friend_request : ℤ → ℤ → ℤ → Request
unfolding party_path
invite_friend_request id version player =
    with_body (request "invitePartyFriend" "POST" (party_path id "/invites"))
      (invite_body version player)

unfoldable pub list_invites_request : Request
list_invites_request = request "listPartyInvites" "GET" "/v1/party-invites"

unfoldable pub accept_invite_request : ℤ → ℤ → Request
unfolding party_invite_path
accept_invite_request invite version =
    with_body (request "acceptPartyInvite" "POST" (party_invite_path invite "/accept"))
      (version_body version)

unfoldable pub decline_invite_request : ℤ → ℤ → Request
unfolding party_invite_path
decline_invite_request invite version =
    with_body (request "declinePartyInvite" "DELETE" (party_invite_path invite ""))
      (version_body version)

unfoldable pub queue_request : String → ℤ → ℤ → String → Request
unfolding party_path idempotency_header
queue_request fresh id version key =
    record (with_body (request "queueParty" "POST" (party_path id "/queue"))
      (version_body version)) { header = idempotency_header fresh key }

unfoldable pub cancel_queue_request : ℤ → ℤ → Request
unfolding party_path
cancel_queue_request id version =
    with_body (request "cancelPartyQueue" "DELETE" (party_path id "/queue")) (version_body version)

unfoldable pub rematch_request : String → ℤ → ℤ → String → String → Request
unfolding party_path idempotency_header
rematch_request fresh id version last_match key =
    record (with_body (request "rematchParty" "POST" (party_path id "/rematch"))
      (rematch_body version last_match)) { header = idempotency_header fresh key }
