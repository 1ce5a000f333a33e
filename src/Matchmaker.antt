-- ===== src/Matchmaker.antt =====
-- matchmaker.go: tickets and what they settle to, the requests of the service, and the ticket that
-- WaitForMatch creates. The wait itself is in Matchmaker/Wait.antt.
pub mod Criteria
pub mod Wait
pub mod Settled
pub mod Replacing
pub mod Peers
pub mod Examples
use ggscale_go.Prelude.{
  ℕ, Bool, true, false, not, ◌&&◌, ◌||◌, String, List, [], Option, none, some, ◌==◌, if◌then◌else◌,
}
use ggscale_go.Prelude.Int.{ℤ, pos, is_zero}
use ggscale_go.Prelude.Text.{str_eq, ◌+s◌, format_int}
use ggscale_go.Errors.{Bytes, Sentinel, GoError, Error, as_api, errors_is, active_ticket_id}
use ggscale_go.Transport.{Result, ok, err, Request, request, Out, no_out, Context}
use ggscale_go.Client.{Env, Client, M, call_protected}
use ggscale_go.Matchmaker.Criteria.{MatchRequest, match_request_json}

pub record RosterEntry : Type 0 where
  pub player_id : ℤ
  pub queue_entry_id : ℤ
  pub party_id : ℤ
  pub region : String
  pub string_properties : List (String × String)
  -- numbers by their texts
  pub numeric_properties : List (String × String)
  pub attributes : Bytes

pub record Ticket : Type 0 where
  pub id : ℤ
  pub entry_id : ℤ
  pub party_id : ℤ
  pub status : String
  pub mode : String
  pub region : String
  pub allow_cross_region : Bool
  pub game_mode : String
  pub min_count : ℤ
  pub max_count : ℤ
  pub count_multiple : ℤ
  pub query : String
  pub string_properties : List (String × String)
  pub numeric_properties : List (String × String)
  pub attributes : Bytes
  pub match_id : String
  pub match_address : String
  pub protocol_hint : String
  pub session_id : String
  pub join_code : String
  pub host_player_id : ℤ
  pub failure_reason : String
  pub users : List RosterEntry
  pub created_at : ℕ
  pub matched_at : Option ℕ
  pub expires_at : Option ℕ

pub record MatchResult : Type 0 where
  pub ticket_id : ℤ
  pub match_id : String
  pub mode : String
  pub address : String
  pub protocol_hint : String
  pub session_id : String
  pub join_code : String
  pub host_player_id : ℤ
  pub users : List RosterEntry

-- What resultFromTicket returns: not done, or done with a result or an error.
pub data Settlement : Type 0 where
  pending : Settlement
  settled : Result MatchResult → Settlement

abbrev result_of : Ticket → MatchResult
result_of t = record {
  ticket_id = t.id;
  match_id = t.match_id;
  mode = t.mode;
  address = t.match_address;
  protocol_hint = t.protocol_hint;
  session_id = t.session_id;
  join_code = t.join_code;
  host_player_id = t.host_player_id;
  users = t.users;
}

-- resultFromTicket
unfoldable pub result_from_ticket : Ticket → Settlement
result_from_ticket t =
    if str_eq t.status "matched"
    then settled (ok (result_of t))
    else if str_eq t.status "failed"
    then settled (err (GoError.match_failed t.failure_reason))
    else if str_eq t.status "cancelled"
    then settled (err (GoError.sentinel Sentinel.match_cancelled))
    else pending

-- The struct of parseMatchedPayload
pub record MatchedPayload : Type 0 where
  pub ticket_id : ℤ
  pub match_id : String
  pub mode : String
  pub address : String
  pub protocol_hint : String
  pub session_id : String
  pub join_code : String
  pub host_player_id : ℤ
  pub users : List RosterEntry

abbrev result_of_payload : MatchedPayload → MatchResult
result_of_payload p = record {
  ticket_id = p.ticket_id;
  match_id = p.match_id;
  mode = p.mode;
  address = p.address;
  protocol_hint = p.protocol_hint;
  session_id = p.session_id;
  join_code = p.join_code;
  host_player_id = p.host_player_id;
  users = p.users;
}

-- parseMatchedPayload, with json.Unmarshal into the struct: `none` is its error.
unfoldable pub parse_matched_payload : (Bytes → Option MatchedPayload) → Bytes → Option MatchResult
parse_matched_payload unmarshal raw = elim (unmarshal raw) [
  | none ↦ none
  | some p ↦ some (result_of_payload p)
]

abbrev pub ticket_path : ℤ → String
ticket_path id = "/v1/matchmaker/tickets/" +s format_int id

abbrev pub create_ticket_request : MatchRequest → Request
create_ticket_request req =
    record (request "createMatchmakerTicket" "POST" "/v1/matchmaker/tickets") {
      body = some (match_request_json req);
    }

abbrev pub get_ticket_request : ℤ → Request
get_ticket_request id = request "getMatchmakerTicket" "GET" (ticket_path id)

abbrev pub cancel_ticket_request : ℤ → Request
cancel_ticket_request id = request "cancelMatchmakerTicket" "DELETE" (ticket_path id)

-- The decoders that the service needs of encoding/json.
pub record Codec : Type 0 where
  pub ticket : Out Ticket
  pub matched : Bytes → Option MatchedPayload
  -- into an int64
  pub int64 : Bytes → Option ℤ

module _ {W : Type 0} (env : Env W) (codec : Codec) (ctx : Context) where
  -- CreateTicket
  unfoldable pub create_ticket : MatchRequest → M W Ticket
  create_ticket req = call_protected env codec.ticket ctx (create_ticket_request req)

  -- GetTicket
  unfoldable pub get_ticket : ℤ → M W Ticket
  get_ticket id = call_protected env codec.ticket ctx (get_ticket_request id)

  -- CancelTicket
  unfoldable pub cancel_ticket : ℤ → M W (Unit {0})
  cancel_ticket id = call_protected env no_out ctx (cancel_ticket_request id)

  abbrev pub cancel_failed : ℤ → GoError → GoError
  cancel_failed id e =
      GoError.wrapped ("ggscale: cancel active matchmaking ticket " +s format_int id) e

  abbrev pub already_ended : GoError → Bool
  already_ended e = errors_is e Sentinel.not_found || errors_is e Sentinel.conflict

  -- What follows the cancellation.
  abbrev pub after_cancel :
      MatchRequest → ℤ → Result (Unit {0}) × Client W → Result Ticket × Client W
  after_cancel req id (ok u, c) = create_ticket req c
  after_cancel req id (err e, c) =
      if already_ended e then create_ticket req c else (err (cancel_failed id e), c)

  abbrev pub active_id : GoError → ℤ
  active_id e = elim (as_api e) [ none ↦ pos 0 | some a ↦ active_ticket_id codec.int64 a ]

  abbrev pub after_create : MatchRequest → Result Ticket × Client W → Result Ticket × Client W
  after_create req (ok t, c) = (ok t, c)
  after_create req (err e, c) =
      if not (errors_is e Sentinel.ticket_active) || is_zero (active_id e)
      then (err e, c)
      else after_cancel req (active_id e) (cancel_ticket (active_id e) c)

  -- createTicketReplacingActive
  unfoldable pub create_ticket_replacing_active : MatchRequest → M W Ticket
  unfolding create_ticket cancel_ticket
  create_ticket_replacing_active req c = after_create req (create_ticket req c)
