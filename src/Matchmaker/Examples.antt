-- ===== src/Matchmaker/Examples.antt =====
-- The theorems on matchmaker.go, at a server whose tickets are matched at the third request.
use ggscale_go.Prelude.{
  Bool, ℕ, ◌+◌, ◌≡◌, refl, true, false, String, List, [], ◌∷◌, Option, none, some, leb, arith,
  subst, sym, zero, suc, ◌++◌, if◌then◌else◌,
}
use ggscale_go.Prelude.Int.{ℤ, pos}
use ggscale_go.Errors.{Bytes, GoError}
use ggscale_go.Matchmaker.Criteria.{MatchRequest, match_request_json}
use ggscale_go.Transport.{
  object, field, string, int, float, done, Result, ok, err, Transport, no_metadata,
}
use ggscale_go.Client.{
  Env, Client, call_protected, refresh_if_needed, send_refreshing, attach_session,
}
use ggscale_go.Client.Protected.{Spends}
use ggscale_go.Client.Examples.{client_env, logged_in, background}
use ggscale_go.Matchmaker.{
  Ticket, Codec, MatchResult, MatchedPayload, settled, pending, get_ticket, get_ticket_request,
  create_ticket_replacing_active,
}
use ggscale_go.Matchmaker.Wait.{Event, message, tick, closed, wait_for_match, wait, read_ticket}
use ggscale_go.Matchmaker.Settled.{
  settles, later, nothing, poll, socket_closed, wait-Polls, wait_for_match-Own, OwnOf, AnswersFor,
}
use ggscale_go.Matchmaker.Replacing.{Spends-create_ticket_replacing_active}

abbrev pub a_request : MatchRequest
a_request = record {
  mode = "match_only";
  fleet = "";
  region = "";
  allow_cross_region = none;
  game_mode = "duel";
  min_count = pos 2;
  max_count = pos 0;
  count_multiple = pos 0;
  query = "";
  string_properties = [];
  numeric_properties = ("rank", "1.5") ∷ [];
  attributes = [];
}

marshalled_request :
    match_request_json a_request
    ≡ object (
        field "mode" (string "match_only") (
          field "game_mode" (string "duel") (
            field "min_count"
              (int (pos 2))
              (field "numeric_properties" (object (field "rank" (float "1.5") done)) done))))
unfolding match_request_json
marshalled_request = refl

abbrev pub a_ticket : ℤ → String → Ticket
a_ticket id status = record {
  id = id;
  entry_id = pos 1;
  party_id = pos 0;
  status = status;
  mode = "match_only";
  region = "eu";
  allow_cross_region = false;
  game_mode = "duel";
  min_count = pos 2;
  max_count = pos 2;
  count_multiple = pos 1;
  query = "";
  string_properties = [];
  numeric_properties = [];
  attributes = [];
  match_id = "m1";
  match_address = "";
  protocol_hint = "";
  session_id = "";
  join_code = "";
  host_player_id = pos 7;
  failure_reason = "";
  users = [];
  created_at = 0;
  matched_at = none;
  expires_at = none;
}

-- What the decoder of the world's answer makes of it.
abbrev decoded : {A : Type 0} → Option A → Result A
decoded none = err (GoError.text "not json")
decoded (some a) = ok a

-- A server that counts its requests, and whose only ticket is matched from the third one on.
abbrev pub match_server : Transport ℕ
match_server = record {
  call = λ A out ctx req w. record {
    result = decoded (out.unmarshal (w ∷ []));
    metadata = no_metadata;
    world = w + 1;
  };
}

abbrev pub match_env : Env ℕ
match_env = record client_env { transport = match_server }

abbrev served : Bytes → Option Ticket
served [] = none
served (n ∷ ns) = some (a_ticket (pos 5) (if leb 2 n then "matched" else "queued"))

-- A push about ticket 9.
abbrev other_push : MatchedPayload
other_push = record {
  ticket_id = pos 9;
  match_id = "m0";
  mode = "match_only";
  address = "";
  protocol_hint = "";
  session_id = "";
  join_code = "";
  host_player_id = pos 1;
  users = [];
}

abbrev pub codec : Codec
codec = record {
  ticket = record { wanted = true; zero_value = a_ticket (pos 0) ""; unmarshal = served };
  matched = λ b. some other_push;
  int64 = λ b. none;
}

abbrev pub events : List Event
events = message (record { type = "matchmaker_matched"; payload = [] }) ∷ tick ∷ closed ∷ tick ∷ []

abbrev pub dial_works : Client ℕ → Bool × Client ℕ
dial_works c = (true, c)

abbrev the_match : Result MatchResult
the_match = ok (record {
  ticket_id = pos 5;
  match_id = "m1";
  mode = "match_only";
  address = "";
  protocol_hint = "";
  session_id = "";
  join_code = "";
  host_player_id = pos 7;
  users = [];
})

other_push_ignored :
    (wait_for_match match_env codec background a_request dial_works events logged_in).0
    ≡ settled the_match
unfolding wait_for_match create_ticket_replacing_active call_protected refresh_if_needed
    send_refreshing attach_session wait
other_push_ignored = refl

replacing_costs :
    Spends 6 12 logged_in
      (create_ticket_replacing_active match_env codec background a_request logged_in).1
replacing_costs =
    Spends-create_ticket_replacing_active match_env codec background a_request logged_in

answers :
    (c : Client ℕ) (t : Ticket)
    → (get_ticket match_env codec background (pos 5) c).0 ≡ ok t
    → t.id ≡ pos 5
unfolding get_ticket call_protected refresh_if_needed send_refreshing attach_session
answers c t e = ground (arith, e)

created :
    (t : Ticket)
    → (create_ticket_replacing_active match_env codec background a_request logged_in).0 ≡ ok t
    → t.id ≡ pos 5
unfolding create_ticket_replacing_active call_protected refresh_if_needed send_refreshing
    attach_session
created t e = ground (arith, e)

wait_for_match-Own_example :
    OwnOf match_env codec background
      (create_ticket_replacing_active match_env codec background a_request logged_in).0
      (wait_for_match match_env codec background a_request dial_works events logged_in).0
wait_for_match-Own_example =
    wait_for_match-Own match_env codec background a_request dial_works events logged_in
      (λ t e. subst (AnswersFor match_env codec background) (sym (created t e)) answers)

-- The client after `n` reads of the ticket, from the world's count 1 on.
abbrev at : ℕ → Client ℕ
at zero = record logged_in { world = 1 }
at (suc n) =
    let c = at n in
    record c {
      world = c.world + 1;
      requests =
          c.requests
          ++ record (get_ticket_request (pos 5)) {
            api_key = "k";
            session_token = "old";
            request_id = "r1";
          }
            ∷ [];
    }

read_queued : read_ticket match_env codec background (pos 5) (at 0) ≡ (pending, at 1)
unfolding read_ticket call_protected refresh_if_needed send_refreshing attach_session
read_queued = refl

read_matched : read_ticket match_env codec background (pos 5) (at 1) ≡ (settled the_match, at 2)
unfolding read_ticket call_protected refresh_if_needed send_refreshing attach_session
read_matched = refl

wait-Polls_example :
    wait match_env codec background (pos 5) true (tick ∷ closed ∷ tick ∷ []) (at 0)
    ≡ (settled the_match, at 2)
wait-Polls_example =
    wait-Polls match_env codec background (pos 5) 1 true (tick ∷ closed ∷ []) [] (at 0) (at 2)
      the_match (poll 0 (closed ∷ []) (socket_closed 0 [] nothing))
      (later 0 (at 0) (at 1) (at 2) the_match read_queued
        (settles (at 1) (at 2) the_match read_matched))
