-- ===== src/Parties/Watch.antt =====
-- partyWatch of parties.go: the state of Watch, its handlers, and its loop over the events that its
-- select takes.
pub mod Run
pub mod Invariant
use ggscale_go.Prelude.{
  ℕ, Bool, true, false, not, ◌&&◌, ◌||◌, String, List, [], ◌∷◌, ◌++◌, Option, none, some,
  if◌then◌else◌,
}
use ggscale_go.Prelude.Int.{ℤ, pos, is_zero, eq_ℤ, ltb_ℤ}
use ggscale_go.Prelude.Text.{str_eq, is_empty}
use ggscale_go.Errors.{Bytes, Sentinel, GoError, errors_is}
use ggscale_go.Transport.{Result, ok, err, Out, Context}
use ggscale_go.Client.{Env, Client, M, no_session}
use ggscale_go.Matchmaker.{
  RosterEntry, parse_matched_payload, Ticket, MatchResult, Settlement, pending, settled,
  result_from_ticket, Codec, get_ticket,
}
use ggscale_go.Matchmaker.Wait.{Event, Message, ended, message, closed, tick, event_matched}
use ggscale_go.Parties.{
  Party, PartyMember, PartyInviteEvent, PartyChangedEvent, member, party_matched,
}
use ggscale_go.Parties.Service.{get_party, heartbeat_party}

-- EventPartyChanged and EventPartyInvite
abbrev pub event_party_changed : String
event_party_changed = "party_changed"

abbrev pub event_party_invite : String
event_party_invite = "party_invite"

-- PartyEvent, of which one field is set
pub data PartyEvent : Type 0 where
  changed : Party → PartyEvent
  invite : PartyInviteEvent → PartyEvent
  found : MatchResult → PartyEvent
  removed : PartyEvent

-- The decoders that a watch needs of encoding/json.
pub record WatchCodec : Type 0 where
  pub tickets : Codec
  pub party : Out Party
  pub invite_event : Bytes → Option PartyInviteEvent
  pub changed_event : Bytes → Option PartyChangedEvent

-- What changes while a watch runs. `user` is the state of the callback, and `reported` what it was
-- called with, the oldest first.
pub record Watch (U W : Type 0) : Type 0 where
  pub version : ℤ
  pub last_match : String
  pub reported : List PartyEvent
  pub user : U
  pub client : Client W

abbrev pub Callback : Type 0 → Type 0 → Type 0
Callback U W = PartyEvent → U × Client W → Result (Unit {0}) × (U × Client W)

abbrev pub Step : Type 0 → Type 0 → Type 0
Step U W = Result (Unit {0}) × Watch U W

-- Whether the player is in a roster as a member of the party.
unfoldable pub in_party : ℤ → ℤ → List RosterEntry → Bool
in_party me party [] = false
in_party me party (u ∷ us) =
    let rest = in_party me party us in
    if eq_ℤ u.player_id me && eq_ℤ u.party_id party then true else rest

abbrev pub no_error : Result (Unit {0})
no_error = ok tt

module _ {U W : Type 0} where
  abbrev pub called_back : Watch U W → Result (Unit {0}) × (U × Client W) → Step U W
  called_back s (r, (u, c)) = (r, record s { user = u; client = c })

  abbrev pub done_after : Step U W → Step U W
  done_after (err e, s) = (err e, s)
  done_after (ok u, s) = (err (GoError.sentinel Sentinel.watch_done), s)

module _ {U W : Type 0} (env : Env W) (codec : WatchCodec) (ctx : Context) (fn : Callback U W)
    (party_id me : ℤ) where
  unfoldable pub report : PartyEvent → Watch U W → Step U W
  report ev s =
      called_back (record s { reported = s.reported ++ ev ∷ [] }) (fn ev (s.user, s.client))

  -- (*partyWatch).removed
  unfoldable pub remove : Watch U W → Step U W
  unfolding report
  remove s = done_after (report removed s)

  -- What the caller's ticket settles to, at the end of (*partyWatch).update.
  abbrev pub match_of : String → Ticket → Option MatchResult
  match_of last t =
      if str_eq t.match_id last
      then elim (result_from_ticket t) [
        | pending ↦ none
        | settled r ↦ elim r [ ok m ↦ some m | err e ↦ none ]
      ]
      else none

  abbrev pub from_match : Ticket → Option MatchResult → Watch U W → Step U W
  from_match t none s = (no_error, s)
  from_match t (some m) s = report (found m) (record s { last_match = t.match_id })

  unfoldable pub from_ticket : String → Result Ticket × Client W → Watch U W → Step U W
  unfolding report result_from_ticket
  from_ticket last (err e, c) s = (no_error, record s { client = c })
  from_ticket last (ok t, c) s = from_match t (match_of last t) (record s { client = c })

  abbrev pub ask_ticket : String → ℤ → Watch U W → Step U W
  ask_ticket last id s = from_ticket last (get_ticket env codec.tickets ctx id s.client) s

  abbrev pub by_member : Party → Option PartyMember → Watch U W → Step U W
  by_member p none s = (no_error, s)
  by_member p (some m) s =
      if is_zero m.ticket_id then (no_error, s) else ask_ticket p.last_match_id m.ticket_id s

  unfoldable pub report_match : Party → Watch U W → Step U W
  unfolding from_ticket member get_ticket
  report_match p s =
      if not (str_eq p.state party_matched)
        || is_empty p.last_match_id
        || str_eq p.last_match_id s.last_match
      then (no_error, s)
      else by_member p (member p me) s

  abbrev pub then_match : Party → Step U W → Step U W
  then_match p (err e, s) = (err e, s)
  then_match p (ok u, s) = report_match p s

  unfoldable pub report_party : Party → Watch U W → Step U W
  unfolding report
  report_party p s =
      if ltb_ℤ s.version p.version
      then report (changed p) (record s { version = p.version })
      else (no_error, s)

  -- (*partyWatch).update
  unfoldable pub update : Party → Watch U W → Step U W
  unfolding report_party report_match
  update p s = then_match p (report_party p s)

  abbrev pub refreshed : Watch U W → Result Party × Client W → Step U W
  refreshed s (ok p, c) = update p (record s { client = c })
  refreshed s (err e, c) =
      if errors_is e Sentinel.not_found
      then remove (record s { client = c })
      else (no_error, record s { client = c })

  -- (*partyWatch).refresh
  unfoldable pub refresh : Watch U W → Step U W
  unfolding update remove
  refresh s = refreshed s (get_party env ctx codec.party party_id s.client)

  abbrev pub beaten : Watch U W → Result Party × Client W → Step U W
  beaten s (ok p, c) = update p (record s { client = c })
  beaten s (err e, c) =
      if errors_is e Sentinel.not_found
      then remove (record s { client = c })
      else if errors_is e Sentinel.stale_version
      then refresh (record s { client = c })
      else (no_error, record s { client = c })

  -- (*partyWatch).heartbeat
  unfoldable pub heartbeat : Watch U W → Step U W
  unfolding refresh update remove
  heartbeat s = beaten s (heartbeat_party env ctx codec.party party_id s.version s.client)

  -- The ticket is the complete result; the push is the fallback.
  abbrev pub complete : MatchResult → Result Ticket × Client W → MatchResult × Client W
  complete r (err e, c) = (r, c)
  complete r (ok t, c) = elim (result_from_ticket t) [
    | pending ↦ (r, c)
    | settled s ↦ elim s [ ok m ↦ (m, c) | err e ↦ (r, c) ]
  ]

  abbrev pub report_pushed : String → MatchResult × Client W → Watch U W → Step U W
  report_pushed id (r, c) s = report (found r) (record s { client = c; last_match = id })

  abbrev pub on_match : Option MatchResult → Watch U W → Step U W
  on_match none s = (no_error, s)
  on_match (some r) s =
      if str_eq r.match_id s.last_match || not (in_party me party_id r.users)
      then (no_error, s)
      else report_pushed r.match_id
          (complete r (get_ticket env codec.tickets ctx r.ticket_id s.client)) s

  -- (*partyWatch).matched
  unfoldable pub matched : Message → Watch U W → Step U W
  unfolding report result_from_ticket get_ticket in_party parse_matched_payload
  matched m s = on_match (parse_matched_payload codec.tickets.matched m.payload) s

  abbrev pub on_invite : Option PartyInviteEvent → Watch U W → Step U W
  on_invite none s = (no_error, s)
  on_invite (some e) s = report (invite e) s

  abbrev pub on_changed : Option PartyChangedEvent → Watch U W → Step U W
  on_changed none s = (no_error, s)
  on_changed (some e) s =
      if is_zero party_id || not (eq_ℤ e.party_id party_id) || not (ltb_ℤ s.version e.version)
      then (no_error, s)
      else refresh s

  -- (*partyWatch).handle
  unfoldable pub handle : Message → Watch U W → Step U W
  unfolding report refresh matched
  handle m s =
      if str_eq m.type event_party_invite
      then on_invite (codec.invite_event m.payload) s
      else if str_eq m.type event_party_changed
      then on_changed (codec.changed_event m.payload) s
      else if str_eq m.type event_matched
      then (if is_zero party_id then (no_error, s) else matched m s)
      else (no_error, s)
