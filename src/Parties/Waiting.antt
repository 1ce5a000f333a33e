-- ===== src/Parties/Waiting.antt =====
-- (*PartiesService).WaitForMatch of parties.go: the callback that it gives to Watch.
pub mod Outcome
pub mod Forgetting
use ggscale_go.Prelude.{Bool, true, false, not, ◌&&◌, ◌||◌, List, Option, none, some, if◌then◌else◌}
use ggscale_go.Prelude.Int.{ℤ, pos, is_zero}
use ggscale_go.Prelude.Text.{str_eq}
use ggscale_go.Errors.{Sentinel, GoError}
use ggscale_go.Transport.{Result, ok, err, Context}
use ggscale_go.Client.{Session, Env, Client, no_session}
use ggscale_go.Matchmaker.{
  Ticket, MatchResult, Settlement, pending, settled, result_from_ticket, get_ticket,
}
use ggscale_go.Matchmaker.Wait.{Event}
use ggscale_go.Parties.{Party, PartyMember, member, party_idle, party_queued}
use ggscale_go.Parties.Watch.{
  Watch, WatchCodec, Callback, PartyEvent, changed, invite, found, removed, no_error,
}
use ggscale_go.Parties.Watch.Run.{Progress, waiting, returned, Dial, watch, watch_result}

-- The two variables that the callback closes over.
pub record Awaited : Type 0 where
  pub result : Option MatchResult
  pub queued_ticket : ℤ

abbrev pub Called : Type 0 → Type 0
Called W = Result (Unit {0}) × (Awaited × Client W)

-- What the callback returns for a ticket that it read.
abbrev pub outcome : Settlement → Result (Unit {0})
outcome pending = no_error
outcome (settled (ok m)) = no_error
outcome (settled (err e)) = err e

module _ {W : Type 0} (env : Env W) (codec : WatchCodec) (ctx : Context) (me : ℤ) where
  abbrev pub ticket_read : Awaited → Result Ticket × Client W → Called W
  ticket_read a (err e, c) = (no_error, (record a { queued_ticket = pos 0 }, c))
  ticket_read a (ok t, c) =
      (outcome (result_from_ticket t), (record a { queued_ticket = pos 0 }, c))

  abbrev pub left_queue : Party → Awaited → Client W → Called W
  left_queue p a c =
      if not (str_eq p.state party_idle) || is_zero a.queued_ticket
      then (no_error, (a, c))
      else ticket_read a (get_ticket env codec.tickets ctx a.queued_ticket c)

  abbrev pub on_party : Party → Option PartyMember → Awaited → Client W → Called W
  on_party p none a c = left_queue p a c
  on_party p (some m) a c =
      if str_eq p.state party_queued
      then (no_error, (record a { queued_ticket = m.ticket_id }, c))
      else left_queue p a c

  -- The callback
  unfoldable pub await : Callback Awaited W
  unfolding member get_ticket result_from_ticket
  await (found m) (a, c) =
      (err (GoError.sentinel Sentinel.watch_done), (record a { result = some m }, c))
  await removed (a, c) = (err (GoError.sentinel Sentinel.not_party_member), (a, c))
  await (invite i) (a, c) = (no_error, (a, c))
  await (changed p) (a, c) = on_party p (member p me) a c

-- What WaitForMatch returns for what its Watch returns: `none` while it waits, and else a pointer that
-- may be nil, or an error.
unfoldable pub awaited_result :
    {W : Type 0} → Progress Awaited W → Option (Result (Option MatchResult))
unfolding watch_result
awaited_result (waiting s) = none
awaited_result (returned x s) = elim (watch_result (returned x s)) [
  | none ↦ none
  | some r ↦ elim r [ ok u ↦ some (ok s.user.result) | err e ↦ some (err e) ]
]

abbrev pub nothing_yet : Awaited
nothing_yet = record { result = none; queued_ticket = pos 0 }

module _ {W : Type 0} (env : Env W) (codec : WatchCodec) (ctx : Context) (party_id : ℤ) where
  abbrev pub player_of : Option Session → ℤ
  player_of none = pos 0
  player_of (some s) = s.player_id

  -- WaitForMatch
  unfoldable pub party_wait : Dial W → List Event → Client W → Progress Awaited W
  unfolding watch
  party_wait dial es c =
      watch env codec ctx (await env codec ctx (player_of c.session)) party_id dial es nothing_yet c
