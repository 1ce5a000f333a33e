-- ===== src/Matchmaker/Wait.antt =====
-- WaitForMatch of matchmaker.go. Its select loop takes what happens as a list of events, in the order
-- in which the loop takes them.
use ggscale_go.Prelude.{
  Bool, false, not, ◌&&◌, String, List, [], ◌∷◌, Option, none, some, if◌then◌else◌,
}
use ggscale_go.Prelude.Int.{ℤ, is_zero, eq_ℤ}
use ggscale_go.Prelude.Text.{str_eq}
use ggscale_go.Errors.{Bytes, Sentinel, GoError}
use ggscale_go.Matchmaker.Criteria.{MatchRequest}
use ggscale_go.Transport.{Result, ok, err, Context}
use ggscale_go.Client.{Env, Client}
use ggscale_go.Matchmaker.{
  Ticket, MatchResult, Settlement, pending, settled, result_from_ticket, parse_matched_payload,
  Codec, get_ticket, cancel_ticket, create_ticket_replacing_active,
}

-- Message of realtime.go, as far as it is read here
pub record Message : Type 0 where
  pub type : String
  pub payload : Bytes

-- What the Err of a context that ended returns.
pub data Ending : Type 0 where
  canceled exceeded : Ending

abbrev pub cause : Ending → GoError
cause canceled = GoError.sentinel Sentinel.context_canceled
cause exceeded = GoError.sentinel Sentinel.deadline_exceeded

-- What the select of the loop can take.
pub data Event : Type 0 where
  ended : Ending → Event
  message : Message → Event
  -- the channel of messages was closed
  closed : Event
  tick : Event

-- EventMatchmakerMatched
abbrev pub event_matched : String
event_matched = "matchmaker_matched"

-- context.WithoutCancel
abbrev pub without_cancel : Context → Context
without_cancel ctx = record { deadline = none; cancellable = false }

-- Whether a push is about another ticket.
abbrev pub is_other_ticket : ℤ → MatchResult → Bool
is_other_ticket id r = not (is_zero r.ticket_id) && not (eq_ℤ r.ticket_id id)

-- The match of a message, unless the loop passes over it.
unfoldable pub pushed_match : Codec → ℤ → Message → Option MatchResult
unfolding parse_matched_payload
pushed_match codec id m =
    if str_eq m.type event_matched
    then elim (parse_matched_payload codec.matched m.payload) [
      | none ↦ none
      | some r ↦ if is_other_ticket id r then none else some r
    ]
    else none

module _ {W : Type 0} where
  -- A settlement found by reading the ticket.
  abbrev pub read : Result Ticket × Client W → Settlement × Client W
  read (err e, c) = (pending, c)
  read (ok t, c) = (result_from_ticket t, c)

  -- The ticket decides and, when it has not settled, the push does.
  abbrev pub or_pushed : MatchResult → Settlement × Client W → Settlement × Client W
  or_pushed r (pending, c) = (settled (ok r), c)
  or_pushed r (settled s, c) = (settled s, c)

module _ {W : Type 0} (env : Env W) (codec : Codec) (ctx : Context) where
  unfoldable pub read_ticket : ℤ → Client W → Settlement × Client W
  unfolding get_ticket result_from_ticket
  read_ticket id c = read (get_ticket env codec ctx id c)

  -- cancelBestEffort
  unfoldable pub cancel_best_effort : ℤ → Client W → Client W
  unfolding cancel_ticket
  cancel_best_effort id c = (cancel_ticket env codec (without_cancel ctx) id c).1

  -- What a message does: it settles the wait, or leaves the loop waiting.
  unfoldable pub on_message : ℤ → Message → Client W → Settlement × Client W
  unfolding pushed_match read_ticket
  on_message id m c = elim (pushed_match codec id m) [
    | none ↦ (pending, c)
    | some r ↦ or_pushed r (read_ticket id c)
  ]

  -- The loop. `live` is whether `msgs` is a channel that is not closed: no message comes otherwise.
  -- It returns what the events lead to: `pending` when it still waits.
  unfoldable pub wait : ℤ → Bool → List Event → Client W → Settlement × Client W
  unfolding cancel_best_effort on_message read_ticket
  wait id live [] c = (pending, c)
  wait id live (ended s ∷ es) c = (settled (err (cause s)), cancel_best_effort id c)
  wait id live (closed ∷ es) c = wait id false es c
  wait id live (message m ∷ es) c =
      let (s, c') = if live then on_message id m c else (pending, c) in
      elim s [ pending ↦ wait id live es c' | settled r ↦ (settled r, c') ]
  wait id live (tick ∷ es) c =
      let (s, c') = read_ticket id c in
      elim s [ pending ↦ wait id live es c' | settled r ↦ (settled r, c') ]

  abbrev pub after_ticket : Bool → List Event → Result Ticket × Client W → Settlement × Client W
  after_ticket live es (err e, c) = (settled (err e), c)
  after_ticket live es (ok t, c) = elim (result_from_ticket t) [
    | pending ↦ wait t.id live es c
    | settled r ↦ (settled r, c)
  ]

  -- WaitForMatch, with DialRealtime, of which only the success and what it leaves of the client count
  unfoldable pub wait_for_match :
      MatchRequest → (Client W → Bool × Client W) → List Event → Client W → Settlement × Client W
  unfolding create_ticket_replacing_active wait result_from_ticket
  wait_for_match req dial es c =
      let (live, c') = dial c in
      after_ticket live es (create_ticket_replacing_active env codec ctx req c')

  -- RequestMatch
  unfoldable pub request_match :
      MatchRequest → (Client W → Bool × Client W) → List Event → Client W → Settlement × Client W
  unfolding wait_for_match
  request_match req dial es c = wait_for_match req dial es c
