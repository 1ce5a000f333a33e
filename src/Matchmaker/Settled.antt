-- ===== src/Matchmaker/Settled.antt =====
-- What WaitForMatch of matchmaker.go returns, and that polling finds it when no push arrives.
use ggscale_go.Prelude.{ℕ, suc, ◌≡◌, refl, Bool, false, List, [], ◌∷◌, ◌++◌, none, ◌⊎◌, arith}
use ggscale_go.Prelude.Int.{ℤ, pos}
use ggscale_go.Matchmaker.Criteria.{MatchRequest}
use ggscale_go.Transport.{Result, ok, err, Context}
use ggscale_go.Client.{Env, Client}
use ggscale_go.Matchmaker.{
  Ticket, MatchResult, Settlement, pending, settled, result_from_ticket, Codec, get_ticket,
  create_ticket_replacing_active,
}
use ggscale_go.Matchmaker.Wait.{
  Event, Message, read, is_other_ticket, or_pushed, after_ticket, after_ticket, ended, message,
  closed, tick, read_ticket, on_message, pushed_match, wait, wait_for_match,
}

module _ {W : Type 0} (env : Env W) (codec : Codec) (ctx : Context) where
  -- The server answers a read of a ticket with that ticket.
  abbrev pub AnswersFor : ℤ → Type 0
  AnswersFor id = (c : Client W) (t : Ticket) → (get_ticket env codec ctx id c).0 ≡ ok t → t.id ≡ id

  -- A settlement that is no other ticket's.
  abbrev pub Own : ℤ → Settlement → Type 0
  Own id pending = Unit
  Own id (settled (err e)) = Unit
  Own id (settled (ok r)) = (r.ticket_id ≡ pos 0) ⊎ (r.ticket_id ≡ id)

  result-Own : (id : ℤ) (t : Ticket) → t.id ≡ id → Own id (result_from_ticket t)
  unfolding result_from_ticket
  result-Own id t h = ground (arith, h)

  answer-Own :
      (id : ℤ) (a : Result Ticket × Client W)
      → ((t : Ticket) → a.0 ≡ ok t → t.id ≡ id)
      → Own id (read a).0
  answer-Own id (err e, c) h = tt
  answer-Own id (ok t, c) h = result-Own id t (h t refl)

  read-Own : (id : ℤ) → AnswersFor id → (c : Client W) → Own id (read_ticket env codec ctx id c).0
  unfolding read_ticket
  read-Own id h c = answer-Own id (get_ticket env codec ctx id c) (h c)

  pushed-Own :
      (id : ℤ) (r : MatchResult) (a : Settlement × Client W)
      → is_other_ticket id r ≡ false
      → Own id a.0
      → Own id (or_pushed r a).0
  pushed-Own id r (pending, c) e h = ground arith
  pushed-Own id r (settled s, c) e h = h

  message-Own :
      (id : ℤ)
      → AnswersFor id
      → (m : Message) (c : Client W) → Own id (on_message env codec ctx id m c).0
  unfolding on_message pushed_match
  message-Own id h m c = let r = read-Own id h c in grind (arith, r, pushed-Own)

  wait-Own :
      (id : ℤ)
      → AnswersFor id
      → (live : Bool) (es : List Event) (c : Client W) → Own id (wait env codec ctx id live es c).0
  unfolding wait
  wait-Own id h live [] c = tt
  wait-Own id h live (ended s ∷ es) c = tt
  wait-Own id h live (closed ∷ es) c = wait-Own id h false es c
  wait-Own id h live (message m ∷ es) c =
      let r = message-Own id h m c in
      let i0 = wait-Own id h live es c in
      let ih = wait-Own id h live es (on_message env codec ctx id m c).1 in
      ground (arith, r, i0, ih)
  wait-Own id h live (tick ∷ es) c =
      let r = read-Own id h c in
      let ih = wait-Own id h live es (read_ticket env codec ctx id c).1 in ground (arith, r, ih)

  -- A settlement of WaitForMatch, when it returns one.
  abbrev pub OwnOf : Result Ticket → Settlement → Type 0
  OwnOf (err e) s = Unit
  OwnOf (ok t) s = Own t.id s

  after-Own :
      (live : Bool) (es : List Event) (a : Result Ticket × Client W)
      → ((t : Ticket) → a.0 ≡ ok t → AnswersFor t.id)
      → OwnOf a.0 (after_ticket env codec ctx live es a).0
  after-Own live es (err e, c) h = tt
  after-Own live es (ok t, c) h =
      let r = result-Own t.id t refl in
      let w = wait-Own t.id (h t refl) live es c in ground (arith, r, w)

  -- When the server answers each read of the created ticket with that ticket, a match that WaitForMatch
  -- returns is the match of this ticket, or a push that names no ticket: whatever pushes about other
  -- tickets arrive, in whatever order with the polls.
  pub wait_for_match-Own :
      (req : MatchRequest) (dial : Client W → Bool × Client W) (es : List Event) (c : Client W)
      → ((t : Ticket)
          → (create_ticket_replacing_active env codec ctx req (dial c).1).0 ≡ ok t
          → AnswersFor t.id)
      → OwnOf
          (create_ticket_replacing_active env codec ctx req (dial c).1).0
          (wait_for_match env codec ctx req dial es c).0
  unfolding wait_for_match
  wait_for_match-Own req dial es c h =
      after-Own (dial c).0 es (create_ticket_replacing_active env codec ctx req (dial c).1) h

  -- Reads of a ticket, the last of which settles it: the number of those before.
  pub data Polls (id : ℤ) : ℕ → Client W → Result MatchResult → Client W → Type 0 where
    settles :
        (c c' : Client W) (r : Result MatchResult)
        → read_ticket env codec ctx id c ≡ (settled r, c')
        → Polls id 0 c r c'
    later :
        (n : ℕ) (c d c' : Client W) (r : Result MatchResult)
        → read_ticket env codec ctx id c ≡ (pending, d)
        → Polls id n d r c'
        → Polls id (suc n) c r c'

  -- Events of which `n` are ticks, and the others close the socket or are messages that do not concern
  -- the ticket.
  pub data Quiet (id : ℤ) : ℕ → List Event → Type 0 where
    nothing : Quiet id 0 []
    poll : (n : ℕ) (es : List Event) → Quiet id n es → Quiet id (suc n) (tick ∷ es)
    socket_closed : (n : ℕ) (es : List Event) → Quiet id n es → Quiet id n (closed ∷ es)
    noise :
        (n : ℕ) (m : Message) (es : List Event)
        → pushed_match codec id m ≡ none
        → Quiet id n es
        → Quiet id n (message m ∷ es)

  -- Polling finds what the ticket settles to, when no push does: if the ticket has settled after `n`
  -- more reads, WaitForMatch's loop returns that settlement at its tick `n + 1`.
  pub wait-Polls :
      (id : ℤ) (n : ℕ) (live : Bool) (es rest : List Event) (c c' : Client W)
      (r : Result MatchResult)
      → Quiet id n es
      → Polls id n c r c'
      → wait env codec ctx id live (es ++ tick ∷ rest) c ≡ (settled r, c')
  unfolding wait on_message
  wait-Polls id _ live _ rest c c' r nothing (settles _ _ _ e) = ground (arith, e)
  wait-Polls id _ live _ rest c c' r (poll n es q) (later _ _ d _ _ e p) =
      let ih = wait-Polls id n live es rest d c' r q p in ground (arith, e, ih)
  wait-Polls id n live _ rest c c' r (socket_closed _ es q) p =
      wait-Polls id n false es rest c c' r q p
  wait-Polls id n live _ rest c c' r (noise _ m es e q) p =
      let ih = wait-Polls id n live es rest c c' r q p in ground (arith, e, ih)
