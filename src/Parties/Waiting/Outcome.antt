-- ===== src/Parties/Waiting/Outcome.antt =====
-- What WaitForMatch of parties.go returns, and what it forgets.
use ggscale_go.Prelude.{
  ◌≡◌, refl, true, false, List, [], ◌∷◌, ◌++◌, Option, none, some, arith, Bool-cases, inl, inr,
}
use ggscale_go.Prelude.Int.{ℤ, pos}
use ggscale_go.Errors.{Sentinel, GoError, errors_is}
use ggscale_go.Transport.{Result, ok, err, Context}
use ggscale_go.Client.{Session, Env, Client}
use ggscale_go.Matchmaker.{Ticket, MatchResult, result_from_ticket, get_ticket}
use ggscale_go.Matchmaker.Wait.{Event, Ending, cause, canceled, exceeded}
use ggscale_go.Parties.{Party, PartyMember, member}
use ggscale_go.Parties.Watch.{
  Watch, WatchCodec, PartyEvent, changed, invite, found, removed, report, remove, called_back,
}
use ggscale_go.Parties.Watch.Run.{
  Progress, waiting, returned, Dial, watch, watch_result, with_session, run, fresh_watch,
}
use ggscale_go.Parties.Watch.Invariant.{Holds, is_neutral, Kept, Sound, run-Sound}
use ggscale_go.Parties.Reports.{log_of}
use ggscale_go.Parties.Waiting.{
  Awaited, Called, outcome, ticket_read, left_queue, on_party, await, awaited_result, nothing_yet,
  party_wait, player_of,
}

-- The last report of a log.
abbrev pub last : List PartyEvent → Option PartyEvent
last [] = none
last (x ∷ []) = some x
last (x ∷ y ∷ l) = last (y ∷ l)

last-append : (l : List PartyEvent) (x : PartyEvent) → last (l ++ x ∷ []) ≡ some x
last-append [] x = refl
last-append (y ∷ []) x = refl
last-append (y ∷ z ∷ l) x = last-append (z ∷ l) x

-- A watch that ended by a match has it as its result, and reported it last.
abbrev Matched : {W : Type 0} → GoError → Watch Awaited W → Type 0
Matched e s =
    errors_is e Sentinel.watch_done ≡ true
    → (m : MatchResult) × (s.user.result ≡ some m) × (last s.reported ≡ some (found m))

abbrev Anything : {W : Type 0} → Watch Awaited W → Type 0
Anything s = Unit {0}

module _ {W : Type 0} (env : Env W) (codec : WatchCodec) (ctx : Context) (party_id me : ℤ) where
  -- The callback ends a watch at a party only by what a ticket settled to.
  abbrev Fails : Called W → Type 0
  Fails (ok u, x) = Unit
  Fails (err e, x) = errors_is e Sentinel.watch_done ≡ false

  outcome-Fails : (t : Ticket) (x : Awaited × Client W) → Fails (outcome (result_from_ticket t), x)
  unfolding result_from_ticket errors_is
  outcome-Fails t x = ground arith

  read-Fails :
      (a : Awaited) (r : Result Ticket × Client W) → Fails (ticket_read env codec ctx me a r)
  read-Fails a (err e, c) = tt
  read-Fails a (ok t, c) = outcome-Fails t (record a { queued_ticket = pos 0 }, c)

  left-Fails : (p : Party) (a : Awaited) (c : Client W) → Fails (left_queue env codec ctx me p a c)
  left-Fails p a c =
      let r = read-Fails a (get_ticket env codec.tickets ctx a.queued_ticket c) in ground (arith, r)

  party-Fails :
      (p : Party) (o : Option PartyMember) (a : Awaited) (c : Client W)
      → Fails (on_party env codec ctx me p o a c)
  party-Fails p none a c = left-Fails p a c
  party-Fails p (some m) a c = let l = left-Fails p a c in ground (arith, l)

  called-Matched :
      (s : Watch Awaited W) (a : Called W) → Fails a → Holds Anything Matched (called_back s a)
  called-Matched s (ok u, (x, c)) h = tt
  called-Matched s (err e, (x, c)) h = λ k. ground (arith, h, k)

  neutral-Matched :
      (ev : PartyEvent) (s : Watch Awaited W)
      → is_neutral ev ≡ true
      → Anything s
      → Holds Anything Matched (report env codec ctx (await env codec ctx me) party_id me ev s)
  unfolding report await
  neutral-Matched (found m) s e h = λ k. (m, refl, last-append s.reported (found m))
  neutral-Matched (invite i) s e h = tt
  neutral-Matched (changed p) s e h = ground (arith, e)
  neutral-Matched removed s e h = ground (arith, e)

  ending-Matched : (s : Watch Awaited W) (x : Ending) → Matched (cause x) s
  unfolding errors_is
  ending-Matched s canceled k = ground (arith, k)
  ending-Matched s exceeded k = ground (arith, k)

  wait-Kept : Kept env codec ctx (await env codec ctx me) party_id me Anything Matched
  unfolding report remove await errors_is
  wait-Kept = record {
    neutral = neutral-Matched;
    newer = λ p s e h.
        called-Matched (record s { version = p.version; reported = s.reported ++ changed p ∷ [] })
          (await env codec ctx me (changed p) (s.user, s.client))
          (party-Fails p (member p me) s.user s.client);
    removal = λ s h k. ground (arith, k);
    client = λ s c h. h;
    last_match = λ s id h. h;
    context = λ s x h k. ending-Matched s x k;
  }

-- What is stated of a run that WaitForMatch returns from.
abbrev pub ResultOf :
    {W : Type 0} → Option (Result (Option MatchResult)) → Progress Awaited W → Type 0
ResultOf none p = Unit
ResultOf (some (err e)) p = Unit
ResultOf (some (ok r)) p = (m : MatchResult) × (r ≡ some m) × (last (log_of p) ≡ some (found m))

module _ {W : Type 0} (env : Env W) (codec : WatchCodec) (ctx : Context) (party_id : ℤ) where
  Sound-result :
      (me : ℤ) (p : Progress Awaited W)
      → Sound env codec ctx
          (await env codec ctx me)
          party_id
          me
          Anything
          Matched
          (wait-Kept env codec ctx party_id me)
          p
      → ResultOf (awaited_result p) p
  unfolding awaited_result watch_result
  Sound-result me (waiting s) h = tt
  Sound-result me (returned e s) h = elim (Bool-cases (errors_is e Sentinel.watch_done)) [
    | inl d ↦ rw (d, ResultOf) (h d)
    | inr d ↦ rw (d, ResultOf) tt
  ]

  session-result :
      (dial : Dial W) (es : List Event) (c : Client W) (o : Option Session)
      → ((x : GoError) → (dial c).0 ≡ some x → errors_is x Sentinel.watch_done ≡ false)
      → let p =
          with_session env codec ctx
            (await env codec ctx (player_of env codec ctx party_id o))
            party_id
            dial
            es
            nothing_yet
            c
            o in
        ResultOf (awaited_result p) p
  unfolding awaited_result watch_result errors_is
  session-result dial es c none hd = tt
  session-result dial es c (some s) hd =
      let me = s.player_id in
      Sound-result me
        (run env codec ctx (await env codec ctx me) party_id me dial es (fresh_watch nothing_yet c))
        (run-Sound env codec ctx (await env codec ctx me) party_id me Anything Matched
          (wait-Kept env codec ctx party_id me) dial es (fresh_watch nothing_yet c)
          (λ x e k. absurd (ground (arith, e, k, hd x e))) tt)

  -- When the dial of the socket does not itself fail by errWatchDone, WaitForMatch never returns a nil
  -- result with a nil error: without an error it returns the match that its watch reported last.
  pub party_wait-Result :
      (dial : Dial W) (es : List Event) (c : Client W)
      → ((x : GoError) → (dial c).0 ≡ some x → errors_is x Sentinel.watch_done ≡ false)
      → ResultOf
          (awaited_result (party_wait env codec ctx party_id dial es c))
          (party_wait env codec ctx party_id dial es c)
  unfolding party_wait watch
  party_wait-Result dial es c hd = session-result dial es c c.session hd
