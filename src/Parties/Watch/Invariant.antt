-- ===== src/Parties/Watch/Invariant.antt =====
-- Invariants of Watch of parties.go: what its reports to the callback keep, its whole run keeps.
use ggscale_go.Prelude.{
  ◌≡◌, refl, Bool, true, false, String, List, [], ◌∷◌, Option, none, some, arith, Bool-cases, inl,
  inr,
}
use ggscale_go.Prelude.Int.{ℤ, ltb_ℤ}
use ggscale_go.Errors.{GoError}
use ggscale_go.Transport.{Result, ok, err, Context}
use ggscale_go.Client.{Env, Client}
use ggscale_go.Matchmaker.{parse_matched_payload, Ticket, MatchResult, get_ticket}
use ggscale_go.Matchmaker.Wait.{cause, Ending, Event, Message, ended, message, closed, tick}
use ggscale_go.Parties.{Party, PartyMember, PartyInviteEvent, PartyChangedEvent, member}
use ggscale_go.Parties.Service.{get_party, heartbeat_party}
use ggscale_go.Parties.Watch.{
  Watch, WatchCodec, Callback, Step, PartyEvent, changed, invite, found, removed, report, remove,
  report_party, report_match, from_ticket, update, refresh, heartbeat, matched, handle, by_member,
  then_match, refreshed, beaten, complete, report_pushed, on_invite, on_changed, match_of,
  from_match, on_match,
}
use ggscale_go.Parties.Watch.Run.{
  Progress, waiting, returned, loop, run, Dial, on_event, stays_live, after_step, started, dialed,
}

-- `G` holds of a watch that goes on, and `E` of one that returns an error.
abbrev pub Holds :
    {U W : Type 0} → (Watch U W → Type 0) → (GoError → Watch U W → Type 0) → Step U W → Type 0
Holds G E (ok u, s) = G s
Holds G E (err e, s) = E e s

-- Events that are no party and no removal.
abbrev pub is_neutral : PartyEvent → Bool
is_neutral (changed p) = false
is_neutral (invite i) = true
is_neutral (found m) = true
is_neutral removed = false

module _ {U W : Type 0} (env : Env W) (codec : WatchCodec) (ctx : Context) (fn : Callback U W)
    (party_id me : ℤ) (G : Watch U W → Type 0) (E : GoError → Watch U W → Type 0) where
  -- What is asked of an invariant: that a report keeps it, and that it reads neither the client nor
  -- the last match.
  pub record Kept : Type 0 where
    pub neutral :
        (ev : PartyEvent) (s : Watch U W)
        → is_neutral ev ≡ true
        → G s
        → Holds G E (report env codec ctx fn party_id me ev s)
    pub newer :
        (p : Party) (s : Watch U W)
        → ltb_ℤ s.version p.version ≡ true
        → G s
        → Holds G E
            (report env codec ctx fn party_id me (changed p) (record s { version = p.version }))
    pub removal : (s : Watch U W) → G s → Holds G E (remove env codec ctx fn party_id me s)
    pub client : (s : Watch U W) (c : Client W) → G s → G (record s { client = c })
    pub last_match : (s : Watch U W) (id : String) → G s → G (record s { last_match = id })
    pub context : (s : Watch U W) (x : Ending) → G s → E (cause x) s

module _ {U W : Type 0} (env : Env W) (codec : WatchCodec) (ctx : Context) (fn : Callback U W)
    (party_id me : ℤ) (G : Watch U W → Type 0) (E : GoError → Watch U W → Type 0)
    (kept : Kept env codec ctx fn party_id me G E) where
  match-Holds :
      (t : Ticket) (o : Option MatchResult) (s : Watch U W)
      → G s
      → Holds G E (from_match env codec ctx fn party_id me t o s)
  match-Holds t none s h = h
  match-Holds t (some m) s h =
      kept.neutral (found m) (record s { last_match = t.match_id }) refl
        (kept.last_match s t.match_id h)

  from_ticket-Holds :
      (last : String) (a : Result Ticket × Client W) (s : Watch U W)
      → G s
      → Holds G E (from_ticket env codec ctx fn party_id me last a s)
  unfolding from_ticket
  from_ticket-Holds last (err e, c) s h = kept.client s c h
  from_ticket-Holds last (ok t, c) s h =
      match-Holds t (match_of env codec ctx fn party_id me last t) (record s { client = c })
        (kept.client s c h)

  by_member-Holds :
      (p : Party) (o : Option PartyMember) (s : Watch U W)
      → G s
      → Holds G E (by_member env codec ctx fn party_id me p o s)
  by_member-Holds p none s h = h
  by_member-Holds p (some m) s h =
      let r =
        from_ticket-Holds p.last_match_id (get_ticket env codec.tickets ctx m.ticket_id s.client) s
          h in
      ground (arith, r, h)

  report_party-Holds :
      (p : Party) (s : Watch U W) → G s → Holds G E (report_party env codec ctx fn party_id me p s)
  unfolding report_party
  report_party-Holds p s h = elim (Bool-cases (ltb_ℤ s.version p.version)) [
    | inl e ↦ rw e (kept.newer p s e h)
    | inr e ↦ rw e h
  ]

  update-Holds :
      (p : Party) (s : Watch U W) → G s → Holds G E (update env codec ctx fn party_id me p s)
  unfolding update report_match
  update-Holds p s h =
      after (report_party env codec ctx fn party_id me p s) (report_party-Holds p s h)
    where
      after : (a : Step U W) → Holds G E a → Holds G E (then_match env codec ctx fn party_id me p a)
      after (err e, s') k = k
      after (ok u, s') k = let r = by_member-Holds p (member p me) s' k in ground (arith, r, k)

  refreshed-Holds :
      (s : Watch U W) (a : Result Party × Client W)
      → G s
      → Holds G E (refreshed env codec ctx fn party_id me s a)
  refreshed-Holds s (ok p, c) h = update-Holds p (record s { client = c }) (kept.client s c h)
  refreshed-Holds s (err e, c) h =
      let r = kept.removal (record s { client = c }) (kept.client s c h) in
      (let k = kept.client s c h in ground (arith, r, k))

  refresh-Holds : (s : Watch U W) → G s → Holds G E (refresh env codec ctx fn party_id me s)
  unfolding refresh
  refresh-Holds s h = refreshed-Holds s (get_party env ctx codec.party party_id s.client) h

  beaten-Holds :
      (s : Watch U W) (a : Result Party × Client W)
      → G s
      → Holds G E (beaten env codec ctx fn party_id me s a)
  beaten-Holds s (ok p, c) h = update-Holds p (record s { client = c }) (kept.client s c h)
  beaten-Holds s (err e, c) h =
      let r = kept.removal (record s { client = c }) (kept.client s c h) in
      let f = refresh-Holds (record s { client = c }) (kept.client s c h) in
      (let k = kept.client s c h in ground (arith, r, f, k))

  heartbeat-Holds : (s : Watch U W) → G s → Holds G E (heartbeat env codec ctx fn party_id me s)
  unfolding heartbeat
  heartbeat-Holds s h =
      beaten-Holds s (heartbeat_party env ctx codec.party party_id s.version s.client) h

  pushed-Holds :
      (id : String) (a : MatchResult × Client W) (s : Watch U W)
      → G s
      → Holds G E (report_pushed env codec ctx fn party_id me id a s)
  pushed-Holds id (r, c) s h =
      kept.neutral (found r) (record s { client = c; last_match = id }) refl
        (kept.last_match (record s { client = c }) id (kept.client s c h))

  on_match-Holds :
      (o : Option MatchResult) (s : Watch U W)
      → G s
      → Holds G E (on_match env codec ctx fn party_id me o s)
  on_match-Holds none s h = h
  on_match-Holds (some r) s h =
      let k =
        pushed-Holds r.match_id
          (complete env codec ctx fn party_id me r
            (get_ticket env codec.tickets ctx r.ticket_id s.client))
          s h in
      ground (arith, k, h)

  matched-Holds :
      (m : Message) (s : Watch U W) → G s → Holds G E (matched env codec ctx fn party_id me m s)
  unfolding matched
  matched-Holds m s h = on_match-Holds (parse_matched_payload codec.tickets.matched m.payload) s h

  invite-Holds :
      (o : Option PartyInviteEvent) (s : Watch U W)
      → G s
      → Holds G E (on_invite env codec ctx fn party_id me o s)
  invite-Holds none s h = h
  invite-Holds (some e) s h = kept.neutral (invite e) s refl h

  changed-Holds :
      (o : Option PartyChangedEvent) (s : Watch U W)
      → G s
      → Holds G E (on_changed env codec ctx fn party_id me o s)
  changed-Holds none s h = h
  changed-Holds (some e) s h = let r = refresh-Holds s h in ground (arith, r, h)

  handle-Holds :
      (m : Message) (s : Watch U W) → G s → Holds G E (handle env codec ctx fn party_id me m s)
  unfolding handle
  handle-Holds m s h =
      let i = invite-Holds (codec.invite_event m.payload) s h in
      let c = changed-Holds (codec.changed_event m.payload) s h in
      let k = matched-Holds m s h in ground (arith, i, c, k, h)

  on_event-Holds :
      (live : Bool) (e : Event) (s : Watch U W)
      → G s
      → Holds G E (on_event env codec ctx fn party_id me live e s)
  unfolding on_event
  on_event-Holds live (ended x) s h = kept.context s x h
  on_event-Holds live closed s h = h
  on_event-Holds live (message m) s h = let k = handle-Holds m s h in ground (arith, k, h)
  on_event-Holds live tick s h = let k = heartbeat-Holds s h in ground (arith, k, h)

  -- What a run has reported so far, or when it returned.
  abbrev pub Sound : Progress U W → Type 0
  Sound (waiting s) = G s
  Sound (returned e s) = E e s

  step-Sound :
      (k : Watch U W → Progress U W) (a : Step U W)
      → ((s : Watch U W) → G s → Sound (k s))
      → Holds G E a
      → Sound (after_step k a)
  step-Sound k (err x, s) h r = r
  step-Sound k (ok u, s) h r = h s r

  loop-Sound :
      (live : Bool) (es : List Event) (s : Watch U W)
      → G s
      → Sound (loop env codec ctx fn party_id me live es s)
  unfolding loop
  loop-Sound live [] s h = h
  loop-Sound live (e ∷ es) s h =
      let live' = stays_live env codec ctx fn party_id me live e in
      step-Sound (loop env codec ctx fn party_id me live' es)
        (on_event env codec ctx fn party_id me live e s) (loop-Sound live' es)
        (on_event-Holds live e s h)

  started-Sound :
      (live : Bool) (es : List Event) (s : Watch U W)
      → G s
      → Sound (started env codec ctx fn party_id me live es s)
  started-Sound live es s h =
      let l = loop-Sound live es s h in
      let r =
        step-Sound (loop env codec ctx fn party_id me live es)
          (refresh env codec ctx fn party_id me s) (loop-Sound live es) (refresh-Holds s h) in
      ground (arith, l, r)

  dialed-Sound :
      (es : List Event) (s : Watch U W) (d : Option GoError × Client W)
      → ((x : GoError) → d.0 ≡ some x → E x (record s { client = d.1 }))
      → G s
      → Sound (dialed env codec ctx fn party_id me es s d)
  dialed-Sound es s (none, c) hd h =
      started-Sound true es (record s { client = c }) (kept.client s c h)
  dialed-Sound es s (some x, c) hd h =
      let k = started-Sound false es (record s { client = c }) (kept.client s c h) in
      let e = hd x refl in ground (arith, k, e)

  pub run-Sound :
      (dial : Dial W) (es : List Event) (s : Watch U W)
      → ((x : GoError) → (dial s.client).0 ≡ some x → E x (record s { client = (dial s.client).1 }))
      → G s
      → Sound (run env codec ctx fn party_id me dial es s)
  unfolding run
  run-Sound dial es s hd h = dialed-Sound es s (dial s.client) hd h
