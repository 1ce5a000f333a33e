-- ===== src/Parties/Reports.antt =====
-- What Watch of parties.go reports to its callback: newer and newer parties, each change of the match
-- once, and nothing after the report that the player was removed.
use ggscale_go.Prelude.{
  ◌≡◌, refl, true, List, [], ◌∷◌, ◌++◌, Option, none, some, arith, subst, sym, ◌∙◌,
}
use ggscale_go.Prelude.Int.{ℤ, pos, ltb_ℤ}
use ggscale_go.Errors.{GoError}
use ggscale_go.Transport.{Result, ok, err, Context}
use ggscale_go.Client.{Session, Env, Client}
use ggscale_go.Matchmaker.Wait.{Event}
use ggscale_go.Parties.{Party}
use ggscale_go.Parties.Log.{
  last_version, Rising, RemovedLast, no_removed, Rising-append, last_version-append,
  no_removed-append, RemovedLast-append, RemovedLast-none,
}
use ggscale_go.Parties.Watch.{
  Watch, WatchCodec, Callback, Step, PartyEvent, changed, invite, found, removed, report, remove,
  done_after, called_back,
}
use ggscale_go.Parties.Watch.Invariant.{Holds, is_neutral, Kept, Sound, run-Sound}
use ggscale_go.Parties.Watch.Run.{
  Progress, waiting, returned, run, watch, Dial, with_session, fresh_watch,
}

-- A watch that goes on, and one that returns.
abbrev pub Going : List PartyEvent → ℤ → Type 0
Going log version =
    Rising (pos 0) log × (last_version (pos 0) log ≡ version) × (no_removed log ≡ true)

abbrev pub Ended : List PartyEvent → Type 0
Ended log = Rising (pos 0) log × RemovedLast log

abbrev GoesOn : {U W : Type 0} → Watch U W → Type 0
GoesOn s = Going s.reported s.version

abbrev Ends : {U W : Type 0} → GoError → Watch U W → Type 0
Ends e s = Ended s.reported

abbrev Reports : {U W : Type 0} → Step U W → Type 0
Reports a = Holds GoesOn Ends a

Going-neutral :
    (log : List PartyEvent) (v : ℤ) (ev : PartyEvent)
    → is_neutral ev ≡ true
    → Going log v
    → Going (log ++ ev ∷ []) v
Going-neutral log v (changed p) e h = ground (arith, e)
Going-neutral log v (invite i) e h = (
  Rising-append (pos 0) log (invite i ∷ []) h.0 tt,
  last_version-append (pos 0) log (invite i ∷ []) ∙ h.1,
  no_removed-append log (invite i ∷ []) h.2,
)
Going-neutral log v (found m) e h = (
  Rising-append (pos 0) log (found m ∷ []) h.0 tt,
  last_version-append (pos 0) log (found m ∷ []) ∙ h.1,
  no_removed-append log (found m ∷ []) h.2,
)
Going-neutral log v removed e h = ground (arith, e)

Going-changed :
    (log : List PartyEvent) (v : ℤ) (p : Party)
    → ltb_ℤ v p.version ≡ true
    → Going log v
    → Going (log ++ changed p ∷ []) p.version
Going-changed log v p e h = (
  Rising-append (pos 0) log (changed p ∷ []) h.0
      (subst (λ x. ltb_ℤ x p.version ≡ true) (sym h.1) e, tt),
  last_version-append (pos 0) log (changed p ∷ []),
  no_removed-append log (changed p ∷ []) h.2,
)

Going-removed : (log : List PartyEvent) (v : ℤ) → Going log v → Ended (log ++ removed ∷ [])
Going-removed log v h =
    (Rising-append (pos 0) log (removed ∷ []) h.0 tt, RemovedLast-append log removed h.2)

Going-Ended : (log : List PartyEvent) (v : ℤ) → Going log v → Ended log
Going-Ended log v h = (h.0, RemovedLast-none log h.2)

module _ {U W : Type 0} (env : Env W) (codec : WatchCodec) (ctx : Context) (fn : Callback U W)
    (party_id me : ℤ) where
  -- A callback's answer changes no log.
  called_back-Reports :
      (s : Watch U W) (a : Result (Unit {0}) × (U × Client W))
      → Going s.reported s.version
      → Reports (called_back s a)
  called_back-Reports s (ok u, (x, c)) h = h
  called_back-Reports s (err e, (x, c)) h = Going-Ended s.reported s.version h

  removed-Reports :
      (s : Watch U W) (a : Result (Unit {0}) × (U × Client W))
      → Ended s.reported
      → Reports (done_after (called_back s a))
  removed-Reports s (ok u, (x, c)) h = h
  removed-Reports s (err e, (x, c)) h = h

  report-Reports :
      (ev : PartyEvent) (s : Watch U W)
      → is_neutral ev ≡ true
      → Going s.reported s.version
      → Reports (report env codec ctx fn party_id me ev s)
  unfolding report
  report-Reports ev s e h =
      called_back-Reports (record s { reported = s.reported ++ ev ∷ [] }) (fn ev (s.user, s.client))
        (Going-neutral s.reported s.version ev e h)

  remove-Reports :
      (s : Watch U W) → Going s.reported s.version → Reports (remove env codec ctx fn party_id me s)
  unfolding remove report
  remove-Reports s h =
      removed-Reports (record s { reported = s.reported ++ removed ∷ [] })
        (fn removed (s.user, s.client)) (Going-removed s.reported s.version h)

  -- Going and Ended are an invariant of Watch.
  log-Kept : Kept env codec ctx fn party_id me GoesOn Ends
  unfolding report
  log-Kept = record {
    neutral = λ ev s e h. report-Reports ev s e h;
    newer = λ p s e h.
        called_back-Reports
          (record s { version = p.version; reported = s.reported ++ changed p ∷ [] })
          (fn (changed p) (s.user, s.client)) (Going-changed s.reported s.version p e h);
    removal = remove-Reports;
    client = λ s c h. h;
    last_match = λ s id h. h;
    context = λ s x h. Going-Ended s.reported s.version h;
  }

-- What Watch has reported, while it runs and when it returned.
abbrev pub log_of : {U W : Type 0} → Progress U W → List PartyEvent
log_of (waiting s) = s.reported
log_of (returned e s) = s.reported

module _ {U W : Type 0} (env : Env W) (codec : WatchCodec) (ctx : Context) (fn : Callback U W)
    (party_id : ℤ) where
  Sound-log :
      (me : ℤ) (p : Progress U W)
      → Sound env codec ctx fn party_id me GoesOn Ends (log-Kept env codec ctx fn party_id me) p
      → Ended (log_of p)
  Sound-log me (waiting s) h = Going-Ended s.reported s.version h
  Sound-log me (returned e s) h = h

  session-log :
      (dial : Dial W) (es : List Event) (u : U) (c : Client W) (o : Option Session)
      → Ended (log_of (with_session env codec ctx fn party_id dial es u c o))
  session-log dial es u c none = (tt, tt)
  session-log dial es u c (some s) =
      Sound-log s.player_id (run env codec ctx fn party_id s.player_id dial es (fresh_watch u c)) (
        run-Sound env codec ctx fn party_id s.player_id GoesOn Ends
          (log-Kept env codec ctx fn party_id s.player_id) dial es (fresh_watch u c)
          (λ x e. (tt, tt)) (tt, refl, refl))

  -- Whatever happens while Watch runs, whatever the server and the callback answer: the versions of the
  -- parties that it reports rise strictly from above 0, and nothing is reported after the removal of
  -- the player.
  pub watch-Ended :
      (dial : Dial W) (es : List Event) (u : U) (c : Client W)
      → Ended (log_of (watch env codec ctx fn party_id dial es u c))
  unfolding watch
  watch-Ended dial es u c = session-log dial es u c c.session
