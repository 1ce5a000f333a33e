-- ===== src/Parties/Watch/Run.antt =====
-- (*partyWatch).run and (*PartiesService).Watch of parties.go.
use ggscale_go.Prelude.{Bool, true, false, List, [], ◌∷◌, Option, none, some, if◌then◌else◌}
use ggscale_go.Prelude.Int.{ℤ, pos, is_zero}
use ggscale_go.Errors.{Sentinel, GoError, errors_is}
use ggscale_go.Transport.{Result, ok, err, Context}
use ggscale_go.Client.{Session, Env, Client, no_session}
use ggscale_go.Matchmaker.Wait.{Event, cause, ended, message, closed, tick}
use ggscale_go.Parties.Watch.{
  Watch, WatchCodec, Callback, Step, no_error, refresh, heartbeat, handle,
}

-- What a run of the loop over some events comes to: it returned, or waits for the next event.
pub data Progress (U W : Type 0) : Type 0 where
  waiting : Watch U W → Progress U W
  returned : GoError → Watch U W → Progress U W

-- The first error returns.
abbrev pub after_step : {U W : Type 0} → (Watch U W → Progress U W) → Step U W → Progress U W
after_step k (err x, w) = returned x w
after_step k (ok u, w) = k w

-- What DialRealtime returns: nil, or its error.
abbrev pub Dial : Type 0 → Type 0
Dial W = Client W → Option GoError × Client W

module _ {U W : Type 0} (env : Env W) (codec : WatchCodec) (ctx : Context) (fn : Callback U W)
    (party_id me : ℤ) where
  -- What one event does. `live` is whether the channel of messages is open. The ticker is there with
  -- a party only.
  unfoldable pub on_event : Bool → Event → Watch U W → Step U W
  unfolding handle heartbeat
  on_event live (ended s) w = (err (cause s), w)
  on_event live closed w = (no_error, w)
  on_event live (message m) w =
      if live then handle env codec ctx fn party_id me m w else (no_error, w)
  on_event live tick w =
      if is_zero party_id then (no_error, w) else heartbeat env codec ctx fn party_id me w

  abbrev pub stays_live : Bool → Event → Bool
  stays_live live closed = false
  stays_live live (ended s) = live
  stays_live live (message m) = live
  stays_live live tick = live

  -- The loop of run
  unfoldable pub loop : Bool → List Event → Watch U W → Progress U W
  unfolding on_event
  loop live [] w = waiting w
  loop live (e ∷ es) w = after_step (loop (stays_live live e) es) (on_event live e w)

  -- The first read of the party, if there is one, and the loop.
  abbrev pub started : Bool → List Event → Watch U W → Progress U W
  started live es w =
      if is_zero party_id
      then loop live es w
      else after_step (loop live es) (refresh env codec ctx fn party_id me w)

  abbrev pub dialed : List Event → Watch U W → Option GoError × Client W → Progress U W
  dialed es w (none, c) = started true es (record w { client = c })
  dialed es w (some x, c) =
      if is_zero party_id
      then returned x (record w { client = c })
      else started false es (record w { client = c })

  -- (*partyWatch).run
  unfoldable pub run : Dial W → List Event → Watch U W → Progress U W
  unfolding loop refresh
  run dial es w = dialed es w (dial w.client)

-- The watch that Watch makes.
abbrev pub fresh_watch : {U W : Type 0} → U → Client W → Watch U W
fresh_watch u c = record { version = pos 0; last_match = ""; reported = []; user = u; client = c }

-- What Watch returns for what its run does: `none` while it runs.
unfoldable pub watch_result : {U W : Type 0} → Progress U W → Option (Result (Unit {0}))
watch_result (waiting w) = none
watch_result (returned x w) = if errors_is x Sentinel.watch_done then some (ok tt) else some (err x)

module _ {U W : Type 0} (env : Env W) (codec : WatchCodec) (ctx : Context) (fn : Callback U W)
    (party_id : ℤ) where
  abbrev pub with_session : Dial W → List Event → U → Client W → Option Session → Progress U W
  with_session dial es u c none = returned no_session (fresh_watch u c)
  with_session dial es u c (some s) =
      run env codec ctx fn party_id s.player_id dial es (fresh_watch u c)

  -- (*PartiesService).Watch, up to the errors that watch_result maps
  unfoldable pub watch : Dial W → List Event → U → Client W → Progress U W
  unfolding run
  watch dial es u c = with_session dial es u c c.session
