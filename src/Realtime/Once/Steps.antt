-- ===== src/Realtime/Once/Steps.antt =====
-- What ReadMessage and Close of realtime.go keep of a RealtimeClient's state.
use ggscale_go.Prelude.{
  ℕ, zero, suc, ◌+◌, ◌-◌, ◌*◌, ◌≤◌, ◌<◌, ◌≡◌, refl, ◌∙◌, List, [], ◌∷◌, Bool, true, false, Option,
  none, some, arith, if◌then◌else◌,
}
use ggscale_go.Prelude.Int.{ℤ, pos, pos_part, ◌≤ℤ◌}
use ggscale_go.Errors.{Duration, GoError}
use ggscale_go.Transport.{Result, ok, err, Context}
use ggscale_go.StdNet.{Net}
use ggscale_go.StdNet.Policy.{second}
use ggscale_go.Client.{Env, Client}
use ggscale_go.Matchmaker.Wait.{Message}
use ggscale_go.Realtime.{
  Conn, Realtime, Trial, dialed_again, counted_anew, connection_closed, mark_closed, close,
  should_reconnect, reconnect_delay,
}
use ggscale_go.Realtime.Dial.{Dialer, dial_realtime}
use ggscale_go.Realtime.Read.{
  Socket, Incoming, bytes, interrupted, broken, Pause, elapsed, ended, closed_meanwhile, with_world,
  closed_if, Tried, finished, next, ReadRound, return, again, taken, dial_refused, after_dial,
  after_pause, paused, reconnect_round, after_round, reconnect_rounds, reconnect, reconnected,
  on_break, received, read_open, read_round, after_read, read_message, as_dial, longer,
}

-- The dials since the connection was last stable, and that each count anew was after a stable one.
abbrev pub since_stable : List Trial → ℕ
since_stable [] = 0
since_stable (dialed_again ∷ l) = suc (since_stable l)
since_stable (counted_anew age ∷ l) = 0

abbrev pub AllStable : List Trial → Type 0
AllStable [] = Unit
AllStable (dialed_again ∷ l) = AllStable l
AllStable (counted_anew age ∷ l) = (pos (30 * second) ≤ℤ age) × AllStable l

-- done is closed exactly when the client is, and was closed once then; the dials since a connection
-- last stood for 30 seconds are within the policy's `m`, as the client counts them.
pub record Sound {W : Type 0} (m : ℕ) (r : Realtime W) : Type 0 where
  pub once : r.done_closes ≡ (if r.closed then 1 else 0)
  pub dials : since_stable r.trials ≤ r.reconnect_count
  pub stable : AllStable r.trials
  pub within : r.reconnect_count ≤ m
  pub limit : pos_part r.reconnect_policy.max_attempts ≡ m

module _ {W : Type 0} (m : ℕ) where
  pub Sound-close : (r : Realtime W) → Sound m r → Sound m (close r)
  unfolding close
  Sound-close r h = ground (arith, h.once, h.dials, h.stable, h.within, h.limit)

  Sound-closed_if : (b : Bool) (r : Realtime W) → Sound m r → Sound m (closed_if b r)
  Sound-closed_if true r h = Sound-close r h
  Sound-closed_if false r h = h

  Sound-mark_closed : (c : Conn) (r : Realtime W) → Sound m r → Sound m (mark_closed c r)
  unfolding mark_closed
  Sound-mark_closed c r h = ground (arith, h.once, h.dials, h.stable, h.within, h.limit)

  -- Of a round of reconnect that goes on, also that it counted its attempt.
  abbrev SoundTried : ℕ → Tried W → Type 0
  SoundTried attempt (finished x r) = Sound m r
  SoundTried attempt (next e d r) = Sound m r × (r.reconnect_count ≡ attempt)

  abbrev SoundRound : ReadRound W → Type 0
  SoundRound (return x r) = Sound m r
  SoundRound (again r) = Sound m r

  module _ (net : Net W) (env : Env W) (dialer : Dialer W) (socket : Socket W) (ctx : Context) where
    Sound-owned : (r : Realtime W) (c : Client W) → Sound m r → Sound m (record r { owner = c })
    Sound-owned r c h = record {
      once = h.once;
      dials = h.dials;
      stable = h.stable;
      within = h.within;
      limit = h.limit;
    }

    count-closed_if :
        (b : Bool) (r : Realtime W) → (closed_if b r).reconnect_count ≡ r.reconnect_count
    unfolding close
    count-closed_if b r = ground arith

    Sound-taken :
        (attempt : ℕ) (r fresh : Realtime W)
        → Sound m r
        → r.reconnect_count ≡ attempt
        → SoundTried attempt (taken net env dialer socket ctx attempt r fresh)
    Sound-taken attempt r fresh h q =
        ground (arith, q, h.once, h.dials, h.stable, h.within, h.limit)

    Sound-refused :
        (attempt : ℕ) (d : Duration) (e : GoError) (o : Option (ℕ × Duration)) (r : Realtime W)
        → Sound m r
        → r.reconnect_count ≡ attempt
        → SoundTried attempt (dial_refused net env dialer socket ctx d e o r)
    Sound-refused attempt d e none r h q = (h, q)
    Sound-refused attempt d e (some (status, after)) r h q = ground (arith, h, q)

    Sound-after_dial :
        (attempt : ℕ) (d : Duration) (r : Realtime W) (x : Result (Realtime W) × Client W)
        → Sound m r
        → r.reconnect_count ≡ attempt
        → SoundTried attempt (after_dial net env dialer socket ctx attempt d r x)
    Sound-after_dial attempt d r (ok fresh, c) h q =
        let r' = record r { owner = c } in
        Sound-taken attempt (closed_if (socket.close_called c.world) r') fresh
          (Sound-closed_if (socket.close_called c.world) r' (Sound-owned r c h))
          (count-closed_if (socket.close_called c.world) r' ∙ q)
    Sound-after_dial attempt d r (err e, c) h q =
        let r' = record r { owner = c } in
        Sound-refused attempt d e (as_dial e) (closed_if (socket.close_called c.world) r')
          (Sound-closed_if (socket.close_called c.world) r' (Sound-owned r c h))
          (count-closed_if (socket.close_called c.world) r' ∙ q)

    -- The dial of an attempt that was counted before it.
    Sound-dialed :
        (r : Realtime W)
        → since_stable r.trials < r.reconnect_count
        → Sound m r
        → Sound m (record r { trials = dialed_again ∷ r.trials })
    Sound-dialed r b h = record {
      once = h.once;
      dials = omega (arith, b);
      stable = h.stable;
      within = h.within;
      limit = h.limit;
    }

    Sound-after_pause :
        (attempt : ℕ) (d : Duration) (r : Realtime W) (x : Pause × W)
        → since_stable r.trials < r.reconnect_count
        → Sound m r
        → r.reconnect_count ≡ attempt
        → SoundTried attempt (after_pause net env dialer socket ctx attempt d r x)
    Sound-after_pause attempt d r (elapsed, w) b h q =
        Sound-after_dial attempt d (record r { trials = dialed_again ∷ r.trials })
          (dial_realtime env dialer ctx r.request_id (with_world w r).owner) (Sound-dialed r b h) q
    Sound-after_pause attempt d r (ended e, w) b h q =
        Sound-owned r (record r.owner { world = w }) h
    Sound-after_pause attempt d r (closed_meanwhile, w) b h q =
        Sound-close (with_world w r) (Sound-owned r (record r.owner { world = w }) h)

    Sound-paused :
        (attempt : ℕ) (last : GoError) (d : Duration) (r : Realtime W) (x : Duration × W)
        → since_stable r.trials < r.reconnect_count
        → Sound m r
        → r.reconnect_count ≡ attempt
        → SoundTried attempt (paused net env dialer socket ctx attempt last d r x)
    Sound-paused attempt last d r (delay, w) b h q =
        let p = Sound-after_pause attempt d r (socket.pause ctx (longer d delay) w) b h q in
        let o = Sound-owned r (record r.owner { world = w }) h in ground (arith, p, o)

    Sound-round :
        (attempt : ℕ) (last : GoError) (d : Duration) (r : Realtime W)
        → attempt ≤ m
        → r.reconnect_count + 1 ≡ attempt
        → Sound m r
        → SoundTried attempt (reconnect_round net env dialer socket ctx attempt last d r)
    unfolding reconnect_round
    Sound-round attempt last d r a q h =
        Sound-paused attempt last d (record r { reconnect_count = attempt })
          (reconnect_delay net r.reconnect_policy attempt r.owner.world) (omega (arith, q, h.dials))
          (record {
            once = h.once;
            dials = omega (arith, q, h.dials);
            stable = h.stable;
            within = a;
            limit = h.limit;
          })
          refl

    Sound-after_round :
        (k : GoError → Duration → Realtime W → Result (Unit {0}) × Realtime W) (attempt : ℕ)
        (t : Tried W)
        → SoundTried attempt t
        → ((e : GoError) (d : Duration) (r : Realtime W)
            → Sound m r
            → r.reconnect_count ≡ attempt
            → Sound m (k e d r).1)
        → Sound m (after_round net env dialer socket ctx k t).1
    Sound-after_round k attempt (finished x r) h f = h
    Sound-after_round k attempt (next e d r) h f = f e d r h.0 h.1

    Sound-rounds :
        (left attempt : ℕ) (last : GoError) (d : Duration) (r : Realtime W)
        → left + attempt ≤ m + 1
        → r.reconnect_count + 1 ≡ attempt
        → Sound m r
        → Sound m (reconnect_rounds net env dialer socket ctx left attempt last d r).1
    unfolding reconnect_rounds
    Sound-rounds zero attempt last d r b q h = h
    Sound-rounds (suc left) attempt last d r b q h =
        Sound-after_round (reconnect_rounds net env dialer socket ctx left (attempt + 1)) attempt
          (reconnect_round net env dialer socket ctx attempt last d r)
          (Sound-round attempt last d r (omega (arith, b)) q h)
          (λ e' d' r' h' q'.
            Sound-rounds left (attempt + 1) e' d' r' (omega (arith, b)) (omega (arith, q')) h')

    Sound-reconnect :
        (r : Realtime W) → Sound m r → Sound m (reconnect net env dialer socket ctx r).1
    unfolding reconnect
    Sound-reconnect r h =
        Sound-rounds (pos_part r.reconnect_policy.max_attempts - r.reconnect_count)
          (r.reconnect_count + 1) connection_closed (pos 0) r (omega (arith, h.within, h.limit))
          refl h

    Sound-reconnected :
        (c : Conn) (code : ℤ) (x : Result (Unit {0}) × Realtime W)
        → Sound m x.1
        → SoundRound (reconnected net env dialer socket ctx c code x)
    Sound-reconnected c code (ok u, r) h = h
    Sound-reconnected c code (err e, r) h = Sound-mark_closed c r h

    Sound-on_break :
        (c : Conn) (code : ℤ) (x : Bool × Realtime W)
        → Sound m x.1
        → SoundRound (on_break net env dialer socket ctx c code x)
    Sound-on_break c code (false, r) h = Sound-mark_closed c r h
    Sound-on_break c code (true, r) h =
        Sound-reconnected c code (reconnect net env dialer socket ctx r) (Sound-reconnect r h)

    Sound-should :
        (code : ℤ) (r : Realtime W) → Sound m r → Sound m (should_reconnect net.clock code r).1
    unfolding should_reconnect
    Sound-should code r h = ground (arith, h.once, h.dials, h.stable, h.within, h.limit)

    Sound-received :
        (c : Conn) (i : Incoming) (r : Realtime W)
        → Sound m r
        → SoundRound (received net env dialer socket ctx c i r)
    Sound-received c (bytes b) r h = h
    Sound-received c (interrupted e) r h = h
    Sound-received c (broken code) r h =
        Sound-on_break c code (should_reconnect net.clock code r) (Sound-should code r h)

    Sound-read_open :
        (o : Option Conn) (r : Realtime W)
        → Sound m r
        → SoundRound (read_open net env dialer socket ctx o r)
    Sound-read_open none r h = h
    Sound-read_open (some c) r h =
        let (i, w) = socket.read c ctx r.owner.world in
        let k = Sound-received c i (closed_if (socket.close_called w) (with_world w r)) (
          Sound-closed_if (socket.close_called w) (with_world w r)
            (Sound-owned r (record r.owner { world = w }) h)) in
        ground (arith, k, h)

    Sound-after_read :
        (k : Realtime W → Option (Result Message) × Realtime W) (t : ReadRound W)
        → SoundRound t
        → ((r : Realtime W) → Sound m r → Sound m (k r).1)
        → Sound m (after_read net env dialer socket ctx k t).1
    Sound-after_read k (return x r) h f = h
    Sound-after_read k (again r) h f = f r h

    pub Sound-reads :
        (n : ℕ) (r : Realtime W)
        → Sound m r
        → Sound m (read_message net env dialer socket ctx n r).1
    unfolding read_message read_round
    Sound-reads zero r h = h
    Sound-reads (suc n) r h =
        Sound-after_read (read_message net env dialer socket ctx n)
          (read_open net env dialer socket ctx r.conn r) (Sound-read_open r.conn r h)
          (Sound-reads n)
