-- ===== src/Realtime/Read.antt =====
-- ReadMessage and reconnect of realtime.go. Close may be called at any time by another goroutine: the
-- world says whether it was, during a read, a wait or a dial.
use ggscale_go.Prelude.{
  ℕ, zero, suc, ◌+◌, ◌-◌, Bool, true, false, not, ◌&&◌, ◌||◌, ◌∷◌, Option, none, some, ◌==◌,
  if◌then◌else◌,
}
use ggscale_go.Prelude.Int.{ℤ, pos, ltb_ℤ, pos_part}
use ggscale_go.Prelude.Text.{is_empty}
use ggscale_go.Errors.{Bytes, Duration, Sentinel, GoError, errors_is}
use ggscale_go.Transport.{Result, ok, err, Context}
use ggscale_go.StdNet.{Net}
use ggscale_go.StdNet.Policy.{retryable_status, retry_fits_deadline}
use ggscale_go.Client.{Env, Client}
use ggscale_go.Matchmaker.Wait.{Message, Ending, cause}
use ggscale_go.Realtime.{
  Conn, Realtime, dialed_again, connection_closed, mark_closed, close, should_reconnect,
  reconnect_delay,
}
use ggscale_go.Realtime.Dial.{Dialer, dial_realtime}

-- conn.Read: a message, or an error that is the context's or has a close code.
pub data Incoming : Type 0 where
  bytes : Bytes → Incoming
  interrupted : Ending → Incoming
  broken : ℤ → Incoming

-- sleepRealtime
pub data Pause : Type 0 where
  elapsed : Pause
  ended : Ending → Pause
  closed_meanwhile : Pause

pub record Socket (W : Type 0) : Type 0 where
  pub read : Conn → Context → W → Incoming × W
  pub pause : Context → Duration → W → Pause × W
  -- whether Close was called during the read or the dial that has just ended
  pub close_called : W → Bool
  -- json.Unmarshal into a Message
  pub decode : Bytes → Option Message

-- errors.As at a *RealtimeDialError: its status and its Retry-After
unfoldable pub as_dial : GoError → Option (ℕ × Duration)
as_dial (GoError.dial status after e) = some (status, after)
as_dial (GoError.request k op id e) = as_dial e
as_dial (GoError.wrapped m e) = as_dial e
as_dial (GoError.realtime code e) = as_dial e
as_dial _ = none

abbrev pub longer : Duration → Duration → Duration
longer a b = if ltb_ℤ b a then a else b

abbrev is_context_error : GoError → Bool
is_context_error e = errors_is e Sentinel.context_canceled || errors_is e Sentinel.deadline_exceeded

module _ {W : Type 0} where
  abbrev pub with_world : W → Realtime W → Realtime W
  with_world w r = record r { owner = record r.owner { world = w } }

  abbrev pub closed_if : Bool → Realtime W → Realtime W
  closed_if called r = if called then close r else r

-- A round of reconnect: it ends, or goes on with the last error and the least delay.
pub data Tried (W : Type 0) : Type 0 where
  finished : Result (Unit {0}) → Realtime W → Tried W
  next : GoError → Duration → Realtime W → Tried W

-- A round of ReadMessage: it returns, or reads again.
pub data ReadRound (W : Type 0) : Type 0 where
  return : Result Message → Realtime W → ReadRound W
  again : Realtime W → ReadRound W

module _ {W : Type 0} (net : Net W) (env : Env W) (dialer : Dialer W) (socket : Socket W)
    (ctx : Context) where
  -- The connection of a new client is taken over, unless Close came first.
  abbrev pub taken : ℕ → Realtime W → Realtime W → Tried W
  taken attempt r fresh =
      if r.closed
      then finished (err connection_closed) r
      else finished (ok tt) (record r {
        conn = fresh.conn;
        connected_at = net.clock.now r.owner.world;
        reconnect_count = attempt;
      })

  abbrev pub dial_refused : Duration → GoError → Option (ℕ × Duration) → Realtime W → Tried W
  dial_refused minimum e none r = next e minimum r
  dial_refused minimum e (some (status, after)) r =
      if not (status == 0) && not (retryable_status status)
      then finished (err e) r
      else next e after r

  abbrev pub after_dial : ℕ → Duration → Realtime W → Result (Realtime W) × Client W → Tried W
  after_dial attempt minimum r (ok fresh, c) =
      taken attempt (closed_if (socket.close_called c.world) (record r { owner = c })) fresh
  after_dial attempt minimum r (err e, c) =
      dial_refused minimum e (as_dial e)
        (closed_if (socket.close_called c.world) (record r { owner = c }))

  abbrev pub after_pause : ℕ → Duration → Realtime W → Pause × W → Tried W
  after_pause attempt minimum r (elapsed, w) =
      after_dial attempt minimum (record r { trials = dialed_again ∷ r.trials })
        (dial_realtime env dialer ctx r.request_id (with_world w r).owner)
  after_pause attempt minimum r (ended e, w) = finished (err (cause e)) (with_world w r)
  after_pause attempt minimum r (closed_meanwhile, w) =
      finished (err connection_closed) (close (with_world w r))

  abbrev pub paused : ℕ → GoError → Duration → Realtime W → Duration × W → Tried W
  paused attempt last minimum r (delay, w) =
      if retry_fits_deadline net.clock ctx (longer minimum delay) w
      then after_pause attempt minimum r (socket.pause ctx (longer minimum delay) w)
      else finished (err last) (with_world w r)

  unfoldable pub reconnect_round : ℕ → GoError → Duration → Realtime W → Tried W
  unfolding close reconnect_delay dial_realtime as_dial
  reconnect_round attempt last minimum r =
      paused attempt last minimum (record r { reconnect_count = attempt })
        (reconnect_delay net r.reconnect_policy attempt r.owner.world)

  abbrev pub after_round :
      (GoError → Duration → Realtime W → Result (Unit {0}) × Realtime W)
      → Tried W
      → Result (Unit {0}) × Realtime W
  after_round k (finished x r) = (x, r)
  after_round k (next e d r) = k e d r

  -- The loop of reconnect, for the attempts that are left.
  unfoldable pub reconnect_rounds :
      ℕ → ℕ → GoError → Duration → Realtime W → Result (Unit {0}) × Realtime W
  unfolding reconnect_round
  reconnect_rounds zero attempt last minimum r = (err last, r)
  reconnect_rounds (suc left) attempt last minimum r =
      after_round (reconnect_rounds left (attempt + 1)) (reconnect_round attempt last minimum r)

  -- reconnect
  unfoldable pub reconnect : Realtime W → Result (Unit {0}) × Realtime W
  unfolding reconnect_rounds
  reconnect r =
      reconnect_rounds (pos_part r.reconnect_policy.max_attempts - r.reconnect_count)
        (r.reconnect_count + 1) connection_closed (pos 0) r

  abbrev decoded : Option Message → Result Message
  decoded none = err (GoError.text "unmarshal message")
  decoded (some m) =
      if is_empty m.type
      then err (GoError.text "ggscale: realtime message is missing type")
      else ok m

  abbrev reconnect_failed : ℤ → GoError → GoError
  reconnect_failed code e = if is_context_error e then e else GoError.realtime code e

  abbrev pub reconnected : Conn → ℤ → Result (Unit {0}) × Realtime W → ReadRound W
  reconnected conn code (ok u, r) = again r
  reconnected conn code (err e, r) = return (err (reconnect_failed code e)) (mark_closed conn r)

  abbrev pub on_break : Conn → ℤ → Bool × Realtime W → ReadRound W
  on_break conn code (false, r) = return (err connection_closed) (mark_closed conn r)
  on_break conn code (true, r) = reconnected conn code (reconnect r)

  abbrev pub received : Conn → Incoming → Realtime W → ReadRound W
  received conn (bytes b) r = return (decoded (socket.decode b)) r
  received conn (interrupted e) r = return (err (cause e)) r
  received conn (broken code) r = on_break conn code (should_reconnect net.clock code r)

  abbrev pub read_from : Realtime W → Conn → Incoming × W → ReadRound W
  read_from r conn (i, w) = received conn i (closed_if (socket.close_called w) (with_world w r))

  abbrev pub read_open : Option Conn → Realtime W → ReadRound W
  read_open none r = return (err connection_closed) r
  read_open (some conn) r =
      if r.closed
      then return (err connection_closed) r
      else read_from r conn (socket.read conn ctx r.owner.world)

  unfoldable pub read_round : Realtime W → ReadRound W
  unfolding close mark_closed should_reconnect reconnect
  read_round r = read_open r.conn r

  abbrev pub after_read :
      (Realtime W → Option (Result Message) × Realtime W)
      → ReadRound W
      → Option (Result Message) × Realtime W
  after_read k (return x r) = (some x, r)
  after_read k (again r) = k r

  -- ReadMessage, for at most the given number of reads: `none` when it would read again.
  unfoldable pub read_message : ℕ → Realtime W → Option (Result Message) × Realtime W
  unfolding read_round
  read_message zero r = (none, r)
  read_message (suc n) r = after_read (read_message n) (read_round r)
