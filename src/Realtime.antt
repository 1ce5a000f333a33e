-- ===== src/Realtime.antt =====
-- realtime.go: a WebSocket connection that reconnects. This file has the state, the delays and the end
-- of a connection; Realtime/Dial opens one, and Realtime/Read has ReadMessage and reconnect.
pub mod Dial
pub mod Socket
pub mod Read
pub mod Once
pub mod Delay
pub mod Examples
use ggscale_go.Prelude.{
  ℕ, ◌+◌, ◌-◌, ◌*◌, Bool, true, false, not, ◌&&◌, ◌||◌, String, List, [], ◌∷◌, Option, none, some,
  ◌==◌, ltb, leb, if◌then◌else◌,
}
use ggscale_go.Prelude.Int.{ℤ, pos, negsuc, eq_ℤ, ltb_ℤ, leb_ℤ, sub_ℕ}
use ggscale_go.Errors.{Bytes, Duration, Sentinel, GoError}
use ggscale_go.Transport.{Result, ok, err, Context, Clock}
use ggscale_go.StdNet.{Net}
use ggscale_go.StdNet.Policy.{second, backoff_cap, at_most, jittered}
use ggscale_go.Client.{Client}
use ggscale_go.Client.New.{ReconnectPolicy}

-- *websocket.Conn, by a number of its own
abbrev pub Conn : Type 0
Conn = ℕ

-- What the properties count, the latest first: an attempt to dial again, or a connection of which
-- shouldReconnect found how long it had lasted, and started to count anew.
pub data Trial : Type 0 where
  dialed_again : Trial
  counted_anew : Duration → Trial

-- RealtimeClient, whose locks the steps hold. Two fields only record what happens: `done_closes` counts
-- the calls of close(done), of which a second one would panic, and `trials` has the dials.
pub record Realtime (W : Type 0) : Type 0 where
  pub conn : Option Conn
  pub reconnect_policy : ReconnectPolicy
  pub closed : Bool
  pub done_closes : ℕ
  pub connected_at : ℕ
  pub reconnect_count : ℕ
  pub request_id : String
  pub trials : List Trial
  -- the Client that owns it
  pub owner : Client W

-- stableRealtimeConnection
abbrev pub stable_realtime_connection : Duration
stable_realtime_connection = pos (30 * second)

abbrev pub connection_closed : GoError
connection_closed = GoError.sentinel Sentinel.connection_closed

-- The close codes after which a client reconnects; -1 stands for no close frame.
abbrev pub is_retryable_close : ℤ → Bool
is_retryable_close code =
    eq_ℤ code (negsuc 0)
    || eq_ℤ code (pos 1001)
    || eq_ℤ code (pos 1006)
    || eq_ℤ code (pos 1011)
    || eq_ℤ code (pos 1012)
    || eq_ℤ code (pos 1013)

abbrev pub same_conn : Option Conn → Conn → Bool
same_conn none c = false
same_conn (some d) c = c == d

-- The cap of reconnectDelay
abbrev pub reconnect_cap : ReconnectPolicy → ℕ → Duration
reconnect_cap p attempt =
    if ltb 1 attempt
    then at_most p.max_delay (backoff_cap (attempt - 2) p.max_delay p.base_delay)
    else p.first_delay_max

module _ {W : Type 0} where
  -- The flag and the channel, together under the lock.
  abbrev pub mark : Realtime W → Realtime W
  mark r = if r.closed then r else record r { closed = true; done_closes = r.done_closes + 1 }

  -- markClosed. CloseNow of the connection is not seen here.
  unfoldable pub mark_closed : Conn → Realtime W → Realtime W
  mark_closed c r = mark (if same_conn r.conn c then record r { conn = none } else r)

  -- Close
  unfoldable pub close : Realtime W → Realtime W
  close r = mark (record r { conn = none })

  -- A connection that was stable for long enough starts to count anew.
  abbrev pub settled : Clock W → Realtime W → Realtime W
  settled clock r =
      let age = sub_ℕ (clock.now r.owner.world) r.connected_at in
      if not r.closed && leb_ℤ stable_realtime_connection age
      then record r { reconnect_count = 0; trials = counted_anew age ∷ r.trials }
      else r

  abbrev pub is_exhausted : Realtime W → Bool
  is_exhausted r = leb_ℤ r.reconnect_policy.max_attempts (pos r.reconnect_count)

  -- shouldReconnect. connectedAt is never the zero time: only dialRealtimeOnce makes a client.
  unfoldable pub should_reconnect : Clock W → ℤ → Realtime W → Bool × Realtime W
  should_reconnect clock code r =
      if r.reconnect_policy.disabled
      then (false, r)
      else (let r' = settled clock r in
          (not r'.closed && not (is_exhausted r') && is_retryable_close code, r'))

  -- reconnectDelay
  unfoldable pub reconnect_delay : Net W → ReconnectPolicy → ℕ → W → Duration × W
  reconnect_delay net p attempt w = jittered net p.jitter (reconnect_cap p attempt) w
