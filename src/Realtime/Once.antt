-- ===== src/Realtime/Once.antt =====
-- What every use of a RealtimeClient of realtime.go keeps: its channel is closed at most once, and its
-- reconnect count stays within the policy.
pub mod Steps
use ggscale_go.Prelude.{
  List, [], ◌∷◌, ℕ, zero, suc, ◌+◌, ◌-◌, ◌≤◌, ◌≡◌, Bool, true, false, Option, none, some, arith,
  if◌then◌else◌,
}
use ggscale_go.Prelude.Int.{ℤ, pos, pos_part}
use ggscale_go.Errors.{Duration, GoError}
use ggscale_go.Transport.{Result, ok, err, Context}
use ggscale_go.StdNet.{Net}
use ggscale_go.Client.{Env, Client}
use ggscale_go.Matchmaker.Wait.{Message}
use ggscale_go.Realtime.{
  Conn, Realtime, connection_closed, mark_closed, close, should_reconnect, reconnect_delay,
}
use ggscale_go.Realtime.Dial.{Dialer, dial_realtime}
use ggscale_go.Realtime.Read.{
  Socket, Incoming, bytes, interrupted, broken, Pause, elapsed, ended, closed_meanwhile, with_world,
  closed_if, Tried, finished, next, ReadRound, return, again, taken, dial_refused, after_dial,
  after_pause, paused, reconnect_round, after_round, reconnect_rounds, reconnect, reconnected,
  on_break, received, read_open, read_round, after_read, read_message, as_dial, longer,
}

-- What a holder of a RealtimeClient can do with it.
pub data Use : Type 0 where
  -- a ReadMessage under a context, of at most a number of reads
  reading : Context → ℕ → Use
  closing : Use

module _ {W : Type 0} (net : Net W) (env : Env W) (dialer : Dialer W) (socket : Socket W) where
  abbrev pub use_all : List Use → Realtime W → Realtime W
  use_all [] r = r
  use_all (reading ctx n ∷ us) r = use_all us (read_message net env dialer socket ctx n r).1
  use_all (closing ∷ us) r = use_all us (close r)

  -- After Close, ReadMessage returns ErrConnectionClosed at once, and changes nothing.
  pub read_message-close :
      (ctx : Context) (n : ℕ) (r : Realtime W)
      → read_message net env dialer socket ctx (suc n) (close r)
        ≡ (some (err connection_closed), close r)
  unfolding read_message read_round close
  read_message-close ctx n r = ground arith
