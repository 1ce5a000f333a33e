-- ===== src/GameSessions/Signals.antt =====
-- signals.go: the signals between the players of a game session.
use ggscale_go.Prelude.{ℕ, String, List, []}
use ggscale_go.Prelude.Int.{ℤ}
use ggscale_go.Transport.{Json, object, field, int, string, done, Request, request, Out, Context}
use ggscale_go.Transport.Build.{with_body, with_positive}
use ggscale_go.Client.{Env, M, call_protected}
use ggscale_go.GameSessions.{game_session_path}

pub record GameSessionSignal : Type 0 where
  pub id : ℤ
  pub from_player_id : ℤ
  pub to_player_id : ℤ
  pub negotiation_id : String
  pub kind : String
  pub payload : String
  pub created_at : ℕ

pub record SendGameSessionSignal : Type 0 where
  pub to_player_id : ℤ
  pub negotiation_id : String
  pub kind : String
  pub payload : String

abbrev signal_json : SendGameSessionSignal → Json
signal_json s = object (
    field "to_player_id" (int s.to_player_id) (
      field "negotiation_id" (string s.negotiation_id)
        (field "kind" (string s.kind) (field "payload" (string s.payload) done))))

unfoldable pub send_signal_request : String → SendGameSessionSignal → Request
unfolding game_session_path
send_signal_request id signal =
    with_body (request "sendGameSessionSignal" "POST" (game_session_path id "/signals"))
      (signal_json signal)

unfoldable pub poll_signals_request : String → ℤ → Request
unfolding game_session_path
poll_signals_request id after_id =
    record (request "pollGameSessionSignals" "GET" (game_session_path id "/signals")) {
      query = with_positive "after_id" after_id [];
    }

-- A response that has one field is decoded as this field.
module _ {W : Type 0} (env : Env W) (ctx : Context) where
  -- Send
  unfoldable pub send_signal : Out ℤ → String → SendGameSessionSignal → M W ℤ
  unfolding send_signal_request
  send_signal out id signal = call_protected env out ctx (send_signal_request id signal)

  -- Poll
  unfoldable pub poll_signals :
      Out (List GameSessionSignal) → String → ℤ → M W (List GameSessionSignal)
  unfolding poll_signals_request
  poll_signals out id after_id = call_protected env out ctx (poll_signals_request id after_id)
