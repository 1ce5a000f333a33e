-- ===== src/Auth/Examples.antt =====
-- The theorems on auth.go and anonymous.go, at the server of the examples of client.go.
use ggscale_go.Prelude.{ℕ, refl, true, [], ◌∷◌, Option, none, some}
use ggscale_go.Prelude.Int.{pos}
use ggscale_go.Errors.{Bytes, GoError}
use ggscale_go.Transport.{err, Out, no_out, no_metadata, request}
use ggscale_go.Client.{Env, Client}
use ggscale_go.Client.Persistence.{InSync}
use ggscale_go.Client.Examples.{old_session, new_session, logged_in, client_env, background}
use ggscale_go.Auth.{PendingDelete, logout, disable, request_delete}
use ggscale_go.Auth.Anonymous.{SessionFile, PersistedSession, to_persisted}
use ggscale_go.Auth.Resume.{Resumes, Asks, anonymous_auth-resumes}
use ggscale_go.Auth.Sessions.{
  holds, EndsSession, is_ok, logout-Ends, InSync-sessions, SilentAfter, disable-Silent,
}

abbrev told : Client ℕ
told = record logged_in { updates = some old_session ∷ [] }

abbrev pending_out : Out PendingDelete
pending_out = record {
  wanted = true;
  zero_value = record { delete_requested_at = 0; scheduled_purge_at = 0 };
  unmarshal = λ b. none;
}

logout-Ends_example :
    EndsSession
      (holds told.session "r0")
      (is_ok (logout client_env background "r0" told).0)
      told
      (logout client_env background "r0" told).1
logout-Ends_example = logout-Ends client_env background "r0" told

InSync-sessions_example :
    InSync (logout client_env background "r9" told).1
    × InSync (disable client_env background "pw" told).1
    × InSync (request_delete client_env background pending_out "pw" told).1
InSync-sessions_example = InSync-sessions client_env background pending_out "r9" "pw" told refl

disable-Silent_example :
    SilentAfter client_env background no_out
      (request "getProfile" "GET" "/v1/profile")
      (disable client_env background "pw" told)
disable-Silent_example =
    disable-Silent client_env background no_out "pw" (request "getProfile" "GET" "/v1/profile") told

-- A file that is the world itself, and holds the one byte of a player's only session.
abbrev parse_one : Bytes → Option PersistedSession
parse_one [] = none
parse_one (b ∷ bs) = some (to_persisted old_session)

abbrev disk : SessionFile (Option Bytes)
disk = record {
  mkdir_all = λ w. (true, w);
  read_file = λ w. (w, w);
  write_file = λ raw w. (true, some raw);
  remove = λ w. (true, none);
  marshal = λ s. some (1 ∷ []);
  unmarshal = parse_one;
}

-- A world with no server.
abbrev offline : Env (Option Bytes)
offline = record {
  transport = record {
    call = λ A out ctx req w. record {
      result = err (GoError.text "offline");
      metadata = no_metadata;
      world = w;
    };
  };
  clock = record { now = λ w. 0; cancelled_at = λ w. none };
  fresh_id = λ w. ("r1", w);
  session_out = record { wanted = true; zero_value = new_session; unmarshal = λ b. none };
  api_key = "k";
  call_timeout = pos 0;
}

abbrev first_run : Client (Option Bytes)
first_run = record { session = none; updates = []; requests = []; world = none }

anonymous_auth-resumes_example :
    Resumes offline background disk old_session first_run
    × Asks offline background disk none first_run
anonymous_auth-resumes_example =
    anonymous_auth-resumes offline background disk old_session first_run
      (record { makes = λ w. refl; holds = λ raw w. refl; gone = λ w. refl })
      (record { text = 1 ∷ []; marshals = refl; parses = refl })
