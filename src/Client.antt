-- ===== src/Client.antt =====
-- client.go: the session that a Client holds, and the calls that need one. The state is threaded
-- through: a step returns its result and the new state.
pub mod Protected
pub mod Calls
pub mod Sent
pub mod Reach
pub mod Refresh
pub mod New
pub mod Persistence
pub mod Examples
use ggscale_go.Prelude.{
  ℕ, ◌*◌, Bool, true, false, not, ◌&&◌, ◌||◌, String, List, [], ◌∷◌, ◌++◌, Option, none, some, ◌==◌,
  if◌then◌else◌,
}
use ggscale_go.Prelude.Int.{ℤ, pos, ltb_ℤ}
use ggscale_go.Prelude.Text.{str_eq, is_empty}
use ggscale_go.Errors.{Duration, GoError, Error, as_api}
use ggscale_go.Transport.{
  Json, object, field, done, string, Result, ok, err, Request, request, Out, Answer, Transport,
  Context, Clock, time_until,
}
use ggscale_go.StdNet.Policy.{with_call_timeout, second}

pub record Session : Type 0 where
  pub access_token : String
  pub refresh_token : String
  pub player_id : ℤ
  -- nanoseconds since the epoch
  pub expires_at : ℕ

-- proactiveRefreshWindow
abbrev pub proactive_refresh_window : Duration
proactive_refresh_window = pos (30 * second)

-- What a client is made with: its transport, and the clock and request ids of the process.
pub record Env (W : Type 0) : Type 1 where
  pub transport : Transport W
  pub clock : Clock W
  pub fresh_id : W → String × W
  -- json.Unmarshal into a sessionResponse
  pub session_out : Out Session
  pub api_key : String
  pub call_timeout : Duration

-- The state that the client's methods change. `updates` are the arguments that OnSessionUpdate was
-- called with, and `requests` what was handed to the transport, each the oldest first.
pub record Client (W : Type 0) : Type 0 where
  pub session : Option Session
  pub updates : List (Option Session)
  pub requests : List Request
  pub world : W

abbrev pub M : Type 0 → Type 0 → Type 0
M W A = Client W → Result A × Client W

module _ {W : Type 0} where
  abbrev pub pure : {A : Type 0} → A → M W A
  pure a c = (ok a, c)

  abbrev pub fail : {A : Type 0} → GoError → M W A
  fail e c = (err e, c)

  abbrev bound : {A B : Type 0} → Result A × Client W → (A → M W B) → Result B × Client W
  bound (ok a, c) f = f a c
  bound (err e, c) f = (err e, c)

  infixl 5 ◌>>=◌ ◌>>◌
  abbrev pub ◌>>=◌ : {A B : Type 0} → M W A → (A → M W B) → M W B
  ◌>>=◌ m f c = bound (m c) f

  abbrev pub ◌>>◌ : {B : Type 0} → M W (Unit {0}) → M W B → M W B
  m >> k = m >>= λ _. k

  -- notifySessionUpdate
  abbrev pub notify_session_update : Option Session → Client W → Client W
  notify_session_update s c = record c { updates = c.updates ++ s ∷ [] }

  -- The part of SetSession that the write lock covers.
  abbrev pub install_session : Option Session → Client W → Client W
  install_session s c = record c { session = s }

  -- What another goroutine cannot come between: SetSession has two such steps.
  unfoldable pub set_session_steps : Option Session → List (Client W → Client W)
  set_session_steps s = install_session s ∷ notify_session_update s ∷ []

  abbrev pub run_steps : List (Client W → Client W) → Client W → Client W
  run_steps [] c = c
  run_steps (step ∷ steps) c = run_steps steps (step c)

  -- SetSession, with `none` to clear
  unfoldable pub set_session : Option Session → Client W → Client W
  unfolding set_session_steps
  set_session s c = run_steps (set_session_steps s) c

  -- Login, by what the Authenticator returns
  unfoldable pub login : M W Session → M W (Unit {0})
  unfolding set_session
  login authenticate = do s ← authenticate; λ c. (ok tt, set_session (some s) c)

abbrev pub no_session : GoError
no_session = GoError.text "ggscale: no session — call Login or SetSession first"

abbrev pub cannot_refresh : GoError
cannot_refresh = GoError.text "ggscale: cannot refresh — no refresh token"

module _ {W : Type 0} (env : Env W) where
  abbrev received : {A : Type 0} → Request → Client W → Answer A W → Result A × Client W
  received req c a = (a.result, record c { world = a.world; requests = c.requests ++ req ∷ [] })

  -- One call of the transport.
  abbrev pub send : {A : Type 0} → Out A → Context → Request → M W A
  send {A} out ctx req c = received req c (env.transport.call A out ctx req c.world)

  abbrev pub refresh_request : String → Request
  refresh_request token = record (request "authRefresh" "POST" "/v1/auth/refresh") {
    api_key = env.api_key;
    body = some (object (field "refresh_token" (string token) done));
  }

  -- AuthService.Refresh
  unfoldable pub auth_refresh : Context → String → M W Session
  auth_refresh ctx token = send env.session_out ctx (refresh_request token)

  abbrev expires_soon : Session → W → Bool
  expires_soon s w = ltb_ℤ (time_until env.clock s.expires_at w) proactive_refresh_window

  -- The end of refreshUnderLock: the new session is installed, and the caller gets a copy.
  abbrev installed : Session → M W (Option Session)
  installed s c = (ok (some s), record c { session = some s })

  abbrev without_token : Bool → M W (Option Session)
  without_token force = if force then fail cannot_refresh else pure none

  abbrev another_token : String → Session → Bool
  another_token failed s = not (is_empty failed) && not (str_eq s.access_token failed)

  abbrev locked : Context → Bool → String → Option Session → M W (Option Session)
  locked ctx force failed none c = without_token force c
  locked ctx force failed (some s) c =
      if another_token failed s
      then (ok none, c)
      else if is_empty s.refresh_token
      then without_token force c
      else if not force && not (expires_soon s c.world)
      then (ok none, c)
      else (auth_refresh ctx s.refresh_token >>= installed) c

  -- refreshUnderLock. It runs under the write lock from its first line to its return.
  unfoldable pub refresh_under_lock : Context → Bool → String → M W (Option Session)
  unfolding auth_refresh
  refresh_under_lock ctx force failed c = locked ctx force failed c.session c

  abbrev notified : Option Session → M W (Unit {0})
  notified none c = (ok tt, c)
  notified (some s) c = (ok tt, notify_session_update (some s) c)

  abbrev is_stale : Option Session → W → Bool
  is_stale none w = false
  is_stale (some s) w = not (is_empty s.refresh_token) && expires_soon s w

  -- refreshIfNeeded
  unfoldable pub refresh_if_needed : Context → M W (Unit {0})
  unfolding refresh_under_lock
  refresh_if_needed ctx c =
      if is_stale c.session c.world
      then (refresh_under_lock ctx false "" >>= notified) c
      else (ok tt, c)

  -- refreshAfterUnauthorized
  unfoldable pub refresh_after_unauthorized : Context → String → M W (Unit {0})
  unfolding refresh_under_lock
  refresh_after_unauthorized ctx failed = refresh_under_lock ctx true failed >>= notified

  abbrev attached : Request → Option Session → Result Request
  attached req none = err no_session
  attached req (some s) = ok (record req { api_key = env.api_key; session_token = s.access_token })

  -- attachSession
  unfoldable pub attach_session : Request → M W Request
  attach_session req c = (attached req c.session, c)

  abbrev is_unauthorized : GoError → Bool
  is_unauthorized e = elim (as_api e) [ none ↦ false | some a ↦ a.status == 401 ]

  module _ {A : Type 0} (out : Out A) (ctx : Context) where
    -- The second try, with the session that is installed now.
    unfoldable pub send_again : Request → M W A
    unfolding attach_session
    send_again req = do again ← attach_session req; send out ctx again

    -- A failed refresh is dropped for the error of the call itself.
    abbrev refreshed : Request → GoError → Result (Unit {0}) × Client W → Result A × Client W
    refreshed req e (ok u, c) = send_again req c
    refreshed req e (err r, c) = (err e, c)

    abbrev after_call : Request → Result A × Client W → Result A × Client W
    after_call req (ok a, c) = (ok a, c)
    after_call req (err e, c) =
        if is_unauthorized e
        then refreshed req e (refresh_after_unauthorized ctx req.session_token c)
        else (err e, c)

    -- The call and, after a 401, a refresh and one more call.
    unfoldable pub send_refreshing : Request → M W A
    unfolding send_again refresh_after_unauthorized as_api
    send_refreshing req c = after_call req (send out ctx req c)

  abbrev identified : Request → Client W → Request × Client W
  identified req c =
      if is_empty req.request_id
      then (let (id, w) = env.fresh_id c.world in
          (record req { request_id = id }, record c { world = w }))
      else (req, c)

  abbrev pub call_context : Context → W → Context
  call_context ctx w = with_call_timeout env.clock ctx env.call_timeout w

  -- callProtected
  unfoldable pub call_protected : {A : Type 0} → Out A → Context → Request → M W A
  unfolding refresh_if_needed attach_session send_refreshing with_call_timeout
  call_protected out ctx req c =
      let inner = call_context ctx c.world in
      let (req', c') = identified req c in
      (do _ ← refresh_if_needed inner; full ← attach_session req'; send_refreshing out inner full)
        c'
