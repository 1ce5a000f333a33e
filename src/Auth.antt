-- ===== src/Auth.antt =====
-- auth.go: the operations of AuthService, and the authenticators that exchange credentials for a
-- session. Refresh is in Client.antt.
pub mod Sessions
pub mod Resume
pub mod Anonymous
pub mod Examples
use ggscale_go.Prelude.{
  ℕ, ◌%◌, ◌+◌, ◌*◌, ◌^◌, Bool, true, false, String, List, [], ◌∷◌, Option, none, some,
  if◌then◌else◌,
}
use ggscale_go.Prelude.Int.{ℤ, pos}
use ggscale_go.Prelude.Text.{str_eq, is_empty, ◌+s◌}
use ggscale_go.Transport.{
  Json, Fields, done, field, object, string, Result, ok, err, Request, request, Out, no_out,
  Context,
}
use ggscale_go.Client.{Session, Env, Client, M, send, call_protected, set_session}

pub record VerifyResult : Type 0 where
  pub player_id : ℤ
  pub verified : Bool

pub record PendingDelete : Type 0 where
  pub delete_requested_at : ℕ
  pub scheduled_purge_at : ℕ

abbrev pair_body : String → String → String → String → Json
pair_body a x b y = object (field a (string x) (field b (string y) done))

abbrev single_body : String → String → Json
single_body a x = object (field a (string x) done)

-- passwordRequest, whose field `omitempty` leaves out
abbrev password_body : String → Json
password_body p = object (if is_empty p then done else field "password" (string p) done)

abbrev player_request : String → String → Json → Request
player_request op path body = record (request op "POST" path) { body = some body }

abbrev pub link_email_request : String → String → Request
link_email_request email password =
    player_request "linkEmail" "/v1/auth/link" (pair_body "email" email "password" password)

abbrev pub link_steam_request : String → Request
link_steam_request ticket =
    player_request "linkSteam" "/v1/auth/link/steam" (single_body "ticket" ticket)

abbrev pub change_password_request : String → String → Request
change_password_request old new =
    player_request "changePassword" "/v1/auth/password"
      (pair_body "current_password" old "new_password" new)

abbrev pub disable_request : String → Request
disable_request password =
    player_request "disablePlayer" "/v1/auth/disable" (password_body password)

abbrev pub delete_request : String → Request
delete_request password =
    player_request "requestPlayerDelete" "/v1/auth/delete" (password_body password)

module _ {W : Type 0} (env : Env W) where
  -- A request that carries the API key and no session.
  abbrev public_request : String → String → Json → Request
  public_request op path body = record (request op "POST" path) {
    api_key = env.api_key;
    body = some body;
  }

  abbrev pub signup_request : String → String → Request
  signup_request email password =
      public_request "authSignup" "/v1/auth/signup" (pair_body "email" email "password" password)

  abbrev pub verify_request : String → String → Request
  verify_request email code =
      public_request "authVerify" "/v1/auth/verify" (pair_body "email" email "code" code)

  abbrev pub logout_request : String → Request
  logout_request token =
      public_request "authLogout" "/v1/auth/logout" (single_body "refresh_token" token)

  abbrev pub resend_request : String → Request
  resend_request email =
      public_request "resendVerification" "/v1/auth/verify/resend" (single_body "email" email)

  abbrev pub reset_request : String → Request
  reset_request email =
      public_request "requestPasswordReset" "/v1/auth/password-reset" (single_body "email" email)

  abbrev pub confirm_reset_request : String → String → String → Request
  confirm_reset_request email code password =
      public_request "confirmPasswordReset" "/v1/auth/password-reset/confirm" (
        object (
          field "email" (string email)
            (field "code" (string code) (field "new_password" (string password) done))))

  abbrev pub cancel_delete_request : String → String → Request
  cancel_delete_request email password =
      public_request "authDeleteCancel" "/v1/auth/delete/cancel"
        (pair_body "email" email "password" password)

  abbrev pub login_request : String → String → Request
  login_request email password =
      public_request "authLogin" "/v1/auth/login" (pair_body "email" email "password" password)

  abbrev pub custom_token_request : String → Request
  custom_token_request token =
      public_request "authCustomToken" "/v1/auth/custom-token" (single_body "token" token)

  abbrev pub steam_request : String → Request
  steam_request ticket = public_request "authSteam" "/v1/auth/steam" (single_body "ticket" ticket)

  module _ (ctx : Context) where
    -- Signup
    unfoldable pub signup : String → String → M W (Unit {0})
    signup email password = send env no_out ctx (signup_request email password)

    -- Verify
    unfoldable pub verify : Out VerifyResult → String → String → M W VerifyResult
    verify out email code = send env out ctx (verify_request email code)

    abbrev pub forget : String → Option Session → Client W → Client W
    forget token none c = c
    forget token (some s) c = if str_eq s.refresh_token token then set_session none c else c

    abbrev pub logged_out : String → Result (Unit {0}) × Client W → Result (Unit {0}) × Client W
    logged_out token (err e, c) = (err e, c)
    logged_out token (ok u, c) = (ok tt, forget token c.session c)

    -- Logout
    unfoldable pub logout : String → M W (Unit {0})
    unfolding set_session
    logout token c = logged_out token (send env no_out ctx (logout_request token) c)

    -- ResendVerification
    unfoldable pub resend_verification : String → M W (Unit {0})
    resend_verification email = send env no_out ctx (resend_request email)

    -- RequestPasswordReset
    unfoldable pub request_password_reset : String → M W (Unit {0})
    request_password_reset email = send env no_out ctx (reset_request email)

    -- ConfirmPasswordReset
    unfoldable pub confirm_password_reset : String → String → String → M W (Unit {0})
    confirm_password_reset email code password =
        send env no_out ctx (confirm_reset_request email code password)

    -- LinkEmail
    unfoldable pub link_email : String → String → M W (Unit {0})
    link_email email password = call_protected env no_out ctx (link_email_request email password)

    -- LinkSteam
    unfoldable pub link_steam : String → M W (Unit {0})
    link_steam ticket = call_protected env no_out ctx (link_steam_request ticket)

    -- ChangePassword
    unfoldable pub change_password : String → String → M W (Unit {0})
    change_password old new = call_protected env no_out ctx (change_password_request old new)

    abbrev pub cleared : {A : Type 0} → Result A × Client W → Result A × Client W
    cleared (ok a, c) = (ok a, set_session none c)
    cleared (err e, c) = (err e, c)

    -- Disable
    unfoldable pub disable : String → M W (Unit {0})
    unfolding set_session
    disable password c = cleared (call_protected env no_out ctx (disable_request password) c)

    -- RequestDelete
    unfoldable pub request_delete : Out PendingDelete → String → M W PendingDelete
    unfolding set_session
    request_delete out password c = cleared (call_protected env out ctx (delete_request password) c)

    -- CancelDelete
    unfoldable pub cancel_delete : String → String → M W (Unit {0})
    cancel_delete email password = send env no_out ctx (cancel_delete_request email password)

    -- The Authenticate of EmailPasswordAuth, CustomTokenAuth and SteamAuth
    unfoldable pub email_password_auth : String → String → M W Session
    email_password_auth email password = send env env.session_out ctx (login_request email password)

    unfoldable pub custom_token_auth : String → M W Session
    custom_token_auth token = send env env.session_out ctx (custom_token_request token)

    unfoldable pub steam_auth : String → M W Session
    steam_auth ticket = send env env.session_out ctx (steam_request ticket)

-- NewOfflineAuth, with the 64 random bits of the player, the hexadecimal text of the other random
-- bytes, and the time now: the mask clears the sign bit.
unfoldable pub offline_session : ℕ → String → ℕ → Session
offline_session bits token now = record {
  access_token = "offline-" +s token;
  refresh_token = "";
  player_id = pos (bits % 2 ^ 63);
  expires_at = now + 100 * 365 * 24 * 3_600_000_000_000;
}

-- (*OfflineAuth).Authenticate
unfoldable pub offline_auth : {W : Type 0} → Session → M W Session
offline_auth s c = (ok s, c)
