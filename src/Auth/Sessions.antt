-- ===== src/Auth/Sessions.antt =====
-- What the operations of auth.go leave of the session.
use ggscale_go.Prelude.{
  ◌≡◌, refl, Bool, true, false, String, [], ◌∷◌, ◌++◌, Option, none, some, arith,
}
use ggscale_go.Prelude.Text.{str_eq}
use ggscale_go.Transport.{Result, ok, err, Context, Request, Out, no_out}
use ggscale_go.Client.{
  Session, Env, Client, set_session, send, call_protected, no_session, attach_session,
  refresh_if_needed,
}
use ggscale_go.Client.Persistence.{InSync, InSync-call_protected, InSync-set_session}
use ggscale_go.Auth.{
  PendingDelete, logout, disable, request_delete, logged_out, cleared, logout_request,
  disable_request, delete_request,
}

-- Whether a refresh token is the one of the installed session.
unfoldable pub holds : Option Session → String → Bool
holds none token = false
holds (some s) token = str_eq s.refresh_token token

module _ {W : Type 0} where
  -- The session and the calls of OnSessionUpdate are as before.
  abbrev pub Kept : Client W → Client W → Type 0
  Kept c c' = (c'.session ≡ c.session) × (c'.updates ≡ c.updates)

  -- There is no session any more, and the callback was told so once.
  abbrev pub Cleared : Client W → Client W → Type 0
  Cleared c c' = (c'.session ≡ none) × (c'.updates ≡ c.updates ++ none ∷ [])

  -- A refused call changes nothing, and an accepted one clears the session if it is the one meant.
  abbrev pub EndsSession : Bool → Bool → Client W → Client W → Type 0
  EndsSession meant false c c' = Kept c c'
  EndsSession true true c c' = Cleared c c'
  EndsSession false true c c' = Kept c c'

abbrev pub is_ok : {A : Type 0} → Result A → Bool
is_ok (ok a) = true
is_ok (err e) = false

module _ {W : Type 0} (env : Env W) (ctx : Context) where
  logged_out-Ends :
      (token : String) (c : Client W) (r : Result (Unit {0}) × Client W)
      → Kept c r.1
      → EndsSession
          (holds c.session token)
          (is_ok (logged_out env ctx token r).0)
          c
          (logged_out env ctx token r).1
  unfolding holds set_session
  logged_out-Ends token c (err e, d) h = h
  logged_out-Ends token c (ok u, d) h = ground (arith, h)

  -- Logout that the server refuses leaves the session alone. One that it accepts clears the session and
  -- tells the callback once when the token is the installed session's, and leaves them alone when it
  -- is another device's.
  pub logout-Ends :
      (token : String) (c : Client W)
      → EndsSession
          (holds c.session token)
          (is_ok (logout env ctx token c).0)
          c
          (logout env ctx token c).1
  unfolding logout
  logout-Ends token c =
      logged_out-Ends token c (send env no_out ctx (logout_request env token) c) (refl, refl)

  InSync-logged_out :
      (token : String) (r : Result (Unit {0}) × Client W)
      → InSync r.1
      → InSync (logged_out env ctx token r).1
  unfolding set_session
  InSync-logged_out token (err e, c) h = h
  InSync-logged_out token (ok u, c) h = let k = InSync-set_session none c in ground (arith, h, k)

  InSync-cleared :
      {A : Type 0} (r : Result A × Client W) → InSync r.1 → InSync (cleared env ctx r).1
  InSync-cleared (ok a, c) h = InSync-set_session none c
  InSync-cleared (err e, c) h = h

  -- Logout, Disable and RequestDelete keep the callback and the session together, whether the server
  -- accepts them or not.
  pub InSync-sessions :
      (out : Out PendingDelete) (token password : String) (c : Client W)
      → InSync c
      → InSync (logout env ctx token c).1
        × InSync (disable env ctx password c).1
        × InSync (request_delete env ctx out password c).1
  unfolding logout disable request_delete
  InSync-sessions out token password c h = (
    InSync-logged_out token (send env no_out ctx (logout_request env token) c) h,
    InSync-cleared (call_protected env no_out ctx (disable_request password) c)
        (InSync-call_protected env no_out ctx (disable_request password) c h),
    InSync-cleared (call_protected env out ctx (delete_request password) c)
        (InSync-call_protected env out ctx (delete_request password) c h),
  )

  -- With no session, a protected call sends nothing.
  no_session-Silent :
      {A : Type 0} (out : Out A) (req : Request) (c : Client W)
      → c.session ≡ none
      → ((call_protected env out ctx req c).0 ≡ err no_session)
        × ((call_protected env out ctx req c).1.requests ≡ c.requests)
  unfolding call_protected refresh_if_needed attach_session
  no_session-Silent out req c h = ground (arith, h)

  -- What follows a call that clears the session when it succeeds.
  abbrev pub SilentAfter : {A B : Type 0} → Out B → Request → Result A × Client W → Type 0
  SilentAfter out req (err e, c) = Unit
  SilentAfter out req (ok a, c) =
      ((call_protected env out ctx req c).0 ≡ err no_session)
      × ((call_protected env out ctx req c).1.requests ≡ c.requests)

  cleared-Silent :
      {A B : Type 0} (out : Out B) (req : Request) (r : Result A × Client W)
      → SilentAfter out req (cleared env ctx r)
  unfolding set_session
  cleared-Silent out req (err e, c) = tt
  cleared-Silent out req (ok a, c) = no_session-Silent out req (set_session none c) refl

  -- After Disable has succeeded no protected call sends anything: each fails for want of a session.
  pub disable-Silent :
      {B : Type 0} (out : Out B) (password : String) (req : Request) (c : Client W)
      → SilentAfter out req (disable env ctx password c)
  unfolding disable
  disable-Silent out password req c =
      cleared-Silent out req (call_protected env no_out ctx (disable_request password) c)
