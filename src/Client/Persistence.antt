-- ===== src/Client/Persistence.antt =====
-- That OnSessionUpdate of client.go follows the session: what it was last called with is the session
-- that is installed, so that a callback that saves its argument keeps what the client holds.
use ggscale_go.Prelude.{
  ◌≡◌, refl, Bool, true, false, String, List, [], ◌∷◌, ◌++◌, Option, none, some, arith, inl, inr,
  Bool-cases, ap, sym, ◌∙◌,
}
use ggscale_go.Prelude.Text.{is_empty}
use ggscale_go.Errors.{GoError}
use ggscale_go.Transport.{Result, ok, err, Context, Request, Out}
use ggscale_go.Client.{
  Session, Env, Client, set_session, install_session, notify_session_update, run_steps,
  set_session_steps, refresh_if_needed, refresh_after_unauthorized, auth_refresh, send, send_again,
  send_refreshing, call_protected, attach_session, bound, installed, notified, locked, identified,
  without_token, refreshed, after_call, is_unauthorized, attached, ◌>>=◌, call_context, is_stale,
}

-- What the callback was last called with.
abbrev pub last_update : List (Option Session) → Option (Option Session)
last_update [] = none
last_update (s ∷ []) = some s
last_update (s ∷ t ∷ l) = last_update (t ∷ l)

pub last_update-append :
    (l : List (Option Session)) (s : Option Session) → last_update (l ++ s ∷ []) ≡ some s
last_update-append [] s = refl
last_update-append (x ∷ []) s = refl
last_update-append (x ∷ y ∷ l) s = last_update-append (y ∷ l) s

abbrev pub InSync : {W : Type 0} → Client W → Type 0
InSync c = last_update c.updates ≡ some c.session

pub InSync-set_session : {W : Type 0} (s : Option Session) (c : Client W) → InSync (set_session s c)
unfolding set_session
InSync-set_session s c = last_update-append c.updates s

module _ {W : Type 0} (env : Env W) where
  -- Between the lock and the notification: a session was installed that the callback has not seen, or
  -- none was.
  abbrev Due : Result (Option Session) × Client W → Type 0
  Due (ok (some s), c) = c.session ≡ some s
  Due (ok none, c) = InSync c
  Due (err e, c) = InSync c

  InSync-notified :
      (r : Result (Option Session) × Client W) → Due r → InSync (bound r (notified env)).1
  InSync-notified (ok (some s), c) h =
      last_update-append c.updates (some s) ∙ ap (λ o. some o) (sym h)
  InSync-notified (ok none, c) h = h
  InSync-notified (err e, c) h = h

  Due-installed : (r : Result Session × Client W) → InSync r.1 → Due (bound r (installed env))
  Due-installed (ok s, c) h = refl
  Due-installed (err e, c) h = h

  Due-without_token : (force : Bool) (c : Client W) → InSync c → Due (without_token env force c)
  Due-without_token true c h = h
  Due-without_token false c h = h

  Due-locked :
      (ctx : Context) (force : Bool) (failed : String) (o : Option Session) (c : Client W)
      → InSync c
      → Due (locked env ctx force failed o c)
  unfolding auth_refresh
  Due-locked ctx force failed none c h = Due-without_token force c h
  Due-locked ctx force failed (some s) c h =
      let w = Due-without_token force c h in
      let i = Due-installed (auth_refresh env ctx s.refresh_token c) h in ground (arith, w, i, h)

  InSync-refresh_after_unauthorized :
      (ctx : Context) (failed : String) (c : Client W)
      → InSync c
      → InSync (refresh_after_unauthorized env ctx failed c).1
  unfolding refresh_after_unauthorized
  InSync-refresh_after_unauthorized ctx failed c h =
      InSync-notified (locked env ctx true failed c.session c)
        (Due-locked ctx true failed c.session c h)

  InSync-refresh_if_needed :
      (ctx : Context) (c : Client W) → InSync c → InSync (refresh_if_needed env ctx c).1
  unfolding refresh_if_needed
  InSync-refresh_if_needed ctx c h = elim (Bool-cases (is_stale env c.session c.world)) [
    | inl stale ↦ rw stale (
        InSync-notified (locked env ctx false "" c.session c)
          (Due-locked ctx false "" c.session c h))
    | inr fresh ↦ rw fresh h
  ]

  module _ {A : Type 0} (out : Out A) (ctx : Context) where
    InSync-attached :
        (r : Result Request) (c : Client W)
        → InSync c
        → InSync (bound (r, c) (λ again. send env out ctx again)).1
    InSync-attached (ok again) c h = h
    InSync-attached (err e) c h = h

    InSync-send_again :
        (req : Request) (c : Client W) → InSync c → InSync (send_again env out ctx req c).1
    unfolding send_again
    InSync-send_again req c h = InSync-attached (attached env req c.session) c h

    InSync-refreshed :
        (req : Request) (e : GoError) (r : Result (Unit {0}) × Client W)
        → InSync r.1
        → InSync (refreshed env out ctx req e r).1
    InSync-refreshed req e (ok u, c) h = InSync-send_again req c h
    InSync-refreshed req e (err x, c) h = h

    InSync-after_call :
        (req : Request) (r : Result A × Client W)
        → InSync r.1
        → InSync (after_call env out ctx req r).1
    InSync-after_call req (ok a, c) h = h
    InSync-after_call req (err e, c) h = elim (Bool-cases (is_unauthorized env e)) [
      | inl yes_401 ↦ rw yes_401 (
          InSync-refreshed req e (refresh_after_unauthorized env ctx req.session_token c)
            (InSync-refresh_after_unauthorized ctx req.session_token c h))
      | inr other ↦ rw other h
    ]

    InSync-send_attached :
        (r : Result Request) (c : Client W)
        → InSync c
        → InSync (bound (r, c) (λ full. send_refreshing env out ctx full)).1
    unfolding send_refreshing
    InSync-send_attached (ok full) c h = InSync-after_call full (send env out ctx full c) h
    InSync-send_attached (err e) c h = h

    InSync-rest :
        (req : Request) (r : Result (Unit {0}) × Client W)
        → InSync r.1
        → InSync
            (bound r (λ _. attach_session env req >>= λ full. send_refreshing env out ctx full)).1
    unfolding attach_session
    InSync-rest req (ok u, c) h = InSync-send_attached (attached env req c.session) c h
    InSync-rest req (err e, c) h = h

  InSync-identified : (req : Request) (c : Client W) → InSync c → InSync (identified env req c).1
  InSync-identified req c h = elim (Bool-cases (is_empty req.request_id)) [
    | inl none_yet ↦ rw none_yet h
    | inr given ↦ rw given h
  ]

  -- A protected call, whatever it refreshes and however it ends, keeps the callback and the session
  -- together: if OnSessionUpdate was last called with the installed session, it was so afterwards.
  pub InSync-call_protected :
      {A : Type 0} (out : Out A) (ctx : Context) (req : Request) (c : Client W)
      → InSync c
      → InSync (call_protected env out ctx req c).1
  unfolding call_protected
  InSync-call_protected out ctx req c h =
      let inner = call_context env ctx c.world in
      let c' = (identified env req c).1 in
      InSync-rest out inner (identified env req c).0 (refresh_if_needed env inner c')
        (InSync-refresh_if_needed inner c' (InSync-identified req c h))

-- The orders in which the steps of two goroutines can be taken.
pub data Interleaves {X : Type 0} : List X → List X → List X → Type 0 where
  over : Interleaves [] [] []
  left : {x : X} {l m n : List X} → Interleaves l m n → Interleaves (x ∷ l) m (x ∷ n)
  right : {x : X} {l m n : List X} → Interleaves l m n → Interleaves l (x ∷ m) (x ∷ n)

-- A schedule of two calls of SetSession at once, after which the client holds one session and
-- OnSessionUpdate was last called with the other.
pub record LateNotification {W : Type 0} (a b : Option Session) (c : Client W) : Type 0 where
  pub schedule : List (Client W → Client W)
  pub interleaves : Interleaves (set_session_steps a) (set_session_steps b) schedule
  pub held : (run_steps schedule c).session ≡ b
  pub told : last_update (run_steps schedule c).updates ≡ some a

-- Of two goroutines that call SetSession at once, the one whose session was installed first may notify
-- last: an order of the steps of the two calls leaves the client with one session and
-- OnSessionUpdate called last with the other.
pub late_notification : {W : Type 0} (a b : Option Session) (c : Client W) → LateNotification a b c
unfolding set_session_steps
late_notification a b c = record {
  schedule =
      install_session a
      ∷ install_session b
      ∷ notify_session_update b
      ∷ notify_session_update a
      ∷ [];
  interleaves = left (right (right (left over)));
  held = refl;
  told = last_update-append (c.updates ++ b ∷ []) a;
}
