-- ===== src/Client/Calls.antt =====
-- The rule for callProtected of client.go: what a relation between the states of a client has to bear,
-- call by call, to hold of a whole protected call.
pub mod Once
use ggscale_go.Prelude.{
  ℕ, ◌+◌, ◌≤◌, ◌≡◌, refl, Bool, true, false, not, ◌&&◌, String, Option, none, some, arith, ◌⊎◌, inl,
  inr, ap, Bool-cases,
}
use ggscale_go.Prelude.Text.{is_empty}
use ggscale_go.Errors.{GoError}
use ggscale_go.Transport.{Result, ok, err, Context, Request, Out}
use ggscale_go.Client.{
  Session, Env, Client, refresh_if_needed, refresh_after_unauthorized, auth_refresh, send,
  send_again, send_refreshing, call_protected, attach_session, bound, installed, notified, locked,
  another_token, identified, without_token, expires_soon, refreshed, after_call, is_unauthorized,
  attached, ◌>>=◌, call_context, is_stale,
}

module _ {W : Type 0} (env : Env W) where
  -- A request as callProtected sends it: under the client's key, a session's token and a request id.
  abbrev pub Carried : Request → String → Request → Type 0
  Carried req id r =
      (token : String) × (r
        ≡ record req { api_key = env.api_key; session_token = token; request_id = id })

  -- The request id of a call: the caller's, or a new one.
  abbrev pub id_of : Request → Client W → String
  id_of req c = (identified env req c).0.request_id

  -- Between two states lie at most a number of calls that carry `req`, and of calls altogether.
  pub record Costs (req : Request) (id : String) (R : ℕ → ℕ → Client W → Client W → Type 0)
      : Type 1 where
    -- what only the session and the callback see
    pub nothing : (c d : Client W) → d.requests ≡ c.requests → d.world ≡ c.world → R 0 0 c d
    pub chained : (a b m n : ℕ) (c d e : Client W) → R a m c d → R b n d e → R (a + b) (m + n) c e
    pub at_most : (a b m n : ℕ) (c d : Client W) → a ≤ b → m ≤ n → R a m c d → R b n c d
    pub refreshes :
        (ctx : Context) (token : String) (c : Client W) → R 0 1 c (auth_refresh env ctx token c).1
    pub calls :
        (A : Type 0) (out : Out A) (ctx : Context) (r : Request) (c : Client W)
        → Carried req id r
        → R 1 1 c (send env out ctx r c).1

  module _ (req : Request) (id : String) (R : ℕ → ℕ → Client W → Client W → Type 0)
      (costs : Costs req id R) where
    unmoved : (b n : ℕ) (c d : Client W) → d.requests ≡ c.requests → d.world ≡ c.world → R b n c d
    unmoved b n c d h k =
        costs.at_most 0 b 0 n c d (omega arith) (omega arith) (costs.nothing c d h k)

    -- Installing a session and telling of it sends nothing.
    answered :
        (c : Client W) (r : Result Session × Client W)
        → R 0 1 c r.1
        → R 0 1 c (bound (bound r (installed env)) (notified env)).1
    answered c (ok s, d) h = costs.chained 0 0 1 0 c d _ h (costs.nothing d _ refl refl)
    answered c (err e, d) h = h

    no_token :
        (force : Bool) (c : Client W) → R 0 1 c (bound (without_token env force c) (notified env)).1
    no_token true c = unmoved 0 1 c c refl refl
    no_token false c = unmoved 0 1 c c refl refl

    under_lock :
        (ctx : Context) (force : Bool) (failed : String) (o : Option Session) (c : Client W)
        → R 0 1 c (bound (locked env ctx force failed o c) (notified env)).1
    under_lock ctx force failed none c = no_token force c
    under_lock ctx force failed (some s) c = elim (Bool-cases (another_token env failed s)) [
      | inl other ↦ rw other (unmoved 0 1 c c refl refl)
      | inr same ↦ rw same (elim (Bool-cases (is_empty s.refresh_token)) [
        | inl none_left ↦ rw none_left (no_token force c)
        | inr there ↦ rw there (elim (Bool-cases (not force && not (expires_soon env s c.world))) [
          | inl early ↦ rw early (unmoved 0 1 c c refl refl)
          | inr due ↦ rw due (
              answered c (auth_refresh env ctx s.refresh_token c)
                (costs.refreshes ctx s.refresh_token c))
        ])
      ])
    ]

    after_401 :
        (ctx : Context) (failed : String) (c : Client W)
        → R 0 1 c (refresh_after_unauthorized env ctx failed c).1
    unfolding refresh_after_unauthorized
    after_401 ctx failed c = under_lock ctx true failed c.session c

    first_refresh : (ctx : Context) (c : Client W) → R 0 1 c (refresh_if_needed env ctx c).1
    unfolding refresh_if_needed
    first_refresh ctx c = elim (Bool-cases (is_stale env c.session c.world)) [
      | inl stale ↦ rw stale (under_lock ctx false "" c.session c)
      | inr fresh ↦ rw fresh (unmoved 0 1 c c refl refl)
    ]

    module _ {A : Type 0} (out : Out A) (ctx : Context) where
      -- What is sent again carries the same request.
      reattached :
          (full : Request) (o : Option Session) (c : Client W)
          → Carried req id full
          → R 1 1 c (bound (attached env full o, c) (λ again. send env out ctx again)).1
      reattached full none c h = unmoved 1 1 c c refl refl
      reattached full (some s) c (token, e) = costs.calls A out ctx _ c (s.access_token, rw e)

      sent_again :
          (full : Request) (c : Client W)
          → Carried req id full
          → R 1 1 c (send_again env out ctx full c).1
      unfolding send_again
      sent_again full c h = reattached full c.session c h

      second_try :
          (full : Request) (e : GoError) (c : Client W) (r : Result (Unit {0}) × Client W)
          → Carried req id full
          → R 1 2 c r.1
          → R 2 3 c (refreshed env out ctx full e r).1
      second_try full e c (ok u, d) f h = costs.chained 1 1 2 1 c d _ h (sent_again full d f)
      second_try full e c (err x, d) f h = costs.at_most 1 2 2 3 c d (omega arith) (omega arith) h

      after_first :
          (full : Request) (c : Client W) (r : Result A × Client W)
          → Carried req id full
          → R 1 1 c r.1
          → R 2 3 c (after_call env out ctx full r).1
      after_first full c (ok a, d) f h = costs.at_most 1 2 1 3 c d (omega arith) (omega arith) h
      after_first full c (err e, d) f h = elim (Bool-cases (is_unauthorized env e)) [
        | inl yes_401 ↦ rw yes_401 (
            second_try full e c (refresh_after_unauthorized env ctx full.session_token d) f
              (costs.chained 1 0 1 1 c d _ h (after_401 ctx full.session_token d)))
        | inr other ↦ rw other (costs.at_most 1 2 1 3 c d (omega arith) (omega arith) h)
      ]

      both_tries :
          (full : Request) (c : Client W)
          → Carried req id full
          → R 2 3 c (send_refreshing env out ctx full c).1
      unfolding send_refreshing
      both_tries full c f =
          after_first full c (send env out ctx full c) f (costs.calls A out ctx full c f)

      with_session :
          (o : Option Session) (c : Client W)
          → R 2 3 c
              (bound
                (attached env (record req { request_id = id }) o, c)
                (λ full. send_refreshing env out ctx full)).1
      with_session none c = unmoved 2 3 c c refl refl
      with_session (some s) c = both_tries _ c (s.access_token, refl)

      after_refresh :
          (c : Client W) (r : Result (Unit {0}) × Client W)
          → R 0 1 c r.1
          → R 2 4 c
              (bound r (λ _. attach_session env (record req { request_id = id }) >>= λ full.
                send_refreshing env out ctx full)).1
      unfolding attach_session
      after_refresh c (ok u, d) h = costs.chained 0 2 1 3 c d _ h (with_session d.session d)
      after_refresh c (err e, d) h = costs.at_most 0 2 1 4 c d (omega arith) (omega arith) h

  identified-keeps :
      (req : Request) (c : Client W)
      → (identified env req c).0 ≡ record req { request_id = id_of req c }
  identified-keeps req c = ground arith

  pub identified-requests :
      (req : Request) (c : Client W) → (identified env req c).1.requests ≡ c.requests
  identified-requests req c = ground arith

  -- From the state in which a protected call has its request id, it makes two calls at most that carry
  -- its request, and four with its refreshes.
  pub Costs-call_protected :
      {A : Type 0} (out : Out A) (ctx : Context) (req : Request) (c : Client W)
      (R : ℕ → ℕ → Client W → Client W → Type 0)
      → Costs req (id_of req c) R
      → R 2 4 (identified env req c).1 (call_protected env out ctx req c).1
  unfolding call_protected
  Costs-call_protected out ctx req c R costs =
      let inner = call_context env ctx c.world in
      let d = (identified env req c).1 in
      let id = id_of req c in
      rw (identified-keeps req c) (
        after_refresh req id R costs out inner d (refresh_if_needed env inner d)
          (first_refresh req id R costs inner d))
