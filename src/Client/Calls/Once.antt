-- ===== src/Client/Calls/Once.antt =====
-- When a protected call of client.go makes its own request once.
use ggscale_go.Prelude.{
  ℕ, ◌≡◌, refl, true, String, Option, none, some, arith, ◌⊎◌, inl, inr, ap, Bool-cases,
}
use ggscale_go.Errors.{GoError}
use ggscale_go.Transport.{Result, ok, err, Context, Request, Out}
use ggscale_go.Client.{
  Session, Env, Client, refresh_if_needed, send, send_refreshing, call_protected, attach_session,
  bound, identified, after_call, is_unauthorized, attached, ◌>>=◌, call_context,
}
use ggscale_go.Client.Calls.{id_of, Costs, unmoved, first_refresh, identified-keeps}

module _ {W : Type 0} (env : Env W) where
  -- After the first refresh, of result `r`, the call with the session that is then installed is
  -- answered with a 401.
  pub record RejectedAfter {A : Type 0} (out : Out A) (ctx : Context) (req : Request)
      (r : Result (Unit {0}) × Client W) : Type 0 where
    pub refreshed : r.0 ≡ ok tt
    pub session : Session
    pub installed : r.1.session ≡ some session
    pub failure : GoError
    pub failed :
        (send env out ctx
          (record req { api_key = env.api_key; session_token = session.access_token })
          r.1).0
        ≡ err failure
    pub is_401 : is_unauthorized env failure ≡ true

  -- The first call that a protected call from `c` makes of its request is answered with a 401.
  abbrev pub Rejected :
      {A : Type 0} (out : Out A) (ctx : Context) (req : Request) → Client W → Type 0
  Rejected out ctx req c =
      let inner = call_context env ctx c.world in
      RejectedAfter out inner (identified env req c).0
        (refresh_if_needed env inner (identified env req c).1)

  module _ (req : Request) (id : String) (R : ℕ → ℕ → Client W → Client W → Type 0)
      (costs : Costs env req id R) {A : Type 0} (out : Out A) (ctx : Context) where
    abbrev full : Session → Request
    full s = record req { request_id = id; api_key = env.api_key; session_token = s.access_token }

    first_only :
        (s : Session) (c : Client W) (r : Result A × Client W)
        → c.session ≡ some s
        → send env out ctx (full s) c ≡ r
        → R 1 1 c r.1
        → RejectedAfter out ctx (record req { request_id = id }) (ok tt, c)
          ⊎ R 1 1 c (after_call env out ctx (full s) r).1
    first_only s c (ok a, d) i e h = inr h
    first_only s c (err x, d) i e h = elim (Bool-cases (is_unauthorized env x)) [
      | inl yes_401 ↦ inl (record {
        refreshed = refl;
        session = s;
        installed = i;
        failure = x;
        failed = ap (λ q. q.0) e;
        is_401 = yes_401;
      })
      | inr other ↦ inr (rw other h)
    ]

    session_once :
        (o : Option Session) (c : Client W)
        → c.session ≡ o
        → RejectedAfter out ctx (record req { request_id = id }) (ok tt, c)
          ⊎ R 1 1 c
              (bound
                (attached env (record req { request_id = id }) o, c)
                (λ full. send_refreshing env out ctx full)).1
    unfolding send_refreshing
    session_once none c i = inr (unmoved env req id R costs 1 1 c c refl refl)
    session_once (some s) c i =
        first_only s c (send env out ctx (full s) c) i refl
          (costs.calls A out ctx (full s) c (s.access_token, refl))

    once_after_refresh :
        (c : Client W) (r : Result (Unit {0}) × Client W)
        → R 0 1 c r.1
        → RejectedAfter out ctx (record req { request_id = id }) r
          ⊎ R 1 2 c
              (bound r (λ _. attach_session env (record req { request_id = id }) >>= λ full.
                send_refreshing env out ctx full)).1
    unfolding attach_session
    once_after_refresh c (ok u, d) h = elim (session_once d.session d refl) [
      | inl rejected ↦ inl rejected
      | inr once ↦ inr (costs.chained 0 1 1 1 c d _ h once)
    ]
    once_after_refresh c (err e, d) h =
        inr (costs.at_most 0 1 1 2 c d (omega arith) (omega arith) h)

  -- And one call at most that carries its request, unless the first such call was answered with a 401.
  pub Costs-once :
      {A : Type 0} (out : Out A) (ctx : Context) (req : Request) (c : Client W)
      (R : ℕ → ℕ → Client W → Client W → Type 0)
      → Costs env req (id_of env req c) R
      → Rejected out ctx req c ⊎ R 1 2 (identified env req c).1 (call_protected env out ctx req c).1
  unfolding call_protected
  Costs-once out ctx req c R costs =
      let inner = call_context env ctx c.world in
      let d = (identified env req c).1 in
      let id = id_of env req c in
      rw (identified-keeps env req c) (
        once_after_refresh req id R costs out inner d (refresh_if_needed env inner d)
          (first_refresh env req id R costs inner d))
