-- ===== src/Client/Reach.antt =====
-- callProtected of client.go over the StdNetTransport of transport_stdnet.go: how often a write reaches
-- the server through both.
use ggscale_go.Prelude.{
  ℕ, ◌+◌, ◌≤◌, ◌≡◌, Bool, false, String, some, arith, inl, inr, Bool-cases, if◌then◌else◌,
}
use ggscale_go.Prelude.Text.{str_eq}
use ggscale_go.Transport.{Context, Request, Out, Answer, Transport}
use ggscale_go.StdNet.{StdNetTransport, Net}
use ggscale_go.StdNet.Policy.{request_is_replayable}
use ggscale_go.StdNet.Call.{call, as_transport}
use ggscale_go.StdNet.Call.Writes.{reached, call-reached}
use ggscale_go.Client.{Env, Client, send}

abbrev is_refresh : Request → Bool
is_refresh req = str_eq req.operation_id "authRefresh"

module _ {W : Type 0} (net : Net W) (t : StdNetTransport) where
  -- The attempts of a call that may have reached the server, none for a refresh of the session.
  abbrev reaching : {A : Type 0} → Out A → Context → Request → W → ℕ
  reaching out ctx req w =
      if is_refresh req then 0 else reached (call net t out ctx (some req) w).1.sent

  abbrev with_count : {A : Type 0} → ℕ → Answer A W → Answer A (W × ℕ)
  with_count k a = record { result = a.result; metadata = a.metadata; world = (a.world, k) }

  -- The transport, beside a count of the attempts that may have reached the server.
  abbrev pub counted : Transport (W × ℕ)
  counted = record {
    call = λ A out ctx req w.
        with_count (w.1 + reaching out ctx req w.0) ((as_transport net t).call A out ctx req w.0);
  }

  abbrev identity : ℕ → String × W → String × (W × ℕ)
  identity k (id, w) = (id, (w, k))

  -- A client's surroundings with this transport.
  abbrev pub counting : Env W → Env (W × ℕ)
  counting env = record {
    transport = counted;
    clock = record { now = λ w. env.clock.now w.0; cancelled_at = λ w. env.clock.cancelled_at w.0 };
    fresh_id = λ w. identity w.1 (env.fresh_id w.0);
    session_out = env.session_out;
    api_key = env.api_key;
    call_timeout = env.call_timeout;
  }

  -- At most a number of attempts reach the server between two states.
  abbrev pub Reaches : ℕ → Client (W × ℕ) → Client (W × ℕ) → Type 0
  Reaches n c d = d.world.1 ≤ c.world.1 + n

  module _ (env : Env W) where
    reaching-le :
        {A : Type 0} (out : Out A) (ctx : Context) (r : Request) (w : W)
        → request_is_replayable r ≡ false
        → reaching out ctx r w ≤ 1
    reaching-le out ctx r w h = elim (Bool-cases (is_refresh r)) [
      | inl e ↦ rw e (omega arith)
      | inr e ↦ rw e (call-reached net t out ctx r w h)
    ]

    -- One call of the transport, with no client around it.
    pub send-reached :
        {A : Type 0} (out : Out A) (ctx : Context) (r : Request) (c : Client (W × ℕ))
        → request_is_replayable r ≡ false
        → Reaches 1 c (send (counting env) out ctx r c).1
    send-reached out ctx r c h = let le = reaching-le out ctx r c.world.0 h in omega (arith, le)
