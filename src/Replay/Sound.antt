-- ===== src/Replay/Sound.antt =====
-- The kinds of requests, against requestIsReplayable and Call of transport_stdnet.go.
use ggscale_go.Prelude.{ℕ, ◌≡◌, true, String, ◌⊎◌, inl, inr}
use ggscale_go.Transport.{Request, Context, Out}
use ggscale_go.StdNet.{Net, StdNetTransport}
use ggscale_go.StdNet.Policy.{request_is_replayable}
use ggscale_go.Client.{Env, Client, send, call_protected}
use ggscale_go.Client.Calls.Once.{Rejected}
use ggscale_go.Client.Reach.{Reaches, counting}
use ggscale_go.Replay.{Reads, Repeated, PlayerWrites, KeyWrites}

module _ {W : Type 0} (net : Net W) (t : StdNetTransport) (env : Env W) (fresh : String) where
  abbrev pub counting_env : Env (W × ℕ)
  counting_env = counting net t env

  -- A request of the SDK, by the way in which it is sent and may be repeated.
  abbrev pub Made : Request → Type 0
  Made r = (Reads counting_env r ⊎ Repeated fresh r) ⊎ (PlayerWrites r ⊎ KeyWrites counting_env r)

  -- What its kind promises of a request: that the transport may repeat it, or how often it reaches the
  -- server through a protected call, or through one call of the transport.
  abbrev pub Treated :
      {A : Type 0} (out : Out A) (ctx : Context) (c : Client (W × ℕ)) (r : Request)
      → Made r
      → Type 0
  Treated out ctx c r (inl m) = request_is_replayable r ≡ true
  Treated out ctx c r (inr (inl w)) =
      Reaches net t 2 c (call_protected counting_env out ctx r c).1
      × (Rejected counting_env out ctx r c
          ⊎ Reaches net t 1 c (call_protected counting_env out ctx r c).1)
  Treated out ctx c r (inr (inr w)) = Reaches net t 1 c (send counting_env out ctx r c).1
