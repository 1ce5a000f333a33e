-- ===== src/Client/Sent.antt =====
-- What callProtected of client.go hands to the transport.
use ggscale_go.Prelude.{
  ◌≡◌, refl, String, List, [], ◌∷◌, ◌++◌, ◌⊎◌, inl, inr, ap, sym, ◌∙◌, All, All-append,
}
use mathlib.Core.List.{append_assoc, append-nil}
use ggscale_go.Transport.{Context, Request, Out}
use ggscale_go.Client.{Env, Client, auth_refresh, send, call_protected, refresh_request}
use ggscale_go.Client.Calls.{Carried, id_of, Costs, Costs-call_protected, identified-requests}

-- The requests that lie between two states, each of which satisfies P.
pub record Adds {W : Type 0} (P : Request → Type 0) (c c' : Client W) : Type 0 where
  pub added : List Request
  pub appended : c'.requests ≡ c.requests ++ added
  pub each : All P added

All-map :
    (P Q : Request → Type 0) → ((r : Request) → P r → Q r) → (l : List Request) → All P l → All Q l
All-map P Q f [] h = tt
All-map P Q f (r ∷ l) h = (f r h.0, All-map P Q f l h.1)

module _ {W : Type 0} {P : Request → Type 0} where
  pub Adds-nothing : (c d : Client W) → d.requests ≡ c.requests → Adds P c d
  Adds-nothing c d h = record { added = []; appended = h ∙ sym (append-nil c.requests); each = tt }

  pub Adds-map :
      (Q : Request → Type 0)
      → ((r : Request) → P r → Q r)
      → {c d : Client W} → Adds P c d
      → Adds Q c d
  Adds-map Q f h = record {
    added = h.added;
    appended = h.appended;
    each = All-map P Q f h.added h.each;
  }

  pub Adds-trans : {c d e : Client W} → Adds P c d → Adds P d e → Adds P c e
  Adds-trans {c} {d} {e} h k = record {
    added = h.added ++ k.added;
    appended =
        k.appended ∙ ap (λ l. l ++ k.added) h.appended ∙ append_assoc c.requests h.added k.added;
    each = All-append P h.added k.added h.each k.each;
  }

module _ {W : Type 0} (env : Env W) where
  -- A refresh of the session.
  abbrev pub IsRefresh : Request → Type 0
  IsRefresh r = (token : String) × (r ≡ refresh_request env token)

  -- A request that a protected call makes of `req`, or a refresh on its way.
  abbrev pub Sent : Request → String → Request → Type 0
  Sent req id r = Carried env req id r ⊎ IsRefresh r

  pub Adds-send :
      {P : Request → Type 0} {A : Type 0} (out : Out A) (ctx : Context) (req : Request)
      (c : Client W)
      → P req
      → Adds P c (send env out ctx req c).1
  Adds-send out ctx req c h = record { added = req ∷ []; appended = refl; each = (h, tt) }

  Adds-auth_refresh :
      (req : Request) (id : String) (ctx : Context) (token : String) (c : Client W)
      → Adds (Sent req id) c (auth_refresh env ctx token c).1
  unfolding auth_refresh
  Adds-auth_refresh req id ctx token c =
      Adds-send env.session_out ctx (refresh_request env token) c (inr (token, refl))

  Adds-Costs : (req : Request) (id : String) → Costs env req id (λ calls all. Adds (Sent req id))
  Adds-Costs req id = record {
    nothing = λ c d h k. Adds-nothing c d h;
    chained = λ a b m n c d e h k. Adds-trans h k;
    at_most = λ a b m n c d h k l. l;
    refreshes = Adds-auth_refresh req id;
    calls = λ A out ctx r c h. Adds-send out ctx r c (inl h);
  }

  -- All that a protected call hands to the transport, whatever the answers are, is refreshes of the
  -- session and the request of its caller: the same at each try but for the token of the session, and
  -- under the client's key and one request id, the caller's own if it has one.
  pub Adds-call_protected :
      {A : Type 0} (out : Out A) (ctx : Context) (req : Request) (c : Client W)
      → Adds (Sent req (id_of env req c)) c (call_protected env out ctx req c).1
  Adds-call_protected out ctx req c =
      Adds-trans (Adds-nothing c _ (identified-requests env req c)) (
        Costs-call_protected env out ctx req c (λ calls all. Adds (Sent req (id_of env req c)))
          (Adds-Costs req (id_of env req c)))
