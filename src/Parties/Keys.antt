-- ===== src/Parties/Keys.antt =====
-- The Idempotency-Key of Queue and Rematch of parties.go.
use ggscale_go.Prelude.{
  ◌≡◌, refl, ap, ◌∙◌, false, String, [], ◌∷◌, ◌⊎◌, inl, inr, Bool-cases, if◌then◌else◌,
}
use ggscale_go.Prelude.Int.{ℤ}
use ggscale_go.Prelude.Text.{is_empty}
use ggscale_go.Transport.{Request, Out, Context}
use ggscale_go.Client.{Env, Client}
use ggscale_go.Client.Sent.{
  Adds, Adds-nothing, Adds-trans, Adds-map, Adds-call_protected, Sent, IsRefresh,
}
use ggscale_go.Client.Calls.{id_of}
use ggscale_go.Parties.{Party}
use ggscale_go.Parties.Requests.{queue_request, rematch_request, idempotency_header}
use ggscale_go.Parties.Service.{party_call, with_fresh, queue_party, rematch_party}

module _ {W : Type 0} (env : Env W) where
  -- The key of a call: the caller's, or a fresh one.
  abbrev pub key_of : String → Client W → String
  key_of key c = if is_empty key then (env.fresh_id c.world).0 else key

  -- A refresh of the session, or a request with this key in one line and no other header of its own.
  abbrev pub Keyed : String → Request → Type 0
  Keyed k r = IsRefresh env r ⊎ (r.header ≡ ("Idempotency-Key", k ∷ []) ∷ [])

  -- A call that only makes requests with the key, which is no empty text.
  abbrev pub UsesKey : String → Client W → Client W → Type 0
  UsesKey k c d = (is_empty k ≡ false) × Adds (Keyed k) c d

  module _ (ctx : Context) (out : Out Party)
      (fresh : (w : _) → is_empty (env.fresh_id w).0 ≡ false) where
    Keyed-Sent :
        (k : String) (req : Request) (id : String)
        → req.header ≡ ("Idempotency-Key", k ∷ []) ∷ []
        → (r : Request) → Sent env req id r
        → Keyed k r
    Keyed-Sent k req id h r (inl (token, e)) = inr (ap (λ q. q.header) e ∙ h)
    Keyed-Sent k req id h r (inr again) = inl again

    Keyed-party :
        (k : String) (req : Request) (c : Client W)
        → req.header ≡ ("Idempotency-Key", k ∷ []) ∷ []
        → Adds (Keyed k) c (party_call env ctx out req c).1
    Keyed-party k req c h =
        Adds-map (Keyed k) (Keyed-Sent k req (id_of env req c) h)
          (Adds-call_protected env out ctx req c)

    UsesKey-with_fresh :
        (key : String) (req : String → Request) (c : Client W)
        → ((f : String) → (req f).header ≡ idempotency_header f key)
        → UsesKey
            (key_of key c)
            c
            (with_fresh env ctx key (λ f. party_call env ctx out (req f)) c).1
    unfolding idempotency_header
    UsesKey-with_fresh key req c h = elim (Bool-cases (is_empty key)) [
      | inl e ↦
          let (f, w) = env.fresh_id c.world in
          rw e (
            fresh c.world,
            Adds-trans (Adds-nothing c (record c { world = w }) refl) (
                Keyed-party f (req f) (record c { world = w })
                  (h f ∙ ap (λ b. ("Idempotency-Key", (if b then f else key) ∷ []) ∷ []) e)),
          )
      | inr e ↦ rw e (
        e,
        Keyed-party key (req "") c
            (h "" ∙ ap (λ b. ("Idempotency-Key", (if b then "" else key) ∷ []) ∷ []) e),
      )
    ]

    -- If newRequestID returns no empty text, the requests that Queue and Rematch of parties.go hand to
    -- the transport, refreshes of the session aside, all carry one Idempotency-Key, which is no empty
    -- text, in one line and with no other header of their own: the key of the caller or, for an empty
    -- one, a text that newRequestID made once for the call.
    pub parties-UsesKey :
        (id version : ℤ) (last_match key : String) (c : Client W)
        → UsesKey (key_of key c) c (queue_party env ctx out id version key c).1
          × UsesKey (key_of key c) c (rematch_party env ctx out id version last_match key c).1
    unfolding queue_request rematch_request
    parties-UsesKey id version last_match key c = (
      UsesKey-with_fresh key (λ f. queue_request f id version key) c (λ f. refl),
      UsesKey-with_fresh key (λ f. rematch_request f id version last_match key) c (λ f. refl),
    )
