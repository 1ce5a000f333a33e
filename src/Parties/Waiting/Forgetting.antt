-- ===== src/Parties/Waiting/Forgetting.antt =====
-- What the callback of WaitForMatch of parties.go forgets when a read of its ticket fails.
use ggscale_go.Prelude.{◌≡◌, refl, true, false, List, [], ◌∷◌, Option, none, some, arith, All}
use ggscale_go.Prelude.Int.{ℤ, pos, is_zero}
use ggscale_go.Prelude.Text.{str_eq}
use ggscale_go.Errors.{GoError}
use ggscale_go.Transport.{ok, err, Context}
use ggscale_go.Client.{Env, Client}
use ggscale_go.Matchmaker.{get_ticket}
use ggscale_go.Parties.{Party, PartyMember, member, party_idle}
use ggscale_go.Parties.Watch.{WatchCodec, changed, no_error}
use ggscale_go.Parties.Waiting.{Awaited, Called, left_queue, on_party, await}

-- The callback, called with one party after the other until it returns an error.
module _ {W : Type 0} (env : Env W) (codec : WatchCodec) (ctx : Context) (me : ℤ) where
  abbrev and_then : (Awaited × Client W → Called W) → Called W → Called W
  and_then k (err e, x) = (err e, x)
  and_then k (ok u, x) = k x

  abbrev pub await_all : List Party → Awaited × Client W → Called W
  await_all [] x = (no_error, x)
  await_all (p ∷ ps) x = and_then (await_all ps) (await env codec ctx me (changed p) x)

  -- All of the parties are idle.
  abbrev pub AllIdle : List Party → Type 0
  AllIdle ps = All (λ p. p.state ≡ party_idle) ps

  on_party-idle :
      (p : Party) (o : Option PartyMember) (a : Awaited) (c : Client W)
      → p.state ≡ party_idle
      → on_party env codec ctx me p o a c ≡ left_queue env codec ctx me p a c
  on_party-idle p none a c h = refl
  on_party-idle p (some m) a c h = rw h refl

  await-silent :
      (ps : List Party) (a : Awaited) (c : Client W)
      → AllIdle ps
      → is_zero a.queued_ticket ≡ true
      → await_all ps (a, c) ≡ (no_error, (a, c))
  unfolding await
  await-silent [] a c h z = refl
  await-silent (p ∷ ps) a c h z =
      let i = on_party-idle p (member p me) a c h.0 in
      let ih = await-silent ps a c h.1 z in ground (arith, i, z, ih)

  -- When the party has left the queue and the read of its queued ticket fails, whatever the failure,
  -- the callback forgets the ticket: over that party and any number of idle ones after it, it makes
  -- this one read, and returns neither an error nor a result, whatever the ticket settled to.
  pub await-forgets :
      (p : Party) (ps : List Party) (a : Awaited) (c c' : Client W) (e : GoError)
      → AllIdle (p ∷ ps)
      → is_zero a.queued_ticket ≡ false
      → get_ticket env codec.tickets ctx a.queued_ticket c ≡ (err e, c')
      → await_all (p ∷ ps) (a, c) ≡ (no_error, (record a { queued_ticket = pos 0 }, c'))
  unfolding await
  await-forgets p ps a c c' e h z g =
      let i = on_party-idle p (member p me) a c h.0 in
      let ih = await-silent ps (record a { queued_ticket = pos 0 }) c' h.1 refl in
      let s : str_eq p.state party_idle ≡ true = rw h.0 refl in ground (arith, i, z, g, s, ih)
