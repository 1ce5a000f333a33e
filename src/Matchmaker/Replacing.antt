-- ===== src/Matchmaker/Replacing.antt =====
-- How much createTicketReplacingActive of matchmaker.go asks of the server.
use ggscale_go.Prelude.{arith}
use ggscale_go.Prelude.Int.{ℤ}
use ggscale_go.Matchmaker.Criteria.{MatchRequest}
use ggscale_go.Transport.{Result, ok, err, Context, no_out}
use ggscale_go.Client.{Env, Client}
use ggscale_go.Client.Protected.{Spends, Spends-trans, Spends-call_protected}
use ggscale_go.Matchmaker.{
  Ticket, Codec, create_ticket, cancel_ticket, create_ticket_replacing_active, after_create,
  after_cancel, create_ticket_request, cancel_ticket_request, active_id,
}

module _ {W : Type 0} (env : Env W) (codec : Codec) (ctx : Context) where
  Spends-create :
      (req : MatchRequest) (c : Client W) → Spends 2 4 c (create_ticket env codec ctx req c).1
  unfolding create_ticket
  Spends-create req c = Spends-call_protected env codec.ticket ctx (create_ticket_request req) c

  Spends-cancel : (id : ℤ) (c : Client W) → Spends 2 4 c (cancel_ticket env codec ctx id c).1
  unfolding cancel_ticket
  Spends-cancel id c = Spends-call_protected env no_out ctx (cancel_ticket_request id) c

  Spends-cancelled :
      (req : MatchRequest) (id : ℤ) (c : Client W) (a : Result (Unit {0}) × Client W)
      → Spends 2 4 c a.1
      → Spends 4 8 c (after_cancel env codec ctx req id a).1
  Spends-cancelled req id c (ok u, c') h =
      Spends-trans 2 2 4 4 c c' (create_ticket env codec ctx req c').1 h (Spends-create req c')
  Spends-cancelled req id c (err e, c') h =
      let t =
        Spends-trans 2 2 4 4 c c' (create_ticket env codec ctx req c').1 h (Spends-create req c') in
      ground (arith, t, h)

  Spends-created :
      (req : MatchRequest) (c : Client W) (a : Result Ticket × Client W)
      → Spends 2 4 c a.1
      → Spends 6 12 c (after_create env codec ctx req a).1
  Spends-created req c (ok t, c') h = omega (arith, h)
  Spends-created req c (err e, c') h =
      let id = active_id env codec ctx e in
      let d = cancel_ticket env codec ctx id c' in
      let t =
        Spends-trans 2 4 4 8 c c' (after_cancel env codec ctx req id d).1 h
          (Spends-cancelled req id c' d (Spends-cancel id c')) in
      ground (arith, t, h)

  -- To replace an active ticket, createTicketReplacingActive makes at most three protected calls: at
  -- most six requests of its own, and at most twelve with the refreshes of the session.
  pub Spends-create_ticket_replacing_active :
      (req : MatchRequest) (c : Client W)
      → Spends 6 12 c (create_ticket_replacing_active env codec ctx req c).1
  unfolding create_ticket_replacing_active
  Spends-create_ticket_replacing_active req c =
      Spends-created req c (create_ticket env codec ctx req c) (Spends-create req c)
