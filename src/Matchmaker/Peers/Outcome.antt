-- ===== src/Matchmaker/Peers/Outcome.antt =====
-- What ConnectP2P of matchmaker.go returns for what WaitForMatch has found, and what it asks for.
use ggscale_go.Prelude.{
  ◌≡◌, refl, Bool, true, false, String, List, Option, none, some, ◌⊎◌, inl, inr, ap, sym, ◌∙◌,
  Bool-cases, arith, if◌then◌else◌,
}
use ggscale_go.Prelude.Text.{str_eq}
use ggscale_go.Errors.{GoError}
use ggscale_go.Matchmaker.Criteria.{MatchRequest}
use ggscale_go.Transport.{Result, ok, err, Out, Context}
use ggscale_go.Client.{Session, Env, Client}
use ggscale_go.Client.Protected.{Spends, Spends-trans, Spends-nothing, Spends-call_protected}
use ggscale_go.Relay.{Credentials, get_credentials, credentials_request}
use ggscale_go.GameSessions.{GameSession, GameSessionAddr, join_session, join_session_request}
use ggscale_go.Matchmaker.{MatchResult, Settlement, pending, settled, Codec}
use ggscale_go.Matchmaker.Wait.{Event, wait_for_match}
use ggscale_go.Matchmaker.Peers.{
  P2PMatch, fleet_allocation, not_for_fleets, joins, found_match, with_relay, with_session,
  after_relay, after_wait, match_options, connect, connect_p2p,
}

abbrev pub is_some : {A : Type 0} → Option A → Bool
is_some none = false
is_some (some a) = true

-- Either credentials or the error for want of them.
abbrev pub Relayed : P2PMatch → Type 0
Relayed p =
    ((is_some p.relay ≡ true) × (p.relay_error ≡ none))
    ⊎ ((p.relay ≡ none) × (is_some p.relay_error ≡ true))

abbrev pub is_fleet : MatchResult → Bool
is_fleet m = str_eq m.mode fleet_allocation

-- What a match is returned with, and for which matches there may be an error instead.
abbrev pub Connected : MatchResult → Result P2PMatch → Type 0
Connected m (ok p) =
    (p.result ≡ m) × (is_fleet m ≡ false) × Relayed p × (is_some p.session ≡ joins m)
Connected m (err e) =
    ((is_fleet m ≡ true) × (e ≡ not_for_fleets))
    ⊎ ((joins m ≡ true) × (x : GoError) × (e ≡ GoError.wrapped "join match session" x))

abbrev pub Outcome : Settlement → Option (Result P2PMatch) → Type 0
Outcome pending r = r ≡ none
Outcome (settled (err e)) r = r ≡ some (err e)
Outcome (settled (ok m)) none = ⊥
Outcome (settled (ok m)) (some r) = Connected m r

module _ {W : Type 0} (env : Env W) (codec : Codec) (creds : Out Credentials)
    (joined : Out GameSession) (ctx : Context) (self : GameSessionAddr) where
  with_session-Connected :
      (m : MatchResult) (p : P2PMatch) (r : Result GameSession × Client W)
      → p.result ≡ m
      → is_fleet m ≡ false
      → Relayed p
      → joins m ≡ true
      → Connected m (with_session env codec creds joined ctx self p r).0
  with_session-Connected m p (ok s, c) e f h j = (e, f, h, sym j)
  with_session-Connected m p (err x, c) e f h j = inr (j, x, refl)

  -- With the relay's answer in the match, and no session yet.
  finished-Connected :
      (m : MatchResult) (p : P2PMatch) (c : Client W)
      → p.result ≡ m
      → is_fleet m ≡ false
      → Relayed p
      → p.session ≡ none
      → Connected m
          (if joins m
            then with_session env codec creds joined ctx self p
                (join_session env ctx joined m.session_id self c)
            else (ok p, c)).0
  finished-Connected m p c e f h n = elim (Bool-cases (joins m)) [
    | inl j ↦
        rw j (with_session-Connected m p (join_session env ctx joined m.session_id self c) e f h j)
    | inr j ↦ rw j (e, f, h, ap is_some n ∙ sym j)
  ]

  after_relay-Connected :
      (m : MatchResult) (s : Option Session) (r : Result Credentials × Client W)
      → is_fleet m ≡ false
      → Connected m (after_relay env codec creds joined ctx self (found_match m s) r).0
  after_relay-Connected m s (ok a, c) f =
      finished-Connected m (with_relay (found_match m s) (ok a)) c refl f (inl (refl, refl)) refl
  after_relay-Connected m s (err e, c) f =
      finished-Connected m (with_relay (found_match m s) (err e)) c refl f (inr (refl, refl)) refl

  connect-Connected :
      (m : MatchResult) (c : Client W) → Connected m (connect env codec creds joined ctx self m c).0
  unfolding connect
  connect-Connected m c = elim (Bool-cases (is_fleet m)) [
    | inl f ↦ rw f (inl (f, refl))
    | inr f ↦
        rw f
          (after_relay-Connected m c.session (get_credentials env creds ctx (match_options m) c) f)
  ]

  Spends-of_session :
      (p : P2PMatch) (c : Client W) (r : Result GameSession × Client W)
      → Spends 2 4 c r.1
      → Spends 2 4 c (with_session env codec creds joined ctx self p r).1
  Spends-of_session p c (ok s, d) h = h
  Spends-of_session p c (err e, d) h = h

  Spends-joined :
      (p : P2PMatch) (id : String) (c : Client W)
      → Spends 2 4 c
          (with_session env codec creds joined ctx self p (join_session env ctx joined id self c)).1
  unfolding join_session
  Spends-joined p id c =
      Spends-of_session p c (join_session env ctx joined id self c)
        (Spends-call_protected env joined ctx (join_session_request id self) c)

  Spends-after_relay :
      (p : P2PMatch) (c : Client W) (r : Result Credentials × Client W)
      → Spends 2 4 c r.1
      → Spends 4 8 c (after_relay env codec creds joined ctx self p r).1
  Spends-after_relay p c (r, d) h = elim (Bool-cases (joins p.result)) [
    | inl j ↦
        rw j (Spends-trans 2 2 4 4 c d _ h (Spends-joined (with_relay p r) p.result.session_id d))
    | inr j ↦ rw j (omega (arith, h))
  ]

  Spends-connect :
      (m : MatchResult) (c : Client W)
      → Spends 4 8 c (connect env codec creds joined ctx self m c).1
  unfolding connect get_credentials
  Spends-connect m c = elim (Bool-cases (is_fleet m)) [
    | inl f ↦ rw f (Spends-nothing env 4 8 c)
    | inr f ↦ rw f (
        Spends-after_relay (found_match m c.session) c
          (get_credentials env creds ctx (match_options m) c)
          (Spends-call_protected env creds ctx (credentials_request (match_options m)) c))
  ]

  after_wait-Outcome :
      (w : Settlement × Client W)
      → Outcome w.0 (after_wait env codec creds joined ctx self w).0
        × Spends 4 8 w.1 (after_wait env codec creds joined ctx self w).1
  after_wait-Outcome (pending, c) = (refl, Spends-nothing env 4 8 c)
  after_wait-Outcome (settled (err e), c) = (refl, Spends-nothing env 4 8 c)
  after_wait-Outcome (settled (ok m), c) = (connect-Connected m c, Spends-connect m c)

  -- ConnectP2P passes the errors of WaitForMatch on, and never returns while that waits. A match that
  -- WaitForMatch has found it returns as it is, with either credentials of the relay or the error for
  -- want of them, and with a session exactly when its mode is game_session and it names one: a relay
  -- that fails does not lose the match. It is lost only to the error for the mode
  -- fleet_allocation, or to a wrapped error of the join. What follows the wait makes at most four requests of its
  -- own, and at most eight with the refreshes of the session.
  pub connect_p2p-Outcome :
      (req : MatchRequest) (dial : Client W → Bool × Client W) (es : List Event) (c : Client W)
      → Outcome
          (wait_for_match env codec ctx req dial es c).0
          (connect_p2p env codec creds joined ctx self req dial es c).0
        × Spends 4 8
            (wait_for_match env codec ctx req dial es c).1
            (connect_p2p env codec creds joined ctx self req dial es c).1
  unfolding connect_p2p
  connect_p2p-Outcome req dial es c =
      after_wait-Outcome (wait_for_match env codec ctx req dial es c)
