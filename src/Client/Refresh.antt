-- ===== src/Client/Refresh.antt =====
-- Refreshes of client.go by many goroutines. The write lock makes each call of refreshUnderLock one
-- step, so that a schedule of goroutines is the list of their calls.
use ggscale_go.Prelude.{
  ℕ, zero, suc, ◌+◌, ◌≤◌, ◌<◌, ◌∙◌, ◌≡◌, refl, true, false, String, [], ◌∷◌, ◌++◌, Option, none,
  some, arith, length, length-append, ap, Bool-cases, inl, inr,
}
use ggscale_go.Prelude.Text.{is_empty, str_eq}
use ggscale_go.Transport.{Result, ok, err, Context}
use ggscale_go.Client.{
  Session, Env, Client, refresh_after_unauthorized, auth_refresh, bound, installed, notified,
  locked, another_token,
}

module _ {W : Type 0} (env : Env W) (ctx : Context) where
  -- `n` goroutines whose call failed with a 401 for one access token, one after the other; the error
  -- of one stops no other.
  unfoldable pub herd : ℕ → String → Client W → Client W
  herd zero failed c = c
  herd (suc n) failed c = herd n failed (refresh_after_unauthorized env ctx failed c).1

  -- The server never answers a refresh with the access token that it was to replace.
  abbrev pub Rotates : String → Type 0
  Rotates old =
      (token : String) (c : Client W) (s : Session)
      → (auth_refresh env ctx token c).0 ≡ ok s
      → str_eq s.access_token old ≡ false

  -- Once another token is installed nobody refreshes.
  unauthorized_late :
      (failed : String) (s : Session) (c : Client W)
      → is_empty failed ≡ false
      → c.session ≡ some s
      → str_eq s.access_token failed ≡ false
      → (refresh_after_unauthorized env ctx failed c).1 ≡ c
  unfolding refresh_after_unauthorized
  unauthorized_late failed s c h e d = rw (e, h, d)

  herd_late :
      (n : ℕ) (failed : String) (s : Session) (c : Client W)
      → is_empty failed ≡ false
      → c.session ≡ some s
      → str_eq s.access_token failed ≡ false
      → herd n failed c ≡ c
  unfolding herd
  herd_late zero failed s c h e d = refl
  herd_late (suc n) failed s c h e d =
      rw (unauthorized_late failed s c h e d) (herd_late n failed s c h e d)

  -- The first of them: it leaves the session as it was, or installs another token.
  data Turns (failed : String) (c c' : Client W) : Type 0 where
    kept : c'.session ≡ c.session → c'.updates ≡ c.updates → Turns failed c c'
    rotated :
        (s : Session)
        → c'.session ≡ some s
        → c'.updates ≡ c.updates ++ some s ∷ []
        → str_eq s.access_token failed ≡ false
        → Turns failed c c'

  auth_refresh-keeps :
      (token : String) (c : Client W)
      → ((auth_refresh env ctx token c).1.session ≡ c.session)
        × ((auth_refresh env ctx token c).1.updates ≡ c.updates)
  unfolding auth_refresh
  auth_refresh-keeps token c = (refl, refl)

  -- What the answer of the server makes of the client.
  answered-Turns :
      (failed : String) (c : Client W) (r : Result Session × Client W)
      → r.1.session ≡ c.session
      → r.1.updates ≡ c.updates
      → ((s : Session) → r.0 ≡ ok s → str_eq s.access_token failed ≡ false)
      → Turns failed c (bound (bound r (installed env)) (notified env)).1
  answered-Turns failed c (ok s, c') e u other =
      rotated s refl (ap (λ l. l ++ some s ∷ []) u) (other s refl)
  answered-Turns failed c (err e', c') e u other = kept e u

  locked-Turns :
      (failed : String) (o : Option Session) (c : Client W)
      → Rotates failed
      → c.session ≡ o
      → Turns failed c (bound (locked env ctx true failed o c) (notified env)).1
  locked-Turns failed none c rotates e = kept refl refl
  locked-Turns failed (some s) c rotates e = elim (Bool-cases (another_token env failed s)) [
    | inl other ↦ rw other (kept refl refl)
    | inr same ↦ rw same (elim (Bool-cases (is_empty s.refresh_token)) [
      | inl none_left ↦ rw none_left (kept refl refl)
      | inr there ↦ rw there (
          answered-Turns failed c (auth_refresh env ctx s.refresh_token c)
            (auth_refresh-keeps s.refresh_token c).0 (auth_refresh-keeps s.refresh_token c).1
            (rotates s.refresh_token c))
    ])
  ]

  unauthorized-Turns :
      (failed : String) (c : Client W)
      → Rotates failed
      → Turns failed c (refresh_after_unauthorized env ctx failed c).1
  unfolding refresh_after_unauthorized
  unauthorized-Turns failed c rotates = locked-Turns failed c.session c rotates refl

  -- Of `n` goroutines none rotates the session, or the one behind the first `k` does, and all that come
  -- after it leave the client and the world as they are.
  pub data RotatesOnce (n : ℕ) (failed : String) (c : Client W) : Type 0 where
    never : (herd n failed c).updates ≡ c.updates → RotatesOnce n failed c
    once :
        (k : ℕ) (s : Session)
        → k < n
        → (herd k failed c).updates ≡ c.updates
        → (herd (suc k) failed c).session ≡ some s
        → (herd (suc k) failed c).updates ≡ c.updates ++ some s ∷ []
        → herd n failed c ≡ herd (suc k) failed c
        → RotatesOnce n failed c

  herd-RotatesOnce :
      (n : ℕ) (failed : String) (c : Client W)
      → is_empty failed ≡ false
      → Rotates failed
      → RotatesOnce n failed c
  unfolding herd
  herd-RotatesOnce zero failed c h rotates = never refl
  herd-RotatesOnce (suc n) failed c h rotates =
      let c' = (refresh_after_unauthorized env ctx failed c).1 in
      elim (unauthorized-Turns failed c rotates) [
        | kept e u ↦ elim (herd-RotatesOnce n failed c' h rotates) [
          | never v ↦ never (v ∙ u)
          | once k s l v t w same ↦
              once (suc k) s (omega (arith, l)) (v ∙ u) t (w ∙ ap (λ l. l ++ some s ∷ []) u) same
        ]
        | rotated s e u other ↦ once 0 s (omega arith) refl e u (herd_late n failed s c' h e other)
      ]

  once-updates :
      (n : ℕ) (failed : String) (c : Client W)
      → RotatesOnce n failed c
      → length (herd n failed c).updates ≤ length c.updates + 1
  once-updates n failed c (never v) = omega (arith, ap length v)
  once-updates n failed c (once k s l v t w same) =
      omega
        (arith, ap (λ d. length d.updates) same, ap length w, length-append c.updates (some s ∷ []))

  -- However many goroutines fail with a 401 for one access token, and however the calls to refresh it
  -- go, at most one of them rotates the session and tells OnSessionUpdate. Those that come after it
  -- change nothing and send nothing, so that they do not spend the refresh token of the new session.
  -- It is so where the server answers a refresh with another access token.
  pub herd-updates :
      (n : ℕ) (failed : String) (c : Client W)
      → is_empty failed ≡ false
      → Rotates failed
      → (length (herd n failed c).updates ≤ length c.updates + 1) × RotatesOnce n failed c
  herd-updates n failed c h rotates =
      let once_only = herd-RotatesOnce n failed c h rotates in
      (once-updates n failed c once_only, once_only)
