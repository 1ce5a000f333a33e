-- ===== src/StdNet/Wire/Credentials.antt =====
-- Where the credentials of a request go: what buildRequest sets, and what a redirect takes along.
use ggscale_go.Prelude.{
  ◌≡◌, refl, true, false, ◌⊎◌, String, List, [], ◌∷◌, ◌++◌, Option, arith, length, ◌<◌,
}
use ggscale_go.Transport.{Result, ok, err}
use ggscale_go.StdNet.Wire.{
  Headers, values, del, Origin, same_origin, check_redirect, NextRequest, RedirectCheck, checked,
  limited,
}

values-append :
    (name : String) (g h : Headers) → values name (g ++ h) ≡ values name g ++ values name h
unfolding values
values-append name [] h = refl
values-append name ((n, v) ∷ g) h = ground (arith, values-append name g h)

values-del_nil :
    (name other : String) (h : Headers) → values name h ≡ [] → values name (del other h) ≡ []
unfolding values del
values-del_nil name other [] e = refl
values-del_nil name other ((n, v) ∷ h) e = ground (arith, values-del_nil name other h)

values-del_self : (name : String) (h : Headers) → values name (del name h) ≡ []
unfolding values del
values-del_self name [] = refl
values-del_self name ((n, v) ∷ h) = ground (arith, values-del_self name h)

module _ (first : Origin) (rest : List Origin) (sent : NextRequest) where
  -- What is sent, by the request as the caller's check left it.
  abbrev pub Sent : NextRequest → Type 0
  Sent next =
      (same_origin first next.origin ≡ true) × (sent ≡ next)
      ⊎ (same_origin first next.origin ≡ false)
        × (values "Authorization" sent.headers ≡ [])
        × (values "X-Session-Token" sent.headers ≡ [])

  limited-Sent :
      {W : Type 0} (r : Result NextRequest × W)
      → (limited (first ∷ rest) r).0 ≡ ok sent
      → (length rest < 9) × ((next : NextRequest) × (r.0 ≡ ok next) × Sent next)
  limited-Sent (err e, w) h = cc
  limited-Sent (ok next, w) h =
      let d = values-del_self "Authorization" next.headers in
      let k =
        values-del_nil "Authorization" "X-Session-Token" (del "Authorization" next.headers) d in
      let t = values-del_self "X-Session-Token" (del "Authorization" next.headers) in
      (ground (arith, h), (next, refl, ground (arith, h, k, t)))

  -- A redirect that is allowed is at most the tenth of its chain. Whatever the check of the caller's
  -- own client does, also to the request, that check has allowed it; within the origin of the first
  -- request it is made as that check left it, and to any other origin it carries neither the API key
  -- nor the session token.
  pub check_redirect_safe :
      {W : Type 0} (previous : Option (RedirectCheck W)) (next : NextRequest) (w : W)
      → (check_redirect previous (first ∷ rest) next w).0 ≡ ok sent
      → (length rest < 9)
        × ((left : NextRequest) × ((checked previous (first ∷ rest) next w).0 ≡ ok left)
            × Sent left)
  unfolding check_redirect
  check_redirect_safe previous next w h = limited-Sent (checked previous (first ∷ rest) next w) h
