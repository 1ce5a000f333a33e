-- ===== src/Errors/Families.antt =====
-- How the sentinels of transport.go divide the errors of the API.
use ggscale_go.Prelude.{ℕ, ◌≡◌, sym, ◌∙◌, true, arith, ◌==◌, if◌then◌else◌}
use ggscale_go.Errors.{Error, Sentinel, index, error_is}

-- The sentinel that names the whole status class of another one. The 503 of a disabled party queue
-- has no such sentinel and stands for itself.
abbrev pub family : Sentinel → Sentinel
family Sentinel.ticket_active = Sentinel.conflict
family Sentinel.stale_version = Sentinel.conflict
family Sentinel.code_cooldown = Sentinel.rate_limited
family Sentinel.delete_requested_by_team = Sentinel.forbidden
family s = s

-- The sentinel of a status, by its place; 20 where there is none.
abbrev owner : ℕ → ℕ
owner n =
    if n == 401
    then 0
    else if n == 403
    then 1
    else if n == 404
    then 2
    else if n == 412
    then 3
    else if n == 409
    then 3
    else if n == 429
    then 4
    else if n == 400
    then 5
    else if n == 422
    then 6
    else if n == 503
    then 9
    else 20

error_is-owner :
    (e : Error) (s : Sentinel) → error_is e s ≡ true → index (family s) ≡ owner e.status
unfolding error_is
error_is-owner e Sentinel.unauthorized h = ground arith
error_is-owner e Sentinel.forbidden h = ground arith
error_is-owner e Sentinel.not_found h = ground arith
error_is-owner e Sentinel.conflict h = ground arith
error_is-owner e Sentinel.rate_limited h = ground arith
error_is-owner e Sentinel.bad_request h = ground arith
error_is-owner e Sentinel.validation h = ground arith
error_is-owner e Sentinel.ticket_active h = ground arith
error_is-owner e Sentinel.stale_version h = ground arith
error_is-owner e Sentinel.party_enqueue_disabled h = ground arith
error_is-owner e Sentinel.code_cooldown h = ground arith
error_is-owner e Sentinel.delete_requested_by_team h = ground arith
error_is-owner e _ h = ground arith

error_is-family : (e : Error) (s : Sentinel) → error_is e s ≡ true → error_is e (family s) ≡ true
unfolding error_is
error_is-family e Sentinel.ticket_active h = ground arith
error_is-family e Sentinel.stale_version h = ground arith
error_is-family e Sentinel.code_cooldown h = ground arith
error_is-family e Sentinel.delete_requested_by_team h = ground arith
error_is-family e _ h = h

-- An API error that matches two sentinels matches the sentinel of the status class of the first, and
-- both have the same class: a special case such as ErrTicketActive is never lost to a caller that
-- handles only ErrConflict, and no two classes ever match one error.
pub error_is_classes :
    (e : Error) (s t : Sentinel)
    → error_is e s ≡ true
    → error_is e t ≡ true
    → (error_is e (family s) ≡ true) × (index (family s) ≡ index (family t))
error_is_classes e s t hs ht =
    (error_is-family e s hs, error_is-owner e s hs ∙ sym (error_is-owner e t ht))
