-- ===== src/Parties/Log.antt =====
-- Logs of what Watch of parties.go reports to its callback.
use ggscale_go.Prelude.{◌≡◌, refl, Bool, true, false, List, [], ◌∷◌, ◌++◌, arith}
use ggscale_go.Prelude.Int.{ℤ, ltb_ℤ}
use ggscale_go.Parties.Watch.{PartyEvent, changed, invite, found, removed}

-- The version that was reported last, after `v`.
abbrev pub last_version : ℤ → List PartyEvent → ℤ
last_version v [] = v
last_version v (changed p ∷ es) = last_version p.version es
last_version v (invite i ∷ es) = last_version v es
last_version v (found m ∷ es) = last_version v es
last_version v (removed ∷ es) = last_version v es

-- Each party of a log is newer than the one before, and the first is newer than `v`.
abbrev pub Rising : ℤ → List PartyEvent → Type 0
Rising v [] = Unit
Rising v (changed p ∷ es) = (ltb_ℤ v p.version ≡ true) × Rising p.version es
Rising v (invite i ∷ es) = Rising v es
Rising v (found m ∷ es) = Rising v es
Rising v (removed ∷ es) = Rising v es

-- `removed` comes last, if at all.
abbrev pub RemovedLast : List PartyEvent → Type 0
RemovedLast [] = Unit
RemovedLast (changed p ∷ es) = RemovedLast es
RemovedLast (invite i ∷ es) = RemovedLast es
RemovedLast (found m ∷ es) = RemovedLast es
RemovedLast (removed ∷ es) = es ≡ []

abbrev pub no_removed : List PartyEvent → Bool
no_removed [] = true
no_removed (changed p ∷ es) = no_removed es
no_removed (invite i ∷ es) = no_removed es
no_removed (found m ∷ es) = no_removed es
no_removed (removed ∷ es) = false

pub Rising-append :
    (v : ℤ) (xs ys : List PartyEvent)
    → Rising v xs
    → Rising (last_version v xs) ys
    → Rising v (xs ++ ys)
Rising-append v [] ys h k = k
Rising-append v (changed p ∷ xs) ys h k = (h.0, Rising-append p.version xs ys h.1 k)
Rising-append v (invite i ∷ xs) ys h k = Rising-append v xs ys h k
Rising-append v (found m ∷ xs) ys h k = Rising-append v xs ys h k
Rising-append v (removed ∷ xs) ys h k = Rising-append v xs ys h k

pub last_version-append :
    (v : ℤ) (xs ys : List PartyEvent)
    → last_version v (xs ++ ys) ≡ last_version (last_version v xs) ys
last_version-append v [] ys = refl
last_version-append v (changed p ∷ xs) ys = last_version-append p.version xs ys
last_version-append v (invite i ∷ xs) ys = last_version-append v xs ys
last_version-append v (found m ∷ xs) ys = last_version-append v xs ys
last_version-append v (removed ∷ xs) ys = last_version-append v xs ys

pub no_removed-append :
    (xs ys : List PartyEvent) → no_removed xs ≡ true → no_removed (xs ++ ys) ≡ no_removed ys
no_removed-append [] ys h = refl
no_removed-append (changed p ∷ xs) ys h = no_removed-append xs ys h
no_removed-append (invite i ∷ xs) ys h = no_removed-append xs ys h
no_removed-append (found m ∷ xs) ys h = no_removed-append xs ys h
no_removed-append (removed ∷ xs) ys h = ground (arith, h)

pub RemovedLast-append :
    (xs : List PartyEvent) (y : PartyEvent) → no_removed xs ≡ true → RemovedLast (xs ++ y ∷ [])
RemovedLast-append [] (changed p) h = tt
RemovedLast-append [] (invite p) h = tt
RemovedLast-append [] (found p) h = tt
RemovedLast-append [] removed h = refl
RemovedLast-append (changed p ∷ xs) y h = RemovedLast-append xs y h
RemovedLast-append (invite i ∷ xs) y h = RemovedLast-append xs y h
RemovedLast-append (found m ∷ xs) y h = RemovedLast-append xs y h
RemovedLast-append (removed ∷ xs) y h = ground (arith, h)

pub RemovedLast-none : (xs : List PartyEvent) → no_removed xs ≡ true → RemovedLast xs
RemovedLast-none [] h = tt
RemovedLast-none (changed p ∷ xs) h = RemovedLast-none xs h
RemovedLast-none (invite i ∷ xs) h = RemovedLast-none xs h
RemovedLast-none (found m ∷ xs) h = RemovedLast-none xs h
RemovedLast-none (removed ∷ xs) h = ground (arith, h)
