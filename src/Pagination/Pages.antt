-- ===== src/Pagination/Pages.antt =====
-- What cursorSequence of pagination.go yields, as one list with no pages.
use ggscale_go.Prelude.{
  ℕ, suc, ◌+◌, ◌≤◌, ◌≡◌, refl, Bool, true, false, String, List, [], ◌∷◌, ◌++◌, map, Option, none,
  some, arith, subst, if◌then◌else◌,
}
use mathlib.Core.List.{append-nil}
use ggscale_go.Prelude.Text.{str_eq, is_empty}
use ggscale_go.Errors.{GoError}
use ggscale_go.Transport.{Result, ok, err}
use ggscale_go.Pagination.{
  Yield, item, failed, did_not_advance, Iteration, iteration, yield_items, page_step,
  cursor_sequence,
}

-- What a caller sees of a list: all up to the first one after which it stops.
unfoldable pub delivered :
    {T : Type 0} → (List (Yield T) → Bool) → List (Yield T) → List (Yield T) → List (Yield T)
delivered wants seen [] = seen
delivered wants seen (y ∷ ys) =
    let seen' = seen ++ y ∷ [] in
    let rest = delivered wants seen' ys in if wants seen' then rest else seen'

module _ {T W : Type 0} (fetch : String → W → Result (List T × String) × W) where
  -- The pages from a cursor on, as a server gives them to a caller who reads them all: a bound of
  -- their number, and what they hold, one after the other, with the error that ends them.
  pub data Pages : ℕ → String → W → List (Yield T) → Type 0 where
    last :
        (n : ℕ) (c : String) (w w' : W) (xs : List T)
        → fetch c w ≡ (ok (xs, ""), w')
        → Pages (suc n) c w (map item xs)
    refused :
        (n : ℕ) (c : String) (w w' : W) (e : GoError)
        → fetch c w ≡ (err e, w')
        → Pages (suc n) c w (failed e ∷ [])
    repeated :
        (n : ℕ) (c next : String) (w w' : W) (xs : List T)
        → fetch c w ≡ (ok (xs, next), w')
        → is_empty next ≡ false
        → str_eq next c ≡ true
        → Pages (suc n) c w (map item xs ++ failed did_not_advance ∷ [])
    more :
        (n : ℕ) (c next : String) (w w' : W) (xs : List T) (ys : List (Yield T))
        → fetch c w ≡ (ok (xs, next), w')
        → is_empty next ≡ false
        → str_eq next c ≡ false
        → Pages n next w' ys
        → Pages (suc n) c w (map item xs ++ ys)

-- The result of the loop: what was seen, and a bound of the pages that were asked for.
abbrev pub Yields : {T W : Type 0} → List (Yield T) → ℕ → Option (Iteration T W) → Type 0
Yields ys n none = ⊥
Yields ys n (some i) = (i.seen ≡ ys) × (i.fetched ≤ n)

module _ {T : Type 0} (wants : List (Yield T) → Bool) where
  abbrev goes_on : List (Yield T) → Bool × List (Yield T) → List (Yield T)
  goes_on ys (true, seen) = delivered wants seen ys
  goes_on ys (false, seen) = seen

  -- A page is a part of the list.
  delivered-page :
      (xs : List T) (ys seen : List (Yield T))
      → delivered wants seen (map item xs ++ ys) ≡ goes_on ys (yield_items wants xs seen)
  unfolding delivered yield_items
  delivered-page [] ys seen = refl
  delivered-page (x ∷ xs) ys seen =
      let ih = delivered-page xs ys (seen ++ item x ∷ []) in ground arith

  module _ {W : Type 0} (fetch : String → W → Result (List T × String) × W) where
    abbrev at : List (Yield T) → ℕ → W → Iteration T W
    at seen f w = record { seen = seen; fetched = f; world = w }

    pub cursor_sequence-from :
        (n f : ℕ) (c : String) (w : W) (seen ys : List (Yield T))
        → Pages fetch n c w ys
        → Yields (delivered wants seen ys) (f + n) (cursor_sequence fetch wants n c (at seen f w))
    unfolding cursor_sequence page_step delivered
    cursor_sequence-from n f c w seen ys (last m _ _ w' xs e) =
        let nil : map item xs ++ [] ≡ map item xs = append-nil (map item xs) in
        let d : delivered wants seen (map item xs) ≡ goes_on [] (yield_items wants xs seen) =
          subst (λ l. delivered wants seen l ≡ goes_on [] (yield_items wants xs seen)) nil
            (delivered-page xs [] seen) in
        ground (arith, e, d)
    cursor_sequence-from n f c w seen ys (refused m _ _ w' x e) = ground (arith, e)
    cursor_sequence-from n f c w seen ys (repeated m _ next _ w' xs e ne eq) =
        (let d = delivered-page xs (failed did_not_advance ∷ []) seen in ground (arith, e, d))
    cursor_sequence-from n f c w seen ys (more m _ next _ w' xs zs e ne eq p) =
        (let d = delivered-page xs zs seen in
          let ih = cursor_sequence-from m (suc f) next w' (yield_items wants xs seen).1 zs p in
          ground (arith, e, d, ih))

    -- When the pages of a list end within `n`, with their last page, an error or a repeated cursor, the
    -- iterator ends after at most `n` fetches, whatever the caller's loop does. What it has yielded
    -- then is the concatenation of the pages and the error, cut after the first item at which the
    -- caller stops.
    pub cursor_sequence-delivers :
        (n : ℕ) (c : String) (w : W) (ys : List (Yield T))
        → Pages fetch n c w ys
        → Yields (delivered wants [] ys) n (cursor_sequence fetch wants n c (iteration w))
    cursor_sequence-delivers n c w ys p =
        let h = cursor_sequence-from n 0 c w [] ys p in ground (arith, h)
