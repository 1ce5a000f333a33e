-- ===== src/Pagination.antt =====
-- pagination.go: cursorSequence, the iterator behind every All method.
pub mod Listing
pub mod Cursors
pub mod Pages
pub mod Examples
use ggscale_go.Prelude.{
  ℕ, zero, suc, Bool, true, false, String, List, [], ◌∷◌, ◌++◌, Option, none, some, if◌then◌else◌,
}
use ggscale_go.Prelude.Text.{str_eq, is_empty}
use ggscale_go.Errors.{Sentinel, GoError}
use ggscale_go.Transport.{Result, ok, err}

-- What the iterator yields: an item with a nil error, or a zero item with an error.
pub data Yield (T : Type 0) : Type 0 where
  item : T → Yield T
  failed : GoError → Yield T

abbrev pub did_not_advance : GoError
did_not_advance = GoError.sentinel Sentinel.cursor_did_not_advance

-- The state of a loop over the iterator: what was yielded, the oldest first, the number of pages
-- that were asked for, and the world.
pub record Iteration (T W : Type 0) : Type 0 where
  pub seen : List (Yield T)
  pub fetched : ℕ
  pub world : W

-- What follows a page: the end, or the cursor of the next one.
pub data Next (T W : Type 0) : Type 0 where
  ended : Iteration T W → Next T W
  next_page : String → Iteration T W → Next T W

module _ {T : Type 0} (wants : List (Yield T) → Bool) where
  -- The items of a page, and whether the caller still wants more.
  unfoldable pub yield_items : List T → List (Yield T) → Bool × List (Yield T)
  yield_items [] seen = (true, seen)
  yield_items (x ∷ xs) seen =
      let seen' = seen ++ item x ∷ [] in
      let rest = yield_items xs seen' in if wants seen' then rest else (false, seen')

-- `fetch` asks for the page at a cursor, and `wants` is the body of the caller's loop: whether it
-- goes on after what it has seen.
module _ {T W : Type 0} (fetch : String → W → Result (List T × String) × W)
    (wants : List (Yield T) → Bool) where
  abbrev with_failure : GoError → Iteration T W → Iteration T W
  with_failure e i = record i { seen = i.seen ++ failed e ∷ [] }

  abbrev after_items : String → String → Iteration T W → Bool × List (Yield T) → Next T W
  after_items cursor next i (false, seen) = ended (record i { seen = seen })
  after_items cursor next i (true, seen) =
      if is_empty next
      then ended (record i { seen = seen })
      else if str_eq next cursor
      then ended (with_failure did_not_advance (record i { seen = seen }))
      else next_page next (record i { seen = seen })

  abbrev after_fetch : String → Iteration T W → Result (List T × String) × W → Next T W
  after_fetch cursor i (err e, w) =
      ended (with_failure e (record i { fetched = suc i.fetched; world = w }))
  after_fetch cursor i (ok (items, next), w) =
      after_items cursor next (record i { fetched = suc i.fetched; world = w })
        (yield_items wants items i.seen)

  -- One round of the loop.
  unfoldable pub page_step : String → Iteration T W → Next T W
  unfolding yield_items
  page_step cursor i = after_fetch cursor i (fetch cursor i.world)

  -- cursorSequence, for at most the given number of pages: `none` when there would be more.
  unfoldable pub cursor_sequence : ℕ → String → Iteration T W → Option (Iteration T W)
  unfolding page_step
  cursor_sequence zero cursor i = none
  cursor_sequence (suc n) cursor i = elim (page_step cursor i) [
    | ended i' ↦ some i'
    | next_page next i' ↦ cursor_sequence n next i'
  ]

  -- The state of the loop after at most a number of pages, whether it has ended by then or not.
  unfoldable pub so_far : ℕ → String → Iteration T W → Iteration T W
  unfolding page_step
  so_far zero cursor i = i
  so_far (suc n) cursor i = elim (page_step cursor i) [
    | ended i' ↦ i'
    | next_page next i' ↦ so_far n next i'
  ]

abbrev pub iteration : {T W : Type 0} → W → Iteration T W
iteration w = record { seen = []; fetched = 0; world = w }
