-- ===== src/Pagination/Listing.antt =====
-- The All methods of the services: an iterator over the pages of a List method. The caller's loop, and a
-- bound of the pages, are arguments.
use ggscale_go.Prelude.{ℕ, Bool, String, List, Option}
use ggscale_go.Transport.{Result, ok, err}
use ggscale_go.Client.{Client, M}
use ggscale_go.Pagination.{Yield, Iteration, iteration, cursor_sequence, so_far}

-- A loop over an iterator, run for at most a number of pages.
abbrev pub Listing : Type 0 → Type 0 → Type 0
Listing T W = (List (Yield T) → Bool) → ℕ → Client W → Option (Iteration T (Client W))

module _ {T P W : Type 0} (items : P → List T) (next : P → String) where
  -- What the closure of an All method returns of a page.
  abbrev pub page_parts : Result P × Client W → Result (List T × String) × Client W
  page_parts (ok p, c) = (ok (items p, next p), c)
  page_parts (err e, c) = (err e, c)

unfoldable pub all_pages :
    {T P W : Type 0} → String → (String → M W P) → (P → List T) → (P → String) → Listing T W
unfolding cursor_sequence
all_pages start list items next wants n c =
    cursor_sequence (λ cursor c'. page_parts items next (list cursor c')) wants n start
      (iteration c)

-- Its state after at most that many pages.
unfoldable pub pages_so_far :
    {T P W : Type 0}
    → String
    → (String → M W P)
    → (P → List T)
    → (P → String)
    → (List (Yield T) → Bool)
    → ℕ
    → Client W
    → Iteration T (Client W)
unfolding so_far
pages_so_far start list items next wants n c =
    so_far (λ cursor c'. page_parts items next (list cursor c')) wants n start (iteration c)
