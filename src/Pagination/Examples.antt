-- ===== src/Pagination/Examples.antt =====
-- The theorem on pagination.go, at a list of two pages.
use ggscale_go.Prelude.{
  ℕ, ◌+◌, ◌≡◌, refl, Bool, not, String, List, [], ◌∷◌, length, ◌==◌, if◌then◌else◌,
}
use ggscale_go.Prelude.Text.{str_eq}
use ggscale_go.Errors.{Sentinel, GoError}
use ggscale_go.Transport.{Result, ok, err}
use ggscale_go.Pagination.{Yield, item, iteration, cursor_sequence}
use ggscale_go.Pagination.Pages.{Pages, last, more, delivered, Yields, cursor_sequence-delivers}

-- A server that counts what it is asked for.
abbrev two_pages : String → ℕ → Result (List ℕ × String) × ℕ
two_pages c w =
    if str_eq c ""
    then (ok (1 ∷ 2 ∷ [], "p2"), w + 1)
    else if str_eq c "p2"
    then (ok (3 ∷ 4 ∷ [], ""), w + 1)
    else (err (GoError.sentinel Sentinel.not_found), w + 1)

-- A caller that stops at its third item.
abbrev three : List (Yield ℕ) → Bool
three seen = not (length seen == 3)

two_pages-Pages : Pages two_pages 2 "" 0 (item 1 ∷ item 2 ∷ item 3 ∷ item 4 ∷ [])
two_pages-Pages =
    more 1 "" "p2" 0 1 (1 ∷ 2 ∷ []) (item 3 ∷ item 4 ∷ []) refl refl refl
      (last 0 "p2" 1 2 (3 ∷ 4 ∷ []) refl)

cursor_sequence-delivers_example :
    Yields
      (delivered three [] (item 1 ∷ item 2 ∷ item 3 ∷ item 4 ∷ []))
      2
      (cursor_sequence two_pages three 2 "" (iteration 0))
cursor_sequence-delivers_example =
    cursor_sequence-delivers three two_pages 2 "" 0 (item 1 ∷ item 2 ∷ item 3 ∷ item 4 ∷ [])
      two_pages-Pages

three_items :
    delivered three [] (item 1 ∷ item 2 ∷ item 3 ∷ item 4 ∷ []) ≡ item 1 ∷ item 2 ∷ item 3 ∷ []
unfolding delivered
three_items = refl
