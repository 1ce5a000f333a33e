-- ===== src/Pagination/Cursors.antt =====
-- What an All method asks its List method for.
use ggscale_go.Prelude.{
  ℕ, zero, suc, ◌≡◌, refl, Bool, String, List, Option, none, some, ◌⊎◌, inl, inr, arith, ap, sym,
  ◌∙◌,
}
use ggscale_go.Transport.{Result, ok, err, Request}
use ggscale_go.Client.{Client, M}
use ggscale_go.Client.Sent.{Adds, Adds-nothing, Adds-trans}
use ggscale_go.Pagination.{
  Yield, Iteration, iteration, Next, ended, next_page, page_step, cursor_sequence, so_far,
  after_fetch,
}
use ggscale_go.Pagination.Listing.{page_parts, all_pages, pages_so_far}

module _ {P W : Type 0} (start : String) (list : String → M W P) (next : P → String)
    (c : Client W) where
  -- The cursors that the loop from `c` asks for, with the state in which it asks: the first one at
  -- first, and then the next cursor of the page that List has just returned, in the state that List
  -- left.
  pub data Asked : String → Client W → Type 0 where
    first : (k : String) (d : Client W) → k ≡ start → d ≡ c → Asked k d
    then_next :
        (j k : String) (d e : Client W) (p : P)
        → Asked j d
        → (list j d).0 ≡ ok p
        → k ≡ next p
        → e ≡ (list j d).1
        → Asked k e

-- A loop for at most a number of pages, of the state `i` after them, has made such requests, and has
-- ended in that state unless there are more pages.
abbrev pub AddsIn :
    {T W : Type 0}
    → (Request → Type 0)
    → Client W
    → Option (Iteration T (Client W))
    → Iteration T (Client W)
    → Type 0
AddsIn R c x i = ((x ≡ none) ⊎ (x ≡ some i)) × Adds R c i.world

module _ {T P W : Type 0} (start : String) (list : String → M W P) (items : P → List T)
    (next : P → String) (wants : List (Yield T) → Bool) where
  abbrev fetch : String → Client W → Result (List T × String) × Client W
  fetch k c = page_parts items next (list k c)

  abbrev world_of : Next T (Client W) → Client W
  world_of (ended i) = i.world
  world_of (next_page k i) = i.world

  abbrev page_of : String → Iteration T (Client W) → Result P × Client W → Next T (Client W)
  page_of k i r = after_fetch fetch wants k i (page_parts items next r)

  world-page :
      (k : String) (i : Iteration T (Client W)) (r : Result P × Client W)
      → world_of (page_of k i r) ≡ r.1
  world-page k i (ok p, c) = ground arith
  world-page k i (err e, c) = refl

  -- A loop goes on only after a page, at its next cursor.
  next-page :
      (k j : String) (i i' : Iteration T (Client W)) (r : Result P × Client W)
      → page_of k i r ≡ next_page j i'
      → (p : P) × (r.0 ≡ ok p) × (j ≡ next p)
  next-page k j i i' (ok p, c) h = (p, refl, ground arith)
  next-page k j i i' (err e, c) h = cc

  Next-cases :
      (x : Next T (Client W))
      → ((i : Iteration T (Client W)) × (x ≡ ended i))
        ⊎ ((j : String) × (i : Iteration T (Client W)) × (x ≡ next_page j i))
  Next-cases (ended i) = inl (i, refl)
  Next-cases (next_page j i) = inr (j, i, refl)

  -- The loop has ended in the state after its last page, if it has ended.
  ends-so_far :
      (n : ℕ) (k : String) (i : Iteration T (Client W))
      → (cursor_sequence fetch wants n k i ≡ none)
        ⊎ (cursor_sequence fetch wants n k i ≡ some (so_far fetch wants n k i))
  unfolding cursor_sequence so_far page_step
  ends-so_far zero k i = inl refl
  ends-so_far (suc n) k i = elim (Next-cases (page_of k i (list k i.world))) [
    | inl (i', e) ↦ inr (rw (e, cursor_sequence, so_far))
    | inr (j, i', e) ↦ rw (e, cursor_sequence, so_far) (ends-so_far n j i')
  ]

  module _ (R : Request → Type 0) (c : Client W)
      (asks : (k : String) (d : Client W)
        → Asked start list next c k d
        → Adds R d (list k d).1) where
    so_far-Adds :
        (n : ℕ) (k : String) (i : Iteration T (Client W))
        → Asked start list next c k i.world
        → Adds R c i.world
        → Adds R c (so_far fetch wants n k i).world
    unfolding so_far page_step
    so_far-Adds zero k i f h = h
    so_far-Adds (suc n) k i f h =
        let r = list k i.world in
        let moved : Adds R c (world_of (page_of k i r)) =
          rw (world-page k i r) (Adds-trans h (asks k i.world f)) in
        elim (Next-cases (page_of k i r)) [
          | inl (i', e) ↦ rw (e, so_far) (rw e at moved)
          | inr (j, i', e) ↦
              let (p, got, at) = next-page k j i i' r e in
              let left : i'.world ≡ r.1 = sym (ap world_of e) ∙ world-page k i r in
              rw (e, so_far)
                (so_far-Adds n j i' (Asked.then_next k j i.world i'.world p f got at left)
                  (rw e at moved))
        ]

    pub all_pages-Adds :
        (n : ℕ)
        → AddsIn R c
            (all_pages start list items next wants n c)
            (pages_so_far start list items next wants n c)
    unfolding all_pages pages_so_far
    all_pages-Adds n = (
      ends-so_far n start (iteration c),
      so_far-Adds n start (iteration c) (Asked.first start c refl refl) (Adds-nothing c c refl),
    )
