-- ===== src/Listings.antt =====
-- The All methods of storage.go, leaderboards.go, friends.go, game_sessions.go and server.go together:
-- what they ask the server for.
pub mod Examples
use ggscale_go.Prelude.{ℕ, ◌≡◌, refl, Bool, String, List, Option, inl, inr}
use ggscale_go.Prelude.Int.{ℤ}
use ggscale_go.Transport.{Request, Out, Context}
use ggscale_go.Client.{Env, Client, M, send, call_protected}
use ggscale_go.Client.Sent.{Adds, Adds-map, Adds-send, Adds-call_protected, Sent}
use ggscale_go.Client.Calls.{id_of}
use ggscale_go.Pagination.{Yield, Iteration}
use ggscale_go.Pagination.Listing.{all_pages, pages_so_far}
use ggscale_go.Pagination.Cursors.{Asked, AddsIn, all_pages-Adds}
use ggscale_go.Storage.{
  StorageObjectMetadata, ListOptions, ObjectPage, list_objects_request, list_objects, all_objects,
}
use ggscale_go.Leaderboards.{
  LeaderboardPeriod, LeaderboardPeriodsOptions, LeaderboardPeriodsPage, periods_request, periods,
  all_periods,
}
use ggscale_go.Friends.{
  Friend, FriendsListOptions, FriendsPage, list_friends_request, list_friends, all_friends,
}
use ggscale_go.GameSessions.{
  PublicGameSession, GameSessionListOptions, GameSessionPage, list_sessions_request, list_sessions,
  all_sessions,
}
use ggscale_go.Server.{storage_list_request, storage_list, storage_all}

module _ {W : Type 0} (env : Env W) where
  module _ (ctx : Context) (n : ℕ) (c : Client W) where
    -- A request for a page at a cursor, and in a state, at which the loop asks for it, or a refresh on
    -- its way.
    abbrev pub PageOf :
        {P : Type 0}
        → String
        → (String → M W P)
        → (P → String)
        → (String → Request)
        → Request
        → Type 0
    PageOf start list next page_request r =
        (k : String) × (d : Client W) × Asked start list next c k d
        × Sent env (page_request k) (id_of env (page_request k) d) r

    -- The same of a list that needs no session.
    abbrev pub KeyedPageOf :
        {P : Type 0}
        → String
        → (String → M W P)
        → (P → String)
        → (String → Request)
        → Request
        → Type 0
    KeyedPageOf start list next page_request r =
        (k : String) × (d : Client W) × Asked start list next c k d × (r ≡ page_request k)

    -- What holds of a loop over an All method, by its first cursor, its pages and its List request.
    abbrev pub AsksPages :
        {T P : Type 0} (page_request : String → Request) (out : Out P) (start : String)
        (items : P → List T) (next : P → String) (wants : List (Yield T) → Bool)
        → Option (Iteration T (Client W))
        → Type 0
    AsksPages page_request out start items next wants x =
        let list : String → M W _ = λ k. call_protected env out ctx (page_request k) in
        AddsIn (PageOf start list next page_request) c x
          (pages_so_far start list items next wants n c)

    abbrev pub AsksKeyedPages :
        {T P : Type 0} (page_request : String → Request) (out : Out P) (start : String)
        (items : P → List T) (next : P → String) (wants : List (Yield T) → Bool)
        → Option (Iteration T (Client W))
        → Type 0
    AsksKeyedPages page_request out start items next wants x =
        let list : String → M W _ = λ k. send env out ctx (page_request k) in
        AddsIn (KeyedPageOf start list next page_request) c x
          (pages_so_far start list items next wants n c)

    protected_all :
        {T P : Type 0} (page_request : String → Request) (out : Out P) (start : String)
        (items : P → List T) (next : P → String) (wants : List (Yield T) → Bool)
        → AsksPages page_request out start items next wants (
            all_pages start (λ k. call_protected env out ctx (page_request k)) items next wants n c)
    protected_all page_request out start items next wants =
        let list : String → M W _ = λ k. call_protected env out ctx (page_request k) in
        let R = PageOf start list next page_request in
        all_pages-Adds start list items next wants R c
          (λ k d f.
            Adds-map R (λ r sent. (k, d, f, sent))
              (Adds-call_protected env out ctx (page_request k) d))
          n

    keyed_all :
        {T P : Type 0} (page_request : String → Request) (out : Out P) (start : String)
        (items : P → List T) (next : P → String) (wants : List (Yield T) → Bool)
        → AsksKeyedPages page_request out start items next wants
            (all_pages start (λ k. send env out ctx (page_request k)) items next wants n c)
    keyed_all page_request out start items next wants =
        let list : String → M W _ = λ k. send env out ctx (page_request k) in
        all_pages-Adds start list items next wants (KeyedPageOf start list next page_request) c
          (λ k d f. Adds-send env out ctx (page_request k) d (k, d, f, refl)) n

    -- However the caller loops over All, AllPeriods or StorageAll, and whatever the server answers: the
    -- loop has ended within a number of pages or goes on, and each request that it has made so far,
    -- refreshes of the session left aside, is the one of the List method with the caller's own board,
    -- player, filters and limit. Only its cursor moves: it is the caller's first one at first, and then
    -- the next cursor of the page that List has just returned in this loop. It is so for each of the
    -- five lists, those of players and the one of server.go, which makes no refreshes.
    pub all_methods-Ask :
        (board player : ℤ) (object_out : Out ObjectPage) (objects server_objects : ListOptions)
        (period_out : Out LeaderboardPeriodsPage) (period_options : LeaderboardPeriodsOptions)
        (friend_out : Out FriendsPage) (friends : FriendsListOptions)
        (session_out : Out GameSessionPage) (sessions : GameSessionListOptions)
        (w1 w2 : List (Yield StorageObjectMetadata) → Bool)
        (w3 : List (Yield LeaderboardPeriod) → Bool) (w4 : List (Yield Friend) → Bool)
        (w5 : List (Yield PublicGameSession) → Bool)
        → AsksPages
            (λ k. list_objects_request (record objects { cursor = k }))
            object_out
            objects.cursor
            (λ p. p.items)
            (λ p. p.next_cursor)
            w1
            (all_objects env ctx object_out objects w1 n c)
          × AsksKeyedPages
              (λ k. storage_list_request env player (record server_objects { cursor = k }))
              object_out
              server_objects.cursor
              (λ p. p.items)
              (λ p. p.next_cursor)
              w2
              (storage_all env ctx object_out player server_objects w2 n c)
          × AsksPages
              (λ k. periods_request board (record period_options { cursor = k }))
              period_out
              period_options.cursor
              (λ p. p.periods)
              (λ p. p.next_cursor)
              w3
              (all_periods env ctx period_out board period_options w3 n c)
          × AsksPages
              (λ k. list_friends_request (record friends { cursor = k }))
              friend_out
              friends.cursor
              (λ p. p.items)
              (λ p. p.next_cursor)
              w4
              (all_friends env ctx friend_out friends w4 n c)
          × AsksPages
              (λ k. list_sessions_request (record sessions { cursor = k }))
              session_out
              sessions.cursor
              (λ p. p.items)
              (λ p. p.next_cursor)
              w5
              (all_sessions env ctx session_out sessions w5 n c)
    unfolding all_objects list_objects storage_all storage_list all_periods periods all_friends
        list_friends all_sessions list_sessions
    all_methods-Ask board player object_out objects server_objects period_out period_options
          friend_out friends session_out sessions w1 w2 w3 w4 w5 =
        (
          protected_all (λ k. list_objects_request (record objects { cursor = k })) object_out
              objects.cursor (λ p. p.items) (λ p. p.next_cursor) w1,
          keyed_all (λ k. storage_list_request env player (record server_objects { cursor = k }))
              object_out server_objects.cursor (λ p. p.items) (λ p. p.next_cursor) w2,
          protected_all (λ k. periods_request board (record period_options { cursor = k }))
              period_out period_options.cursor (λ p. p.periods) (λ p. p.next_cursor) w3,
          protected_all (λ k. list_friends_request (record friends { cursor = k })) friend_out
              friends.cursor (λ p. p.items) (λ p. p.next_cursor) w4,
          protected_all (λ k. list_sessions_request (record sessions { cursor = k })) session_out
              sessions.cursor (λ p. p.items) (λ p. p.next_cursor) w5,
        )
