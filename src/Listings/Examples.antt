-- ===== src/Listings/Examples.antt =====
-- The theorem on the All methods, at empty lists.
use ggscale_go.Prelude.{true, [], none}
use ggscale_go.Prelude.Int.{pos}
use ggscale_go.Transport.{Out}
use ggscale_go.Client.Examples.{client_env, logged_in, background}
use ggscale_go.Storage.{ListOptions, list_objects_request, all_objects}
use ggscale_go.Storage.Examples.{page_out}
use ggscale_go.Leaderboards.{
  LeaderboardPeriodsOptions, LeaderboardPeriodsPage, periods_request, all_periods,
}
use ggscale_go.Friends.{FriendsListOptions, FriendsPage, list_friends_request, all_friends}
use ggscale_go.GameSessions.{
  GameSessionListOptions, GameSessionPage, list_sessions_request, all_sessions,
}
use ggscale_go.Server.{storage_list_request, storage_all}
use ggscale_go.Listings.{AsksPages, AsksKeyedPages, all_methods-Ask}

abbrev options : ListOptions
options = record { key_prefix = "save/"; limit = pos 10; cursor = "" }

abbrev friend_options : FriendsListOptions
friend_options = record { status = "pending"; limit = pos 0; cursor = "f1" }

abbrev session_options : GameSessionListOptions
session_options = record { title_id = "t"; limit = pos 5; cursor = "" }

abbrev period_options : LeaderboardPeriodsOptions
period_options = record { limit = pos 5; cursor = "" }

abbrev friend_out : Out FriendsPage
friend_out = record {
  wanted = true;
  zero_value = record { items = []; next_cursor = "" };
  unmarshal = λ b. none;
}

abbrev session_out : Out GameSessionPage
session_out = record {
  wanted = true;
  zero_value = record { items = []; next_cursor = "" };
  unmarshal = λ b. none;
}

abbrev period_out : Out LeaderboardPeriodsPage
period_out = record {
  wanted = true;
  zero_value = record {
    current_period = pos 1;
    reset_schedule = "";
    period_started_at = none;
    next_reset_at = none;
    periods = [];
    next_cursor = "";
  };
  unmarshal = λ b. none;
}

all_methods-Ask_example :
    AsksPages client_env background 3 logged_in
      (λ k. list_objects_request (record options { cursor = k }))
      page_out
      options.cursor
      (λ p. p.items)
      (λ p. p.next_cursor)
      (λ seen. true)
      (all_objects client_env background page_out options (λ seen. true) 3 logged_in)
    × AsksKeyedPages client_env background 3 logged_in
        (λ k. storage_list_request client_env (pos 7) (record options { cursor = k }))
        page_out
        options.cursor
        (λ p. p.items)
        (λ p. p.next_cursor)
        (λ seen. true)
        (storage_all client_env background page_out (pos 7) options (λ seen. true) 3 logged_in)
    × AsksPages client_env background 3 logged_in
        (λ k. periods_request (pos 4) (record period_options { cursor = k }))
        period_out
        period_options.cursor
        (λ p. p.periods)
        (λ p. p.next_cursor)
        (λ seen. true)
        (all_periods client_env background period_out
          (pos 4)
          period_options
          (λ seen. true)
          3
          logged_in)
    × AsksPages client_env background 3 logged_in
        (λ k. list_friends_request (record friend_options { cursor = k }))
        friend_out
        friend_options.cursor
        (λ p. p.items)
        (λ p. p.next_cursor)
        (λ seen. true)
        (all_friends client_env background friend_out friend_options (λ seen. true) 3 logged_in)
    × AsksPages client_env background 3 logged_in
        (λ k. list_sessions_request (record session_options { cursor = k }))
        session_out
        session_options.cursor
        (λ p. p.items)
        (λ p. p.next_cursor)
        (λ seen. true)
        (all_sessions client_env background session_out session_options (λ seen. true) 3 logged_in)
all_methods-Ask_example =
    all_methods-Ask client_env background 3 logged_in (pos 4) (pos 7) page_out options options
      period_out period_options friend_out friend_options session_out session_options (λ seen. true)
      (λ seen. true) (λ seen. true) (λ seen. true) (λ seen. true)
