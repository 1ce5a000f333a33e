-- ===== src/Leaderboards.antt =====
-- leaderboards.go: boards, scores and reset periods.
use ggscale_go.Prelude.{ℕ, Bool, String, List, [], ◌∷◌, Option}
use ggscale_go.Prelude.Int.{ℤ}
use ggscale_go.Prelude.Text.{◌+s◌, format_int}
use ggscale_go.Errors.{Bytes}
use ggscale_go.Transport.{Json, object, field, int, done, Request, request, Out, no_out, Context}
use ggscale_go.Transport.Build.{Query, with_body, with_param, with_positive, omit_raw}
use ggscale_go.Client.{Env, M, call_protected}
use ggscale_go.Pagination.Listing.{all_pages, Listing}

pub record Entry : Type 0 where
  pub player_id : ℤ
  pub score : ℤ
  pub rank : ℤ
  pub display_name : String
  pub metadata : Bytes

pub record AroundMeResult : Type 0 where
  pub entries : List Entry
  pub self_rank : ℤ

-- submitScoreRequest
pub record ScoreRequest : Type 0 where
  pub score : ℤ
  pub metadata : Bytes

abbrev pub ScoreOption : Type 0
ScoreOption = ScoreRequest → ScoreRequest

-- WithScoreMetadata
unfoldable pub with_score_metadata : Bytes → ScoreOption
with_score_metadata metadata req = record req { metadata = metadata }

-- The loop over the options of a submission.
unfoldable pub with_options : List ScoreOption → ScoreRequest → ScoreRequest
with_options [] req = req
with_options (o ∷ os) req = with_options os (o req)

pub record LeaderboardInfo : Type 0 where
  pub id : ℤ
  pub name : String
  pub sort_order : String
  pub score_operator : String
  pub client_submissions : Bool
  pub reset_schedule : String
  pub current_period : ℤ
  pub attempt_cap : Option ℤ
  pub score_min : Option ℤ
  pub score_max : Option ℤ
  pub period_started_at : Option ℕ
  pub next_reset_at : Option ℕ
  pub metadata : Bytes

pub record LeaderboardPeriod : Type 0 where
  pub period : ℤ
  pub started_at : ℕ
  pub ended_at : ℕ

pub record LeaderboardPeriodsOptions : Type 0 where
  pub limit : ℤ
  pub cursor : String

pub record LeaderboardPeriodsPage : Type 0 where
  pub current_period : ℤ
  pub reset_schedule : String
  pub period_started_at : Option ℕ
  pub next_reset_at : Option ℕ
  pub periods : List LeaderboardPeriod
  pub next_cursor : String

-- leaderboardPath
unfoldable pub leaderboard_path : ℤ → String
unfolding format_int
leaderboard_path id = "/v1/leaderboards/" +s format_int id

abbrev score_body : ScoreRequest → Json
score_body r = object (field "score" (int r.score) (omit_raw "metadata" r.metadata done))

unfoldable pub list_leaderboards_request : Request
list_leaderboards_request = request "listLeaderboards" "GET" "/v1/leaderboards"

unfoldable pub submit_request : ℤ → ℤ → List ScoreOption → Request
unfolding leaderboard_path with_options
submit_request id score opts =
    with_body (request "submitScore" "POST" (leaderboard_path id +s "/scores"))
      (score_body (with_options opts (record { score = score; metadata = [] })))

unfoldable pub top_request : ℤ → ℤ → Request
unfolding leaderboard_path
top_request id limit = record (request "leaderboardTop" "GET" (leaderboard_path id +s "/top")) {
  query = with_positive "limit" limit [];
}

unfoldable pub around_me_request : ℤ → ℤ → Request
unfolding leaderboard_path
around_me_request id radius =
    record (request "leaderboardAroundMe" "GET" (leaderboard_path id +s "/around-me")) {
      query = with_positive "radius" radius [];
    }

unfoldable pub friends_scores_request : ℤ → Request
unfolding leaderboard_path
friends_scores_request id = request "leaderboardFriends" "GET" (leaderboard_path id +s "/friends")

abbrev periods_query : LeaderboardPeriodsOptions → Query
periods_query o = with_param "cursor" o.cursor (with_positive "limit" o.limit [])

unfoldable pub periods_request : ℤ → LeaderboardPeriodsOptions → Request
unfolding leaderboard_path
periods_request id o =
    record (request "listLeaderboardPeriods" "GET" (leaderboard_path id +s "/periods")) {
      query = periods_query o;
    }

unfoldable pub period_top_request : ℤ → ℤ → ℤ → Request
unfolding leaderboard_path
period_top_request id period limit =
    record (request "leaderboardPeriodTop" "GET"
      (leaderboard_path id +s ("/periods/" +s (format_int period +s "/top")))) {
        query = with_positive "limit" limit [];
      }

-- A response that has one field is decoded as this field.
module _ {W : Type 0} (env : Env W) (ctx : Context) where
  -- List
  unfoldable pub list_leaderboards : Out (List LeaderboardInfo) → M W (List LeaderboardInfo)
  unfolding list_leaderboards_request
  list_leaderboards out = call_protected env out ctx list_leaderboards_request

  -- Submit
  unfoldable pub submit : ℤ → ℤ → List ScoreOption → M W (Unit {0})
  unfolding submit_request
  submit id score opts = call_protected env no_out ctx (submit_request id score opts)

  -- Top
  unfoldable pub top : Out (List Entry) → ℤ → ℤ → M W (List Entry)
  unfolding top_request
  top out id limit = call_protected env out ctx (top_request id limit)

  -- AroundMe
  unfoldable pub around_me : Out AroundMeResult → ℤ → ℤ → M W AroundMeResult
  unfolding around_me_request
  around_me out id radius = call_protected env out ctx (around_me_request id radius)

  -- Friends
  unfoldable pub friends_scores : Out (List Entry) → ℤ → M W (List Entry)
  unfolding friends_scores_request
  friends_scores out id = call_protected env out ctx (friends_scores_request id)

  -- Periods
  unfoldable pub periods :
      Out LeaderboardPeriodsPage → ℤ → LeaderboardPeriodsOptions → M W LeaderboardPeriodsPage
  unfolding periods_request
  periods out id o = call_protected env out ctx (periods_request id o)

  -- AllPeriods
  unfoldable pub all_periods :
      Out LeaderboardPeriodsPage → ℤ → LeaderboardPeriodsOptions → Listing LeaderboardPeriod W
  unfolding periods all_pages
  all_periods out id o =
      all_pages o.cursor (λ cursor. periods out id (record o { cursor = cursor })) (λ p. p.periods)
        (λ p. p.next_cursor)

  -- PeriodTop
  unfoldable pub period_top : Out (List Entry) → ℤ → ℤ → ℤ → M W (List Entry)
  unfolding period_top_request
  period_top out id period limit = call_protected env out ctx (period_top_request id period limit)
