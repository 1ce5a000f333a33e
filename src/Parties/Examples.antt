-- ===== src/Parties/Examples.antt =====
-- The theorems on parties.go, at a server whose party has a new version at each request.
use ggscale_go.Prelude.{
  ℕ, ◌+◌, ◌≡◌, refl, true, false, String, List, [], ◌∷◌, Option, none, some, arith,
}
use ggscale_go.Prelude.Int.{ℤ, pos}
use ggscale_go.Errors.{Bytes, GoError, Sentinel, errors_is}
use ggscale_go.Transport.{Result, ok, err}
use ggscale_go.Client.{
  Client, call_protected, refresh_if_needed, send_refreshing, attach_session, no_session,
}
use ggscale_go.Client.Examples.{logged_in, background}
use ggscale_go.Matchmaker.{get_ticket}
use ggscale_go.Matchmaker.Wait.{Event, message, tick, closed}
use ggscale_go.Matchmaker.Examples.{match_env, codec}
use ggscale_go.Parties.{Party}
use ggscale_go.Parties.Requests.{get_request}
use ggscale_go.Parties.Service.{queue_party, rematch_party}
use ggscale_go.Parties.Keys.{UsesKey, parties-UsesKey}
use ggscale_go.Parties.Watch.{WatchCodec, Callback}
use ggscale_go.Parties.Watch.Run.{Dial, watch}
use ggscale_go.Parties.Reports.{log_of, Ended, watch-Ended}
use ggscale_go.Parties.Waiting.{Awaited, await, party_wait, awaited_result}
use ggscale_go.Parties.Waiting.Outcome.{ResultOf, party_wait-Result}
use ggscale_go.Parties.Waiting.Forgetting.{await_all, await-forgets}

abbrev a_party : String → ℕ → Party
a_party state version = record {
  id = pos 5;
  project_id = pos 1;
  leader_id = pos 7;
  state = state;
  version = pos version;
  roster_version = pos 1;
  settings = record {
    mode = "match_only";
    fleet_id = pos 0;
    region = "";
    game_mode = "duel";
    min_count = pos 2;
    max_count = pos 2;
    count_multiple = pos 1;
    allow_cross_region = false;
    query = "";
  };
  max_members = pos 4;
  current_queue_entry_id = pos 0;
  last_match_id = "m1";
  members =
      record {
        ticket_id = pos 5;
        player_id = pos 7;
        ready_version = pos 1;
        string_properties = [];
        numeric_properties = [];
        attributes = [];
        joined_at = 0;
        last_seen_at = 0;
        disconnect_deadline = 0;
      }
      ∷ [];
}

abbrev served : String → Bytes → Option Party
served state [] = none
served state (n ∷ ns) = some (a_party state (n + 1))

abbrev watch_codec : String → WatchCodec
watch_codec state = record {
  tickets = codec;
  party = record { wanted = true; zero_value = a_party "" 0; unmarshal = served state };
  invite_event = λ b. some (record { invite_id = pos 1; party_id = pos 5; from_player_id = pos 2 });
  changed_event = λ b. some (record { party_id = pos 5; version = pos 9; state = "idle" });
}

abbrev dial_works : Dial ℕ
dial_works c = (none, c)

-- A callback that never fails.
abbrev quiet : Callback ℕ ℕ
quiet ev (n, c) = (ok tt, (n + 1, c))

abbrev events : List Event
events =
    message (record { type = "party_changed"; payload = [] })
    ∷ tick
    ∷ message (record { type = "party_invite"; payload = [] })
    ∷ closed
    ∷ tick
    ∷ []

watch-Ended_example : Ended (
    log_of
      (watch match_env (watch_codec "idle") background quiet (pos 5) dial_works events 0 logged_in))
watch-Ended_example =
    watch-Ended match_env (watch_codec "idle") background quiet (pos 5) dial_works events 0
      logged_in

never_fails :
    (x : GoError) → (dial_works logged_in).0 ≡ some x → errors_is x Sentinel.watch_done ≡ false
never_fails x e = ground (arith, e)

party_wait-Result_example :
    ResultOf
      (awaited_result (
        party_wait match_env
          (watch_codec "matched")
          background
          (pos 5)
          dial_works
          events
          logged_in))
      (party_wait match_env (watch_codec "matched") background (pos 5) dial_works events logged_in)
party_wait-Result_example =
    party_wait-Result match_env (watch_codec "matched") background (pos 5) dial_works events
      logged_in never_fails

-- A party that is matched at the third request: the ticket is read, and WaitForMatch returns.
abbrev waited : Option (Result (Option ℤ))
waited =
    elim (awaited_result (
      party_wait match_env (watch_codec "matched") background (pos 5) dial_works events
        logged_in)) [
          | none ↦ none
          | some r ↦ elim r [
            | err e ↦ some (err e)
            | ok o ↦ some (ok (elim o [ none ↦ none | some m ↦ some m.ticket_id ]))
          ]
        ]

is_matched : waited ≡ some (ok (some (pos 5)))
unfolding awaited_result party_wait call_protected refresh_if_needed send_refreshing attach_session
    get_ticket get_request await errors_is
is_matched = refl

abbrev logged_out : Client ℕ
logged_out = record logged_in { session = none }

abbrev queued : Awaited
queued = record { result = none; queued_ticket = pos 5 }

read_fails : get_ticket match_env codec background (pos 5) logged_out ≡ (err no_session, logged_out)
unfolding get_ticket call_protected refresh_if_needed attach_session
read_fails = refl

await-forgets_example :
    await_all match_env
      (watch_codec "idle")
      background
      (pos 7)
      (a_party "idle" 3 ∷ a_party "idle" 4 ∷ [])
      (queued, logged_out)
    ≡ (ok tt, (record queued { queued_ticket = pos 0 }, logged_out))
await-forgets_example =
    await-forgets match_env (watch_codec "idle") background (pos 7) (a_party "idle" 3)
      (a_party "idle" 4 ∷ []) queued logged_out logged_out no_session (refl, (refl, tt)) refl
      read_fails

parties-UsesKey_example :
    UsesKey match_env "r1" logged_in
      (queue_party match_env background (watch_codec "queued").party (pos 5) (pos 3) "" logged_in).1
    × UsesKey match_env "r1" logged_in
        (rematch_party match_env background
          (watch_codec "queued").party
          (pos 5)
          (pos 3)
          "m1"
          ""
          logged_in).1
parties-UsesKey_example =
    parties-UsesKey match_env background (watch_codec "queued").party (λ w. refl) (pos 5) (pos 3)
      "m1" "" logged_in
