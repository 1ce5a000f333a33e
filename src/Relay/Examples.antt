-- ===== src/Relay/Examples.antt =====
-- The theorems on relay.go, at a server that gives credentials for a minute, and then none.
use ggscale_go.Prelude.{
  ℕ, ◌*◌, ◌<◌, ◌≤◌, ◌≡◌, refl, true, List, [], ◌∷◌, Option, none, some, leb, arith, if◌then◌else◌,
}
use ggscale_go.Prelude.Int.{ℤ, pos, quot64, mul64}
use ggscale_go.Errors.{Bytes}
use ggscale_go.Transport.{Out}
use ggscale_go.StdNet.Policy.{second}
use ggscale_go.Client.{call_protected, refresh_if_needed, send_refreshing, attach_session}
use ggscale_go.Client.Examples.{logged_in, background}
use ggscale_go.Matchmaker.Examples.{match_env}
use ggscale_go.Relay.{
  Credentials, RelayOption, with_match, Surroundings, Kept, again, stopped, fresh_wait, keep_fresh,
}
use ggscale_go.Relay.Waits.{fresh_wait-early}
use ggscale_go.Relay.Fresh.{Keeps, Keeps-keep_fresh}

abbrev minute : Credentials
minute = record {
  username = "u";
  password = "p";
  ttl = pos 60;
  realm = "r";
  urls = [];
  stun_urls = [];
  region = "";
}

abbrev answers : Bytes → Option Credentials
answers [] = none
answers (n ∷ ns) = if leb 2 n then none else some minute

abbrev credentials_out : Out Credentials
credentials_out = record { wanted = true; zero_value = minute; unmarshal = answers }

abbrev around : Surroundings ℕ
around = record { on_credentials = λ creds c. c; pause = λ ctx d c. (none, c) }

abbrev match_only : List RelayOption
match_only = with_match "m1" ∷ []

Keeps-keep_fresh_example :
    Keeps 2 (keep_fresh match_env credentials_out around background match_only 2 logged_in)
Keeps-keep_fresh_example =
    Keeps-keep_fresh match_env credentials_out around background match_only 2 logged_in

abbrev waits_of : {W : Type 0} → Kept W → List ℤ
waits_of (again s) = s.waits
waits_of (stopped e s) = s.waits

two_waits :
    waits_of (keep_fresh match_env credentials_out around background match_only 3 logged_in)
    ≡ pos (48 * second) ∷ pos (48 * second) ∷ []
unfolding keep_fresh call_protected refresh_if_needed send_refreshing attach_session quot64 mul64
two_waits = refl

fresh_wait-early_example :
    (w : ℕ) × (fresh_wait (pos 60) ≡ pos w)
    × (w * 10 ≡ 60 * second * 8)
    × (second ≤ w)
    × (w < 60 * second)
fresh_wait-early_example = fresh_wait-early 60 (omega arith) (omega arith)
