-- ===== src/Parties.antt =====
-- parties.go: a party and its members, and the requests of the service. Its loops are in Parties/Watch
-- and Parties/Waiting.
pub mod Requests
pub mod Service
pub mod Keys
pub mod Watch
pub mod Log
pub mod Reports
pub mod Waiting
pub mod Examples
use ggscale_go.Prelude.{ℕ, Bool, String, List, [], ◌∷◌, Option, none, some, if◌then◌else◌}
use ggscale_go.Prelude.Int.{ℤ, eq_ℤ}
use ggscale_go.Errors.{Bytes}
use ggscale_go.Transport.{Out}

pub record PartySettings : Type 0 where
  pub mode : String
  pub fleet_id : ℤ
  pub region : String
  pub game_mode : String
  pub min_count : ℤ
  pub max_count : ℤ
  pub count_multiple : ℤ
  pub allow_cross_region : Bool
  pub query : String

pub record PartyMember : Type 0 where
  pub ticket_id : ℤ
  pub player_id : ℤ
  pub ready_version : ℤ
  pub string_properties : List (String × String)
  -- numbers by their texts
  pub numeric_properties : List (String × String)
  pub attributes : Bytes
  pub joined_at : ℕ
  pub last_seen_at : ℕ
  pub disconnect_deadline : ℕ

pub record Party : Type 0 where
  pub id : ℤ
  pub project_id : ℤ
  pub leader_id : ℤ
  pub state : String
  pub version : ℤ
  pub roster_version : ℤ
  pub settings : PartySettings
  pub max_members : ℤ
  pub current_queue_entry_id : ℤ
  pub last_match_id : String
  pub members : List PartyMember

-- (PartyMember).Ready
unfoldable pub ready : PartyMember → Party → Bool
ready m p = eq_ℤ m.ready_version p.roster_version

-- The loop of (*Party).Member
unfoldable pub member_of : List PartyMember → ℤ → Option PartyMember
member_of [] player = none
member_of (m ∷ ms) player =
    let rest = member_of ms player in if eq_ℤ m.player_id player then some m else rest

-- (*Party).Member
unfoldable pub member : Party → ℤ → Option PartyMember
unfolding member_of
member p player = member_of p.members player

pub record PartyCode : Type 0 where
  pub id : ℤ
  pub code : String
  pub expires_at : ℕ
  pub party_version : ℤ

pub record PartyInvite : Type 0 where
  pub id : ℤ
  pub party_id : ℤ
  pub party_version : ℤ
  pub target_id : ℤ
  pub expires_at : ℕ

-- Maps are listed by their keys, numbers by their texts.
pub record PartyProperties : Type 0 where
  pub string_properties : List (String × String)
  pub numeric_properties : List (String × String)
  pub attributes : Bytes

-- PartyInviteEvent and PartyChangedEvent of events.go
pub record PartyInviteEvent : Type 0 where
  pub invite_id : ℤ
  pub party_id : ℤ
  pub from_player_id : ℤ

pub record PartyChangedEvent : Type 0 where
  pub party_id : ℤ
  pub version : ℤ
  pub state : String

-- PartyIdle, PartyQueued and PartyMatched
abbrev pub party_idle : String
party_idle = "idle"

abbrev pub party_queued : String
party_queued = "queued"

abbrev pub party_matched : String
party_matched = "matched"
