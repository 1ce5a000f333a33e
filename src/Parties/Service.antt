-- ===== src/Parties/Service.antt =====
-- The methods of PartiesService in parties.go but for Watch and WaitForMatch.
use ggscale_go.Prelude.{Bool, String, List, if◌then◌else◌}
use ggscale_go.Prelude.Int.{ℤ}
use ggscale_go.Prelude.Text.{is_empty}
use ggscale_go.Transport.{Request, Out, no_out, Context}
use ggscale_go.Client.{Env, M, call_protected}
use ggscale_go.Matchmaker.Criteria.{MatchRequest}
use ggscale_go.Parties.{Party, PartyCode, PartyInvite, PartyProperties}
use ggscale_go.Parties.Requests.{
  create_request, current_request, get_request, update_request, disband_request, heartbeat_request,
  join_request, leave_request, ready_request, kick_request, create_code_request,
  revoke_code_request, invite_friend_request, list_invites_request, accept_invite_request,
  decline_invite_request, queue_request, cancel_queue_request, rematch_request,
}

module _ {W : Type 0} (env : Env W) (ctx : Context) where
  -- newRequestID as idempotencyHeader calls it, for an empty key alone
  abbrev pub with_fresh : {A : Type 0} → String → (String → M W A) → M W A
  with_fresh key k c =
      if is_empty key
      then (let (fresh, w) = env.fresh_id c.world in k fresh (record c { world = w }))
      else k "" c

  abbrev pub create_party_code : Out PartyCode → ℤ → ℤ → ℤ → M W PartyCode
  create_party_code out id version max_uses =
      call_protected env out ctx (create_code_request id version max_uses)

  abbrev pub invite_party_friend : Out PartyInvite → ℤ → ℤ → ℤ → M W PartyInvite
  invite_party_friend out id version player =
      call_protected env out ctx (invite_friend_request id version player)

  abbrev pub list_party_invites : Out (List PartyInvite) → M W (List PartyInvite)
  list_party_invites out = call_protected env out ctx list_invites_request

  abbrev pub decline_party_invite : ℤ → ℤ → M W (Unit {0})
  decline_party_invite invite version =
      call_protected env no_out ctx (decline_invite_request invite version)

  -- The methods that return a party.
  module _ (out : Out Party) where
    -- (*PartiesService).party
    abbrev pub party_call : Request → M W Party
    party_call req = call_protected env out ctx req

    abbrev pub create_party : MatchRequest → M W Party
    create_party settings = party_call (create_request settings)

    abbrev pub current_party : M W Party
    current_party = party_call current_request

    abbrev pub get_party : ℤ → M W Party
    get_party id = party_call (get_request id)

    abbrev pub update_party : ℤ → ℤ → MatchRequest → M W Party
    update_party id version settings = party_call (update_request id version settings)

    abbrev pub disband_party : ℤ → ℤ → M W Party
    disband_party id version = party_call (disband_request id version)

    abbrev pub heartbeat_party : ℤ → ℤ → M W Party
    heartbeat_party id version = party_call (heartbeat_request id version)

    abbrev pub join_party : String → M W Party
    join_party code = party_call (join_request code)

    abbrev pub leave_party : ℤ → ℤ → M W Party
    leave_party id version = party_call (leave_request id version)

    abbrev pub set_party_ready : ℤ → ℤ → Bool → PartyProperties → M W Party
    set_party_ready id version is_ready props = party_call (ready_request id version is_ready props)

    abbrev pub kick_member : ℤ → ℤ → ℤ → M W Party
    kick_member id version player = party_call (kick_request id version player)

    abbrev pub revoke_party_code : ℤ → ℤ → ℤ → M W Party
    revoke_party_code id version code = party_call (revoke_code_request id version code)

    abbrev pub accept_party_invite : ℤ → ℤ → M W Party
    accept_party_invite invite version = party_call (accept_invite_request invite version)

    abbrev pub queue_party : ℤ → ℤ → String → M W Party
    queue_party id version key =
        with_fresh key (λ fresh. party_call (queue_request fresh id version key))

    abbrev pub cancel_party_queue : ℤ → ℤ → M W Party
    cancel_party_queue id version = party_call (cancel_queue_request id version)

    abbrev pub rematch_party : ℤ → ℤ → String → String → M W Party
    rematch_party id version last_match key =
        with_fresh key (λ fresh. party_call (rematch_request fresh id version last_match key))
