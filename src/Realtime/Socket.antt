-- ===== src/Realtime/Socket.antt =====
-- realtime_dial.go, realtime_dial_js.go and realtime_ticket.go: the headers of a handshake, and the
-- one-time ticket that a browser dials with. websocket.Dial is a parameter.
use ggscale_go.Prelude.{
  ℕ, ◌/◌, ◌%◌, ◌≡◌, refl, Bool, ◌||◌, String, List, [], ◌∷◌, ◌++◌, ◌==◌, if◌then◌else◌,
}
use ggscale_go.Prelude.Int.{ℤ, pos}
use ggscale_go.Prelude.Text.{◌+s◌, is_empty, equal_fold}
use ggscale_go.Transport.{Request, request, Result, ok, err, Out, Context}
use ggscale_go.StdNet.Wire.{Headers, set, user_agent}
use ggscale_go.Url.{is_alphanumeric, hex_digit, utf8, text}
use ggscale_go.Client.{Env, Client, M, call_protected}
use ggscale_go.Realtime.Dial.{Handshake, refused, Dialer}

pub record RealtimeTicket : Type 0 where
  pub ticket : String
  pub expires_in_seconds : ℤ

unfoldable pub create_realtime_ticket_request : Request
create_realtime_ticket_request = request "createRealtimeTicket" "POST" "/v1/ws/ticket"

-- url.QueryEscape
abbrev is_kept_in_query : ℕ → Bool
is_kept_in_query b = is_alphanumeric b || b == b'-' || b == b'_' || b == b'.' || b == b'~'

abbrev query_escape_byte : ℕ → List ℕ
query_escape_byte b =
    if b == b' '
    then b'+' ∷ []
    else if is_kept_in_query b
    then b ∷ []
    else b'%' ∷ hex_digit (b / 16) ∷ hex_digit (b % 16) ∷ []

query_escape_bytes : List ℕ → List ℕ
unfolding hex_digit
query_escape_bytes [] = []
query_escape_bytes (b ∷ bs) = query_escape_byte b ++ query_escape_bytes bs

unfoldable pub query_escape : String → String
unfolding query_escape_bytes utf8 text
query_escape s = text (query_escape_bytes (utf8 s))

-- realtimeTicketURL
unfoldable pub realtime_ticket_url : String → String → String
unfolding query_escape
realtime_ticket_url url ticket = url +s ("?ticket=" +s query_escape ticket)

-- The User-Agent of a handshake: that of a StdNetTransport, if it has one.
abbrev agent_of : String → String
agent_of own = if is_empty own then user_agent else own

-- The header of dialWebSocket, with the UserAgent of a StdNetTransport, or "" for another transport
unfoldable pub dial_headers : String → String → String → String → Headers
unfolding set equal_fold
dial_headers api_key token id agent = set "User-Agent" (agent_of agent) (
    set "X-Request-Id" id
      (set "X-Session-Token" token (set "Authorization" ("Bearer " +s api_key) [])))

module _ {W : Type 0} (env : Env W) where
  -- dialWebSocket, outside of a browser
  unfoldable pub dial_web_socket :
      (Context → String → Headers → W → Handshake × W)
      → String
      → Context
      → String
      → String
      → String
      → W
      → Handshake × W
  unfolding dial_headers
  dial_web_socket dial agent ctx url id token w =
      dial ctx url (dial_headers env.api_key token id agent) w

  -- A dialer with these handshakes.
  unfoldable pub native_dialer :
      (Context → String → Headers → W → Handshake × W) → String → Dialer W → Dialer W
  unfolding dial_web_socket
  native_dialer dial agent d = record d { handshake = dial_web_socket dial agent }

  module _ (ctx : Context) where
    -- CreateTicket of realtime_ticket.go
    unfoldable pub create_realtime_ticket : Out RealtimeTicket → M W RealtimeTicket
    unfolding create_realtime_ticket_request
    create_realtime_ticket out = call_protected env out ctx create_realtime_ticket_request

    abbrev dialed : Client W → Handshake × W → Handshake × Client W
    dialed c (h, w) = (h, record c { world = w })

    abbrev with_ticket :
        (Context → String → W → Handshake × W)
        → String
        → Result RealtimeTicket × Client W
        → Handshake × Client W
    with_ticket dial url (err e, c) = (refused 0 (pos 0) e, c)
    with_ticket dial url (ok t, c) = dialed c (dial ctx (realtime_ticket_url url t.ticket) c.world)

    -- dialWebSocket in a browser, which sends no headers
    unfoldable pub dial_in_browser :
        (Context → String → W → Handshake × W)
        → Out RealtimeTicket
        → String
        → Client W
        → Handshake × Client W
    unfolding create_realtime_ticket realtime_ticket_url
    dial_in_browser dial out url c = with_ticket dial url (create_realtime_ticket out c)

escaped_ticket : realtime_ticket_url "wss://h/v1/ws" "a b+/" ≡ "wss://h/v1/ws?ticket=a+b%2B%2F"
unfolding realtime_ticket_url
escaped_ticket = refl

native_headers :
    dial_headers "k" "t" "r1" ""
    ≡ ("Authorization", "Bearer k")
      ∷ ("X-Session-Token", "t")
      ∷ ("X-Request-Id", "r1")
      ∷ ("User-Agent", user_agent)
      ∷ []
unfolding dial_headers
native_headers = refl
