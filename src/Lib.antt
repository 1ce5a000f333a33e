-- ===== src/Lib.antt =====
-- The Go client of the ggscale API (package ggscale, at the repository's root): what it sends, when it
-- sends it again, and which session it holds.
--
-- Parts, and the files that model them:
-- * Errors (transport.go): Error with Is and ActiveTicketID, RequestError, the sentinels, and a chain of
--   Go errors as errors.Is and errors.As walk it. A net/http or TLS error is the record of what
--   errors.As finds in it.
-- * Transport (transport.go): Request, ResponseMetadata and the interface Transport; contexts by their
--   deadline and the time of the caller's cancellation.
-- * StdNet (transport_stdnet.go): the default transport. Policy has retryDefaults, retryDelay,
--   fullJitter, withCallTimeout and the tests that decide on a retry; Response has readResponseBody,
--   parseError and parseRetryAfter; Wire has buildRequest and the redirect check of client(); Attempt
--   has a round of the loop of Call, one function for each branch, over the record Run of its
--   variables; Call has the loop and the function around it.
-- * Url (package net/url): url.PathEscape over the UTF-8 of a text. Url/Escape reads a path back as a
--   server does, and Routes does so for the paths that hold a text of the caller's.
-- * Client (client.go, auth.go): the session, Login, SetSession, refreshUnderLock with its two callers,
--   and callProtected, as functions from a Client and the world to a result and the new Client.
--   A Client keeps the requests handed to the transport and the calls of OnSessionUpdate.
--   Client/New has NewClient. Client/Calls is the rule by which what holds of each call is shown of a
--   whole protected call: of the requests that it sends (Sent), of their number (Protected), and of how
--   often a write reaches the server through the default transport (Reach); Calls/Once is about a call
--   that no 401 answers.
-- * Auth (auth.go, anonymous.go): the operations of AuthService, the authenticators, and AnonymousAuth
--   over a store and a file.
-- * Pagination (pagination.go): cursorSequence, whose caller is a function of what it has seen; in
--   Listing the closure that the All methods give to it, and in Listings these methods together.
-- * Storage (storage.go), Leaderboards (leaderboards.go), Friends (friends.go, invites.go, presence.go),
--   GameSessions (game_sessions.go, and signals.go in its Signals), Players (players.go, profile.go,
--   remote_addrs.go, health.go): each method is a request, a function of its arguments, and a protected
--   call of it.
-- * Server (server.go, fleets.go): the methods of a trusted backend, with the checks of their arguments,
--   by the transport and the key of the client alone.
-- * Matchmaker (matchmaker.go): tickets, createTicketReplacingActive, in Criteria MatchRequest, and in
--   Wait the loop of WaitForMatch over the events that its select takes; in Peers ConnectP2P.
-- * Parties (parties.go, events.go): parties; in Requests and Service the methods with their requests
--   and bodies, in Keys the keys of Queue and Rematch; in Watch the handlers of partyWatch, in
--   Watch/Run its loop and Watch, in Waiting the callback of WaitForMatch. Watch/Invariant says what has
--   to be shown of the reports for an invariant of the whole run.
-- * Relay (relay.go): GetCredentials, and KeepFresh round by round.
-- * Realtime (realtime.go, realtime_options.go): a connection with its close; in Dial dialRealtime, in
--   Socket dialWebSocket and the tickets of browsers (realtime_dial.go, realtime_dial_js.go,
--   realtime_ticket.go), in Read the loops of ReadMessage and reconnect. Close by another goroutine is
--   an answer of the world after each read, wait and dial.
-- * Config (config.go): the remote configuration and its ETag.
-- * Replay lists the requests of all these parts by kind: reads, writes that may be repeated, and other
--   writes; Sound sets the kinds against requestIsReplayable and the default transport.
--
-- How it is modelled: int64 and time.Duration are integers with the wrap-around written out
-- (Prelude/Int), int counters that the code keeps positive are natural numbers, and times are
-- nanoseconds since the epoch. Everything outside of the package is a world that operations thread
-- through: the record Net of StdNet has net/http, timers, crypto/rand, encoding/json and the parsers of
-- net/http and strconv as functions of it, and Env of Client has a transport, a clock and request ids.
-- json.Unmarshal at one type is a function of bytes (Out), and json.Marshal one of a tree of the fields
-- of a struct; a response struct that has one field is decoded as this field. An url.Values is listed by
-- its names, in their order. Case folding of header names and origins is that of ASCII.
--
-- Loops: the loop of Call runs for as many rounds as the policy has attempts, and never comes to the
-- error behind it; the doubling loop of a delay runs once for each attempt before the current one.
-- cursorSequence takes a bound of the pages that it may ask for, and is proved to need no more than the
-- list has; the loops over a select run along the list of the events that they take.
-- ReadMessage and KeepFresh run for any number of rounds, and the loop of reconnect for the attempts
-- that its policy has left.
-- A mutex that is held from the first to the last line of a function makes the function one step.
--
-- A panic is no value: fullJitter asks crypto/rand.Int for a bound that overflows at the largest int64,
-- where it panics.
--
-- Not modelled: the texts of the Error methods, log sinks, hooks, the connection pool of net/http,
-- and the constant of version.go, which is written out where it is used.
pub mod Prelude
pub mod Errors
pub mod Transport
pub mod StdNet
pub mod Client
pub mod Auth
pub mod Pagination
pub mod Matchmaker
pub mod Parties
pub mod Relay
pub mod Realtime
pub mod Config
pub mod Url
pub mod Storage
pub mod Leaderboards
pub mod GameSessions
pub mod Players
pub mod Friends
pub mod Server
pub mod Listings
pub mod Routes
pub mod Replay
