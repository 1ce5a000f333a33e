-- ===== src/Replay/Examples.antt =====
-- The kinds of requests, at a heartbeat of a party over the default transport.
