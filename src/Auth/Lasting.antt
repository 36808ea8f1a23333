-- ===== src/Auth/Lasting.antt =====
-- proxy/src/token_authenticator.rs: the refresh thread over any number of turns, and what one renews.
