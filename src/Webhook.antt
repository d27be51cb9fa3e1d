-- ===== src/Webhook.antt =====
-- internal/webhook/webhook.go: the client of the relay. Its children are the identity, a session, the
-- debouncer of pokes and the reconnecting loop.
pub mod Debounce
pub mod Session
pub mod Identity
pub mod Retry
