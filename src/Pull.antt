-- ===== src/Pull.antt =====
-- main.py and worker.py: events that the service fetches from Loki, Sentry and Langfuse, and the digest of
-- Telegram.
pub mod Radar
pub mod Entries
pub mod RadarPull
pub mod Sentry
pub mod Langfuse
pub mod Digest
pub mod Digests
pub mod Attempts
pub mod Cursors
pub mod Totals
pub mod Frame
pub mod Once
