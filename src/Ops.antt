-- ===== src/Ops.antt =====
-- main.py: the endpoints that watch and steer the service: queues, alerts, service levels, the
-- dead-letter queue, readiness, and the signatures of webhooks.
pub mod Guards
pub mod Sla
pub mod Queues
pub mod Alerts
pub mod DeadLetters
pub mod Integration
pub mod Readiness
pub mod Signatures
pub mod Incidents
pub mod Counts
pub mod Escalated
