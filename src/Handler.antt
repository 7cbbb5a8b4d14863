-- ===== src/Handler.antt =====
-- internal/handler: the bounded state of the stateful routes, and the handlers of the routes.
pub mod Window
pub mod Dedup
pub mod Throttle
pub mod Shard
pub mod Alerts
pub mod Engagement
pub mod SocialGraph
pub mod Retraction
pub mod Unrouted
pub mod Content
