-- ===== src/Examples.antt =====
-- Concrete runs of the modelled code.
pub mod Codec
pub mod Pricing
pub mod Worker
pub mod Ownership
pub mod Delivery
pub mod Outbox
pub mod Publishers
pub mod Rfq
pub mod Curve
pub mod Routing
pub mod Bootstrap
pub mod Notification
pub mod Updates
