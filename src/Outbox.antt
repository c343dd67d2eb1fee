-- ===== src/Outbox.antt =====
-- internal/outbox: the relay that moves rows of the outbox onto the queue.
pub mod Config
pub mod Table
pub mod Relay
pub mod Fates
pub mod Safety
pub mod Delivery
pub mod Budget
pub mod Reachable
pub mod Order
