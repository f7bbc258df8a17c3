-- ===== src/Tests.antt =====
-- The tests: runs of the definitions on small inputs, and the theorems at work on such inputs.
pub mod Pipe
pub mod Wire
pub mod Bounds
pub mod Broker
pub mod Client
pub mod Delivery
pub mod Memory
pub mod Mailman
pub mod Messages
pub mod Reaching
pub mod Redis
pub mod Service
pub mod ServiceOnMemory
pub mod Web
