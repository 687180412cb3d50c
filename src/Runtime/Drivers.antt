-- ===== src/Runtime/Drivers.antt =====
-- The drivers behind the `Runtime` interface.
pub mod Local
pub mod Capacity
pub mod Docker
pub mod Kubernetes
