-- ===== src/Usecases.antt =====
-- The use cases: internal/usecases.
pub mod Repository
pub mod Pointers
pub mod Outboxes
pub mod Reads
pub mod Atomic
pub mod Skus
pub mod Product
pub mod Reservation
pub mod KeptSkus
pub mod Told
pub mod Built
