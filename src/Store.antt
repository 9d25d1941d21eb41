-- ===== src/Store.antt =====
-- The store: PostgreSQL with the repositories of internal/infra/database, and what surrounds it.
pub mod World
pub mod Products
pub mod Reservations
pub mod Outbox
pub mod Transactor
