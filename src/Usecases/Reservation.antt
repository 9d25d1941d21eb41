-- ===== src/Usecases/Reservation.antt =====
-- internal/usecases/reservation: reserve.go, release.go and confirm.go.
pub mod Reserve
pub mod Items
pub mod Inserts
pub mod Reserving
pub mod Reported
pub mod Commits
pub mod Settle
pub mod Ending
pub mod Sums
pub mod Settled
pub mod Confirmed
pub mod Released
