-- ===== src/Jobs/Expiry.antt =====
-- `ReservationExpiryJob`: internal/jobs/reservation_expiry.go.
use marketplace_simulator_pr.Common.{ℕ, ◌+◌, ◌-◌, List, [], ◌∷◌}
use marketplace_simulator_pr.Common.Int.{ℤ, pos, negsuc}
use marketplace_simulator_pr.Models.{Reservation}
use marketplace_simulator_pr.Events.{Headers}
use marketplace_simulator_pr.Store.World.{Platform, M, ◌>>=◌, pure, wrapped}
use marketplace_simulator_pr.Store.Reservations.{get_expired}
use marketplace_simulator_pr.Usecases.Repository.{ReadProductRepository}
use marketplace_simulator_pr.Usecases.Reservation.Settle.{release}

abbrev pub ids_of : List Reservation → List ℕ
ids_of [] = []
ids_of (r ∷ rs) = r.id ∷ ids_of rs

unfoldable pub release_expired :
    Platform → ReadProductRepository → Headers → List Reservation → M (Unit {0})
release_expired p repo headers [] = pure tt
release_expired p repo headers (r ∷ rs) = release p repo headers (ids_of (r ∷ rs))

-- `time.Now().Add(-ttl)`, in a time that starts with the first moment it can name.
abbrev pub cutoff_of : ℤ → ℕ → ℕ
cutoff_of (pos n) now = now - n
cutoff_of (negsuc n) now = now + n + 1

-- `tick`. The job hands the release use case a context of its own, and that gives the headers.
unfoldable pub tick_expiry : Platform → ReadProductRepository → Headers → ℤ → M (Unit {0})
unfolding release_expired
tick_expiry p repo headers ttl w =
    (wrapped "GetExpired" (get_expired p (cutoff_of ttl w.now)) >>= release_expired p repo headers)
      w
