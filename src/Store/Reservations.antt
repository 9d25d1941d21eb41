-- ===== src/Store/Reservations.antt =====
-- The reservation repository: internal/infra/database/repository/reservation.go.
use marketplace_simulator_pr.Common.{
  ℕ, ◌+◌, Bool, true, false, not, List, [], ◌∷◌, ◌++◌, ltb, ◌==◌, if◌then◌else◌, select, contains,
}
use marketplace_simulator_pr.Errors.{plain, lit}
use marketplace_simulator_pr.Models.{Reservation}
use marketplace_simulator_pr.Store.World.{
  ProductRow, World, Platform, M, ◌>>=◌, pure, fail, wrapped, query, exec,
}

-- `GetByIds`. Like `GetBySkus` it does not look at `rows.Err()`.
unfoldable pub get_by_ids : Platform → List ℕ → M (List Reservation)
get_by_ids p ids =
    wrapped "ReservationPgxRepository.GetByIds"
      (do (rows, _) ← query p (λ t. select (λ r. contains r.id ids) t.reservations); pure rows)

-- `GetExpired`
unfoldable pub get_expired : Platform → ℕ → M (List Reservation)
get_expired p cutoff =
    wrapped "ReservationPgxRepository.GetExpired" (do
      (rows, _) ← query p (λ t. select (λ r. ltb r.created_at cutoff) t.reservations)
      pure rows)

abbrev pub has_product : ℕ → List ProductRow → Bool
has_product sku [] = false
has_product sku (r ∷ rows) = if sku == r.sku then true else has_product sku rows

-- The row that `INSERT … RETURNING` makes; an identity that was drawn stays drawn.
abbrev pub new_reservation : ℕ → ℕ → World → Reservation
new_reservation sku count w = record {
  id = w.next_id;
  sku = sku;
  count = count;
  created_at = w.now;
}

abbrev pub add_reservation : ℕ → ℕ → World → Reservation × World
add_reservation sku count w =
    let r = new_reservation sku count w in
    (
      r,
      record w {
        tables = record w.tables { reservations = w.reservations ++ r ∷ [] };
        next_id = w.next_id + 1;
      },
    )

-- `Insert`; the column `sku` references `products`.
unfoldable pub insert_reservation : Platform → ℕ → ℕ → M Reservation
insert_reservation p sku count = wrapped "ReservationPgxTxRepository.Insert" (λ w.
    if has_product sku w.products
    then exec p (add_reservation sku count) w
    else fail (plain (lit "violates foreign key constraint" ∷ [])) w)

abbrev pub drop_reservations : List ℕ → World → Unit {0} × World
drop_reservations ids w = (
  tt,
  record w {
    tables = record w.tables {
      reservations = select (λ r. not (contains r.id ids)) w.reservations;
    };
  },
)

-- `DeleteByIds`. How many rows went away is not looked at.
unfoldable pub delete_by_ids : Platform → List ℕ → M (Unit {0})
delete_by_ids p ids =
    wrapped "ReservationPgxTxRepository.DeleteByIds" (exec p (drop_reservations ids))
