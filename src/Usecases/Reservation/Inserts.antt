-- ===== src/Usecases/Reservation/Inserts.antt =====
-- The loop of `Reserve` that inserts the reservations, when it succeeds.
use marketplace_simulator_pr.Common.{
  ℕ, suc, ◌+◌, ◌≡◌, refl, false, List, [], ◌∷◌, ◌++◌, some, arith, length, Map, insert, lookup,
  lookup-insert, All, Distinct, contains,
}
use mathlib.Core.List.{append-nil, append_assoc}
use marketplace_simulator_pr.Errors.{ok}
use marketplace_simulator_pr.Models.{Reservation}
use marketplace_simulator_pr.Store.World.{World, Platform, wrapped, >>=-ok, wrapped-ok}
use marketplace_simulator_pr.Store.Reservations.{insert_reservation, new_reservation}
use marketplace_simulator_pr.Usecases.Reservation.Reserve.{ReserveItem, item_skus, insert_all}

-- The rows that are added at time `now`, when the identity sequence stands at `next`.
unfoldable pub new_reservations : ℕ → ℕ → List ReserveItem → List Reservation
new_reservations now next [] = []
new_reservations now next (i ∷ is) =
    record { id = next; sku = i.sku; count = i.delta; created_at = now }
    ∷ new_reservations now (next + 1) is

unfoldable pub number_items : ℕ → List ReserveItem → Map ℕ → Map ℕ
number_items next [] ids = ids
number_items next (i ∷ is) ids = number_items (next + 1) is (insert i.sku next ids)

abbrev pub after_inserts : List ReserveItem → World → World
after_inserts is w = record w {
  tables = record w.tables { reservations = w.reservations ++ new_reservations w.now w.next_id is };
  next_id = w.next_id + length is;
  calls = w.calls + length is;
}

one_more : (a n : ℕ) → a + 1 + n ≡ a + suc n
one_more a n = omega arith

insert_reservation-ok :
    (p : Platform) (sku count : ℕ) (w w' : World) (r : Reservation)
    → insert_reservation p sku count w ≡ (ok r, w')
    → (r ≡ new_reservation sku count w)
      × (w' ≡ record w {
        tables = record w.tables {
          reservations = w.reservations ++ new_reservation sku count w ∷ [];
        };
        next_id = w.next_id + 1;
        calls = w.calls + 1;
      })
unfolding insert_reservation
insert_reservation-ok p sku count w w' r h = ground arith

pub insert_all-ok :
    (p : Platform) (is : List ReserveItem) (ids ids' : Map ℕ) (w w' : World)
    → insert_all p is ids w ≡ (ok ids', w')
    → (ids' ≡ number_items w.next_id is ids) × (w' ≡ after_inserts is w)
unfolding insert_all number_items new_reservations
insert_all-ok p [] ids ids' w w' h = (ground arith, rw append-nil (ground arith))
insert_all-ok p (i ∷ is) ids ids' w w' h =
    let (r, w₁, first, rest) =
      >>=-ok (wrapped "Execute" (insert_reservation p i.sku i.delta))
        (λ r. insert_all p is (insert i.sku r.id ids)) w h in
    let (er, e₁) =
      insert_reservation-ok p i.sku i.delta w w₁ r
        (wrapped-ok _ (insert_reservation p i.sku i.delta) w first) in
    let (ei, e₂) = insert_all-ok p is (insert i.sku r.id ids) ids' w₁ w' rest in
    (
      rw (ei, e₁, er),
      rw (e₂, e₁, append_assoc, one_more w.next_id (length is), one_more w.calls (length is)),
    )

lookup-number_items :
    (k next : ℕ) (is : List ReserveItem) (ids : Map ℕ)
    → contains k (item_skus is) ≡ false
    → lookup k (number_items next is ids) ≡ lookup k ids
unfolding number_items
lookup-number_items k next [] ids h = refl
lookup-number_items k next (i ∷ is) ids h = ground (
  arith,
  lookup-number_items k (next + 1) is (insert i.sku next ids),
  lookup-insert k i.sku next ids,
)

-- For items with distinct SKUs the answer names each new reservation under its SKU.
pub number_items-All :
    (now next : ℕ) (is : List ReserveItem) (ids : Map ℕ)
    → Distinct (item_skus is)
    → All (λ r. lookup r.sku (number_items next is ids) ≡ some r.id) (new_reservations now next is)
unfolding number_items new_reservations
number_items-All now next [] ids d = tt
number_items-All now next (i ∷ is) ids d = (
  ground (
    arith,
    lookup-number_items i.sku (next + 1) is (insert i.sku next ids),
    lookup-insert i.sku i.sku next ids,
  ),
  number_items-All now (next + 1) is (insert i.sku next ids) d.1,
)
