-- ===== src/Usecases/Reservation/Reserve.antt =====
-- `ReserveUseCase.Execute`: internal/usecases/reservation/reserve.go.
use marketplace_simulator_pr.Common.{ℕ, ◌%◌, none, some, List, [], ◌∷◌, Map, insert, if◌then◌else◌}
use marketplace_simulator_pr.Common.Int.{ℤ, pos, negsuc, ◌-ℤ◌, ltb_ℤ}
use marketplace_simulator_pr.Errors.{Result, ok, err, product_not_found, insufficient_product}
use marketplace_simulator_pr.Models.{Product, NewEvent, add32, u32_mod}
use marketplace_simulator_pr.Events.{Headers}
use marketplace_simulator_pr.Events
use marketplace_simulator_pr.Store.World.{Platform, M, ◌>>=◌, ◌>>◌, pure, lift, wrapped}
use marketplace_simulator_pr.Store.Products.{update}
use marketplace_simulator_pr.Store.Reservations.{insert_reservation}
use marketplace_simulator_pr.Store.Transactor.{in_transaction}
use marketplace_simulator_pr.Usecases.Repository.{
  ReadProductRepository, pointee, modify, plan_events, create_events, create_updates,
}

pub record ReserveItem : Type 0 where
  pub sku : ℕ
  pub delta : ℕ

abbrev pub item_skus : List ReserveItem → List ℕ
item_skus [] = []
item_skus (i ∷ is) = i.sku ∷ item_skus is

-- `int64(p.Count) - int64(p.ReservedCount)`
unfoldable pub available : Product → ℤ
available x = pos x.count -ℤ pos x.reserved_count

-- `have`, as the error tells it: the conversion to `uint32` wraps.
unfoldable pub have_count : Product → ℕ
unfolding available
have_count x = elim (available x) [ pos n ↦ n % u32_mod | negsuc _ ↦ 0 ]

abbrev pub add_reserved : ℕ → Product → Product
add_reserved delta x = record x { reserved_count = add32 x.reserved_count delta }

-- One round of the loop over the items.
unfoldable pub reserve_item : ReserveItem → List Product → Result (List Product)
unfolding available have_count
reserve_item item xs = elim (pointee item.sku xs) [
  | none ↦ err (product_not_found item.sku)
  | some x ↦
      if ltb_ℤ (available x) (pos item.delta)
      then err (insufficient_product item.sku (have_count x) item.delta)
      else ok (modify item.sku (add_reserved item.delta) xs)
]

unfoldable pub reserve_items : List ReserveItem → List Product → Result (List Product)
unfolding reserve_item
reserve_items [] xs = ok xs
reserve_items (item ∷ items) xs = Events.◌>>=◌ (reserve_item item xs) (reserve_items items)

-- The loop that inserts the reservations, with `reservationIds` so far.
unfoldable pub insert_all : Platform → List ReserveItem → Map ℕ → M (Map ℕ)
insert_all p [] ids = pure ids
insert_all p (item ∷ items) ids = do
  r ← wrapped "Execute" (insert_reservation p item.sku item.delta)
  insert_all p items (insert item.sku r.id ids)

-- The closure that runs in the transaction.
unfoldable pub reserve_tx : Platform → List ReserveItem → List Product → List NewEvent → M (Map ℕ)
reserve_tx p items reserved events = do
  wrapped "Execute" (update p reserved)
  ids ← insert_all p items []
  create_events p events
  create_updates p (item_skus items)
  pure ids

-- What `Execute` computes from the products that it read: the products to write, and the records.
unfoldable pub reserve_plan :
    Platform → Headers → List ReserveItem → List Product → Result (List Product × List NewEvent)
unfolding reserve_items
reserve_plan p headers items products = elim (reserve_items items products) [
  | ok reserved ↦ plan_events p headers "ReserveUseCase.Execute" products reserved
  | err e ↦ err e
]

unfoldable pub reserve_commit :
    Platform → List ReserveItem → List Product × List NewEvent → M (Map ℕ)
reserve_commit p items (reserved, events) =
    wrapped "ReserveUseCase.Execute" (in_transaction p (reserve_tx p items reserved events))

unfoldable pub reserve_with : Platform → Headers → List ReserveItem → List Product → M (Map ℕ)
reserve_with p headers items products =
    lift (reserve_plan p headers items products) >>= reserve_commit p items

-- `ReserveUseCase.Execute`
unfoldable pub reserve : Platform → ReadProductRepository → Headers → List ReserveItem → M (Map ℕ)
reserve p repo headers items =
    wrapped "ReserveUseCase.Execute" (repo.get_by_skus (item_skus items))
    >>= reserve_with p headers items
