-- ===== src/Usecases/Reservation/Settle.antt =====
-- `ReleaseUseCase.Execute` and `ConfirmUseCase.Execute`: internal/usecases/reservation/release.go
-- and confirm.go, which end reservations.
use marketplace_simulator_pr.Common.{ℕ, none, some, List, [], ◌∷◌, Map, lookup, insert, keys}
use marketplace_simulator_pr.Errors.{Result}
use marketplace_simulator_pr.Models.{Product, Reservation, NewEvent, add32, sub32}
use marketplace_simulator_pr.Events.{Headers}
use marketplace_simulator_pr.Store.World.{Platform, M, ◌>>=◌, ◌>>◌, pure, lift, wrapped}
use marketplace_simulator_pr.Store.Products.{update}
use marketplace_simulator_pr.Store.Products.Rows.{skus_of}
use marketplace_simulator_pr.Store.Reservations.{get_by_ids, delete_by_ids}
use marketplace_simulator_pr.Store.Transactor.{in_transaction}
use marketplace_simulator_pr.Usecases.Repository.{
  ReadProductRepository, modify, plan_events, map_values, create_events, create_updates,
}

-- A missing key of a Go map reads as zero.
abbrev pub sum_of : ℕ → Map ℕ → ℕ
sum_of sku sums = elim (lookup sku sums) [ none ↦ 0 | some n ↦ n ]

-- `reservationSumsBySku[r.Sku] += r.Count`
unfoldable pub add_sums : List Reservation → Map ℕ → Map ℕ
add_sums [] sums = sums
add_sums (r ∷ rs) sums = add_sums rs (insert r.sku (add32 (sum_of r.sku sums) r.count) sums)

abbrev pub release_one : ℕ → Product → Product
release_one delta x = record x { reserved_count = sub32 x.reserved_count delta }

abbrev pub confirm_one : ℕ → Product → Product
confirm_one delta x = record x {
  count = sub32 x.count delta;
  reserved_count = sub32 x.reserved_count delta;
}

-- `for _, p := range products { … productMap[p.Sku] … }`: the SKUs are those of the slice.
unfoldable pub settle_all : (ℕ → Product → Product) → Map ℕ → List ℕ → List Product → List Product
settle_all change sums [] xs = xs
settle_all change sums (k ∷ ks) xs =
    settle_all change sums ks (modify k (change (sum_of k sums)) xs)

-- The closure of `Release` that runs in the transaction.
unfoldable pub release_tx : Platform → List ℕ → List ℕ → List Product → List NewEvent → M (Unit {0})
release_tx p ids skus settled events = do
  wrapped "Execute" (update p (map_values p settled))
  wrapped "Execute" (delete_by_ids p ids)
  create_events p events
  create_updates p skus

-- The products to write, and the records.
unfoldable pub release_plan :
    Platform → Headers → Map ℕ → List Product → Result (List Product × List NewEvent)
unfolding settle_all
release_plan p headers sums products =
    plan_events p headers "ReleaseUseCase.Execute" products
      (settle_all release_one sums (skus_of products) products)

unfoldable pub release_commit :
    Platform → List ℕ → Map ℕ → List Product × List NewEvent → M (Unit {0})
release_commit p ids sums (released, events) =
    in_transaction p (release_tx p ids (p.visit 3 (keys sums)) released events)

unfoldable pub release_with : Platform → Headers → List ℕ → Map ℕ → List Product → M (Unit {0})
release_with p headers ids sums products =
    lift (release_plan p headers sums products) >>= release_commit p ids sums

-- `ReleaseUseCase.Execute` from the point where the reservations are read.
unfoldable pub release_found :
    Platform → ReadProductRepository → Headers → List ℕ → Map ℕ → M (Unit {0})
release_found p repo headers ids sums =
    wrapped "ReleaseUseCase.Execute" (repo.get_by_skus (p.visit 2 (keys sums)))
    >>= release_with p headers ids sums

unfoldable pub release_any :
    Platform → ReadProductRepository → Headers → List ℕ → List Reservation → M (Unit {0})
release_any p repo headers ids [] = pure tt
release_any p repo headers ids (r ∷ rs) = release_found p repo headers ids (add_sums (r ∷ rs) [])

-- `ReleaseUseCase.Execute`
unfoldable pub release : Platform → ReadProductRepository → Headers → List ℕ → M (Unit {0})
release p repo headers ids =
    wrapped "ReleaseUseCase.Execute" (get_by_ids p ids) >>= release_any p repo headers ids

-- The closure of `Confirm` that runs in the transaction. It tells no event.
unfoldable pub confirm_tx : Platform → List ℕ → List ℕ → List Product → M (Unit {0})
confirm_tx p ids skus settled = do
  wrapped "Execute" (update p (map_values p settled))
  wrapped "Execute" (delete_by_ids p ids)
  create_updates p skus

unfoldable pub confirm_with : Platform → List ℕ → Map ℕ → List Product → M (Unit {0})
unfolding settle_all
confirm_with p ids sums products = in_transaction p (
    confirm_tx p ids (p.visit 3 (keys sums))
      (settle_all confirm_one sums (skus_of products) products))

-- `ConfirmUseCase.Execute` from the point where the reservations are read.
unfoldable pub confirm_found : Platform → ReadProductRepository → List ℕ → Map ℕ → M (Unit {0})
confirm_found p repo ids sums =
    wrapped "ConfirmUseCase.Execute" (repo.get_by_skus (p.visit 2 (keys sums)))
    >>= confirm_with p ids sums

unfoldable pub confirm_any :
    Platform → ReadProductRepository → List ℕ → List Reservation → M (Unit {0})
confirm_any p repo ids [] = pure tt
confirm_any p repo ids (r ∷ rs) = confirm_found p repo ids (add_sums (r ∷ rs) [])

-- `ConfirmUseCase.Execute`
unfoldable pub confirm : Platform → ReadProductRepository → List ℕ → M (Unit {0})
confirm p repo ids = wrapped "ConfirmUseCase.Execute" (get_by_ids p ids) >>= confirm_any p repo ids
