-- ===== src/Grpc/Service.antt =====
-- The five methods of `GrpcService`.
use marketplace_simulator_pr.Common.{
  ℕ, String, Option, List, [], ◌∷◌, ltb, if◌then◌else◌, contains, Map, keys, entries_at,
}
use marketplace_simulator_pr.Errors.{Result, ok, err, status, invalid_argument, lit, dec, Message}
use marketplace_simulator_pr.Models.{Product, sub32}
use marketplace_simulator_pr.Events.{Headers}
use marketplace_simulator_pr.Store.World.{Platform, M, ◌>>=◌, pure, lift, wrapped}
use marketplace_simulator_pr.Usecases.Repository.{ReadProductRepository}
use marketplace_simulator_pr.Usecases.Product.{UpdateCount, get_product, increase_count}
use marketplace_simulator_pr.Usecases.Reservation.Reserve.{ReserveItem, reserve}
use marketplace_simulator_pr.Usecases.Reservation.Settle.{release, confirm}

-- `IncreaseProductCountBatch` and `ProductCountBatch` of the protocol.
pub record Stock : Type 0 where
  pub sku : ℕ
  pub count : ℕ

-- `GetProductResponse`
pub record ProductResponse : Type 0 where
  pub sku : ℕ
  pub name : String
  pub price : ℕ
  pub count : ℕ
  pub transaction_id : ℕ

-- `productToResponse`: the count that a client sees is what is left.
unfoldable pub product_to_response : Product → ProductResponse
unfolding sub32
product_to_response p = record {
  sku = p.sku;
  name = p.name;
  price = p.price;
  count = sub32 p.count p.reserved_count;
  transaction_id = p.transaction_id;
}

abbrev pub invalid {ℓ} : {A : Type ℓ} → Message → Result A
invalid m = err (status invalid_argument m)

-- The loop over `request.Products`, with `seenSkus` so far.
unfoldable pub check_stocks : List ℕ → List Stock → Result (List Stock)
check_stocks seen [] = ok []
check_stocks seen (s ∷ stocks) =
    let rest = check_stocks (s.sku ∷ seen) stocks in
    let kept : Result (List Stock) = elim rest [ ok done ↦ ok (s ∷ done) | err e ↦ err e ] in
    if ltb s.sku 1
    then invalid (lit "sku must be more than zero" ∷ [])
    else if contains s.sku seen
    then invalid (lit "duplicate sku " ∷ dec s.sku ∷ lit " in request" ∷ [])
    else kept

-- The checks of a request that names products.
unfoldable pub check_products : List Stock → Result (List Stock)
check_products [] = invalid (lit "products must not be empty" ∷ [])
check_products (s ∷ stocks) = check_stocks [] (s ∷ stocks)

abbrev pub to_updates : List Stock → List UpdateCount
to_updates [] = []
to_updates (s ∷ stocks) = record { sku = s.sku; delta = s.count } ∷ to_updates stocks

abbrev pub to_items : List Stock → List ReserveItem
to_items [] = []
to_items (s ∷ stocks) = record { sku = s.sku; delta = s.count } ∷ to_items stocks

-- The checks of a request that names reservations.
unfoldable pub check_ids : List ℕ → Result (List ℕ)
check_ids [] = invalid (lit "reservation_ids must not be empty" ∷ [])
check_ids (id ∷ ids) = ok (id ∷ ids)

module _ (p : Platform) (repo : ReadProductRepository) (headers : Headers) where
  -- `GetProduct`
  unfoldable pub get_product_method : ℕ → Option ℕ → M ProductResponse
  get_product_method sku tx =
      if ltb sku 1
      then lift (invalid (lit "sku must be more than zero" ∷ []))
      else wrapped "GrpcService.GetProduct" (get_product repo sku tx) >>= λ found.
          pure (product_to_response found)

  -- `IncreaseProductCount`
  unfoldable pub increase_method : List Stock → M (Unit {0})
  increase_method products = lift (check_products products) >>= λ stocks.
      wrapped "GrpcService.IncreaseProductCount" (increase_count p repo headers (to_updates stocks))

  -- `ReserveProduct`: the results are listed in the order of the map's range.
  unfoldable pub reserve_method : List Stock → M (Map ℕ)
  reserve_method products = lift (check_products products) >>= λ stocks.
      wrapped "GrpcService.ReserveProduct" (reserve p repo headers (to_items stocks)) >>= λ ids.
      pure (entries_at (p.visit 4 (keys ids)) ids)

  -- `ReleaseReservation`
  unfoldable pub release_method : List ℕ → M (Unit {0})
  release_method ids = lift (check_ids ids) >>= λ ids.
      wrapped "GrpcService.ReleaseReservation" (release p repo headers ids)

  -- `ConfirmReservation`
  unfoldable pub confirm_method : List ℕ → M (Unit {0})
  confirm_method ids =
      lift (check_ids ids) >>= λ ids. wrapped "GrpcService.ConfirmReservation" (confirm p repo ids)
