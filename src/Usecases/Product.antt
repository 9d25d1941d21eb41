-- ===== src/Usecases/Product.antt =====
-- internal/usecases/product: get_product.go, increase_count.go and helpers.go.
pub mod Increase
pub mod Increased
use marketplace_simulator_pr.Common.{
  ℕ, Option, none, some, List, [], ◌∷◌, Map, map, Bool, contains, if◌then◌else◌,
}
use marketplace_simulator_pr.Errors.{Error, Result, ok, err, product_not_found, wrap_err, wrap}
use marketplace_simulator_pr.Models.{Product, NewEvent, add32}
use marketplace_simulator_pr.Events.{Headers}
use marketplace_simulator_pr.Store.World.{
  World, Platform, M, ◌>>=◌, ◌>>◌, pure, fail, lift, wrapped,
}
use marketplace_simulator_pr.Store.Products.{update}
use marketplace_simulator_pr.Store.Products.Rows.{skus_of}
use marketplace_simulator_pr.Store.Transactor.{in_transaction}
use marketplace_simulator_pr.Usecases.Repository.{
  ReadProductRepository, modify, plan_events, map_values, create_events, create_updates,
}

pub record UpdateCount : Type 0 where
  pub sku : ℕ
  pub delta : ℕ

abbrev pub update_skus : List UpdateCount → List ℕ
update_skus [] = []
update_skus (u ∷ us) = u.sku ∷ update_skus us

-- `GetProductUseCase.Execute`. What it tests after the product is found has no effect.
unfoldable pub get_product : ReadProductRepository → ℕ → Option ℕ → M Product
get_product repo sku tx = do
  found ← wrapped "productRepository.Execute" (repo.get_by_sku sku tx)
  elim found [ none ↦ fail (product_not_found sku) | some product ↦ pure product ]

-- The loop of `validateProductsExist` that looks for each product.
unfoldable pub all_exist : List ℕ → List Product → Result (List Product)
all_exist [] existing = ok existing
all_exist (sku ∷ skus) existing =
    let rest = all_exist skus existing in
    if contains sku (skus_of existing) then rest else err (product_not_found sku)

-- `validateProductsExist`
unfoldable pub validate_products_exist : ReadProductRepository → List UpdateCount → M (List Product)
unfolding all_exist
validate_products_exist repo products =
    wrapped "validateProductsExist" (repo.get_by_skus (update_skus products)) >>= λ existing.
    lift (all_exist (update_skus products) existing)

abbrev pub add_count : ℕ → Product → Product
add_count delta x = record x { count = add32 x.count delta }

-- `existingProductsMap[p.Sku].Count += p.Delta`
unfoldable pub increase_all : List UpdateCount → List Product → List Product
increase_all [] xs = xs
increase_all (u ∷ us) xs = increase_all us (modify u.sku (add_count u.delta) xs)

-- The closure that runs in the transaction.
unfoldable pub increase_tx :
    Platform → List UpdateCount → List Product → List NewEvent → M (Unit {0})
increase_tx p products increased events = do
  wrapped "Execute" (update p (map_values p increased))
  create_events p events
  create_updates p (update_skus products)

-- The products to write, and the records.
unfoldable pub increase_plan :
    Platform → Headers → List UpdateCount → List Product → Result (List Product × List NewEvent)
unfolding increase_all
increase_plan p headers products existing =
    plan_events p headers "Execute" existing (increase_all products existing)

unfoldable pub increase_commit :
    Platform → List UpdateCount → List Product × List NewEvent → M (Unit {0})
increase_commit p products (increased, events) =
    in_transaction p (increase_tx p products increased events)

unfoldable pub increase_with : Platform → Headers → List UpdateCount → List Product → M (Unit {0})
increase_with p headers products existing =
    lift (increase_plan p headers products existing) >>= increase_commit p products

-- `IncreaseCountUseCase.Execute`
unfoldable pub increase_count :
    Platform → ReadProductRepository → Headers → List UpdateCount → M (Unit {0})
increase_count p repo headers products =
    wrapped "Execute" (validate_products_exist repo products) >>= increase_with p headers products
