-- ===== src/Usecases/Product/Increase.antt =====
-- What `IncreaseCount` promises when it fails.
use marketplace_simulator_pr.Common.{◌≡◌, List}
use marketplace_simulator_pr.Errors.{Error, err}
use marketplace_simulator_pr.Models.{Product}
use marketplace_simulator_pr.Events.{Headers}
use marketplace_simulator_pr.Store.World.{World, Platform, wrapped, lift}
use marketplace_simulator_pr.Usecases.Repository.{ReadProductRepository}
use marketplace_simulator_pr.Usecases.Atomic.{
  IsReadOnly, IsAtomic, ReadsOnly, lift-IsReadOnly, wrapped-IsReadOnly, bind-IsReadOnly,
  bind-IsAtomic, in_transaction-IsAtomic,
}
use marketplace_simulator_pr.Usecases.Product.{
  UpdateCount, update_skus, all_exist, validate_products_exist, increase_tx, increase_plan,
  increase_commit, increase_with, increase_count,
}

validate_products_exist-IsReadOnly :
    (repo : ReadProductRepository) (products : List UpdateCount)
    → ReadsOnly repo
    → IsReadOnly (validate_products_exist repo products)
unfolding validate_products_exist
validate_products_exist-IsReadOnly repo products reads =
    let skus = update_skus products in
    bind-IsReadOnly (wrapped "validateProductsExist" (repo.get_by_skus skus))
      (λ existing. lift (all_exist skus existing))
      (wrapped-IsReadOnly "validateProductsExist" (repo.get_by_skus skus) (reads.by_skus skus))
      λ existing. lift-IsReadOnly (all_exist skus existing)

increase_with-IsAtomic :
    (p : Platform) (headers : Headers) (products : List UpdateCount) (existing : List Product)
    → IsAtomic (increase_with p headers products existing)
unfolding increase_with increase_commit
increase_with-IsAtomic p headers products existing =
    bind-IsAtomic (lift (increase_plan p headers products existing)) (increase_commit p products)
      (lift-IsReadOnly (increase_plan p headers products existing))
      λ (increased, events). in_transaction-IsAtomic p (increase_tx p products increased events)

-- An increase that fails leaves every table as it was, wherever it failed, over any repository that
-- only reads.
pub increase_count_atomic :
    (p : Platform) (repo : ReadProductRepository) (headers : Headers) (products : List UpdateCount)
    (w : World) (e : Error)
    → ReadsOnly repo
    → (increase_count p repo headers products w).0 ≡ err e
    → (increase_count p repo headers products w).1.tables ≡ w.tables
unfolding increase_count
increase_count_atomic p repo headers products w e reads h =
    bind-IsAtomic (wrapped "Execute" (validate_products_exist repo products))
      (increase_with p headers products)
      (wrapped-IsReadOnly "Execute" (validate_products_exist repo products)
        (validate_products_exist-IsReadOnly repo products reads))
      (increase_with-IsAtomic p headers products) w e h
