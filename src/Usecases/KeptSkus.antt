-- ===== src/Usecases/KeptSkus.antt =====
-- Each use case, over a repository that only reads, keeps the SKUs of the table of products.
use marketplace_simulator_pr.Common.{ℕ, refl, List, [], ◌∷◌, Map, keys, insert, arith}
use marketplace_simulator_pr.Models.{Product, Reservation, NewEvent}
use marketplace_simulator_pr.Events.{Headers}
use marketplace_simulator_pr.Store.World.{Platform, lift, wrapped, pure, ◌>>=◌, ◌>>◌}
use marketplace_simulator_pr.Store.Products.{update}
use marketplace_simulator_pr.Store.Reservations.{get_by_ids, insert_reservation, delete_by_ids}
use marketplace_simulator_pr.Usecases.Repository.{
  ReadProductRepository, map_values, create_events, create_updates,
}
use marketplace_simulator_pr.Usecases.Atomic.{ReadsOnly}
use marketplace_simulator_pr.Usecases.Skus.{
  KeepsSkus, IsReadOnly-KeepsSkus, bind-KeepsSkus, in_transaction-KeepsSkus, update-KeepsSkus,
  create_events-KeepsSkus, create_updates-KeepsSkus, delete_by_ids-KeepsSkus,
  insert_reservation-KeepsSkus,
}
use marketplace_simulator_pr.Usecases.Product.{
  UpdateCount, update_skus, all_exist, validate_products_exist, increase_tx, increase_plan,
  increase_commit, increase_with, increase_count,
}
use marketplace_simulator_pr.Usecases.Reservation.Reserve.{
  ReserveItem, item_skus, insert_all, reserve_tx, reserve_plan, reserve_commit, reserve_with,
  reserve,
}
use marketplace_simulator_pr.Usecases.Reservation.Settle.{
  add_sums, settle_all, confirm_one, release_plan, release_tx, release_commit, release_with,
  release_found, release_any, release, confirm_tx, confirm_with, confirm_found, confirm_any,
  confirm,
}
use marketplace_simulator_pr.Store.Products.Rows.{skus_of}

module _ (p : Platform) where
  insert_all-KeepsSkus :
      (items : List ReserveItem) (ids : Map ℕ) → KeepsSkus (insert_all p items ids)
  unfolding insert_all
  insert_all-KeepsSkus [] ids = λ w. refl
  insert_all-KeepsSkus (i ∷ is) ids =
      bind-KeepsSkus (wrapped "Execute" (insert_reservation p i.sku i.delta))
        (λ r. insert_all p is (insert i.sku r.id ids))
        (insert_reservation-KeepsSkus p i.sku i.delta)
        λ r. insert_all-KeepsSkus is (insert i.sku r.id ids)

  reserve_tx-KeepsSkus :
      (items : List ReserveItem) (reserved : List Product) (events : List NewEvent)
      → KeepsSkus (reserve_tx p items reserved events)
  unfolding reserve_tx
  reserve_tx-KeepsSkus items reserved events =
      bind-KeepsSkus (wrapped "Execute" (update p reserved))
        (λ _. insert_all p items [] >>= λ ids.
          create_events p events >> (create_updates p (item_skus items) >> pure ids))
        (update-KeepsSkus p reserved)
        λ _.
          bind-KeepsSkus (insert_all p items [])
            (λ ids. create_events p events >> (create_updates p (item_skus items) >> pure ids))
            (insert_all-KeepsSkus items [])
            λ ids.
              bind-KeepsSkus (create_events p events)
                (λ _. create_updates p (item_skus items) >> pure ids)
                (create_events-KeepsSkus p events)
                λ _.
                  bind-KeepsSkus (create_updates p (item_skus items)) (λ _. pure ids)
                    (create_updates-KeepsSkus p (item_skus items)) λ _ w. refl

  -- What `Release` and `Increase` have in common after the update.
  told-KeepsSkus :
      (events : List NewEvent) (skus : List ℕ)
      → KeepsSkus (create_events p events >> create_updates p skus)
  told-KeepsSkus events skus =
      bind-KeepsSkus (create_events p events) (λ _. create_updates p skus)
        (create_events-KeepsSkus p events) λ _. create_updates-KeepsSkus p skus

  increase_tx-KeepsSkus :
      (us : List UpdateCount) (increased : List Product) (events : List NewEvent)
      → KeepsSkus (increase_tx p us increased events)
  unfolding increase_tx
  increase_tx-KeepsSkus us increased events =
      bind-KeepsSkus (wrapped "Execute" (update p (map_values p increased)))
        (λ _. create_events p events >> create_updates p (update_skus us))
        (update-KeepsSkus p (map_values p increased)) λ _. told-KeepsSkus events (update_skus us)

  release_tx-KeepsSkus :
      (ids skus : List ℕ) (settled : List Product) (events : List NewEvent)
      → KeepsSkus (release_tx p ids skus settled events)
  unfolding release_tx
  release_tx-KeepsSkus ids skus settled events =
      bind-KeepsSkus (wrapped "Execute" (update p (map_values p settled)))
        (λ _.
          wrapped "Execute" (delete_by_ids p ids)
          >> (create_events p events >> create_updates p skus))
        (update-KeepsSkus p (map_values p settled))
        λ _.
          bind-KeepsSkus (wrapped "Execute" (delete_by_ids p ids))
            (λ _. create_events p events >> create_updates p skus) (delete_by_ids-KeepsSkus p ids)
            λ _. told-KeepsSkus events skus

  confirm_tx-KeepsSkus :
      (ids skus : List ℕ) (settled : List Product) → KeepsSkus (confirm_tx p ids skus settled)
  unfolding confirm_tx
  confirm_tx-KeepsSkus ids skus settled =
      bind-KeepsSkus (wrapped "Execute" (update p (map_values p settled)))
        (λ _. wrapped "Execute" (delete_by_ids p ids) >> create_updates p skus)
        (update-KeepsSkus p (map_values p settled))
        λ _.
          bind-KeepsSkus (wrapped "Execute" (delete_by_ids p ids)) (λ _. create_updates p skus)
            (delete_by_ids-KeepsSkus p ids) λ _. create_updates-KeepsSkus p skus

module _ (p : Platform) (repo : ReadProductRepository) (headers : Headers)
    (reads : ReadsOnly repo) where
  read-KeepsSkus : (skus : List ℕ) → KeepsSkus (repo.get_by_skus skus)
  read-KeepsSkus skus = IsReadOnly-KeepsSkus (repo.get_by_skus skus) (reads.by_skus skus)

  pub reserve-KeepsSkus : (items : List ReserveItem) → KeepsSkus (reserve p repo headers items)
  unfolding reserve reserve_with reserve_commit
  reserve-KeepsSkus items =
      bind-KeepsSkus (wrapped "ReserveUseCase.Execute" (repo.get_by_skus (item_skus items)))
        (reserve_with p headers items) (read-KeepsSkus (item_skus items))
        λ products.
          bind-KeepsSkus (lift (reserve_plan p headers items products)) (reserve_commit p items)
            (λ w. refl)
            λ (reserved, events).
              in_transaction-KeepsSkus p (reserve_tx p items reserved events)
                (reserve_tx-KeepsSkus p items reserved events)

  pub increase_count-KeepsSkus :
      (us : List UpdateCount) → KeepsSkus (increase_count p repo headers us)
  unfolding increase_count validate_products_exist increase_with increase_commit
  increase_count-KeepsSkus us =
      bind-KeepsSkus (wrapped "Execute" (validate_products_exist repo us))
        (increase_with p headers us)
        (bind-KeepsSkus (wrapped "validateProductsExist" (repo.get_by_skus (update_skus us)))
          (λ existing. lift (all_exist (update_skus us) existing)) (read-KeepsSkus (update_skus us))
          λ existing w. refl)
        λ existing.
          bind-KeepsSkus (lift (increase_plan p headers us existing)) (increase_commit p us)
            (λ w. refl)
            λ (increased, events).
              in_transaction-KeepsSkus p (increase_tx p us increased events)
                (increase_tx-KeepsSkus p us increased events)

  found-KeepsSkus : (ids : List ℕ) → KeepsSkus (get_by_ids p ids)
  unfolding get_by_ids
  found-KeepsSkus ids w = ground arith

  release_found-KeepsSkus :
      (ids : List ℕ) (sums : Map ℕ) → KeepsSkus (release_found p repo headers ids sums)
  unfolding release_found release_with release_commit
  release_found-KeepsSkus ids sums =
      let skus = p.visit 2 (keys sums) in
      bind-KeepsSkus (wrapped "ReleaseUseCase.Execute" (repo.get_by_skus skus))
        (release_with p headers ids sums) (read-KeepsSkus skus)
        λ products.
          bind-KeepsSkus (lift (release_plan p headers sums products)) (release_commit p ids sums)
            (λ w. refl)
            λ (released, events).
              in_transaction-KeepsSkus p (release_tx p ids (p.visit 3 (keys sums)) released events)
                (release_tx-KeepsSkus p ids (p.visit 3 (keys sums)) released events)

  release_any-KeepsSkus :
      (ids : List ℕ) (rs : List Reservation) → KeepsSkus (release_any p repo headers ids rs)
  unfolding release_any
  release_any-KeepsSkus ids [] = λ w. refl
  release_any-KeepsSkus ids (r ∷ rs) = release_found-KeepsSkus ids (add_sums (r ∷ rs) [])

  pub release-KeepsSkus : (ids : List ℕ) → KeepsSkus (release p repo headers ids)
  unfolding release
  release-KeepsSkus ids =
      bind-KeepsSkus (wrapped "ReleaseUseCase.Execute" (get_by_ids p ids))
        (release_any p repo headers ids) (found-KeepsSkus ids) (release_any-KeepsSkus ids)

  confirm_found-KeepsSkus :
      (ids : List ℕ) (sums : Map ℕ) → KeepsSkus (confirm_found p repo ids sums)
  unfolding confirm_found confirm_with
  confirm_found-KeepsSkus ids sums =
      let skus = p.visit 2 (keys sums) in
      bind-KeepsSkus (wrapped "ConfirmUseCase.Execute" (repo.get_by_skus skus))
        (confirm_with p ids sums) (read-KeepsSkus skus)
        λ products.
          let settled = settle_all confirm_one sums (skus_of products) products in
          in_transaction-KeepsSkus p (confirm_tx p ids (p.visit 3 (keys sums)) settled)
            (confirm_tx-KeepsSkus p ids (p.visit 3 (keys sums)) settled)

  confirm_any-KeepsSkus :
      (ids : List ℕ) (rs : List Reservation) → KeepsSkus (confirm_any p repo ids rs)
  unfolding confirm_any
  confirm_any-KeepsSkus ids [] = λ w. refl
  confirm_any-KeepsSkus ids (r ∷ rs) = confirm_found-KeepsSkus ids (add_sums (r ∷ rs) [])

  pub confirm-KeepsSkus : (ids : List ℕ) → KeepsSkus (confirm p repo ids)
  unfolding confirm
  confirm-KeepsSkus ids =
      bind-KeepsSkus (wrapped "ConfirmUseCase.Execute" (get_by_ids p ids)) (confirm_any p repo ids)
        (found-KeepsSkus ids) (confirm_any-KeepsSkus ids)
