-- ===== src/Usecases/Reservation/Ending.antt =====
-- What `Release` and `Confirm` promise whatever happens: a call that fails changes nothing, and
-- one for reservations that are gone already succeeds and changes nothing.
use marketplace_simulator_pr.Common.{
  ℕ, ◌≡◌, refl, none, List, [], ◌∷◌, Map, arith, select, contains, keys,
}
use marketplace_simulator_pr.Errors.{Error, ok, err}
use marketplace_simulator_pr.Models.{Product, Reservation}
use marketplace_simulator_pr.Events.{Headers}
use marketplace_simulator_pr.Store.World.{World, Platform, pure, wrapped, lift, counted}
use marketplace_simulator_pr.Store.Reservations.{get_by_ids}
use marketplace_simulator_pr.Usecases.Repository.{ReadProductRepository}
use marketplace_simulator_pr.Usecases.Atomic.{
  IsReadOnly, IsAtomic, ReadsOnly, lift-IsReadOnly, wrapped-IsReadOnly, bind-IsAtomic,
  in_transaction-IsAtomic,
}
use marketplace_simulator_pr.Usecases.Reservation.Settle.{
  add_sums, release_plan, release_tx, release_commit, release_with, release_found, release_any,
  release, confirm_with, confirm_found, confirm_any, confirm,
}

get_by_ids-IsReadOnly : (p : Platform) (ids : List ℕ) → IsReadOnly (get_by_ids p ids)
unfolding get_by_ids
get_by_ids-IsReadOnly p ids w = ground arith

pure-IsAtomic : {A : Type 0} (a : A) → IsAtomic (pure a)
pure-IsAtomic a w e h = refl

module _ (p : Platform) (repo : ReadProductRepository) (headers : Headers) (ids : List ℕ)
    (reads : ReadsOnly repo) where
  release_with-IsAtomic :
      (sums : Map ℕ) (products : List Product) → IsAtomic (release_with p headers ids sums products)
  unfolding release_with release_commit
  release_with-IsAtomic sums products =
      bind-IsAtomic (lift (release_plan p headers sums products)) (release_commit p ids sums)
        (lift-IsReadOnly (release_plan p headers sums products))
        λ (released, events).
          in_transaction-IsAtomic p (release_tx p ids (p.visit 3 (keys sums)) released events)

  release_found-IsAtomic : (sums : Map ℕ) → IsAtomic (release_found p repo headers ids sums)
  unfolding release_found
  release_found-IsAtomic sums =
      let skus = p.visit 2 (keys sums) in
      bind-IsAtomic (wrapped "ReleaseUseCase.Execute" (repo.get_by_skus skus))
        (release_with p headers ids sums)
        (wrapped-IsReadOnly "ReleaseUseCase.Execute" (repo.get_by_skus skus) (reads.by_skus skus))
        (release_with-IsAtomic sums)

  release_any-IsAtomic : (rs : List Reservation) → IsAtomic (release_any p repo headers ids rs)
  unfolding release_any
  release_any-IsAtomic [] = pure-IsAtomic tt
  release_any-IsAtomic (r ∷ rs) = release_found-IsAtomic (add_sums (r ∷ rs) [])

  release-IsAtomic : IsAtomic (release p repo headers ids)
  unfolding release
  release-IsAtomic =
      bind-IsAtomic (wrapped "ReleaseUseCase.Execute" (get_by_ids p ids))
        (release_any p repo headers ids)
        (wrapped-IsReadOnly "ReleaseUseCase.Execute" (get_by_ids p ids)
          (get_by_ids-IsReadOnly p ids))
        release_any-IsAtomic

  confirm_found-IsAtomic : (sums : Map ℕ) → IsAtomic (confirm_found p repo ids sums)
  unfolding confirm_found confirm_with
  confirm_found-IsAtomic sums =
      let skus = p.visit 2 (keys sums) in
      bind-IsAtomic (wrapped "ConfirmUseCase.Execute" (repo.get_by_skus skus))
        (confirm_with p ids sums)
        (wrapped-IsReadOnly "ConfirmUseCase.Execute" (repo.get_by_skus skus) (reads.by_skus skus))
        λ products. in_transaction-IsAtomic p _

  confirm_any-IsAtomic : (rs : List Reservation) → IsAtomic (confirm_any p repo ids rs)
  unfolding confirm_any
  confirm_any-IsAtomic [] = pure-IsAtomic tt
  confirm_any-IsAtomic (r ∷ rs) = confirm_found-IsAtomic (add_sums (r ∷ rs) [])

  confirm-IsAtomic : IsAtomic (confirm p repo ids)
  unfolding confirm
  confirm-IsAtomic =
      bind-IsAtomic (wrapped "ConfirmUseCase.Execute" (get_by_ids p ids)) (confirm_any p repo ids)
        (wrapped-IsReadOnly "ConfirmUseCase.Execute" (get_by_ids p ids)
          (get_by_ids-IsReadOnly p ids))
        confirm_any-IsAtomic

-- A release that fails leaves every table as it was, wherever it failed, over any repository that
-- only reads.
pub release_atomic :
    (p : Platform) (repo : ReadProductRepository) (headers : Headers) (ids : List ℕ) (w : World)
    (e : Error)
    → ReadsOnly repo
    → (release p repo headers ids w).0 ≡ err e
    → (release p repo headers ids w).1.tables ≡ w.tables
release_atomic p repo headers ids w e reads h = release-IsAtomic p repo headers ids reads w e h

-- A confirmation that fails leaves every table as it was, wherever it failed, over any repository
-- that only reads.
pub confirm_atomic :
    (p : Platform) (repo : ReadProductRepository) (ids : List ℕ) (w : World) (e : Error)
    → ReadsOnly repo
    → (confirm p repo ids w).0 ≡ err e
    → (confirm p repo ids w).1.tables ≡ w.tables
confirm_atomic p repo ids w e reads h = confirm-IsAtomic p repo [] ids reads w e h

-- Once none of its reservations is left, a confirmation and a release that the database answers
-- succeed, with one call, and write nothing: to retry after success is safe.
pub settled_again :
    (p : Platform) (repo : ReadProductRepository) (headers : Headers) (ids : List ℕ) (w : World)
    → select (λ r. contains r.id ids) w.reservations ≡ []
    → p.fault w.calls ≡ none
    → p.cut w.calls ≡ none
    → (confirm p repo ids w ≡ (ok tt, counted w))
      × (release p repo headers ids w ≡ (ok tt, counted w))
unfolding confirm release get_by_ids confirm_any release_any
settled_again p repo headers ids w gone answers whole = (ground arith, ground arith)
