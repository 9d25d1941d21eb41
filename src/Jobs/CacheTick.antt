-- ===== src/Jobs/CacheTick.antt =====
-- A whole tick of the cache update job, where nothing fails.
use marketplace_simulator_pr.Common.{
  ℕ, ◌^◌, ◌<◌, ◌≡◌, refl, sym, ◌∙◌, ap, subst, true, none, some, List, [], ◌∷◌, arith, inl, ◌==◌,
  contains, All, length, leb,
}
use marketplace_simulator_pr.Common.Int.{ℤ}
use marketplace_simulator_pr.Errors.{ok}
use marketplace_simulator_pr.Models.{Entry, CacheUpdateRecord}
use marketplace_simulator_pr.Store.World.{ProductRow, Tables, World, Platform, counted}
use marketplace_simulator_pr.Store.Products.{to_product}
use marketplace_simulator_pr.Store.Products.Rows.{find_row, find_row_sku}
use marketplace_simulator_pr.Store.Outbox.Pending.{entry_ids}
use marketplace_simulator_pr.Usecases.Reads.{database}
use marketplace_simulator_pr.Cache.Redis.{Json, cache_key, cache_get}
use marketplace_simulator_pr.Cache.Redis.Stored.{IsUp, cache_get_hit}
use marketplace_simulator_pr.Usecases.Reservation.Sums.{IsRange}
use marketplace_simulator_pr.Store.Outbox.{pending, deleted}
use marketplace_simulator_pr.Store.Outbox.CacheUpdates.{get_pending, delete_batch}
use marketplace_simulator_pr.Jobs.Drained.{visit_none}
use marketplace_simulator_pr.Jobs.Batch.{
  BatchResult, handle_all, account, process_and_account, tick,
}
use marketplace_simulator_pr.Jobs.CacheUpdates.{updates_repository, refresh_all, tick_cache_updates}
use marketplace_simulator_pr.Jobs.Refreshed.{IsCacheable, bodies, All-find_row, refresh_all-Holds}

deleted_none : {A : Type 0} (es : List (Entry A)) → deleted [] es ≡ es
unfolding deleted
deleted_none [] = refl
deleted_none (e ∷ es) = ap (λ r. e ∷ r) (deleted_none es)

module _ (p : Platform) (json : Json) (up : IsUp p) (calm : (n : ℕ) → p.fault n ≡ none)
    (whole : (n : ℕ) → p.cut n ≡ none) where
  get_pending-all :
      (size : ℕ) (w : World)
      → get_pending p size w ≡ (ok (pending ◌==◌ leb size w.cache_updates), counted w)
  unfolding get_pending
  get_pending-all size w = ground (arith, calm w.calls, whole w.calls)

  account-rest :
      (limit : ℤ) (rs : List CacheUpdateRecord) (ids : List ℕ) (w : World)
      → IsRange p
      → let result : BatchResult = record { success_records = ids; failed_record_reasons = [] } in
        let (r, w') = account p (updates_repository p) limit rs result w in
        (r ≡ ok (length rs))
        × (w'.cache_updates ≡ deleted ids w.cache_updates)
        × (w'.redis ≡ w.redis)
  unfolding account handle_all updates_repository delete_batch
  account-rest limit rs ids w range =
      let none_met = visit_none p range in
      (
        ground (arith, none_met, calm w.calls),
        ground (arith, none_met, calm w.calls),
        ground (arith, none_met, calm w.calls),
      )

  tick-all :
      (size : ℕ) (limit : ℤ) (w : World) (records : List CacheUpdateRecord)
      → pending ◌==◌ leb size w.cache_updates ≡ records
      → tick_cache_updates p json true (database p) size limit w
        ≡ process_and_account p
            (updates_repository p)
            (λ rs. refresh_all p json true (database p) rs [])
            limit
            records
            (counted w)
  unfolding tick_cache_updates tick updates_repository
  tick-all size limit w records given = ground (arith, get_pending-all size w, given)

  process_and_account-all :
      (limit : ℤ) (records : List CacheUpdateRecord) (w w₂ : World)
      → refresh_all p json true (database p) records [] w
        ≡ (ok (record { success_records = entry_ids records; failed_record_reasons = [] }), w₂)
      → IsRange p
      → w₂.cache_updates ≡ w.cache_updates
      → let (r, w') =
          process_and_account p
            (updates_repository p)
            (λ rs. refresh_all p json true (database p) rs [])
            limit
            records
            w in
        (r ≡ ok (length records))
        × (w'.cache_updates ≡ deleted (entry_ids records) w.cache_updates)
        × (w'.redis ≡ w₂.redis)
  unfolding process_and_account refresh_all
  process_and_account-all limit [] w w₂ run range kept =
      (refl, sym (deleted_none w.cache_updates), ground arith)
  process_and_account-all limit (r ∷ rs) w w₂ run range kept =
      let (done, left, same) = account-rest limit (r ∷ rs) (entry_ids (r ∷ rs)) w₂ range in
      (ground (arith, run, done), ground (arith, run, left, kept), ground (arith, run, same))

-- Redis catches up. Where the database and Redis answer every call in full, ranges meet each key
-- once, JSON gives back every row of the table and their SKUs have 64 bits, and the product of
-- each record that the tick is given is in the table: the tick deletes the records it was given,
-- and after it the cache gives, for the SKU of each of them, what the row of the table says, its
-- version included.
pub tick_cache_updates-fresh :
    (p : Platform) (json : Json) (size : ℕ) (limit : ℤ) (w : World) (k : ℕ) (row : ProductRow)
    → IsUp p
    → ((n : ℕ) → p.fault n ≡ none)
    → ((n : ℕ) → p.cut n ≡ none)
    → IsRange p
    → All (IsCacheable json) w.products
    → All
        (λ r. (q : ProductRow) × (find_row r.body w.products ≡ some q))
        (pending ◌==◌ leb size w.cache_updates)
    → find_row k w.products ≡ some row
    → contains k (bodies (pending ◌==◌ leb size w.cache_updates)) ≡ true
    → let (r, w') = tick_cache_updates p json true (database p) size limit w in
      let records = pending ◌==◌ leb size w.cache_updates in
      (r ≡ ok (length records))
      × (w'.cache_updates ≡ deleted (entry_ids records) w.cache_updates)
      × ((cache_get p json k w').0 ≡ ok (some (to_product row)))
tick_cache_updates-fresh p json size limit w k row up calm whole range cacheable found at_k asked =
    let records = pending ◌==◌ leb size w.cache_updates in
    let refreshed = refresh_all p json true (database p) records [] (counted w) in
    let (done, kept, holds) =
      refresh_all-Holds p json up calm whole records [] (counted w) cacheable found in
    let same : refreshed.1.cache_updates ≡ w.cache_updates =
      ap (λ (t : Tables). t.cache_updates) kept in
    let is_k : row.sku ≡ k = find_row_sku k w.products row at_k in
    let small : row.sku < 2 ^ 64 =
      (All-find_row (IsCacheable json) k w.products row cacheable at_k).1 in
    let (text, there, good) = holds k row at_k (subst (λ n. n < 2 ^ 64) is_k small) (inl asked) in
    let (ended, left, redis) =
      process_and_account-all p json up calm whole limit records (counted w) refreshed.1
        (ap (λ q. (q, refreshed.1)) done) range same in
    let ran = tick-all p json up calm whole size limit w records refl in
    let w' = (tick_cache_updates p json true (database p) size limit w).1 in
    let held : w'.redis (cache_key row.sku) ≡ some text =
      ap (λ q. q.1.redis (cache_key row.sku)) ran
      ∙ ap (λ f. f (cache_key row.sku)) redis
      ∙ ap (λ n. refreshed.1.redis (cache_key n)) is_k
      ∙ there in
    (
      ap (λ q. q.0) ran ∙ ended,
      ap (λ q. q.1.cache_updates) ran ∙ left,
      subst (λ n. (cache_get p json n w').0 ≡ ok (some (to_product row))) is_k
          (cache_get_hit p json (to_product row) text w' up good held),
    )
