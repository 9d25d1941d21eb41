-- ===== src/Tests/Serving.antt =====
-- Runs of the methods, of the chain around them, of the cache and of the jobs, on concrete data.
use marketplace_simulator_pr.Common.{
  ℕ, ◌≤◌, ◌≡◌, refl, ◌≢◌, ◌↔◌, ◌+◌, true, Option, none, some, List, [], ◌∷◌, ◌==◌, arith, Distinct,
  Bool-cases, inl, inr, ==→eq,
}
use marketplace_simulator_pr.Common.Int.{pos, ◌-ℤ◌}
use marketplace_simulator_pr.Errors.{
  lit, Error, ok, status, unauthenticated, Code, product_not_found, not_found, wrap,
}
use marketplace_simulator_pr.Models.{add32, sub32}
use marketplace_simulator_pr.Store.World.{ProductRow}
use marketplace_simulator_pr.Store.Products.{
  update, get_by_skus, get_by_sku, update_batch, update_one, written, affected, check_affected,
}
use marketplace_simulator_pr.Store.Products.Rows.{find_row}
use marketplace_simulator_pr.Store.Transactor.{in_transaction, finish, commit}
use marketplace_simulator_pr.Usecases.Reads.{database}
use marketplace_simulator_pr.Usecases.Reservation.Reserve.{
  reserve, reserve_with, reserve_plan, reserve_commit, reserve_tx, reserve_items, reserve_item,
  available, have_count, insert_all,
}
use marketplace_simulator_pr.Usecases.Reservation.Settle.{
  release, add_sums, settle_all, release_any, release_found, release_with, release_plan,
  release_commit, release_tx,
}
use marketplace_simulator_pr.Usecases.Product.{get_product}
use marketplace_simulator_pr.Cache.Redis.{cache_get, client_get, decode_found, cache_key}
use marketplace_simulator_pr.Cache.Repository.{cached_get_by_sku, or_from_db, from_db, remember}
use marketplace_simulator_pr.Cache.Repository.Freshness.{cached_get_by_sku_fresh}
use marketplace_simulator_pr.Jobs.Expiry.{tick_expiry, release_expired}
use marketplace_simulator_pr.Jobs.Expired.{Expires, tick_expiry-Expires}
use marketplace_simulator_pr.Jobs.ProductEvents.{
  tick_product_events, events_repository, process_batch, publish_decoded, decode_all,
  published_result,
}
use marketplace_simulator_pr.Jobs.HandingOver.{tick_product_events_hands_over}
use marketplace_simulator_pr.Jobs.HandedOver.{IsHandedOver}
use marketplace_simulator_pr.Usecases.Repository.{
  create_updates, snapshot, map_values, pointee, modify, plan_events, create_events,
}
use marketplace_simulator_pr.Store.Outbox.CacheUpdates.{create_update}
use marketplace_simulator_pr.Store.Outbox.ProductEvents.{create_event, get_pending, delete_batch}
use marketplace_simulator_pr.Events.{
  build_records, build_all, build_record, format_uint, digits, to_snapshot,
}
use marketplace_simulator_pr.Store.Reservations.{
  get_expired, get_by_ids, delete_by_ids, insert_reservation,
}
use marketplace_simulator_pr.Jobs.Batch.{
  tick, process_and_account, account, handle_all, handle_failed, by_id,
}
use marketplace_simulator_pr.Kafka.{publish_batch, to_kafka_all, to_kafka, write_messages}
use marketplace_simulator_pr.Store.Outbox.{
  deleted, pending, sorted, insert_sorted, comes_first, first_of_key,
}
use marketplace_simulator_pr.Grpc.Service.{
  Stock, check_products, check_stocks, reserve_method, ProductResponse, product_to_response,
  get_product_method,
}
use marketplace_simulator_pr.Grpc.Requests.{check_products-accepts, Positive, stock_skus}
use marketplace_simulator_pr.Config.{AuthConfig}
use marketplace_simulator_pr.Middleware.Chain.{Call, Handler, failed, chain, with_status}
use marketplace_simulator_pr.Middleware.Laws.{
  Shows, chain_admits, chain_refuses, with_status-wraps, code_of,
}
use marketplace_simulator_pr.Usecases.Reservation.Sums.{total}
use marketplace_simulator_pr.History.Stocked.{IsStocked}
use marketplace_simulator_pr.History.Steps.{here, next, reserve_product}
use marketplace_simulator_pr.History.Reached.{reached_backed}
use marketplace_simulator_pr.History.Answers.{get_product_left}
use marketplace_simulator_pr.Jobs.Retries.{handle_all_marks}
use marketplace_simulator_pr.Jobs.Failures.{find_entry}
use marketplace_simulator_pr.Tests.{
  calm, shop, tea, tea_read, waiting, one_event, no_json, calm-IsRange,
}

cached_get_by_sku_fresh_example : 40 ≤ tea_read.transaction_id
unfolding cached_get_by_sku or_from_db from_db remember cache_get client_get decode_found cache_key
    format_uint digits database get_by_skus get_by_sku
cached_get_by_sku_fresh_example =
    cached_get_by_sku_fresh calm no_json true 7 40 shop
      (cached_get_by_sku calm no_json (database calm) true 7 (some 40) shop).1 tea_read
      (refl, (refl, tt)) (omega arith, (omega arith, tt)) (λ r h. ground arith) refl

tick_product_events_hands_over_example :
    IsHandedOver calm 90 (tick_product_events calm 10 (pos 3) waiting).1.handed_over
unfolding tick_product_events tick process_and_account account handle_all handle_failed by_id
    events_repository process_batch publish_decoded decode_all publish_batch to_kafka_all to_kafka
    write_messages published_result get_pending delete_batch deleted pending sorted insert_sorted
    comes_first first_of_key format_uint digits
tick_product_events_hands_over_example =
    tick_product_events_hands_over calm 10 (pos 3) waiting 90 refl refl

abbrev one_stock : List Stock
one_stock = record { sku = 7; count = 2 } ∷ []

check_products-accepts_example :
    (check_products one_stock ≡ ok one_stock)
    ↔ ((one_stock ≢ []) × Positive (stock_skus one_stock) × Distinct (stock_skus one_stock))
check_products-accepts_example = check_products-accepts one_stock

abbrev from_grpc : Error → Option Code
from_grpc (status c m) = some c
from_grpc _ = none

abbrev guard : AuthConfig
guard = record { enabled = true; admin_user = "root" }

abbrev by_admin : Call
by_admin = record { method = "Get"; x_auth = some ("root" ∷ []); valid = none }

abbrev by_stranger : Call
by_stranger = record { method = "Get"; x_auth = some ("eve" ∷ []); valid = none }

-- A method that counts its calls and finds nothing.
abbrev counting : Handler ℕ ℕ
counting n = (failed (product_not_found 7), n + 1, [])

chain_admits_example :
    let (o, n, _) = chain from_grpc (λ m. m) true guard by_admin counting 0 in
    Shows from_grpc (failed (product_not_found 7)) o × (n ≡ 1)
chain_admits_example = chain_admits from_grpc (λ m. m) guard by_admin counting 0 refl refl

chain_refuses_example :
    let (o, n, _) = chain from_grpc (λ m. m) true guard by_stranger counting 0 in
    (code_of o ≡ some unauthenticated) × (n ≡ 0)
chain_refuses_example =
    chain_refuses from_grpc (λ m. m) true guard by_stranger counting 0 (λ c m. refl) refl

with_status-wraps_example :
    code_of {R = ℕ} (with_status from_grpc (λ m. m) (failed (wrap "a" (product_not_found 7))))
    ≡ some not_found
with_status-wraps_example =
    with_status-wraps ℕ from_grpc (λ m. m) ("a" ∷ []) (product_not_found 7) tt refl

-- The waiting event fails for the third time, at a limit of three; another record is not there.
handle_all_marks_example :
    let third = record one_event { retry_count = 2 } in
    let w =
      (handle_all
        (events_repository calm)
        (pos 3)
        (by_id (third ∷ []) [])
        ((90, lit "down" ∷ []) ∷ [])
        (90 ∷ [])
        (record waiting { tables = record waiting.tables { product_events = third ∷ [] } })).1 in
    (find_entry 90 w.product_events
      ≡ some (record third {
        is_dead_letter = true;
        marked_as_dead_letter_at = some 20;
        dead_letter_reason = some (lit "down" ∷ []);
      }))
    × (find_entry 91 w.product_events ≡ none)
unfolding handle_all by_id
handle_all_marks_example =
    let third = record one_event { retry_count = 2 } in
    handle_all_marks calm 3 (third ∷ []) ((90, lit "down" ∷ []) ∷ []) (90 ∷ []) 90 91 third third
      (lit "down" ∷ [])
      (record waiting { tables = record waiting.tables { product_events = third ∷ [] } })
      (λ n. refl) (refl, tt) (refl, tt) refl (omega arith) refl refl refl refl (omega arith)

shop-IsStocked : IsStocked shop.tables
shop-IsStocked = record {
  distinct = (refl, (refl, tt));
  backed = λ k r there. elim (Bool-cases (k == 7)) [
    | inl tea_it_is ↦ let is : k ≡ 7 = ==→eq k 7 tea_it_is in ground (arith, is)
    | inr another ↦ ground arith
  ];
}

-- A customer reserves two teas; three of the five are then reserved.
reached_backed_example :
    (3 ≡ total 7 (reserve_method calm (database calm) [] one_stock shop).1.reservations) × (3 ≤ 5)
unfolding reserve reserve_with reserve_plan reserve_commit reserve_tx reserve_items reserve_item
    available have_count insert_all insert_reservation ◌-ℤ◌ database get_by_skus get_by_sku update
    update_batch update_one written affected check_affected in_transaction finish commit
    create_updates create_update snapshot map_values pointee modify add32 sub32 plan_events
    build_records build_all build_record format_uint digits to_snapshot create_events create_event
    reserve_method check_products check_stocks
reached_backed_example =
    reached_backed calm shop 7 (record tea { reserved_count = 3; xmin = 50 }) calm-IsRange
      (λ n. refl) shop-IsStocked (next here (reserve_product [] one_stock refl)) (tt, tt) refl

abbrev tea_answer : ProductResponse
tea_answer = record { sku = 7; name = "tea"; price = 0; count = 4; transaction_id = 40 }

-- Of five teas one is reserved, so four are left.
get_product_left_example :
    (r : ProductRow) × (find_row 7 shop.products ≡ some r)
    × (tea_answer.sku ≡ 7)
    × (tea_answer.name ≡ r.name)
    × (tea_answer.price ≡ r.price)
    × (tea_answer.transaction_id ≡ r.xmin)
    × (tea_answer.count + total 7 shop.reservations ≡ r.count)
unfolding get_product_method get_product product_to_response sub32 database get_by_sku get_by_skus
get_product_left_example =
    get_product_left calm shop 7 none tea_answer
      (get_product_method calm (database calm) [] 7 none shop).1 calm-IsRange (λ n. refl)
      shop-IsStocked here tt refl

-- The reservation of the shop is ten units old; a time to live of five lets it expire.
tick_expiry-Expires_example : Expires 15 7 shop (tick_expiry calm (database calm) [] (pos 5) shop).1
unfolding release release_any release_found release_with release_plan release_commit release_tx
    get_by_ids delete_by_ids add_sums settle_all database get_by_skus get_by_sku update update_batch
    update_one written affected check_affected in_transaction finish commit create_updates
    create_update snapshot map_values pointee modify add32 sub32 plan_events build_records build_all
    build_record format_uint digits to_snapshot create_events create_event tick_expiry get_expired
    release_expired
tick_expiry-Expires_example =
    tick_expiry-Expires calm [] (pos 5) shop (tick_expiry calm (database calm) [] (pos 5) shop).1 7
      calm-IsRange (λ n. refl) (refl, (refl, tt)) (omega arith, (omega arith, tt)) (refl, tt) refl
