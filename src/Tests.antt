-- ===== src/Tests.antt =====
-- Runs of the service on concrete data: what the theorems say, at inputs where their hypotheses
-- hold.
pub mod Serving
pub mod Running
pub mod Cached
use mathlib.Core.Option
use marketplace_simulator_pr.Common.{
  ℕ, ◌≤◌, ◌≡◌, refl, ◌≢◌, ◌↔◌, ◌+◌, true, false, Option, none, some, List, [], ◌∷◌, ◌==◌,
  if◌then◌else◌, arith, Distinct, All, Bool-cases, inl, inr, ==→eq,
}
use marketplace_simulator_pr.Common.Int.{pos, ◌-ℤ◌}
use marketplace_simulator_pr.Errors.{
  Message, Error, ok, err, plain, status, unauthenticated, Code, product_not_found, not_found, wrap,
}
use marketplace_simulator_pr.Models.{
  CacheUpdateRecord, NewEvent, Product, Snapshot, add32, sub32, EventRecord,
}
use marketplace_simulator_pr.Store.World.{ProductRow, World, Platform}
use marketplace_simulator_pr.Store.Products.{
  update, get_by_skus, get_by_sku, update_batch, update_one, written, affected, check_affected,
}
use marketplace_simulator_pr.Store.Products.Rows.{find_row, find_product}
use marketplace_simulator_pr.Store.Products.Update.{IsCurrent, overwritten, update_writes}
use marketplace_simulator_pr.Store.Transactor.{in_transaction, finish, commit}
use marketplace_simulator_pr.Usecases.Reads.{database, get_by_skus-IsRead}
use marketplace_simulator_pr.Usecases.Reservation.Reserve.{
  ReserveItem, reserve, reserve_with, reserve_plan, reserve_commit, reserve_tx, reserve_items,
  reserve_item, available, have_count, insert_all,
}
use marketplace_simulator_pr.Usecases.Reservation.Reported.{IsReported}
use marketplace_simulator_pr.Usecases.Reservation.Commits.{
  Reserved, reserve_commits, reserve_atomic, reserve_tx_commits,
}
use marketplace_simulator_pr.Usecases.Reservation.Settle.{
  confirm, release, add_sums, settle_all, confirm_any, confirm_found, confirm_with, confirm_tx,
  release_any, release_found, release_with, release_plan, release_commit, release_tx,
}
use marketplace_simulator_pr.Usecases.Reservation.Ending.{
  confirm_atomic, release_atomic, settled_again,
}
use marketplace_simulator_pr.Usecases.Product.{
  UpdateCount, get_product, increase_count, validate_products_exist, all_exist, increase_with,
  increase_plan, increase_commit, increase_tx, increase_all,
}
use marketplace_simulator_pr.Usecases.Product.Increase.{increase_count_atomic}
use marketplace_simulator_pr.Cache.Redis.{Json, cache_get, client_get, decode_found, cache_key}
use marketplace_simulator_pr.Cache.Repository.{cached_get_by_sku, or_from_db, from_db, remember}
use marketplace_simulator_pr.Cache.Repository.Freshness.{
  cached_get_by_sku_fresh, database-ReadsOnly,
}
use marketplace_simulator_pr.Jobs.Expiry.{tick_expiry, release_expired}
use marketplace_simulator_pr.Jobs.Expired.{Expires, tick_expiry-Expires}
use marketplace_simulator_pr.Jobs.ProductEvents.{
  tick_product_events, events_repository, process_batch, publish_decoded, decode_all,
  published_result,
}
use marketplace_simulator_pr.Jobs.HandingOver.{tick_product_events_hands_over}
use marketplace_simulator_pr.Jobs.HandedOver.{IsHandedOver}
use marketplace_simulator_pr.Usecases.Repository.{
  create_updates, snapshot, map_values, pointee, modify, plan_events, create_events,
}
use marketplace_simulator_pr.Store.Outbox.CacheUpdates.{create_update}
use marketplace_simulator_pr.Store.Outbox.ProductEvents.{create_event, get_pending, delete_batch}
use marketplace_simulator_pr.Events.{
  build_records, build_all, build_record, format_uint, digits, to_snapshot,
}
use marketplace_simulator_pr.Store.Reservations.{
  get_expired, get_by_ids, delete_by_ids, insert_reservation,
}
use marketplace_simulator_pr.Jobs.Batch.{
  tick, process_and_account, account, handle_all, handle_failed, by_id,
}
use marketplace_simulator_pr.Kafka.{publish_batch, to_kafka_all, to_kafka, write_messages}
use marketplace_simulator_pr.Store.Outbox.{
  deleted, pending, sorted, insert_sorted, comes_first, first_of_key,
}
use marketplace_simulator_pr.Grpc.Service.{
  Stock, check_products, check_stocks, reserve_method, product_to_response, get_product_method,
}
use marketplace_simulator_pr.Grpc.Requests.{check_products-accepts, Positive, stock_skus}
use marketplace_simulator_pr.Config.{AuthConfig}
use marketplace_simulator_pr.Middleware.Chain.{Call, Handler, failed, chain, no_panic, with_status}
use marketplace_simulator_pr.Middleware.Laws.{
  chain_admits, chain_refuses, with_status-wraps, code_of,
}
use marketplace_simulator_pr.Usecases.Reservation.Sums.{total, IsRange}
use marketplace_simulator_pr.History.Stocked.{IsStocked}
use marketplace_simulator_pr.History.Steps.{here, next, reserve_product}
use marketplace_simulator_pr.History.Reached.{reached_backed}
use marketplace_simulator_pr.History.Answers.{get_product_left}
use marketplace_simulator_pr.Usecases.Reservation.Confirmed.{confirm_settles}
use marketplace_simulator_pr.Usecases.Reservation.Released.{release_settles}
use marketplace_simulator_pr.Usecases.Product.Increased.{increase_count_grows}
use marketplace_simulator_pr.Jobs.Retries.{handle_all_marks}
use marketplace_simulator_pr.Jobs.Failures.{find_entry}

abbrev snap : Snapshot
snap = record { sku = 7; name = "tea"; price = 0; count = 5 }

-- A platform on which nothing fails; `broken` fails at the given call of the database.
abbrev pub calm : Platform
calm = record {
  fault = λ _. none;
  cut = λ _. none;
  redis_fault = λ _. none;
  kafka_fault = λ _. none;
  uuid = λ n. n;
  visit = λ _ ks. ks;
  marshal = λ _. ok [];
  unmarshal = λ _. ok (record { old = snap; new = snap });
  marshal_body = λ b. ok (b.record_id ∷ []);
}

abbrev fails_at : ℕ → ℕ → Option Message
fails_at n k = if n == k then some [] else none

abbrev broken : ℕ → Platform
broken n = record calm { fault = fails_at n }

abbrev pub tea : ProductRow
tea = record { sku = 7; price = 0; name = "tea"; count = 5; reserved_count = 1; xmin = 40 }

abbrev pub milk : ProductRow
milk = record { sku = 8; price = 0; name = "milk"; count = 9; reserved_count = 0; xmin = 41 }

abbrev pub shop : World
shop = record {
  tables = record {
    products = tea ∷ milk ∷ [];
    reservations = record { id = 3; sku = 7; count = 1; created_at = 10 } ∷ [];
    product_events = [];
    cache_updates = [];
  };
  next_id = 4;
  xid = 50;
  drawn = 100;
  calls = 0;
  now = 20;
  redis = λ _. none;
  redis_calls = 0;
  kafka_calls = 0;
  handed_over = [];
  spawned = [];
}

abbrev two_teas : List ReserveItem
two_teas = record { sku = 7; delta = 2 } ∷ []

abbrev pub no_json : Json
no_json = record { encode = λ _. ok []; decode = λ _. err (plain []) }

-- On the calm platform a `range` meets the keys as they came.
pub calm-IsRange : IsRange calm
calm-IsRange n ks d = (d, λ k. refl)

reserve_commits_example :
    (events : List NewEvent) × Reserved calm two_teas events shop
      (reserve calm (database calm) [] two_teas shop).1
      ((7, 4) ∷ [])
    × IsReported calm [] shop.products events (record { sku = 7; delta = 2 })
unfolding reserve reserve_with reserve_plan reserve_commit reserve_tx reserve_items reserve_item
    available have_count insert_all insert_reservation ◌-ℤ◌ database get_by_skus get_by_sku update
    update_batch update_one written affected check_affected in_transaction finish commit
    create_updates create_update snapshot map_values pointee modify add32 sub32 plan_events
    build_records build_all build_record format_uint digits to_snapshot create_events create_event
reserve_commits_example =
    reserve_commits calm [] two_teas shop (reserve calm (database calm) [] two_teas shop).1
      ((7, 4) ∷ []) (record { sku = 7; delta = 2 }) calm-IsRange (refl, tt) (omega arith, tt) refl
      (refl, (refl, tt)) (omega arith, (omega arith, tt)) refl

-- A reservation whose second write to the database fails, in the middle of its transaction.
reserve_atomic_example :
    (reserve (broken 3) (database (broken 3)) [] two_teas shop).1.tables ≡ shop.tables
unfolding reserve reserve_with reserve_plan reserve_commit reserve_tx reserve_items reserve_item
    available have_count insert_all insert_reservation ◌-ℤ◌ database get_by_skus get_by_sku update
    update_batch update_one written affected check_affected in_transaction finish commit
    create_updates create_update snapshot map_values pointee modify add32 sub32 plan_events
    build_records build_all build_record format_uint digits to_snapshot create_events create_event
reserve_atomic_example =
    reserve_atomic (broken 3) (database (broken 3)) [] two_teas shop _
      (database-ReadsOnly (broken 3)) refl

confirm_atomic_example :
    (confirm (broken 4) (database (broken 4)) (3 ∷ []) shop).1.tables ≡ shop.tables
unfolding confirm confirm_any confirm_found confirm_with confirm_tx get_by_ids delete_by_ids
    add_sums settle_all database get_by_skus get_by_sku update update_batch update_one written
    affected check_affected in_transaction finish commit create_updates create_update snapshot
    map_values pointee modify add32 sub32
confirm_atomic_example =
    confirm_atomic (broken 4) (database (broken 4)) (3 ∷ []) shop _ (database-ReadsOnly (broken 4))
      refl

release_atomic_example :
    (release (broken 4) (database (broken 4)) [] (3 ∷ []) shop).1.tables ≡ shop.tables
unfolding release release_any release_found release_with release_plan release_commit release_tx
    get_by_ids delete_by_ids add_sums settle_all database get_by_skus get_by_sku update update_batch
    update_one written affected check_affected in_transaction finish commit create_updates
    create_update snapshot map_values pointee modify add32 sub32 plan_events build_records build_all
    build_record format_uint digits to_snapshot create_events create_event
release_atomic_example =
    release_atomic (broken 4) (database (broken 4)) [] (3 ∷ []) shop _
      (database-ReadsOnly (broken 4)) refl

abbrev more_milk : List UpdateCount
more_milk = record { sku = 8; delta = 4 } ∷ []

increase_count_atomic_example :
    (increase_count (broken 3) (database (broken 3)) [] more_milk shop).1.tables ≡ shop.tables
unfolding increase_count validate_products_exist all_exist increase_with increase_plan
    increase_commit increase_tx increase_all database get_by_skus get_by_sku update update_batch
    update_one written affected check_affected in_transaction finish commit create_updates
    create_update snapshot map_values pointee modify add32 sub32 plan_events build_records build_all
    build_record format_uint digits to_snapshot create_events create_event
increase_count_atomic_example =
    increase_count_atomic (broken 3) (database (broken 3)) [] more_milk shop _
      (database-ReadsOnly (broken 3)) refl

settled_again_example :
    (confirm calm (database calm) (5 ∷ []) shop ≡ (ok tt, record shop { calls = 1 }))
    × (release calm (database calm) [] (5 ∷ []) shop ≡ (ok tt, record shop { calls = 1 }))
settled_again_example = settled_again calm (database calm) [] (5 ∷ []) shop refl refl refl

abbrev pub tea_reserved : Product
tea_reserved = record {
  sku = 7;
  price = 0;
  name = "tea";
  count = 5;
  reserved_count = 3;
  transaction_id = 40;
}

abbrev pub tea_read : Product
tea_read = record {
  sku = 7;
  price = 0;
  name = "tea";
  count = 5;
  reserved_count = 1;
  transaction_id = 40;
}

update_writes_example :
    All (λ x. IsCurrent x shop.products) (tea_read ∷ [])
    × (find_row 8 (update calm (tea_read ∷ []) shop).1.products
        ≡ Option.map (overwritten 50 (find_product 8 (tea_read ∷ []))) (find_row 8 shop.products))
unfolding update update_batch update_one written affected check_affected
update_writes_example =
    update_writes calm (tea_read ∷ []) shop (update calm (tea_read ∷ []) shop).1 8
      (refl, (refl, tt)) (refl, tt) refl

-- The shop when some milk was sold after the tea was read.
abbrev later : World
later = record shop {
  tables = record shop.tables { products = tea ∷ record milk { count = 1; xmin = 49 } ∷ [] };
}

abbrev some_event : NewEvent
some_event = record { key = b'7' ∷ []; content = []; headers = [] }

reserve_tx_commits_example :
    Reserved calm two_teas
      (some_event ∷ [])
      later
      (reserve_tx calm two_teas (tea_reserved ∷ []) (some_event ∷ []) later).1
      ((7, 4) ∷ [])
unfolding reserve reserve_with reserve_plan reserve_commit reserve_tx reserve_items reserve_item
    available have_count insert_all insert_reservation ◌-ℤ◌ database get_by_skus get_by_sku update
    update_batch update_one written affected check_affected in_transaction finish commit
    create_updates create_update snapshot map_values pointee modify add32 sub32 plan_events
    build_records build_all build_record format_uint digits to_snapshot create_events create_event
reserve_tx_commits_example =
    reserve_tx_commits calm two_teas (tea_read ∷ []) (tea_reserved ∷ []) (some_event ∷ []) later
      (reserve_tx calm two_teas (tea_reserved ∷ []) (some_event ∷ []) later).1 ((7, 4) ∷ [])
      (refl, tt) (refl, (refl, tt))
      (get_by_skus-IsRead calm (7 ∷ []) later (record later { calls = 1 }) (tea_read ∷ [])
        (refl, (refl, tt)) (omega arith, (omega arith, tt)) refl).0
      refl refl

-- One record, waiting; a tick sends it and deletes it.
abbrev pub one_event : EventRecord
one_event = record {
  record_id = 90;
  body = record { key = b'7' ∷ []; content = []; headers = [] };
  created_at = 15;
  retry_count = 0;
  is_dead_letter = false;
  marked_as_dead_letter_at = none;
  dead_letter_reason = none;
}

-- The entry of the tea is out of date.
abbrev pub stale : CacheUpdateRecord
stale = record {
  record_id = 5;
  body = 7;
  created_at = 12;
  retry_count = 0;
  is_dead_letter = false;
  marked_as_dead_letter_at = none;
  dead_letter_reason = none;
}

abbrev pub waiting : World
waiting = record shop { tables = record shop.tables { product_events = one_event ∷ [] } }

confirm_settles_example :
    let w = (confirm calm (database calm) (3 ∷ []) shop).1 in
    (find_row 7 w.products ≡ some (record tea { count = 4; reserved_count = 0; xmin = 50 }))
    × (w.reservations ≡ [])
unfolding confirm confirm_any confirm_found confirm_with confirm_tx get_by_ids delete_by_ids
    add_sums settle_all database get_by_skus get_by_sku update update_batch update_one written
    affected check_affected in_transaction finish commit create_updates create_update snapshot
    map_values pointee modify add32 sub32
confirm_settles_example =
    confirm_settles calm (3 ∷ []) shop (confirm calm (database calm) (3 ∷ []) shop).1 7 calm-IsRange
      (λ n. refl) (refl, (refl, tt)) (omega arith, (omega arith, tt)) refl

release_settles_example :
    let w = (release calm (database calm) [] (3 ∷ []) shop).1 in
    (find_row 7 w.products ≡ some (record tea { reserved_count = 0; xmin = 50 }))
    × (w.reservations ≡ [])
unfolding release release_any release_found release_with release_plan release_commit release_tx
    get_by_ids delete_by_ids add_sums settle_all database get_by_skus get_by_sku update update_batch
    update_one written affected check_affected in_transaction finish commit create_updates
    create_update snapshot map_values pointee modify add32 sub32 plan_events build_records build_all
    build_record format_uint digits to_snapshot create_events create_event
release_settles_example =
    release_settles calm [] (3 ∷ []) shop (release calm (database calm) [] (3 ∷ []) shop).1 7
      calm-IsRange (λ n. refl) (refl, (refl, tt)) (omega arith, (omega arith, tt)) refl

increase_count_grows_example :
    let w = (increase_count calm (database calm) [] more_milk shop).1 in
    (find_row 8 w.products ≡ some (record milk { count = 13; xmin = 50 }))
    × (w.reservations ≡ shop.reservations)
unfolding increase_count validate_products_exist all_exist increase_with increase_plan
    increase_commit increase_tx increase_all database get_by_skus get_by_sku update update_batch
    update_one written affected check_affected in_transaction finish commit create_updates
    create_update snapshot map_values pointee modify add32 sub32 plan_events build_records build_all
    build_record format_uint digits to_snapshot create_events create_event
increase_count_grows_example =
    increase_count_grows calm [] more_milk shop
      (increase_count calm (database calm) [] more_milk shop).1 8 calm-IsRange (λ n. refl)
      (refl, tt) (refl, (refl, tt)) (omega arith, (omega arith, tt)) refl
