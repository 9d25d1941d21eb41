-- ===== src/Usecases/Reservation/Commits.antt =====
-- What `Reserve` promises: a reservation that succeeds is a single step on the tables, made against
-- the rows as they are when its transaction runs; one that fails changes nothing.
use marketplace_simulator_pr.Common.{
  ℕ, ◌+◌, ◌≡◌, sym, ◌∙◌, ap, some, List, [], ◌++◌, arith, Distinct, length, All, All-map_imp, Map,
  lookup, inl, inr,
}
use mathlib.Core.Option
use marketplace_simulator_pr.Errors.{Error, ok, err, Result-cases}
use marketplace_simulator_pr.Models.{Product, NewEvent}
use marketplace_simulator_pr.Events.{Headers}
use marketplace_simulator_pr.Store.World.{
  World, Platform, wrapped, lift, counted, >>=-ok, wrapped-ok,
}
use marketplace_simulator_pr.Store.Products.{get_by_skus}
use marketplace_simulator_pr.Store.Products.Rows.{row_skus, skus_of, find_row}
use marketplace_simulator_pr.Store.Products.Update.{update_writes}
use marketplace_simulator_pr.Store.Transactor.{in_transaction, in_transaction-ok}
use marketplace_simulator_pr.Usecases.Repository.{ReadProductRepository, plan_events}
use marketplace_simulator_pr.Usecases.Outboxes.{new_entries}
use marketplace_simulator_pr.Usecases.Reads.{
  IsRead, AreFromRows, HasWords, database, get_by_skus-IsRead,
}
use marketplace_simulator_pr.Usecases.Atomic.{
  IsAtomic, ReadsOnly, lift-IsReadOnly, wrapped-IsReadOnly, wrapped-IsAtomic, bind-IsAtomic,
  in_transaction-IsAtomic,
}
use marketplace_simulator_pr.Usecases.Reservation.Reserve.{
  ReserveItem, item_skus, reserve_items, reserve_tx, reserve, reserve_plan, reserve_commit,
  reserve_with,
}
use marketplace_simulator_pr.Usecases.Reservation.Sums.{IsRange}
use marketplace_simulator_pr.Usecases.Reservation.Reported.{
  IsReported, HasWideSkus, plan_events-IsReported,
}
use marketplace_simulator_pr.Usecases.Reservation.Items.{CanServe, reserve_items-ok, find_item}
use marketplace_simulator_pr.Usecases.Reservation.Inserts.{new_reservations, number_items-All}
use marketplace_simulator_pr.Usecases.Reservation.Reserving.{
  IsCovered, reserved_row, reserve_tx-ok, covered, reserved_at,
}

-- The step that a reservation is: from `w` to `w'`, with the answer `ids` and the product events
-- `events`.
pub record Reserved (p : Platform) (items : List ReserveItem) (events : List NewEvent)
    (w w' : World) (ids : Map ℕ) : Type 0 where
  pub covered : All (IsCovered w.products) items
  pub products_at :
      (k : ℕ)
      → find_row k w'.products
        ≡ Option.map (reserved_row w.xid (find_item k items)) (find_row k w.products)
  pub reservations_added :
      w'.reservations ≡ w.reservations ++ new_reservations w.now w.next_id items
  pub ids_told : All (λ r. lookup r.sku ids ≡ some r.id) (new_reservations w.now w.next_id items)
  pub events_added : w'.product_events ≡ w.product_events ++ new_entries p w.now w.drawn events
  pub updates_added :
      w'.cache_updates
      ≡ w.cache_updates ++ new_entries p w.now (w.drawn + length events) (item_skus items)

-- The closure of `Reserve`, run in a world `w` that may be later than the one in which `read` was
-- read. The items have distinct SKUs, and so have the rows of `w`; `read` has each SKU once, no
-- product that no item asks for, counts that fit 32 bits, and, of each product with the version of
-- its row of `w`, the counts of that row; and the loop over the items made `reserved` of it. If the
-- closure succeeds then, on the rows of `w`, every item was covered, exactly the rows of the items
-- changed, by what the items ask for, and these were added: a reservation for each item, with the
-- ids that are told, a record for each of the events that it was given, and a cache update for the
-- SKU of each item.
pub reserve_tx_commits :
    (p : Platform) (items : List ReserveItem) (read reserved : List Product)
    (events : List NewEvent) (w w' : World) (ids : Map ℕ)
    → Distinct (item_skus items)
    → Distinct (row_skus w.products)
    → IsRead (item_skus items) w.products read
    → reserve_items items read ≡ ok reserved
    → reserve_tx p items reserved events w ≡ (ok ids, w')
    → Reserved p items events w w' ids
reserve_tx_commits p items read reserved events w w' ids di dw is_read looped ran =
    let (serves, same, at) = reserve_items-ok items read reserved looped di is_read.words in
    let dr : Distinct (skus_of reserved) = rw same is_read.distinct in
    let (updated, eids, ew) = reserve_tx-ok p items reserved events w w' ids ran in
    let current = (update_writes p reserved w _ 0 dw dr updated).0 in
    record {
      covered =
          All-map_imp (CanServe read) (IsCovered w.products) items
            (covered items read reserved w.products is_read.honest dr at current) serves;
      products_at = λ k.
          ap (λ (v : World). find_row k v.products) ew
          ∙ (update_writes p reserved w _ k dw dr updated).1
          ∙ reserved_at items read reserved w.products is_read.honest dr at current k w.xid
              is_read.asked serves;
      reservations_added = ap (λ (v : World). v.reservations) ew;
      ids_told = rw eids (number_items-All w.now w.next_id items [] di);
      events_added = ap (λ (v : World). v.product_events) ew;
      updates_added = ap (λ (v : World). v.cache_updates) ew;
    }

reserve_plan-ok :
    (p : Platform) (headers : Headers) (items : List ReserveItem) (read reserved : List Product)
    (events : List NewEvent)
    → reserve_plan p headers items read ≡ ok (reserved, events)
    → (reserve_items items read ≡ ok reserved)
      × (plan_events p headers "ReserveUseCase.Execute" read reserved ≡ ok (reserved, events))
unfolding reserve_plan plan_events
reserve_plan-ok p headers items read reserved events h =
    elim (Result-cases (reserve_items items read)) [
      | inr (e, failed) ↦ absurd (ground arith)
      | inl (xs, looped) ↦ (ground arith, ground arith)
    ]

-- What a call that succeeded has read, planned and done.
pub record Done (p : Platform) (headers : Headers) (items : List ReserveItem) (w w' : World)
    (ids : Map ℕ) : Type 0 where
  pub read : List Product
  pub reserved : List Product
  pub events : List NewEvent
  pub is_read : IsRead (item_skus items) w.products read
  pub from_rows : AreFromRows w.products read
  pub looped : reserve_items items read ≡ ok reserved
  pub planned : plan_events p headers "ReserveUseCase.Execute" read reserved ≡ ok (reserved, events)
  pub step : Reserved p items events w w' ids

pub reserve-Done :
    (p : Platform) (headers : Headers) (items : List ReserveItem) (w w' : World) (ids : Map ℕ)
    → Distinct (item_skus items)
    → Distinct (row_skus w.products)
    → HasWords w.products
    → reserve p (database p) headers items w ≡ (ok ids, w')
    → Done p headers items w w' ids
unfolding reserve database reserve_with reserve_commit
reserve-Done p headers items w w' ids di dw words ran =
    let (read, w₁, h₁, k₁) =
      >>=-ok (wrapped "ReserveUseCase.Execute" (get_by_skus p (item_skus items)))
        (reserve_with p headers items) w ran in
    let (is_read, e₁, from) =
      get_by_skus-IsRead p (item_skus items) w w₁ read dw words
        (wrapped-ok _ (get_by_skus p (item_skus items)) w h₁) in
    let ((reserved, events), w₂, h₂, k₂) =
      >>=-ok (lift (reserve_plan p headers items read)) (reserve_commit p items) w₁ k₁ in
    let planned : (reserve_plan p headers items read ≡ ok (reserved, events)) × (w₁ ≡ w₂) =
      ground arith in
    let at_start : w₂ ≡ counted w = sym planned.1 ∙ e₁ in
    let (w₃, ran₃, e₃) = in_transaction-ok p (reserve_tx p items reserved events) w₂ (
      wrapped-ok "ReserveUseCase.Execute" (in_transaction p (reserve_tx p items reserved events)) w₂
        k₂) in
    let plan = reserve_plan-ok p headers items read reserved events planned.0 in
    let done =
      reserve_tx_commits p items read reserved events (counted (counted w)) w₃ ids di dw is_read
        plan.0 (ap (λ v. reserve_tx p items reserved events (counted v)) (sym at_start) ∙ ran₃) in
    rw e₃ (record {
      read = read;
      reserved = reserved;
      events = events;
      is_read = is_read;
      from_rows = from;
      looped = plan.0;
      planned = plan.1;
      step = record {
        covered = done.covered;
        products_at = done.products_at;
        reservations_added = done.reservations_added;
        ids_told = done.ids_told;
        events_added = done.events_added;
        updates_added = done.updates_added;
      };
    })

-- A call of `Reserve` with the database's repository that succeeds, on items with distinct SKUs of
-- 64 bits and on rows with distinct SKUs and counts that fit 32 bits, where each `range` meets
-- every key once: on the rows of `w` every item was covered, exactly the rows of the items changed,
-- by what the items ask for, and these were added: a reservation for each item, with the ids that
-- are told, a cache update for the SKU of each item, and a record for each of some events, among
-- which there is one under the SKU of any item `i` that tells the row of that SKU, as it was and
-- with what `i` reserves.
pub reserve_commits :
    (p : Platform) (headers : Headers) (items : List ReserveItem) (w w' : World) (ids : Map ℕ)
    (i : ReserveItem)
    → IsRange p
    → Distinct (item_skus items)
    → HasWideSkus items
    → find_item i.sku items ≡ some i
    → Distinct (row_skus w.products)
    → HasWords w.products
    → reserve p (database p) headers items w ≡ (ok ids, w')
    → (events : List NewEvent) × Reserved p items events w w' ids
      × IsReported p headers w.products events i
reserve_commits p headers items w w' ids i range di wide one dw words ran =
    let done = reserve-Done p headers items w w' ids di dw words ran in
    (
      done.events,
      done.step,
      plan_events-IsReported p headers "ReserveUseCase.Execute" items w.products done.read
          done.reserved done.events i range di wide one done.is_read done.from_rows done.looped
          done.planned,
    )

reserve-IsAtomic :
    (p : Platform) (repo : ReadProductRepository) (headers : Headers) (items : List ReserveItem)
    → ReadsOnly repo
    → IsAtomic (reserve p repo headers items)
unfolding reserve reserve_with reserve_commit
reserve-IsAtomic p repo headers items reads =
    bind-IsAtomic (wrapped "ReserveUseCase.Execute" (repo.get_by_skus (item_skus items)))
      (reserve_with p headers items)
      (wrapped-IsReadOnly "ReserveUseCase.Execute" (repo.get_by_skus (item_skus items))
        (reads.by_skus (item_skus items)))
      λ products.
        bind-IsAtomic (lift (reserve_plan p headers items products)) (reserve_commit p items)
          (lift-IsReadOnly (reserve_plan p headers items products))
          λ (reserved, events).
            wrapped-IsAtomic "ReserveUseCase.Execute"
              (in_transaction p (reserve_tx p items reserved events))
              (in_transaction-IsAtomic p (reserve_tx p items reserved events))

-- A reservation that fails leaves every table as it was, wherever it failed, over any repository
-- that only reads.
pub reserve_atomic :
    (p : Platform) (repo : ReadProductRepository) (headers : Headers) (items : List ReserveItem)
    (w : World) (e : Error)
    → ReadsOnly repo
    → (reserve p repo headers items w).0 ≡ err e
    → (reserve p repo headers items w).1.tables ≡ w.tables
reserve_atomic p repo headers items w e reads h = reserve-IsAtomic p repo headers items reads w e h
