-- ===== src/Usecases/Reservation/Reported.antt =====
-- The events that `Reserve` builds of its items.
use marketplace_simulator_pr.Common.{
  ℕ, ◌+◌, ◌^◌, ◌<◌, ◌≡◌, sym, ◌∙◌, ap, subst, true, some, List, [], ◌∷◌, arith, ◌==◌, ==→eq,
  contains, Distinct, Bool-cases, inl, inr, All, String,
}
use mathlib.Core.Option
use marketplace_simulator_pr.Errors.{ok}
use marketplace_simulator_pr.Models.{Product, NewEvent}
use marketplace_simulator_pr.Events.{Headers, format_uint}
use marketplace_simulator_pr.Store.World.{ProductRow, Platform}
use marketplace_simulator_pr.Store.Products.{to_product}
use marketplace_simulator_pr.Store.Products.Rows.{skus_of, find_row, find_product}
use marketplace_simulator_pr.Usecases.Repository.{pointee, plan_events}
use marketplace_simulator_pr.Usecases.Pointers.{pointee-find}
use marketplace_simulator_pr.Usecases.Reads.{IsRead, AreFromRows}
use marketplace_simulator_pr.Usecases.Built.{find_event, plan_events-event}
use marketplace_simulator_pr.Usecases.Told.{Tells, IsBuilt-Tells}
use marketplace_simulator_pr.Usecases.Reservation.Sums.{IsRange}
use marketplace_simulator_pr.Usecases.Reservation.Reserve.{ReserveItem, item_skus, reserve_items}
use marketplace_simulator_pr.Usecases.Reservation.Items.{
  find_item, with_item, CanServe, reserve_items-ok,
}

-- An event under the SKU of the item tells the row of that SKU, before the reservation and with
-- what the item reserves.
abbrev pub IsReported : Platform → Headers → List ProductRow → List NewEvent → ReserveItem → Type 0
IsReported p headers rows events i =
    (r : ProductRow) × (find_row i.sku rows ≡ some r)
    × (e : NewEvent) × (find_event (format_uint i.sku) events ≡ some e)
    × Tells p headers (to_product r)
        (record (to_product r) { reserved_count = r.reserved_count + i.delta }) e

-- SKUs of 64 bits.
abbrev pub HasWideSkus : List ReserveItem → Type 0
HasWideSkus = All (λ i. i.sku < 2 ^ 64)

found_in :
    (k : ℕ) (xs : List Product)
    → contains k (skus_of xs) ≡ true
    → (x : Product) × (find_product k xs ≡ some x)
found_in k [] h = absurd (ground arith)
found_in k (x ∷ xs) h = elim (Bool-cases (k == x.sku)) [
  | inl here ↦ (x, ground arith)
  | inr later ↦ let (y, e) = found_in k xs (ground arith) in (y, ground arith)
]

asked_wide :
    (k : ℕ) (items : List ReserveItem)
    → HasWideSkus items
    → contains k (item_skus items) ≡ true
    → k < 2 ^ 64
asked_wide k [] wide h = absurd (ground arith)
asked_wide k (i ∷ is) wide h = elim (Bool-cases (k == i.sku)) [
  | inl here ↦ subst (λ n. n < 2 ^ 64) (sym (==→eq k i.sku here)) wide.0
  | inr later ↦ asked_wide k is wide.1 (ground arith)
]

wide_in :
    (xs : List Product)
    → ((k : ℕ) → contains k (skus_of xs) ≡ true → k < 2 ^ 64)
    → All (λ x. x.sku < 2 ^ 64) xs
wide_in [] h = tt
wide_in (x ∷ xs) h = (h x.sku (ground arith), wide_in xs λ k c. h k (ground arith))

All-find_item :
    (P : ReserveItem → Type 0) (k : ℕ) (is : List ReserveItem) (i : ReserveItem)
    → All P is
    → find_item k is ≡ some i
    → P i
All-find_item P k [] i h e = absurd (ground arith)
All-find_item P k (j ∷ is) i h e = elim (Bool-cases (k == j.sku)) [
  | inl here ↦ let same : j ≡ i = ground arith in subst P same h.0
  | inr later ↦ All-find_item P k is i h.1 (ground arith)
]

read_wide :
    (items : List ReserveItem) (rows : List ProductRow) (read : List Product) (k : ℕ)
    → IsRead (item_skus items) rows read
    → HasWideSkus items
    → contains k (skus_of read) ≡ true
    → k < 2 ^ 64
read_wide items rows read k is_read wide there =
    let (x, found) = found_in k read there in
    let at : pointee k read ≡ some x = pointee-find k read is_read.distinct ∙ found in
    elim (Bool-cases (contains k (item_skus items))) [
      | inl asked ↦ asked_wide k items wide asked
      | inr unasked ↦ absurd (ground (arith, at, is_read.asked k unasked))
    ]

pub plan_events-IsReported :
    (p : Platform) (headers : Headers) (prefix : String) (items : List ReserveItem)
    (rows : List ProductRow) (read reserved : List Product) (events : List NewEvent)
    (i : ReserveItem)
    → IsRange p
    → Distinct (item_skus items)
    → HasWideSkus items
    → find_item i.sku items ≡ some i
    → IsRead (item_skus items) rows read
    → AreFromRows rows read
    → reserve_items items read ≡ ok reserved
    → plan_events p headers prefix read reserved ≡ ok (reserved, events)
    → IsReported p headers rows events i
plan_events-IsReported p headers prefix items rows read reserved events i range di wide one is_read
      from looped planned =
    let (serves, same, at) = reserve_items-ok items read reserved looped di is_read.words in
    let (x, there, room) = All-find_item (CanServe read) i.sku items i serves one in
    let (r, row, is) = from i.sku x there in
    let word = is_read.words i.sku x there in
    let new : Product = record x { reserved_count = x.reserved_count + i.delta } in
    let dr : Distinct (skus_of reserved) = rw same is_read.distinct in
    let after : find_product i.sku reserved ≡ some new =
      sym (pointee-find i.sku reserved dr)
      ∙ at i.sku
      ∙ ap (λ o. Option.map (with_item (find_item i.sku items)) o) there
      ∙ ap (λ o. some (with_item o x)) one in
    let before : find_product i.sku read ≡ some x =
      sym (pointee-find i.sku read is_read.distinct) ∙ there in
    let small =
      wide_in reserved
        λ k c. read_wide items rows read k is_read wide (ap (contains k) (sym same) ∙ c) in
    let (e, found, (old, old_at, built)) =
      plan_events-event p headers prefix read reserved reserved events i.sku new range
        is_read.distinct dr small (All-find_item (λ j. j.sku < 2 ^ 64) i.sku items i wide one)
        planned after in
    let is_old : old ≡ x = ground (arith, old_at, before) in
    let tells : Tells p headers x new e =
      subst (λ y. Tells p headers y new e) is_old
        (IsBuilt-Tells p headers old new e (rw is_old (omega arith, word)) (room, word) built) in
    (
      r,
      row,
      e,
      found,
      subst
          (λ (y : Product).
            Tells p headers y (record y { reserved_count = y.reserved_count + i.delta }) e)
          is tells,
    )
