-- ===== src/Usecases/Product/Increased.antt =====
-- What an increase that succeeds has done to each row.
use marketplace_simulator_pr.Common.{
  ℕ, ◌≡◌, refl, sym, ◌∙◌, ap, true, false, Option, none, some, List, [], ◌∷◌, arith, ◌==◌,
  if◌then◌else◌, contains, Distinct, Bool-cases, inl, inr, ==→eq, subst,
}
use mathlib.Core.Option
use marketplace_simulator_pr.Errors.{ok}
use marketplace_simulator_pr.Models.{Product, NewEvent, add32}
use marketplace_simulator_pr.Events.{Headers}
use marketplace_simulator_pr.Store.World.{
  ProductRow, World, Platform, lift, wrapped, counted, ◌>>◌, >>=-ok, wrapped-ok,
}
use marketplace_simulator_pr.Store.Products.{update, get_by_skus, to_product}
use marketplace_simulator_pr.Store.Products.Rows.{row_skus, skus_of, find_row, find_product}
use marketplace_simulator_pr.Store.Products.Update.{overwritten, update_writes, update-ok}
use marketplace_simulator_pr.Store.Transactor.{in_transaction-ok}
use marketplace_simulator_pr.Usecases.Repository.{
  pointee, modify, map_values, create_updates, create_events, plan_events,
}
use marketplace_simulator_pr.Usecases.Pointers.{pointee-find, pointee-modify, skus-modify}
use marketplace_simulator_pr.Usecases.Outboxes.{create_updates-ok, create_events-ok}
use marketplace_simulator_pr.Usecases.Reads.{
  database, HasWords, get_by_skus-IsRead, get_by_skus_complete,
}
use marketplace_simulator_pr.Usecases.Reservation.Sums.{IsRange, find_product-map_values}
use marketplace_simulator_pr.Usecases.Product.{
  UpdateCount, update_skus, add_count, all_exist, validate_products_exist, increase_all,
  increase_tx, increase_plan, increase_commit, increase_with, increase_count,
}

abbrev pub find_update : ℕ → List UpdateCount → Option UpdateCount
find_update k [] = none
find_update k (u ∷ us) = if k == u.sku then some u else find_update k us

abbrev with_update : Option UpdateCount → Product → Product
with_update none x = x
with_update (some u) x = add_count u.delta x

-- What an increase does to the row of its SKU.
abbrev pub increased_row : ℕ → Option UpdateCount → ProductRow → ProductRow
increased_row xid none r = r
increased_row xid (some u) r = record r { count = add32 r.count u.delta; xmin = xid }

find_update_absent :
    (k : ℕ) (us : List UpdateCount) → contains k (update_skus us) ≡ false → find_update k us ≡ none
find_update_absent k [] h = refl
find_update_absent k (u ∷ us) h = ground (arith, find_update_absent k us)

skus-increase_all :
    (us : List UpdateCount) (xs : List Product) → skus_of (increase_all us xs) ≡ skus_of xs
unfolding increase_all
skus-increase_all [] xs = refl
skus-increase_all (u ∷ us) xs =
    skus-increase_all us (modify u.sku (add_count u.delta) xs)
    ∙ skus-modify u.sku (add_count u.delta) xs (λ x. refl)

pointee-increase_all :
    (k : ℕ) (us : List UpdateCount) (xs : List Product)
    → Distinct (update_skus us)
    → pointee k (increase_all us xs) ≡ Option.map (with_update (find_update k us)) (pointee k xs)
unfolding increase_all
pointee-increase_all k [] xs d = ground arith
pointee-increase_all k (u ∷ us) xs d =
    let ih = pointee-increase_all k us (modify u.sku (add_count u.delta) xs) d.1 in
    let one = pointee-modify k u.sku (add_count u.delta) xs (λ x. refl) in
    ih ∙ ground (arith, one, find_update_absent k us, ==→eq k u.sku)

-- A product that was read and increased, as the row that it is written to.
increased_at :
    (xid : ℕ) (o : Option UpdateCount) (row : Option ProductRow) (read : Option Product)
    → (o ≡ none → read ≡ none)
    → ((u : UpdateCount) → o ≡ some u → read ≡ Option.map to_product row)
    → Option.map (overwritten xid (Option.map (with_update o) read)) row
      ≡ Option.map (increased_row xid o) row
increased_at xid none none read miss hit = refl
increased_at xid none (some r) read miss hit = rw (miss refl) refl
increased_at xid (some u) none read miss hit = refl
increased_at xid (some u) (some r) read miss hit = rw (hit u refl) refl

contains-find_update :
    (k : ℕ) (us : List UpdateCount) (u : UpdateCount)
    → find_update k us ≡ some u
    → contains k (update_skus us) ≡ true
contains-find_update k [] u h = absurd (ground arith)
contains-find_update k (v ∷ us) u h = ground (arith, contains-find_update k us u)

absent_update :
    (k : ℕ) (us : List UpdateCount) → find_update k us ≡ none → contains k (update_skus us) ≡ false
absent_update k [] h = refl
absent_update k (u ∷ us) h = ground (arith, absent_update k us)

increase_tx-ok :
    (p : Platform) (us : List UpdateCount) (increased : List Product) (events : List NewEvent)
    (w w' : World)
    → increase_tx p us increased events w ≡ (ok tt, w')
    → (w₁ : World) × (update p (map_values p increased) w ≡ (ok tt, w₁))
      × (w'.products ≡ w₁.products)
      × (w'.reservations ≡ w.reservations)
unfolding increase_tx
increase_tx-ok p us increased events w w' h =
    let (_, w₁, h₁, k₁) =
      >>=-ok (wrapped "Execute" (update p (map_values p increased)))
        (λ _. create_events p events >> create_updates p (update_skus us)) w h in
    let (_, w₂, h₂, k₂) =
      >>=-ok (create_events p events) (λ _. create_updates p (update_skus us)) w₁ k₁ in
    let wrote = wrapped-ok "Execute" (update p (map_values p increased)) w h₁ in
    let after = (update-ok p (map_values p increased) w w₁ wrote).0 in
    let told = create_events-ok p events w₁ w₂ h₂ in
    let last = create_updates-ok p (update_skus us) w₂ w' k₂ in
    (
      w₁,
      wrote,
      ap (λ (v : World). v.products) last ∙ ap (λ (v : World). v.products) told,
      ap (λ (v : World). v.reservations) last
          ∙ ap (λ (v : World). v.reservations) told
          ∙ ap (λ (v : World). v.reservations) after,
    )

all_exist-ok :
    (skus : List ℕ) (existing found : List Product)
    → all_exist skus existing ≡ ok found
    → existing ≡ found
unfolding all_exist
all_exist-ok [] existing found h = ground arith
all_exist-ok (k ∷ skus) existing found h = elim (Bool-cases (contains k (skus_of existing))) [
  | inl there ↦ all_exist-ok skus existing found (ground arith)
  | inr missing ↦ absurd (ground arith)
]

validate_products_exist-ok :
    (p : Platform) (us : List UpdateCount) (w w' : World) (found : List Product)
    → validate_products_exist (database p) us w ≡ (ok found, w')
    → get_by_skus p (update_skus us) w ≡ (ok found, w')
unfolding validate_products_exist database
validate_products_exist-ok p us w w' found h =
    let (existing, w₁, h₁, k₁) =
      >>=-ok (wrapped "validateProductsExist" (get_by_skus p (update_skus us)))
        (λ existing. lift (all_exist (update_skus us) existing)) w h in
    let same : (all_exist (update_skus us) existing ≡ ok found) × (w₁ ≡ w') = ground arith in
    wrapped-ok "validateProductsExist" (get_by_skus p (update_skus us)) w h₁
    ∙ rw (all_exist-ok (update_skus us) existing found same.0, same.1) refl

increase_plan-ok :
    (p : Platform) (headers : Headers) (us : List UpdateCount) (existing increased : List Product)
    (events : List NewEvent)
    → increase_plan p headers us existing ≡ ok (increased, events)
    → increased ≡ increase_all us existing
unfolding increase_plan plan_events
increase_plan-ok p headers us existing increased events h = ground arith

-- The rows that an update leaves, of products that were read for the SKUs of `us` and increased.
increased_read :
    (p : Platform) (us : List UpdateCount) (read : List Product) (w w₁ w₃ : World) (k : ℕ)
    → IsRange p
    → p.cut w.calls ≡ none
    → Distinct (update_skus us)
    → Distinct (row_skus w.products)
    → HasWords w.products
    → get_by_skus p (update_skus us) w ≡ (ok read, w₁)
    → update p (map_values p (increase_all us read)) (counted w₁) ≡ (ok tt, w₃)
    → find_row k w₃.products
      ≡ Option.map (increased_row w.xid (find_update k us)) (find_row k w.products)
increased_read p us read w w₁ w₃ k range whole du dw words asked wrote =
    let (is_read, e₁, _) = get_by_skus-IsRead p (update_skus us) w w₁ read dw words asked in
    let increased = increase_all us read in
    let ds : Distinct (skus_of increased) = rw (skus-increase_all us read) is_read.distinct in
    let (at, dv) = find_product-map_values p k increased range ds in
    let here : find_product k increased
        ≡ Option.map (with_update (find_update k us)) (find_product k read) =
      sym (pointee-find k increased ds)
      ∙ pointee-increase_all k us read du
      ∙ ap (Option.map (with_update (find_update k us))) (pointee-find k read is_read.distinct) in
    let dw₁ : Distinct (row_skus w₁.products) = rw e₁ dw in
    (update_writes p (map_values p increased) (counted w₁) w₃ k dw₁ dv wrote).1
    ∙ ap (λ o. Option.map (overwritten w₁.xid o) (find_row k w₁.products)) (at ∙ here)
    ∙ ap
        (λ (v : World).
          Option.map
            (overwritten v.xid (Option.map (with_update (find_update k us)) (find_product k read)))
            (find_row k v.products))
        e₁
    ∙ increased_at w.xid (find_update k us) (find_row k w.products) (find_product k read)
        (λ e. sym (pointee-find k read is_read.distinct) ∙ is_read.asked k (absent_update k us e))
        λ u e.
          get_by_skus_complete p (update_skus us) w w₁ read k whole asked
            (contains-find_update k us u e)

-- An increase with the database's repository that succeeds, with no query cut short, each `range`
-- meeting every key once, updates with distinct SKUs, and rows with distinct SKUs and counts that
-- fit 32 bits: the count of the row of every update's SKU has grown by its delta, as `uint32`
-- addition has it, and the row has the transaction's version; every other row and the reservations
-- are as they were.
pub increase_count_grows :
    (p : Platform) (headers : Headers) (us : List UpdateCount) (w w' : World) (k : ℕ)
    → IsRange p
    → ((n : ℕ) → p.cut n ≡ none)
    → Distinct (update_skus us)
    → Distinct (row_skus w.products)
    → HasWords w.products
    → increase_count p (database p) headers us w ≡ (ok tt, w')
    → (find_row k w'.products
        ≡ Option.map (increased_row w.xid (find_update k us)) (find_row k w.products))
      × (w'.reservations ≡ w.reservations)
unfolding increase_count increase_with increase_commit
increase_count_grows p headers us w w' k range whole du dw words ran =
    let (read, w₁, h₁, k₁) =
      >>=-ok (wrapped "Execute" (validate_products_exist (database p) us))
        (increase_with p headers us) w ran in
    let asked =
      validate_products_exist-ok p us w w₁ read
        (wrapped-ok "Execute" (validate_products_exist (database p) us) w h₁) in
    let e₁ = (get_by_skus-IsRead p (update_skus us) w w₁ read dw words asked).1 in
    let ((increased, events), w₀, h₀, k₀) =
      >>=-ok (lift (increase_plan p headers us read)) (increase_commit p us) w₁ k₁ in
    let planned : (increase_plan p headers us read ≡ ok (increased, events)) × (w₁ ≡ w₀) =
      ground arith in
    let same = increase_plan-ok p headers us read increased events planned.0 in
    let (w₂, ran₂, e₂) = in_transaction-ok p (increase_tx p us increased events) w₀ k₀ in
    let (w₃, wrote, rows, left) = increase_tx-ok p us increased events (counted w₀) w₂ ran₂ in
    let wrote_increased =
      subst (λ v. update p (map_values p (increase_all us read)) (counted v) ≡ (ok tt, w₃))
        (sym planned.1)
        (subst (λ xs. update p (map_values p xs) (counted w₀) ≡ (ok tt, w₃)) same wrote) in
    (
      ap (λ (v : World). find_row k v.products) e₂
          ∙ ap (find_row k) rows
          ∙ increased_read p us read w w₁ w₃ k range (whole w.calls) du dw words asked
              wrote_increased,
      ap (λ (v : World). v.reservations) e₂
          ∙ left
          ∙ ap (λ (v : World). v.reservations) (sym planned.1 ∙ e₁),
    )
