-- ===== src/Usecases/Reservation/Confirmed.antt =====
-- What a confirmation that succeeds has done to each row.
use marketplace_simulator_pr.Common.{
  ℕ, ◌%◌, ◌^◌, ◌≡◌, refl, sym, ◌∙◌, ap, Bool, true, false, not, Option, none, some, List, [], ◌∷◌,
  arith, contains, select, Distinct, keys,
}
use mathlib.Core.Option
use marketplace_simulator_pr.Errors.{ok}
use marketplace_simulator_pr.Models.{Product, Reservation, sub32}
use marketplace_simulator_pr.Store.World.{
  ProductRow, World, Platform, wrapped, counted, ◌>>◌, >>=-ok, wrapped-ok,
}
use marketplace_simulator_pr.Store.Products.{update, get_by_skus}
use marketplace_simulator_pr.Store.Products.Rows.{row_skus, skus_of, find_row}
use marketplace_simulator_pr.Store.Products.Update.{update-ok}
use marketplace_simulator_pr.Store.Reservations.{get_by_ids, delete_by_ids}
use marketplace_simulator_pr.Store.Transactor.{in_transaction-ok}
use marketplace_simulator_pr.Usecases.Repository.{map_values, create_updates}
use marketplace_simulator_pr.Usecases.Outboxes.{create_updates-ok}
use marketplace_simulator_pr.Usecases.Reads.{database, HasWords}
use marketplace_simulator_pr.Usecases.Reservation.Settled.{
  IsRowOf, settled_read, delete_by_ids-ok, get_by_ids-ok, none_selected,
}
use marketplace_simulator_pr.Usecases.Reservation.Settle.{
  add_sums, settle_all, confirm_one, confirm_tx, confirm_with, confirm_found, confirm_any, confirm,
}
use marketplace_simulator_pr.Usecases.Reservation.Sums.{total, is_reserved, IsRange}

-- The row of a SKU that had reservations of `d` in all among those that were confirmed.
abbrev pub confirmed_row : ℕ → Bool → ℕ → ProductRow → ProductRow
confirmed_row xid false d r = r
confirmed_row xid true d r = record r {
  count = sub32 r.count d;
  reserved_count = sub32 r.reserved_count d;
  xmin = xid;
}

confirm_tx-ok :
    (p : Platform) (ids skus : List ℕ) (settled : List Product) (w w' : World)
    → confirm_tx p ids skus settled w ≡ (ok tt, w')
    → (w₁ : World) × (update p (map_values p settled) w ≡ (ok tt, w₁))
      × (w'.products ≡ w₁.products)
      × (w'.reservations ≡ select (λ r. not (contains r.id ids)) w.reservations)
unfolding confirm_tx
confirm_tx-ok p ids skus settled w w' h =
    let (_, w₁, h₁, k₁) =
      >>=-ok (wrapped "Execute" (update p (map_values p settled)))
        (λ _. wrapped "Execute" (delete_by_ids p ids) >> create_updates p skus) w h in
    let (_, w₂, h₂, k₂) =
      >>=-ok (wrapped "Execute" (delete_by_ids p ids)) (λ _. create_updates p skus) w₁ k₁ in
    let last = create_updates-ok p skus w₂ w' k₂ in
    let written = wrapped-ok "Execute" (update p (map_values p settled)) w h₁ in
    let after = (update-ok p (map_values p settled) w w₁ written).0 in
    let deleted = wrapped-ok "Execute" (delete_by_ids p ids) w₁ h₂ in
    let (rows, left) = delete_by_ids-ok p ids w₁ w₂ deleted in
    (
      w₁,
      written,
      ap (λ (v : World). v.products) last ∙ rows,
      ap (λ (v : World). v.reservations) last
          ∙ left
          ∙ ap (λ (v : World). select (λ r. not (contains r.id ids)) v.reservations) after,
    )

confirm_one_sku : (d : ℕ) (x : Product) → (confirm_one d x).sku ≡ x.sku
confirm_one_sku d x = refl

-- A product that was read and settled, as the row that it is written to.
confirmed_at : IsRowOf confirm_one confirmed_row
confirmed_at xid d true none read hit miss = refl
confirmed_at xid d true (some r) read hit miss = rw (hit refl) refl
confirmed_at xid d false none read hit miss = refl
confirmed_at xid d false (some r) read hit miss = rw (miss refl) refl

confirm_found_settles :
    (p : Platform) (ids : List ℕ) (rs : List Reservation) (w w' : World) (k : ℕ)
    → IsRange p
    → ((n : ℕ) → p.cut n ≡ none)
    → Distinct (row_skus w.products)
    → HasWords w.products
    → confirm_found p (database p) ids (add_sums rs []) w ≡ (ok tt, w')
    → (find_row k w'.products
        ≡ Option.map
            (confirmed_row w.xid (is_reserved k rs) (total k rs % (2 ^ 32)))
            (find_row k w.products))
      × (w'.reservations ≡ select (λ r. not (contains r.id ids)) w.reservations)
unfolding confirm_found confirm_with database
confirm_found_settles p ids rs w w' k range whole dw words ran =
    let sums = add_sums rs [] in
    let skus = p.visit 2 (keys sums) in
    let (read, w₁, h₁, k₁) =
      >>=-ok (wrapped "ConfirmUseCase.Execute" (get_by_skus p skus)) (confirm_with p ids sums) w
        ran in
    let settled = settle_all confirm_one sums (skus_of read) read in
    let (w₂, ran₂, e₂) =
      in_transaction-ok p (confirm_tx p ids (p.visit 3 (keys sums)) settled) w₁ k₁ in
    let (w₃, wrote, rows, left) =
      confirm_tx-ok p ids (p.visit 3 (keys sums)) settled (counted w₁) w₂ ran₂ in
    let (e₁, at) =
      settled_read p confirm_one confirmed_row rs read w w₁ w₃ k confirm_one_sku confirmed_at range
        whole dw words (wrapped-ok "ConfirmUseCase.Execute" (get_by_skus p skus) w h₁) wrote in
    (
      ap (λ (v : World). find_row k v.products) e₂ ∙ ap (find_row k) rows ∙ at,
      ap (λ (v : World). v.reservations) e₂
          ∙ left
          ∙ ap (λ (v : World). select (λ r. not (contains r.id ids)) v.reservations) e₁,
    )

untouched_row :
    (xid d : ℕ) (row : Option ProductRow) → row ≡ Option.map (confirmed_row xid false d) row
untouched_row xid d none = refl
untouched_row xid d (some r) = refl

confirm_any_settles :
    (p : Platform) (ids : List ℕ) (rs : List Reservation) (w w' : World) (k : ℕ)
    → IsRange p
    → ((n : ℕ) → p.cut n ≡ none)
    → Distinct (row_skus w.products)
    → HasWords w.products
    → select (λ r. contains r.id ids) w.reservations ≡ rs
    → confirm_any p (database p) ids rs w ≡ (ok tt, w')
    → (find_row k w'.products
        ≡ Option.map
            (confirmed_row w.xid (is_reserved k rs) (total k rs % (2 ^ 32)))
            (find_row k w.products))
      × (w'.reservations ≡ select (λ r. not (contains r.id ids)) w.reservations)
unfolding confirm_any
confirm_any_settles p ids [] w w' k range whole dw words picked ran =
    let same : w' ≡ w = ground arith in
    (
      ap (λ (v : World). find_row k v.products) same
          ∙ untouched_row w.xid (total k [] % (2 ^ 32)) (find_row k w.products),
      ap (λ (v : World). v.reservations) same ∙ none_selected ids w.reservations picked,
    )
confirm_any_settles p ids (r ∷ rs) w w' k range whole dw words picked ran =
    confirm_found_settles p ids (r ∷ rs) w w' k range whole dw words ran

-- A confirmation with the database's repository that succeeds, with no query cut short, each
-- `range` meeting every key once, and rows with distinct SKUs and counts that fit 32 bits: take
-- the reservations with the given ids. The row of a SKU that has some of them loses what they come
-- to from both its counts, and gets the transaction's version; every other row is as it was; and
-- exactly those reservations are gone.
pub confirm_settles :
    (p : Platform) (ids : List ℕ) (w w' : World) (k : ℕ)
    → IsRange p
    → ((n : ℕ) → p.cut n ≡ none)
    → Distinct (row_skus w.products)
    → HasWords w.products
    → confirm p (database p) ids w ≡ (ok tt, w')
    → let rs = select (λ r. contains r.id ids) w.reservations in
      (find_row k w'.products
        ≡ Option.map
            (confirmed_row w.xid (is_reserved k rs) (total k rs % (2 ^ 32)))
            (find_row k w.products))
      × (w'.reservations ≡ select (λ r. not (contains r.id ids)) w.reservations)
unfolding confirm
confirm_settles p ids w w' k range whole dw words ran =
    let (rs, w₁, h₁, k₁) =
      >>=-ok (wrapped "ConfirmUseCase.Execute" (get_by_ids p ids)) (confirm_any p (database p) ids)
        w ran in
    let (found, e₁) =
      get_by_ids-ok p ids w w₁ rs (whole w.calls)
        (wrapped-ok "ConfirmUseCase.Execute" (get_by_ids p ids) w h₁) in
    let (rows, left) =
      confirm_any_settles p ids rs w₁ w' k range whole (rw e₁ dw) (rw e₁ words)
        (ap (λ (v : World). select (λ r. contains r.id ids) v.reservations) e₁ ∙ sym found) k₁ in
    (
      rows
          ∙ ap
              (λ (v : World).
                Option.map (confirmed_row v.xid (is_reserved k rs) (total k rs % (2 ^ 32)))
                  (find_row k v.products))
              e₁
          ∙ ap
              (λ rs.
                Option.map (confirmed_row w.xid (is_reserved k rs) (total k rs % (2 ^ 32)))
                  (find_row k w.products))
              found,
      left ∙ ap (λ (v : World). select (λ r. not (contains r.id ids)) v.reservations) e₁,
    )
