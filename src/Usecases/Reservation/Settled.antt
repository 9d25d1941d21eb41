-- ===== src/Usecases/Reservation/Settled.antt =====
-- What `Release` and `Confirm` have in common: reservations are read and deleted, and the rows of
-- their SKUs are changed by what they come to.
use marketplace_simulator_pr.Common.{
  ℕ, ◌%◌, ◌^◌, ◌≡◌, refl, sym, ◌∙◌, ap, Bool, true, false, not, Option, none, List, [], ◌∷◌, arith,
  contains, select, Distinct, Map, keys, Bool-cases, inl, inr, ◌||◌, if◌then◌else◌,
}
use mathlib.Core.Option
use marketplace_simulator_pr.Errors.{ok}
use marketplace_simulator_pr.Models.{Product, Reservation}
use marketplace_simulator_pr.Store.World.{ProductRow, World, Platform, counted}
use marketplace_simulator_pr.Store.Products.{update, get_by_skus, to_product}
use marketplace_simulator_pr.Store.Products.Rows.{row_skus, skus_of, find_row, find_product}
use marketplace_simulator_pr.Store.Products.Update.{overwritten, update_writes}
use marketplace_simulator_pr.Store.Reservations.{get_by_ids, delete_by_ids}
use marketplace_simulator_pr.Usecases.Repository.{map_values}
use marketplace_simulator_pr.Usecases.Pointers.{pointee-find}
use marketplace_simulator_pr.Usecases.Reads.{HasWords, get_by_skus-IsRead, get_by_skus_complete}
use marketplace_simulator_pr.Usecases.Reservation.Settle.{sum_of, add_sums, settle_all}
use marketplace_simulator_pr.Usecases.Reservation.Sums.{
  total, is_reserved, sum_of-add_sums, contains-keys-add_sums, keys-add_sums-Distinct,
  skus-settle_all, pointee-settle_all, IsRange, find_product-map_values,
}

-- The row that a batch of settled products leaves.
settle_update :
    (p : Platform) (change : ℕ → Product → Product)
    (keeps : (d : ℕ) (x : Product) → (change d x).sku ≡ x.sku) (sums : Map ℕ) (read : List Product)
    (w w' : World) (k : ℕ)
    → IsRange p
    → Distinct (row_skus w.products)
    → Distinct (skus_of read)
    → update p (map_values p (settle_all change sums (skus_of read) read)) w ≡ (ok tt, w')
    → find_row k w'.products
      ≡ Option.map
          (overwritten w.xid (Option.map (change (sum_of k sums)) (find_product k read)))
          (find_row k w.products)
settle_update p change keeps sums read w w' k range dw dr h =
    let settled = settle_all change sums (skus_of read) read in
    let ds : Distinct (skus_of settled) =
      rw (skus-settle_all change keeps sums (skus_of read) read) dr in
    let (at, dv) = find_product-map_values p k settled range ds in
    let here : find_product k settled ≡ Option.map (change (sum_of k sums)) (find_product k read) =
      sym (pointee-find k settled ds)
      ∙ pointee-settle_all change keeps sums k (skus_of read) read dr
      ∙ rw (pointee-find k read dr) (if_absent k read (change (sum_of k sums))) in
    (update_writes p (map_values p settled) w w' k dw dv h).1
    ∙ ap (λ o. Option.map (overwritten w.xid o) (find_row k w.products)) (at ∙ here)
  where
    if_absent :
        (k : ℕ) (xs : List Product) (f : Product → Product)
        → (if contains k (skus_of xs) then Option.map f (find_product k xs) else find_product k xs)
          ≡ Option.map f (find_product k xs)
    if_absent k [] f = refl
    if_absent k (x ∷ xs) f = ground (arith, if_absent k xs f)

pub delete_by_ids-ok :
    (p : Platform) (ids : List ℕ) (w w' : World)
    → delete_by_ids p ids w ≡ (ok tt, w')
    → (w'.products ≡ w.products)
      × (w'.reservations ≡ select (λ r. not (contains r.id ids)) w.reservations)
unfolding delete_by_ids
delete_by_ids-ok p ids w w' h = (ground arith, ground arith)

or_false : (b : Bool) → (b || false) ≡ b
or_false true = refl
or_false false = refl

pub get_by_ids-ok :
    (p : Platform) (ids : List ℕ) (w w' : World) (rs : List Reservation)
    → p.cut w.calls ≡ none
    → get_by_ids p ids w ≡ (ok rs, w')
    → (rs ≡ select (λ r. contains r.id ids) w.reservations) × (w' ≡ counted w)
unfolding get_by_ids
get_by_ids-ok p ids w w' rs whole h = (ground arith, ground arith)

pub none_selected :
    (ids : List ℕ) (rs : List Reservation)
    → select (λ r. contains r.id ids) rs ≡ []
    → rs ≡ select (λ r. not (contains r.id ids)) rs
none_selected ids [] h = refl
none_selected ids (r ∷ rs) h = elim (Bool-cases (contains r.id ids)) [
  | inl picked ↦ absurd (ground arith)
  | inr passed ↦ ground (arith, none_selected ids rs)
]

-- `row_after` is what settling a product with `change` does to the row that the product was read
-- from: with `true` where the SKU has reservations to settle.
abbrev pub IsRowOf : (ℕ → Product → Product) → (ℕ → Bool → ℕ → ProductRow → ProductRow) → Type 0
IsRowOf change row_after =
    (xid d : ℕ) (touched : Bool) (row : Option ProductRow) (read : Option Product)
    → (touched ≡ true → read ≡ Option.map to_product row)
    → (touched ≡ false → read ≡ none)
    → Option.map (overwritten xid (Option.map (change d) read)) row
      ≡ Option.map (row_after xid touched d) row

-- The rows that an update leaves, of products that were read for the SKUs of `rs` and settled.
pub settled_read :
    (p : Platform) (change : ℕ → Product → Product)
    (row_after : ℕ → Bool → ℕ → ProductRow → ProductRow) (rs : List Reservation)
    (read : List Product) (w w₁ w₃ : World) (k : ℕ)
    → ((d : ℕ) (x : Product) → (change d x).sku ≡ x.sku)
    → IsRowOf change row_after
    → IsRange p
    → ((n : ℕ) → p.cut n ≡ none)
    → Distinct (row_skus w.products)
    → HasWords w.products
    → get_by_skus p (p.visit 2 (keys (add_sums rs []))) w ≡ (ok read, w₁)
    → update p (map_values p (settle_all change (add_sums rs []) (skus_of read) read)) (counted w₁)
      ≡ (ok tt, w₃)
    → (w₁ ≡ counted w)
      × (find_row k w₃.products
          ≡ Option.map
              (row_after w.xid (is_reserved k rs) (total k rs % (2 ^ 32)))
              (find_row k w.products))
settled_read p change row_after rs read w w₁ w₃ k keeps is_row range whole dw words asked wrote =
    let sums = add_sums rs [] in
    let skus = p.visit 2 (keys sums) in
    let (is_read, e₁, _) = get_by_skus-IsRead p skus w w₁ read dw words asked in
    let dw₁ : Distinct (row_skus w₁.products) = rw e₁ dw in
    let at =
      settle_update p change keeps sums read (counted w₁) w₃ k range dw₁ is_read.distinct wrote in
    let touched : contains k skus ≡ is_reserved k rs =
      (range 2 (keys sums) (keys-add_sums-Distinct rs [] tt)).1 k
      ∙ contains-keys-add_sums k rs []
      ∙ or_false (is_reserved k rs) in
    let row =
      is_row w.xid (sum_of k sums) (is_reserved k rs) (find_row k w.products) (find_product k read)
        (λ t. get_by_skus_complete p skus w w₁ read k (whole w.calls) asked (touched ∙ t))
        (λ t. sym (pointee-find k read is_read.distinct) ∙ is_read.asked k (touched ∙ t)) in
    let summed : sum_of k sums ≡ total k rs % (2 ^ 32) =
      omega (arith, sum_of-add_sums k rs [] (omega arith)) in
    (
      e₁,
      at
          ∙ ap
              (λ (v : World).
                Option.map
                  (overwritten v.xid (Option.map (change (sum_of k sums)) (find_product k read)))
                  (find_row k v.products))
              e₁
          ∙ row
          ∙ ap (λ d. Option.map (row_after w.xid (is_reserved k rs) d) (find_row k w.products))
              summed,
    )
