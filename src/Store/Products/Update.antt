-- ===== src/Store/Products/Update.antt =====
-- What a successful `Update` has done: every product was written over the very version that it was
-- read from, and no other row was touched.
use marketplace_simulator_pr.Common.{
  ℕ, ◌+◌, ◌<◌, ◌≤◌, ◌^◌, ◌≡◌, refl, ◌≢◌, inl, inr, Option-cases, false, Option, some, none, List,
  [], ◌∷◌, arith, ◌==◌, if◌then◌else◌, contains, Distinct, All, length,
}
use mathlib.Core.Option
use marketplace_simulator_pr.Errors.{ok}
use marketplace_simulator_pr.Models.{Product}
use marketplace_simulator_pr.Store.World.{ProductRow, World, Platform, wrapped, >>=-ok, wrapped-ok}
use marketplace_simulator_pr.Store.Products.{
  written, affected, update_one, update_batch, update, check_affected,
}
use marketplace_simulator_pr.Store.Products.Rows.{
  row_skus, skus_of, find_row, find_product, row_skus-written, find_row-written, find_row_sku,
  matched, affected-matched,
}

-- The batch on the rows alone.
unfoldable pub written_all : ℕ → List Product → List ProductRow → List ProductRow
written_all xid [] rows = rows
written_all xid (x ∷ xs) rows = written_all xid xs (written xid x rows)

unfoldable pub affected_all : ℕ → List Product → List ProductRow → ℕ
affected_all xid [] rows = 0
affected_all xid (x ∷ xs) rows = affected x rows + affected_all xid xs (written xid x rows)

abbrev pub Fits : Product → Type 0
Fits x = (x.count < 2 ^ 31) × (x.reserved_count < 2 ^ 31)

-- The world after the batch.
abbrev pub after_batch : List Product → World → World
after_batch xs w = record w {
  tables = record w.tables { products = written_all w.xid xs w.products };
  calls = w.calls + length xs;
}

update_one-ok :
    (p : Platform) (x : Product) (w w' : World) (n : ℕ)
    → update_one p x w ≡ (ok n, w')
    → (n ≡ affected x w.products)
      × (w' ≡ record w {
        tables = record w.tables { products = written w.xid x w.products };
        calls = w.calls + 1;
      })
      × Fits x
unfolding update_one
update_one-ok p x w w' n h = ground arith

update_batch-ok :
    (p : Platform) (acc : ℕ) (xs : List Product) (w w' : World) (n : ℕ)
    → update_batch p acc xs w ≡ (ok n, w')
    → (n ≡ acc + affected_all w.xid xs w.products) × (w' ≡ after_batch xs w) × All Fits xs
unfolding update_batch affected_all written_all
update_batch-ok p acc [] w w' n h = ground arith
update_batch-ok p acc (x ∷ xs) w w' n h =
    let (m, w₁, e, k) =
      >>=-ok (wrapped "ProductPgxTxRepository.Update" (update_one p x))
        (λ m. update_batch p (acc + m) xs) w h in
    let (em, ew, fits) = update_one-ok p x w w₁ m (wrapped-ok _ (update_one p x) w e) in
    let (en, ew', rest) = update_batch-ok p (acc + m) xs w₁ w' n k in
    (rw (en, em, ew) (omega arith), rw (ew', ew) (ground arith), (fits, rest))

-- A successful `Update` changed as many rows as it was given products, and wrote all of them.
pub update-ok :
    (p : Platform) (xs : List Product) (w w' : World)
    → update p xs w ≡ (ok tt, w')
    → (w' ≡ after_batch xs w) × (affected_all w.xid xs w.products ≡ length xs) × All Fits xs
unfolding update check_affected
update-ok p xs w w' h =
    let (n, w₁, e, k) = >>=-ok (update_batch p 0 xs) (check_affected xs) w h in
    let (en, ew, fits) = update_batch-ok p 0 xs w w₁ n e in (ground arith, ground arith, fits)

-- The row that a product was read from is still there.
abbrev pub IsCurrent : Product → List ProductRow → Type 0
IsCurrent x rows = (r : ProductRow) × (find_row x.sku rows ≡ some r) × (r.xmin ≡ x.transaction_id)

affected_all-le :
    (xid : ℕ) (xs : List Product) (rows : List ProductRow)
    → Distinct (row_skus rows)
    → affected_all xid xs rows ≤ length xs
unfolding affected_all
affected_all-le xid [] rows d = omega arith
affected_all-le xid (x ∷ xs) rows d = ground (
  arith,
  affected-matched x rows d,
  affected_all-le xid xs (written xid x rows) (rw row_skus-written d),
)

IsCurrent-one :
    (x : Product) (rows : List ProductRow) → matched x (find_row x.sku rows) ≡ 1 → IsCurrent x rows
IsCurrent-one x rows h = elim (Option-cases (find_row x.sku rows)) [
  | inl e ↦ absurd (ground arith)
  | inr (r, e) ↦ (r, e, ground arith)
]

-- Writing one product does not change which version another SKU has.
IsCurrent-written :
    (xid : ℕ) (x y : Product) (rows : List ProductRow)
    → y.sku ≢ x.sku
    → IsCurrent y (written xid x rows)
    → IsCurrent y rows
IsCurrent-written xid x y rows ne (r, e, v) = elim (Option-cases (find_row y.sku rows)) [
  | inl none_there ↦ absurd (ground (arith, find_row-written y.sku xid x rows))
  | inr (q, there) ↦
      (q, there, ground (arith, find_row-written y.sku xid x rows, find_row_sku y.sku rows q there))
]

All-apart :
    (xid : ℕ) (x : Product) (xs : List Product) (rows : List ProductRow)
    → contains x.sku (skus_of xs) ≡ false
    → All (λ y. IsCurrent y (written xid x rows)) xs
    → All (λ y. IsCurrent y rows) xs
All-apart xid x [] rows h c = tt
All-apart xid x (y ∷ xs) rows h c =
    (IsCurrent-written xid x y rows (ground arith) c.0, All-apart xid x xs rows (ground arith) c.1)

-- When every statement of the batch has changed a row, each product was current at the start.
affected_all-IsCurrent :
    (xid : ℕ) (xs : List Product) (rows : List ProductRow)
    → Distinct (row_skus rows)
    → Distinct (skus_of xs)
    → affected_all xid xs rows ≡ length xs
    → All (λ x. IsCurrent x rows) xs
unfolding affected_all
affected_all-IsCurrent xid [] rows d dx h = tt
affected_all-IsCurrent xid (x ∷ xs) rows d dx h =
    let d' : Distinct (row_skus (written xid x rows)) = rw row_skus-written d in
    let bound = affected_all-le xid xs (written xid x rows) d' in
    let one = affected-matched x rows d in
    (
      IsCurrent-one x rows (ground arith),
      All-apart xid x xs rows dx.0
          (affected_all-IsCurrent xid xs (written xid x rows) d' dx.1 (ground arith)),
    )

-- The row that SKU `k` has after the batch.
abbrev pub overwritten : ℕ → Option Product → ProductRow → ProductRow
overwritten xid none r = r
overwritten xid (some x) r = record r {
  count = x.count;
  reserved_count = x.reserved_count;
  xmin = xid;
}

find_product_absent :
    (k : ℕ) (xs : List Product) → contains k (skus_of xs) ≡ false → find_product k xs ≡ none
find_product_absent k [] h = refl
find_product_absent k (x ∷ xs) h = ground (arith, find_product_absent k xs)

find_row-one :
    (k xid : ℕ) (x : Product) (rows : List ProductRow)
    → IsCurrent x rows
    → find_row k (written xid x rows)
      ≡ Option.map (overwritten xid (if k == x.sku then some x else none)) (find_row k rows)
find_row-one k xid x rows (r, e, v) = elim (Option-cases (find_row k rows)) [
  | inl none_there ↦ rw (find_row-written, none_there)
  | inr (q, there) ↦
      rw (find_row-written, there)
        (ground (arith, find_row_sku x.sku rows r e, find_row_sku k rows q there))
]

-- Writing one product leaves the rows of the other SKUs current.
IsCurrent-kept :
    (xid : ℕ) (x y : Product) (rows : List ProductRow)
    → y.sku ≢ x.sku
    → IsCurrent y rows
    → IsCurrent y (written xid x rows)
IsCurrent-kept xid x y rows ne (r, e, v) =
    (r, rw (find_row-written, e) (ground (arith, find_row_sku y.sku rows r e)), v)

All-kept :
    (xid : ℕ) (x : Product) (xs : List Product) (rows : List ProductRow)
    → contains x.sku (skus_of xs) ≡ false
    → All (λ y. IsCurrent y rows) xs
    → All (λ y. IsCurrent y (written xid x rows)) xs
All-kept xid x [] rows h c = tt
All-kept xid x (y ∷ xs) rows h c =
    (IsCurrent-kept xid x y rows (ground arith) c.0, All-kept xid x xs rows (ground arith) c.1)

pub find_row-written_all :
    (k xid : ℕ) (xs : List Product) (rows : List ProductRow)
    → Distinct (skus_of xs)
    → All (λ x. IsCurrent x rows) xs
    → find_row k (written_all xid xs rows)
      ≡ Option.map (overwritten xid (find_product k xs)) (find_row k rows)
unfolding written_all
find_row-written_all k xid [] rows d c = ground arith
find_row-written_all k xid (x ∷ xs) rows d c =
    let ih =
      find_row-written_all k xid xs (written xid x rows) d.1 (All-kept xid x xs rows d.0 c.1) in
    let one = find_row-one k xid x rows c.0 in ground (arith, ih, one, find_product_absent k xs)

-- A call of `Update` that succeeds, on products with distinct SKUs and rows with distinct SKUs,
-- found the row of every one of them at the version that the product carries; afterwards each of
-- those rows has the product's counts and the transaction's id, and the row of every other SKU is
-- as it was.
pub update_writes :
    (p : Platform) (xs : List Product) (w w' : World) (k : ℕ)
    → Distinct (row_skus w.products)
    → Distinct (skus_of xs)
    → update p xs w ≡ (ok tt, w')
    → All (λ x. IsCurrent x w.products) xs
      × (find_row k w'.products
          ≡ Option.map (overwritten w.xid (find_product k xs)) (find_row k w.products))
update_writes p xs w w' k d dx h =
    let (ew, en, fits) = update-ok p xs w w' h in
    let current = affected_all-IsCurrent w.xid xs w.products d dx en in
    (current, rw ew (find_row-written_all k w.xid xs w.products dx current))
