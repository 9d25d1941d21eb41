-- ===== src/Store/Products/Rows.antt =====
-- Looking up rows and products by SKU, and what one UPDATE statement does to a lookup.
use marketplace_simulator_pr.Common.{
  ℕ, ◌≡◌, refl, false, Option, none, some, List, [], ◌∷◌, arith, ◌==◌, if◌then◌else◌, contains,
  Distinct,
}
use marketplace_simulator_pr.Models.{Product}
use marketplace_simulator_pr.Store.World.{ProductRow}
use marketplace_simulator_pr.Store.Products.{write_row, written, affected}
use mathlib.Core.Option

abbrev pub row_skus : List ProductRow → List ℕ
row_skus [] = []
row_skus (r ∷ rows) = r.sku ∷ row_skus rows

abbrev pub skus_of : List Product → List ℕ
skus_of [] = []
skus_of (x ∷ xs) = x.sku ∷ skus_of xs

abbrev pub find_row : ℕ → List ProductRow → Option ProductRow
find_row k [] = none
find_row k (r ∷ rows) = if k == r.sku then some r else find_row k rows

abbrev pub find_product : ℕ → List Product → Option Product
find_product k [] = none
find_product k (x ∷ xs) = if k == x.sku then some x else find_product k xs

pub row_skus-written :
    (xid : ℕ) (x : Product) (rows : List ProductRow) → row_skus (written xid x rows) ≡ row_skus rows
unfolding written
row_skus-written xid x [] = refl
row_skus-written xid x (r ∷ rows) = ground (arith, row_skus-written xid x rows)

pub find_row-written :
    (k xid : ℕ) (x : Product) (rows : List ProductRow)
    → find_row k (written xid x rows) ≡ Option.map (write_row xid x) (find_row k rows)
unfolding written
find_row-written k xid x [] = refl
find_row-written k xid x (r ∷ rows) = ground (arith, find_row-written k xid x rows)

pub find_row_absent :
    (k : ℕ) (rows : List ProductRow) → contains k (row_skus rows) ≡ false → find_row k rows ≡ none
find_row_absent k [] h = refl
find_row_absent k (r ∷ rows) h = ground (arith, find_row_absent k rows)

pub find_row_sku :
    (k : ℕ) (rows : List ProductRow) (r : ProductRow) → find_row k rows ≡ some r → r.sku ≡ k
find_row_sku k [] r h = cc
find_row_sku k (y ∷ rows) r h = ground (arith, find_row_sku k rows r)

-- How many rows a statement changes, read off the row that the SKU has.
abbrev pub matched : Product → Option ProductRow → ℕ
matched x none = 0
matched x (some r) = if r.xmin == x.transaction_id then 1 else 0

affected_absent :
    (x : Product) (rows : List ProductRow)
    → contains x.sku (row_skus rows) ≡ false
    → affected x rows ≡ 0
unfolding affected
affected_absent x [] h = refl
affected_absent x (r ∷ rows) h = ground (arith, affected_absent x rows)

pub affected-matched :
    (x : Product) (rows : List ProductRow)
    → Distinct (row_skus rows)
    → affected x rows ≡ matched x (find_row x.sku rows)
unfolding affected
affected-matched x [] d = refl
affected-matched x (r ∷ rows) d =
    ground (arith, affected-matched x rows d.1, affected_absent x rows)
