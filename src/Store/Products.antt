-- ===== src/Store/Products.antt =====
-- The product repository: internal/infra/database/repository/product.go.
pub mod Rows
pub mod Update
use marketplace_simulator_pr.Common.{
  ℕ, zero, suc, ◌+◌, ◌^◌, ◌≡◌, Bool, true, false, ◌&&◌, Option, none, some, List, [], ◌∷◌, map, ltb,
  ◌==◌, if◌then◌else◌, length, select, contains,
}
use marketplace_simulator_pr.Errors.{Error, optimistic_lock, plain, lit}
use marketplace_simulator_pr.Models.{Product}
use marketplace_simulator_pr.Store.World.{
  ProductRow, Tables, World, Platform, M, ◌>>=◌, ◌>>◌, pure, fail, wrapped, query, exec,
}

-- What the scan loop of `GetBySkus` makes of a row.
abbrev pub to_product : ProductRow → Product
to_product row = record {
  sku = row.sku;
  price = row.price;
  name = row.name;
  count = row.count;
  reserved_count = row.reserved_count;
  transaction_id = row.xmin;
}

-- `GetBySkus`. The code does not look at `rows.Err()`: rows that end early count as all rows.
unfoldable pub get_by_skus : Platform → List ℕ → M (List Product)
get_by_skus p skus = wrapped "ProductPgxRepository.GetBySkus" (do
  (rows, _) ← query p (λ t. select (λ r. contains r.sku skus) t.products)
  pure (map to_product rows))

abbrev pub first : List Product → Option Product
first [] = none
first (x ∷ _) = some x

-- `GetBySku`; the transaction id is ignored here.
unfoldable pub get_by_sku : Platform → ℕ → Option ℕ → M (Option Product)
get_by_sku p sku _ = do products ← get_by_skus p (sku ∷ []); pure (first products)

-- An INTEGER column holds up to 2^31 - 1, and the driver refuses a `uint32` beyond.
abbrev pub fits_integer : ℕ → Bool
fits_integer n = ltb n (2 ^ 31)

-- `WHERE sku = $1 AND xmin = $2`
abbrev pub is_version : Product → ProductRow → Bool
is_version x r = r.sku == x.sku && r.xmin == x.transaction_id

-- `SET count = $3, reserved_count = $4`, by transaction `xid`.
abbrev pub write_row : ℕ → Product → ProductRow → ProductRow
write_row xid x r =
    if is_version x r
    then (record r { count = x.count; reserved_count = x.reserved_count; xmin = xid })
    else r

unfoldable pub written : ℕ → Product → List ProductRow → List ProductRow
written xid x [] = []
written xid x (r ∷ rows) = write_row xid x r ∷ written xid x rows

unfoldable pub affected : Product → List ProductRow → ℕ
affected x rows = length (select (is_version x) rows)

abbrev pub write_products : Product → World → ℕ × World
write_products x w = (
  affected x w.products,
  record w { tables = record w.tables { products = written w.xid x w.products } },
)

-- One queued statement of the batch, and `tag.RowsAffected()`.
unfoldable pub update_one : Platform → Product → M ℕ
update_one p x =
    if fits_integer x.count && fits_integer x.reserved_count
    then exec p (write_products x)
    else fail (plain (lit "value is greater than maximum value for int4" ∷ []))

-- The loop over `results.Exec()`, with `affected` so far.
unfoldable pub update_batch : Platform → ℕ → List Product → M ℕ
update_batch p acc [] = pure acc
update_batch p acc (x ∷ xs) = do
  n ← wrapped "ProductPgxTxRepository.Update" (update_one p x)
  update_batch p (acc + n) xs

-- The test after the loop: a row that has another version by now makes the whole call fail.
unfoldable pub check_affected : List Product → ℕ → M (Unit {0})
check_affected products n =
    if n == length products
    then pure tt
    else wrapped "ProductPgxTxRepository.Update" (fail optimistic_lock)

-- `Update`
unfoldable pub update : Platform → List Product → M (Unit {0})
update p products = update_batch p 0 products >>= check_affected products
