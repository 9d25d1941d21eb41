-- ===== src/Usecases/Reads.antt =====
-- What a use case may take for granted of the products that it read, and that the database's own
-- repository delivers it.
use marketplace_simulator_pr.Common.{
  ℕ, true, ◌<◌, ◌≡◌, refl, false, none, some, List, [], ◌∷◌, map, arith, ◌==◌, contains, Distinct,
  select, take, All, Bool-cases, inl, inr, Option-cases, zero, suc, sym, ◌∙◌, subst, length, ==→eq,
}
use mathlib.Core.Option
use marketplace_simulator_pr.Errors.{ok}
use marketplace_simulator_pr.Models.{Product, u32_mod}
use marketplace_simulator_pr.Store.World.{ProductRow, World, Platform, counted}
use marketplace_simulator_pr.Store.Products.{get_by_skus, get_by_sku, to_product}
use marketplace_simulator_pr.Store.Products.Rows.{
  row_skus, skus_of, find_row, find_product, find_row_absent,
}
use marketplace_simulator_pr.Usecases.Repository.{ReadProductRepository, pointee}
use marketplace_simulator_pr.Usecases.Pointers.{pointee-find, pointee_absent}

-- The repository of the database, as the use cases see it.
unfoldable pub database : Platform → ReadProductRepository
database p = record { get_by_sku = get_by_sku p; get_by_skus = get_by_skus p }

-- Products that were read for `skus`: one at most for each SKU, none that was not asked for, with
-- `uint32` counts; and each with the counts of the row in `rows` whose version it carries.
pub record IsRead (skus : List ℕ) (rows : List ProductRow) (xs : List Product) : Type 0 where
  pub distinct : Distinct (skus_of xs)
  pub asked : (k : ℕ) → contains k skus ≡ false → pointee k xs ≡ none
  pub words : (k : ℕ) (x : Product) → pointee k xs ≡ some x → x.count < u32_mod
  pub honest :
      (k : ℕ) (x : Product) (r : ProductRow)
      → pointee k xs ≡ some x
      → find_row k rows ≡ some r
      → r.xmin ≡ x.transaction_id
      → (x.count ≡ r.count) × (x.reserved_count ≡ r.reserved_count)

-- Products that are what the scan makes of the rows of their SKUs.
abbrev pub AreFromRows : List ProductRow → List Product → Type 0
AreFromRows rows xs =
    (k : ℕ) (x : Product)
    → pointee k xs ≡ some x
    → (r : ProductRow) × (find_row k rows ≡ some r) × (x ≡ to_product r)

-- The counts of the table fit their columns.
abbrev pub HasWords : List ProductRow → Type 0
HasWords = All (λ r. r.count < u32_mod)

abbrev wanted : List ℕ → List ProductRow → List ProductRow
wanted skus = select (λ r. contains r.sku skus)

-- The rows that are selected and delivered are among the table's, in its order.
contains-wanted :
    (k : ℕ) (skus : List ℕ) (rows : List ProductRow)
    → contains k (row_skus rows) ≡ false
    → contains k (row_skus (wanted skus rows)) ≡ false
contains-wanted k skus [] h = refl
contains-wanted k skus (r ∷ rows) h = ground (arith, contains-wanted k skus rows)

wanted-Distinct :
    (skus : List ℕ) (rows : List ProductRow)
    → Distinct (row_skus rows)
    → Distinct (row_skus (wanted skus rows))
wanted-Distinct skus [] d = tt
wanted-Distinct skus (r ∷ rows) d =
    ground (arith, wanted-Distinct skus rows d.1, contains-wanted r.sku skus rows)

contains-take :
    (k n : ℕ) (rows : List ProductRow)
    → contains k (row_skus rows) ≡ false
    → contains k (row_skus (take n rows)) ≡ false
contains-take k zero rows h = refl
contains-take k (suc n) [] h = refl
contains-take k (suc n) (r ∷ rows) h = ground (arith, contains-take k n rows)

take-Distinct :
    (n : ℕ) (rows : List ProductRow) → Distinct (row_skus rows) → Distinct (row_skus (take n rows))
take-Distinct zero rows d = tt
take-Distinct (suc n) [] d = tt
take-Distinct (suc n) (r ∷ rows) d = (contains-take r.sku n rows d.0, take-Distinct n rows d.1)

-- A product found among those read is what the scan makes of the row of its SKU.
find_product-wanted :
    (k : ℕ) (skus : List ℕ) (rows : List ProductRow) (x : Product)
    → Distinct (row_skus rows)
    → find_product k (map to_product (wanted skus rows)) ≡ some x
    → (r : ProductRow) × (find_row k rows ≡ some r) × (x ≡ to_product r)
find_product-wanted k skus [] x d h = absurd (ground arith)
find_product-wanted k skus (r ∷ rows) x d h = elim (Bool-cases (k == r.sku)) [
  | inl here ↦ elim (Bool-cases (contains r.sku skus)) [
    | inl picked ↦ (r, ground arith, ground arith)
    | inr passed ↦
        let (q, there, e) = find_product-wanted k skus rows x d.1 (ground arith) in
        absurd (ground (arith, find_row_absent k rows))
  ]
  | inr later ↦
      let (q, there, e) = find_product-wanted k skus rows x d.1 (ground arith) in
      (q, ground arith, e)
]

find_product-take :
    (k n : ℕ) (rows : List ProductRow) (x : Product)
    → find_product k (map to_product (take n rows)) ≡ some x
    → find_product k (map to_product rows) ≡ some x
find_product-take k zero rows x h = absurd (ground arith)
find_product-take k (suc n) [] x h = h
find_product-take k (suc n) (r ∷ rows) x h = ground (arith, find_product-take k n rows x)

skus-to_product : (rows : List ProductRow) → skus_of (map to_product rows) ≡ row_skus rows
skus-to_product [] = refl
skus-to_product (r ∷ rows) = ground (arith, skus-to_product rows)

unasked :
    (k : ℕ) (skus : List ℕ) (rows : List ProductRow)
    → contains k skus ≡ false
    → contains k (row_skus (wanted skus rows)) ≡ false
unasked k skus [] h = refl
unasked k skus (r ∷ rows) h = elim (Bool-cases (k == r.sku)) [
  | inl here ↦
      let e : k ≡ r.sku = ==→eq k r.sku here in
      let no_r : contains r.sku skus ≡ false = rw (← e) h in rw no_r (unasked k skus rows h)
  | inr later ↦ ground (arith, unasked k skus rows h)
]

words_at :
    (k : ℕ) (rows : List ProductRow) (r : ProductRow)
    → HasWords rows
    → find_row k rows ≡ some r
    → r.count < u32_mod
words_at k [] r h e = absurd (ground arith)
words_at k (q ∷ rows) r h e = ground (arith, words_at k rows r h.1)

module _ (skus : List ℕ) (rows : List ProductRow) (d : Distinct (row_skus rows))
    (words : HasWords rows) (n : ℕ) where
  -- The products of the first `n` rows that a query for `skus` selects.
  abbrev some_read : List Product
  some_read = map to_product (take n (wanted skus rows))

  some_read-Distinct : Distinct (skus_of some_read)
  some_read-Distinct =
      rw skus-to_product (take-Distinct n (wanted skus rows) (wanted-Distinct skus rows d))

  pub from_row : AreFromRows rows some_read
  from_row k x e = find_product-wanted k skus rows x d (
      find_product-take k n (wanted skus rows) x
        (sym (pointee-find k some_read some_read-Distinct) ∙ e))

  pub some_read-IsRead : IsRead skus rows some_read
  some_read-IsRead = record {
    distinct = some_read-Distinct;
    asked = λ k h.
        pointee_absent k some_read
          (rw skus-to_product (contains-take k n (wanted skus rows) (unasked k skus rows h)));
    words =
        λ k x e. let (r, there, same) = from_row k x e in rw same (words_at k rows r words there);
    honest =
        λ k x r e there v. let (q, there', same) = from_row k x e in (ground arith, ground arith);
  }

take_all {ℓ} : {A : Type ℓ} (xs : List A) → take (length xs) xs ≡ xs
take_all [] = refl
take_all (x ∷ xs) = rw (take_all xs)

-- Whatever `GetBySkus` returns was read from the table as it stands, also when the rows ended
-- early; and reading changes no table.
pub get_by_skus-IsRead :
    (p : Platform) (skus : List ℕ) (w w' : World) (xs : List Product)
    → Distinct (row_skus w.products)
    → HasWords w.products
    → get_by_skus p skus w ≡ (ok xs, w')
    → IsRead skus w.products xs × (w' ≡ counted w) × AreFromRows w.products xs
unfolding get_by_skus
get_by_skus-IsRead p skus w w' xs d words h =
    let (n, e, ew) = rows_read in
    (
      subst (IsRead skus w.products) (sym e) (some_read-IsRead skus w.products d words n),
      ew,
      subst (AreFromRows w.products) (sym e) (from_row skus w.products d words n),
    )
  where
    all : List ProductRow
    all = wanted skus w.products

    rows_read : (n : ℕ) × (xs ≡ map to_product (take n all)) × (w' ≡ counted w)
    rows_read = elim (Option-cases (p.cut w.calls)) [
      | inl whole ↦ (length all, rw take_all (ground arith), ground arith)
      | inr ((n, m), early) ↦ (n, ground arith, ground arith)
    ]

wanted-find :
    (k : ℕ) (skus : List ℕ) (rows : List ProductRow)
    → contains k skus ≡ true
    → find_product k (map to_product (wanted skus rows)) ≡ Option.map to_product (find_row k rows)
wanted-find k skus [] h = refl
wanted-find k skus (r ∷ rows) h =
    let ih = wanted-find k skus rows h in
    elim (Bool-cases (k == r.sku)) [
      | inl here ↦
          let picked : contains r.sku skus ≡ true = rw (← ==→eq k r.sku here) h in
          ground (arith, picked)
      | inr later ↦ ground (arith, ih)
    ]

-- When no rows are lost, `GetBySkus` has every row that it was asked for.
pub get_by_skus_complete :
    (p : Platform) (skus : List ℕ) (w w' : World) (xs : List Product) (k : ℕ)
    → p.cut w.calls ≡ none
    → get_by_skus p skus w ≡ (ok xs, w')
    → contains k skus ≡ true
    → find_product k xs ≡ Option.map to_product (find_row k w.products)
unfolding get_by_skus
get_by_skus_complete p skus w w' xs k whole h c =
    let all : xs ≡ map to_product (wanted skus w.products) = ground arith in
    rw all (wanted-find k skus w.products c)
