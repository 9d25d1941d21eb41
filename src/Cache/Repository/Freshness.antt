-- ===== src/Cache/Repository/Freshness.antt =====
-- What a reader of `CachedProductRepository` can rely on.
use marketplace_simulator_pr.Common.{
  ℕ, ◌≤◌, ◌≡◌, refl, sym, ◌∙◌, Bool, true, false, Option, none, some, List, [], ◌∷◌, arith, inl,
  inr, Option-cases, Bool-cases, contains, Distinct, ◌==◌, ==→eq, ◌++◌, ap,
}
use marketplace_simulator_pr.Errors.{ok}
use marketplace_simulator_pr.Models.{Product}
use marketplace_simulator_pr.Store.World.{
  ProductRow, World, Tables, Platform, M, pure, ◌>>=◌, ◌>>◌, >>=-ok,
}
use marketplace_simulator_pr.Store.Products.{get_by_sku, get_by_skus, first, to_product}
use marketplace_simulator_pr.Store.Products.Rows.{row_skus, skus_of, find_row, find_product}
use marketplace_simulator_pr.Usecases.Repository.{ReadProductRepository, pointee}
use marketplace_simulator_pr.Usecases.Pointers.{pointee-find}
use marketplace_simulator_pr.Usecases.Atomic.{IsReadOnly, ReadsOnly, bind-IsReadOnly}
use marketplace_simulator_pr.Usecases.Reads.{database, HasWords, get_by_skus-IsRead}
use marketplace_simulator_pr.Cache.Redis.{Json, cache_get}
use marketplace_simulator_pr.Cache.Repository.{
  or_miss, usable, remember, from_db, or_from_db, cached_get_by_sku, look_up, add_missed,
  cached_get_by_skus, cached, sort_out, spawn_sets,
}

first-pointee :
    (sku : ℕ) (xs : List Product) (x : Product)
    → first xs ≡ some x
    → Distinct (skus_of xs)
    → ((k : ℕ) → contains k (sku ∷ []) ≡ false → pointee k xs ≡ none)
    → pointee sku xs ≡ some x
first-pointee sku [] x h d asked = absurd (ground arith)
first-pointee sku (y ∷ ys) x h d asked =
    let here : find_product y.sku (y ∷ ys) ≡ some y = ground arith in
    let found = pointee-find y.sku (y ∷ ys) d ∙ here in
    elim (Bool-cases (y.sku == sku)) [
      | inl same ↦ ground (arith, found, ==→eq y.sku sku same)
      | inr other ↦ absurd (ground (arith, found, asked y.sku (ground arith)))
    ]

-- The first product read for one SKU is what the scan makes of its row.
pub get_by_sku-from_row :
    (p : Platform) (sku : ℕ) (tx : Option ℕ) (w w' : World) (x : Product)
    → Distinct (row_skus w.products)
    → HasWords w.products
    → get_by_sku p sku tx w ≡ (ok (some x), w')
    → (r : ProductRow) × (find_row sku w.products ≡ some r) × (x ≡ to_product r)
unfolding get_by_sku
get_by_sku-from_row p sku tx w w' x d words h =
    let (xs, w₁, h₁, k₁) =
      >>=-ok (get_by_skus p (sku ∷ [])) (λ products. pure (first products)) w h in
    let (read, _, rows) = get_by_skus-IsRead p (sku ∷ []) w w₁ xs d words h₁ in
    let head : first xs ≡ some x = ground arith in
    rows sku x (first-pointee sku xs x head read.distinct read.asked)

-- Looking into the cache changes no table.
cache_get-IsReadOnly : (p : Platform) (json : Json) (sku : ℕ) → IsReadOnly (cache_get p json sku)
unfolding cache_get
cache_get-IsReadOnly p json sku w = ground arith

or_miss-IsReadOnly : (m : M (Option Product)) → IsReadOnly m → IsReadOnly (or_miss m)
or_miss-IsReadOnly m h w = ground (arith, h w)

module _ (p : Platform) (json : Json) (db : ReadProductRepository) (reads : ReadsOnly db) where
  remember-IsReadOnly :
      (enabled : Bool) (found : Option Product) → IsReadOnly (remember p json db enabled found)
  unfolding remember
  remember-IsReadOnly true (some x) w = refl
  remember-IsReadOnly true none w = refl
  remember-IsReadOnly false found w = refl

  from_db-IsReadOnly : (enabled : Bool) (sku : ℕ) → IsReadOnly (from_db p json db enabled sku)
  unfolding from_db
  from_db-IsReadOnly enabled sku =
      bind-IsReadOnly (db.get_by_sku sku none) (remember p json db enabled) (reads.by_sku sku none)
        (remember-IsReadOnly enabled)

  or_from_db-IsReadOnly :
      (sku : ℕ) (found : Option Product) → IsReadOnly (or_from_db p json db sku found)
  unfolding or_from_db
  or_from_db-IsReadOnly sku (some x) w = refl
  or_from_db-IsReadOnly sku none w = from_db-IsReadOnly true sku w

  look_up-IsReadOnly : (skus : List ℕ) → IsReadOnly (look_up p json db skus)
  unfolding look_up
  look_up-IsReadOnly [] = λ w. refl
  look_up-IsReadOnly (sku ∷ skus) =
      bind-IsReadOnly (or_miss (cache_get p json sku))
        (λ found. look_up p json db skus >>= λ rest. pure (sort_out sku found rest))
        (or_miss-IsReadOnly _ (cache_get-IsReadOnly p json sku))
        λ found.
          bind-IsReadOnly (look_up p json db skus) (λ rest. pure (sort_out sku found rest))
            (look_up-IsReadOnly skus) λ rest w. refl

  add_missed-IsReadOnly : (parts : List Product × List ℕ) → IsReadOnly (add_missed p json db parts)
  unfolding add_missed
  add_missed-IsReadOnly (hits, []) = λ w. refl
  add_missed-IsReadOnly (hits, (sku ∷ skus)) =
      bind-IsReadOnly (db.get_by_skus (sku ∷ skus)) (λ rows. spawn_sets rows >> pure (hits ++ rows))
        (reads.by_skus (sku ∷ skus)) λ rows w. refl

  -- Over a repository that only reads, the decorator only reads, with the cache and without it: it
  -- may stand wherever a use case asks for a repository that only reads.
  pub cached-ReadsOnly : (enabled : Bool) → ReadsOnly (cached p json db enabled)
  unfolding cached cached_get_by_sku cached_get_by_skus
  cached-ReadsOnly false = record {
    by_sku = λ sku tx. from_db-IsReadOnly false sku;
    by_skus = λ skus. reads.by_skus skus;
  }
  cached-ReadsOnly true = record {
    by_sku = λ sku tx.
        bind-IsReadOnly (or_miss (cache_get p json sku))
          (λ found. or_from_db p json db sku (usable tx found))
          (or_miss-IsReadOnly _ (cache_get-IsReadOnly p json sku))
          λ found. or_from_db-IsReadOnly sku (usable tx found);
    by_skus = λ skus.
        bind-IsReadOnly (look_up p json db skus) (add_missed p json db) (look_up-IsReadOnly skus)
          add_missed-IsReadOnly;
  }

usable-fresh :
    (t : ℕ) (found : Option Product) (x : Product)
    → usable (some t) found ≡ some x
    → t ≤ x.transaction_id
usable-fresh t none x h = absurd (ground arith)
usable-fresh t (some y) x h = ground arith

-- The database's repository only reads.
pub database-ReadsOnly : (p : Platform) → ReadsOnly (database p)
unfolding database get_by_sku get_by_skus
database-ReadsOnly p = record {
  by_sku = λ sku tx w. ground arith;
  by_skus = λ skus w. ground arith;
}

remember-same :
    (p : Platform) (json : Json) (db : ReadProductRepository) (enabled : Bool)
    (found : Option Product) (w w' : World) (x : Product)
    → remember p json db enabled found w ≡ (ok (some x), w')
    → found ≡ some x
unfolding remember
remember-same p json db true (some y) w w' x h = ground arith
remember-same p json db true none w w' x h = absurd (ground arith)
remember-same p json db false found w w' x h = ground arith

-- What the database gives is of the version of the row that the table has.
from_db_fresh :
    (p : Platform) (json : Json) (enabled : Bool) (sku t : ℕ) (w w' : World) (x : Product)
    → Distinct (row_skus w.products)
    → HasWords w.products
    → ((r : ProductRow) → find_row sku w.products ≡ some r → t ≤ r.xmin)
    → from_db p json (database p) enabled sku w ≡ (ok (some x), w')
    → t ≤ x.transaction_id
unfolding from_db database
from_db_fresh p json enabled sku t w w' x d words seen h =
    let (found, w₁, h₁, k₁) =
      >>=-ok (get_by_sku p sku none) (remember p json (database p) enabled) w h in
    let same = remember-same p json (database p) enabled found w₁ w' x k₁ in
    let (r, here, is) =
      get_by_sku-from_row p sku none w w₁ x d words (h₁ ∙ ap (λ f. (ok f, w₁)) same) in
    let new = seen r here in rw is new

or_from_db-hit :
    (p : Platform) (json : Json) (sku : ℕ) (y : Product) (w w' : World) (x : Product)
    → or_from_db p json (database p) sku (some y) w ≡ (ok (some x), w')
    → y ≡ x
unfolding or_from_db
or_from_db-hit p json sku y w w' x h = ground arith

-- Read your own writes. Take a client that has seen version `t` of a product, and a table whose row
-- of that SKU is of that version or a later one, whose rows have distinct SKUs and counts that fit
-- 32 bits. A product that a read with `t` returns is of version
-- `t` or later, whatever Redis holds or fails at, and with the cache switched off as well.
pub cached_get_by_sku_fresh :
    (p : Platform) (json : Json) (enabled : Bool) (sku t : ℕ) (w w' : World) (x : Product)
    → Distinct (row_skus w.products)
    → HasWords w.products
    → ((r : ProductRow) → find_row sku w.products ≡ some r → t ≤ r.xmin)
    → cached_get_by_sku p json (database p) enabled sku (some t) w ≡ (ok (some x), w')
    → t ≤ x.transaction_id
unfolding cached_get_by_sku or_from_db
cached_get_by_sku_fresh p json false sku t w w' x d words seen h =
    from_db_fresh p json false sku t w w' x d words seen h
cached_get_by_sku_fresh p json true sku t w w' x d words seen h =
    let (found, w₁, h₁, k₁) =
      >>=-ok (or_miss (cache_get p json sku))
        (λ found. or_from_db p json (database p) sku (usable (some t) found)) w h in
    let kept : w₁.tables ≡ w.tables =
      ap (λ r. r.1.tables) (sym h₁)
      ∙ or_miss-IsReadOnly (cache_get p json sku) (cache_get-IsReadOnly p json sku) w in
    let rows : w₁.products ≡ w.products = ap (λ (t : Tables). t.products) kept in
    elim (Option-cases (usable (some t) found)) [
      | inl missed ↦
          from_db_fresh p json true sku t w₁ w' x (rw rows d) (rw rows words)
            (λ r at. seen r (rw rows at at))
            (ap (λ f. or_from_db p json (database p) sku f w₁) (sym missed) ∙ k₁)
      | inr (y, hit) ↦
          let y≡x : y ≡ x =
            or_from_db-hit p json sku y w₁ w' x
              (ap (λ f. or_from_db p json (database p) sku f w₁) (sym hit) ∙ k₁) in
          usable-fresh t found x (hit ∙ ap some y≡x)
    ]
