-- ===== src/Jobs/Refreshed.antt =====
-- What a tick of the cache update job leaves in Redis.
use marketplace_simulator_pr.Common.{
  ℕ, ◌^◌, ◌<◌, ◌≡◌, refl, sym, ◌∙◌, ap, subst, true, false, none, some, List, [], ◌∷◌, map, arith,
  Bool-cases, inl, inr, ◌⊎◌, ◌==◌, ◌||◌, ==→eq, contains, select, All, Map,
}
use mathlib.Core.Option
use marketplace_simulator_pr.Errors.{Message, ok}
use marketplace_simulator_pr.Models.{Product, CacheUpdateRecord, from_model}
use marketplace_simulator_pr.Store.World.{ProductRow, Tables, World, Platform, ◌>>=◌, pure, counted}
use marketplace_simulator_pr.Store.Products.{get_by_sku, get_by_skus, first, to_product}
use marketplace_simulator_pr.Store.Products.Rows.{find_row, find_row_sku}
use marketplace_simulator_pr.Store.Outbox.Pending.{entry_ids}
use marketplace_simulator_pr.Usecases.Reads.{database}
use marketplace_simulator_pr.Cache.Redis.{Json, cache_key, cache_set, client_set}
use marketplace_simulator_pr.Cache.Redis.Stored.{IsUp, GivesBack, cache_set_lem, eq_text-cache_key}
use marketplace_simulator_pr.Jobs.CacheUpdates.{refresh_all, succeed}

-- What Redis holds at the key of SKU `k` is what the row says.
abbrev pub Holds : Json → ℕ → ProductRow → World → Type 0
Holds json k row w =
    (text : List ℕ) × (w.redis (cache_key k) ≡ some text)
    × (json.decode text ≡ ok (from_model (to_product row)))

-- A row that JSON gives back, with a SKU of 64 bits.
abbrev pub IsCacheable : Json → ProductRow → Type 0
IsCacheable json row = GivesBack json (to_product row) × (row.sku < 2 ^ 64)

abbrev pub bodies : List CacheUpdateRecord → List ℕ
bodies [] = []
bodies (r ∷ rs) = r.body ∷ bodies rs

first-wanted :
    (k : ℕ) (rows : List ProductRow)
    → first (map to_product (select (λ r. contains r.sku (k ∷ [])) rows))
      ≡ Option.map to_product (find_row k rows)
first-wanted k [] = refl
first-wanted k (r ∷ rows) = ground (arith, first-wanted k rows)

pub All-find_row :
    (P : ProductRow → Type 0) (k : ℕ) (rows : List ProductRow) (row : ProductRow)
    → All P rows
    → find_row k rows ≡ some row
    → P row
All-find_row P k [] row h e = absurd (ground arith)
All-find_row P k (r ∷ rows) row h e = elim (Bool-cases (k == r.sku)) [
  | inl here ↦ let is : r ≡ row = ground arith in subst P is h.0
  | inr later ↦ All-find_row P k rows row h.1 (ground arith)
]

module _ (p : Platform) (json : Json) (up : IsUp p) (calm : (n : ℕ) → p.fault n ≡ none)
    (whole : (n : ℕ) → p.cut n ≡ none) where
  get_by_sku_found :
      (k : ℕ) (w : World) (row : ProductRow)
      → find_row k w.products ≡ some row
      → get_by_sku p k none w ≡ (ok (some (to_product row)), counted w)
  unfolding get_by_sku get_by_skus
  get_by_sku_found k w row there =
      ground (arith, calm w.calls, whole w.calls, first-wanted k w.products, there)

  refresh_all_first :
      (r : CacheUpdateRecord) (rs : List CacheUpdateRecord) (failed : Map Message) (w : World)
      (row : ProductRow)
      → find_row r.body w.products ≡ some row
      → refresh_all p json true (database p) (r ∷ rs) failed w
        ≡ (refresh_all p json true (database p) rs failed >>= λ result.
              pure (succeed r.record_id result))
            (cache_set p json (to_product row) (counted w)).1
  unfolding refresh_all database cache_set
  refresh_all_first r rs failed w row there = ground (arith, get_by_sku_found r.body w row there)

  cache_set-tables :
      (x : Product) (w : World) → (cache_set p json x (counted w)).1.tables ≡ w.tables
  unfolding cache_set client_set
  cache_set-tables x w = ground arith

  set_Holds :
      (k j : ℕ) (row₀ row : ProductRow) (w : World)
      → find_row j w.products ≡ some row₀
      → find_row k w.products ≡ some row
      → IsCacheable json row₀
      → k < 2 ^ 64
      → ((k == j) ≡ true) ⊎ Holds json k row w
      → Holds json k row (cache_set p json (to_product row₀) (counted w)).1
  set_Holds k j row₀ row w at_j at_k ((text, enc, dec), small) hk before =
      let stored = cache_set_lem p json (to_product row₀) text k (counted w) up enc in
      let key = eq_text-cache_key k row₀.sku hk small in
      let is_j = find_row_sku j w.products row₀ at_j in
      elim (Bool-cases (k == j)) [
        | inl same ↦
            let e : k ≡ j = ==→eq k j same in
            let one : row₀ ≡ row = ground (arith, at_j, at_k, e) in
            let fits : (k == row₀.sku) ≡ true = ground (arith, is_j, e) in
            (
              text,
              ground (arith, stored, key, fits),
              dec ∙ ap (λ r. ok (from_model (to_product r))) one,
            )
        | inr other ↦
            let differs : (k == row₀.sku) ≡ false = ground (arith, is_j, other) in
            elim before [
              | inl same ↦ absurd (ground arith)
              | inr (old, there, good) ↦ (old, ground (arith, stored, key, differs, there), good)
            ]
      ]

  -- What is left to do for a SKU after the first record.
  after_first :
      (k j : ℕ) (rs : List CacheUpdateRecord) (row₀ row : ProductRow) (w : World)
      → find_row j w.products ≡ some row₀
      → find_row k w.products ≡ some row
      → IsCacheable json row₀
      → k < 2 ^ 64
      → ((k == j || contains k (bodies rs)) ≡ true) ⊎ Holds json k row w
      → (contains k (bodies rs) ≡ true)
        ⊎ Holds json k row (cache_set p json (to_product row₀) (counted w)).1
  after_first k j rs row₀ row w at_j at_k cacheable small before =
      elim (Bool-cases (contains k (bodies rs))) [
        | inl later ↦ inl later
        | inr never ↦
            let now : ((k == j) ≡ true) ⊎ Holds json k row w = elim before [
              | inl asked ↦ inl (ground (arith, asked, never))
              | inr held ↦ inr held
            ] in
            inr (set_Holds k j row₀ row w at_j at_k cacheable small now)
      ]

  -- The records are refreshed, each product of theirs is in the table.
  pub refresh_all-Holds :
      (rs : List CacheUpdateRecord) (failed : Map Message) (w : World)
      → All (IsCacheable json) w.products
      → All (λ r. (row : ProductRow) × (find_row r.body w.products ≡ some row)) rs
      → let (result, w') = refresh_all p json true (database p) rs failed w in
        (result ≡ ok (record { success_records = entry_ids rs; failed_record_reasons = failed }))
        × (w'.tables ≡ w.tables)
        × ((k : ℕ) (row : ProductRow)
            → find_row k w.products ≡ some row
            → k < 2 ^ 64
            → (contains k (bodies rs) ≡ true) ⊎ Holds json k row w
            → Holds json k row w')
  unfolding refresh_all
  refresh_all-Holds [] failed w cacheable found = (
    refl,
    refl,
    λ k row at_k small before. elim before [ inl h ↦ absurd (ground arith) | inr held ↦ held ],
  )
  refresh_all-Holds (r ∷ rs) failed w cacheable ((row₀, at_r), found) =
      let w₂ = (cache_set p json (to_product row₀) (counted w)).1 in
      let same : w₂.tables ≡ w.tables = cache_set-tables (to_product row₀) w in
      let rows : w₂.products ≡ w.products = ap (λ (t : Tables). t.products) same in
      let (done, kept, holds) =
        refresh_all-Holds rs failed w₂ (rw rows cacheable) (rw rows found) in
      let run = refresh_all_first r rs failed w row₀ at_r in
      let ends : refresh_all p json true (database p) (r ∷ rs) failed w ≡ (
        ok (record { success_records = entry_ids (r ∷ rs); failed_record_reasons = failed }),
        (refresh_all p json true (database p) rs failed w₂).1,
      ) =
        run ∙ ground (arith, done) in
      (
        ap (λ q. q.0) ends,
        ap (λ q. q.1.tables) ends ∙ kept ∙ same,
        λ k row at_k small before. subst (Holds json k row) (sym (ap (λ q. q.1) ends)) (
            holds k row (rw rows at_k) small (
              after_first k r.body rs row₀ row w at_r at_k
                (All-find_row (IsCacheable json) r.body w.products row₀ cacheable at_r) small
                before)),
      )
