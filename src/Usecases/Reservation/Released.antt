-- ===== src/Usecases/Reservation/Released.antt =====
-- What a release that succeeds has done to each row.
use marketplace_simulator_pr.Events.{Headers}
use marketplace_simulator_pr.Common.{
  ℕ, ◌%◌, ◌^◌, ◌≡◌, refl, sym, ◌∙◌, ap, Bool, true, false, not, Option, none, some, List, [], ◌∷◌,
  arith, contains, select, Distinct, Map, keys, subst,
}
use mathlib.Core.Option
use marketplace_simulator_pr.Errors.{ok}
use marketplace_simulator_pr.Models.{Product, NewEvent, Reservation, sub32}
use marketplace_simulator_pr.Store.World.{
  ProductRow, World, Platform, lift, wrapped, counted, ◌>>◌, >>=-ok, wrapped-ok,
}
use marketplace_simulator_pr.Store.Products.{update, get_by_skus}
use marketplace_simulator_pr.Store.Products.Rows.{row_skus, skus_of, find_row}
use marketplace_simulator_pr.Store.Products.Update.{update-ok}
use marketplace_simulator_pr.Store.Reservations.{get_by_ids, delete_by_ids}
use marketplace_simulator_pr.Store.Transactor.{in_transaction-ok}
use marketplace_simulator_pr.Usecases.Repository.{
  map_values, create_updates, create_events, plan_events,
}
use marketplace_simulator_pr.Usecases.Outboxes.{create_updates-ok, create_events-ok}
use marketplace_simulator_pr.Usecases.Reads.{database, HasWords}
use marketplace_simulator_pr.Usecases.Reservation.Settled.{
  IsRowOf, settled_read, delete_by_ids-ok, get_by_ids-ok, none_selected,
}
use marketplace_simulator_pr.Usecases.Reservation.Settle.{
  add_sums, settle_all, release_one, release_plan, release_commit, release_tx, release_with,
  release_found, release_any, release,
}
use marketplace_simulator_pr.Usecases.Reservation.Sums.{total, is_reserved, IsRange}

-- The row of a SKU that had reservations of `d` in all among those that were released.
abbrev pub released_row : ℕ → Bool → ℕ → ProductRow → ProductRow
released_row xid false d r = r
released_row xid true d r = record r { reserved_count = sub32 r.reserved_count d; xmin = xid }

release_tx-ok :
    (p : Platform) (ids skus : List ℕ) (settled : List Product) (events : List NewEvent)
    (w w' : World)
    → release_tx p ids skus settled events w ≡ (ok tt, w')
    → (w₁ : World) × (update p (map_values p settled) w ≡ (ok tt, w₁))
      × (w'.products ≡ w₁.products)
      × (w'.reservations ≡ select (λ r. not (contains r.id ids)) w.reservations)
unfolding release_tx
release_tx-ok p ids skus settled events w w' h =
    let (_, w₁, h₁, k₁) =
      >>=-ok (wrapped "Execute" (update p (map_values p settled)))
        (λ _.
          wrapped "Execute" (delete_by_ids p ids)
          >> (create_events p events >> create_updates p skus))
        w h in
    let (_, w₂, h₂, k₂) =
      >>=-ok (wrapped "Execute" (delete_by_ids p ids))
        (λ _. create_events p events >> create_updates p skus) w₁ k₁ in
    let (_, w₃, h₃, k₃) = >>=-ok (create_events p events) (λ _. create_updates p skus) w₂ k₂ in
    let told = create_events-ok p events w₂ w₃ h₃ in
    let last = create_updates-ok p skus w₃ w' k₃ in
    let written = wrapped-ok "Execute" (update p (map_values p settled)) w h₁ in
    let after = (update-ok p (map_values p settled) w w₁ written).0 in
    let deleted = wrapped-ok "Execute" (delete_by_ids p ids) w₁ h₂ in
    let (rows, left) = delete_by_ids-ok p ids w₁ w₂ deleted in
    (
      w₁,
      written,
      ap (λ (v : World). v.products) last ∙ ap (λ (v : World). v.products) told ∙ rows,
      ap (λ (v : World). v.reservations) last
          ∙ ap (λ (v : World). v.reservations) told
          ∙ left
          ∙ ap (λ (v : World). select (λ r. not (contains r.id ids)) v.reservations) after,
    )

release_one_sku : (d : ℕ) (x : Product) → (release_one d x).sku ≡ x.sku
release_one_sku d x = refl

-- A product that was read and settled, as the row that it is written to.
released_at : IsRowOf release_one released_row
released_at xid d true none read hit miss = refl
released_at xid d true (some r) read hit miss = rw (hit refl) refl
released_at xid d false none read hit miss = refl
released_at xid d false (some r) read hit miss = rw (miss refl) refl

release_plan-ok :
    (p : Platform) (headers : Headers) (sums : Map ℕ) (read settled : List Product)
    (events : List NewEvent)
    → release_plan p headers sums read ≡ ok (settled, events)
    → settled ≡ settle_all release_one sums (skus_of read) read
unfolding release_plan plan_events
release_plan-ok p headers sums read settled events h = ground arith

release_found_settles :
    (p : Platform) (headers : Headers) (ids : List ℕ) (rs : List Reservation) (w w' : World) (k : ℕ)
    → IsRange p
    → ((n : ℕ) → p.cut n ≡ none)
    → Distinct (row_skus w.products)
    → HasWords w.products
    → release_found p (database p) headers ids (add_sums rs []) w ≡ (ok tt, w')
    → (find_row k w'.products
        ≡ Option.map
            (released_row w.xid (is_reserved k rs) (total k rs % (2 ^ 32)))
            (find_row k w.products))
      × (w'.reservations ≡ select (λ r. not (contains r.id ids)) w.reservations)
unfolding release_found release_with release_commit database
release_found_settles p headers ids rs w w' k range whole dw words ran =
    let sums = add_sums rs [] in
    let skus = p.visit 2 (keys sums) in
    let (read, w₁, h₁, k₁) =
      >>=-ok (wrapped "ReleaseUseCase.Execute" (get_by_skus p skus))
        (release_with p headers ids sums) w ran in
    let ((settled, events), w₀, h₀, k₀) =
      >>=-ok (lift (release_plan p headers sums read)) (release_commit p ids sums) w₁ k₁ in
    let planned : (release_plan p headers sums read ≡ ok (settled, events)) × (w₁ ≡ w₀) =
      ground arith in
    let same = release_plan-ok p headers sums read settled events planned.0 in
    let (w₂, ran₂, e₂) =
      in_transaction-ok p (release_tx p ids (p.visit 3 (keys sums)) settled events) w₀ k₀ in
    let (w₃, wrote, rows, left) =
      release_tx-ok p ids (p.visit 3 (keys sums)) settled events (counted w₀) w₂ ran₂ in
    let wrote_settled =
      subst
        (λ v.
          update p (map_values p (settle_all release_one sums (skus_of read) read)) (counted v)
          ≡ (ok tt, w₃))
        (sym planned.1)
        (subst (λ xs. update p (map_values p xs) (counted w₀) ≡ (ok tt, w₃)) same wrote) in
    let (e₁, at) =
      settled_read p release_one released_row rs read w w₁ w₃ k release_one_sku released_at range
        whole dw words (wrapped-ok "ReleaseUseCase.Execute" (get_by_skus p skus) w h₁)
        wrote_settled in
    (
      ap (λ (v : World). find_row k v.products) e₂ ∙ ap (find_row k) rows ∙ at,
      ap (λ (v : World). v.reservations) e₂
          ∙ left
          ∙ ap (λ (v : World). select (λ r. not (contains r.id ids)) v.reservations)
              (sym planned.1 ∙ e₁),
    )

pub untouched_row :
    (xid d : ℕ) (row : Option ProductRow) → row ≡ Option.map (released_row xid false d) row
untouched_row xid d none = refl
untouched_row xid d (some r) = refl

release_any_settles :
    (p : Platform) (headers : Headers) (ids : List ℕ) (rs : List Reservation) (w w' : World) (k : ℕ)
    → IsRange p
    → ((n : ℕ) → p.cut n ≡ none)
    → Distinct (row_skus w.products)
    → HasWords w.products
    → select (λ r. contains r.id ids) w.reservations ≡ rs
    → release_any p (database p) headers ids rs w ≡ (ok tt, w')
    → (find_row k w'.products
        ≡ Option.map
            (released_row w.xid (is_reserved k rs) (total k rs % (2 ^ 32)))
            (find_row k w.products))
      × (w'.reservations ≡ select (λ r. not (contains r.id ids)) w.reservations)
unfolding release_any
release_any_settles p headers ids [] w w' k range whole dw words picked ran =
    let same : w' ≡ w = ground arith in
    (
      ap (λ (v : World). find_row k v.products) same
          ∙ untouched_row w.xid (total k [] % (2 ^ 32)) (find_row k w.products),
      ap (λ (v : World). v.reservations) same ∙ none_selected ids w.reservations picked,
    )
release_any_settles p headers ids (r ∷ rs) w w' k range whole dw words picked ran =
    release_found_settles p headers ids (r ∷ rs) w w' k range whole dw words ran

-- A release with the database's repository that succeeds, with no query cut short, each `range`
-- meeting every key once, and rows with distinct SKUs and counts that fit 32 bits: take the
-- reservations with the given ids. The row of a SKU that has some of them has what they come to
-- less reserved, the same count, and the transaction's version; every other row is as it was; and
-- exactly those reservations are gone.
pub release_settles :
    (p : Platform) (headers : Headers) (ids : List ℕ) (w w' : World) (k : ℕ)
    → IsRange p
    → ((n : ℕ) → p.cut n ≡ none)
    → Distinct (row_skus w.products)
    → HasWords w.products
    → release p (database p) headers ids w ≡ (ok tt, w')
    → let rs = select (λ r. contains r.id ids) w.reservations in
      (find_row k w'.products
        ≡ Option.map
            (released_row w.xid (is_reserved k rs) (total k rs % (2 ^ 32)))
            (find_row k w.products))
      × (w'.reservations ≡ select (λ r. not (contains r.id ids)) w.reservations)
unfolding release
release_settles p headers ids w w' k range whole dw words ran =
    let (rs, w₁, h₁, k₁) =
      >>=-ok (wrapped "ReleaseUseCase.Execute" (get_by_ids p ids))
        (release_any p (database p) headers ids) w ran in
    let (found, e₁) =
      get_by_ids-ok p ids w w₁ rs (whole w.calls)
        (wrapped-ok "ReleaseUseCase.Execute" (get_by_ids p ids) w h₁) in
    let (rows, left) =
      release_any_settles p headers ids rs w₁ w' k range whole (rw e₁ dw) (rw e₁ words)
        (ap (λ (v : World). select (λ r. contains r.id ids) v.reservations) e₁ ∙ sym found) k₁ in
    (
      rows
          ∙ ap
              (λ (v : World).
                Option.map (released_row v.xid (is_reserved k rs) (total k rs % (2 ^ 32)))
                  (find_row k v.products))
              e₁
          ∙ ap
              (λ rs.
                Option.map (released_row w.xid (is_reserved k rs) (total k rs % (2 ^ 32)))
                  (find_row k w.products))
              found,
      left ∙ ap (λ (v : World). select (λ r. not (contains r.id ids)) v.reservations) e₁,
    )
