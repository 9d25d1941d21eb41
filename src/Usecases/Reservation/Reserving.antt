-- ===== src/Usecases/Reservation/Reserving.antt =====
-- The transaction of `Reserve` against what it promises.
use marketplace_simulator_pr.Common.{
  ℕ, ◌+◌, ◌≤◌, ◌≡◌, refl, sym, ◌∙◌, false, Option, none, some, List, [], ◌∷◌, arith, ◌==◌, contains,
  Distinct, Option-cases, Bool-cases, inl, inr, All, Map,
}
use mathlib.Core.Option
use marketplace_simulator_pr.Errors.{ok}
use marketplace_simulator_pr.Models.{Product, NewEvent}
use marketplace_simulator_pr.Store.World.{
  ProductRow, World, Platform, wrapped, pure, ◌>>=◌, ◌>>◌, >>=-ok, wrapped-ok,
}
use marketplace_simulator_pr.Store.Products.{update}
use marketplace_simulator_pr.Store.Products.Rows.{skus_of, find_row, find_product}
use marketplace_simulator_pr.Store.Products.Update.{IsCurrent, overwritten, update-ok, after_batch}
use marketplace_simulator_pr.Usecases.Repository.{pointee, create_events, create_updates}
use marketplace_simulator_pr.Usecases.Pointers.{pointee-find}
use marketplace_simulator_pr.Usecases.Outboxes.{
  after_events, after_updates, create_events-ok, create_updates-ok,
}
use marketplace_simulator_pr.Usecases.Reservation.Reserve.{
  ReserveItem, item_skus, insert_all, reserve_tx,
}
use marketplace_simulator_pr.Usecases.Reservation.Items.{find_item, with_item, CanServe}
use marketplace_simulator_pr.Usecases.Reservation.Inserts.{
  number_items, after_inserts, insert_all-ok,
}

-- What was read, wherever it came from, has the counts of the row whose version it carries.
abbrev pub IsHonest : List Product → List ProductRow → Type 0
IsHonest xs rows =
    (k : ℕ) (x : Product) (r : ProductRow)
    → pointee k xs ≡ some x
    → find_row k rows ≡ some r
    → r.xmin ≡ x.transaction_id
    → (x.count ≡ r.count) × (x.reserved_count ≡ r.reserved_count)

-- No product was read that no item asks for.
abbrev pub AreAsked : List Product → List ℕ → Type 0
AreAsked xs skus = (k : ℕ) → contains k skus ≡ false → pointee k xs ≡ none

-- What a reservation does to the row of its SKU.
abbrev pub reserved_row : ℕ → Option ReserveItem → ProductRow → ProductRow
reserved_row xid none r = r
reserved_row xid (some i) r = record r { reserved_count = r.reserved_count + i.delta; xmin = xid }

-- The item is covered by what the row has left.
abbrev pub IsCovered : List ProductRow → ReserveItem → Type 0
IsCovered rows i =
    (r : ProductRow) × (find_row i.sku rows ≡ some r) × (r.reserved_count + i.delta ≤ r.count)

pub reserve_tx-ok :
    (p : Platform) (items : List ReserveItem) (reserved : List Product) (events : List NewEvent)
    (w w' : World) (ids : Map ℕ)
    → reserve_tx p items reserved events w ≡ (ok ids, w')
    → (update p reserved w ≡ (ok tt, after_batch reserved w))
      × (ids ≡ number_items w.next_id items [])
      × (w'
          ≡ after_updates p
              (item_skus items)
              (after_events p events (after_inserts items (after_batch reserved w))))
unfolding reserve_tx
reserve_tx-ok p items reserved events w w' ids h =
    let (_, w₁, h₁, k₁) =
      >>=-ok (wrapped "Execute" (update p reserved))
        (λ _. insert_all p items [] >>= λ ids.
          create_events p events >> (create_updates p (item_skus items) >> pure ids))
        w h in
    let (ids₁, w₂, h₂, k₂) =
      >>=-ok (insert_all p items [])
        (λ ids. create_events p events >> (create_updates p (item_skus items) >> pure ids)) w₁ k₁ in
    let (_, w₃, h₃, k₃) =
      >>=-ok (create_events p events) (λ _. create_updates p (item_skus items) >> pure ids₁) w₂
        k₂ in
    let (_, w₄, h₄, k₄) = >>=-ok (create_updates p (item_skus items)) (λ _. pure ids₁) w₃ k₃ in
    let written = wrapped-ok _ (update p reserved) w h₁ in
    let e₁ = (update-ok p reserved w w₁ written).0 in
    let (en, e₂) = insert_all-ok p items [] ids₁ w₁ w₂ h₂ in
    let e₃ = create_events-ok p events w₂ w₃ h₃ in
    let e₄ = create_updates-ok p (item_skus items) w₃ w₄ h₄ in
    let last : (ids₁ ≡ ids) × (w₄ ≡ w') = ground arith in
    (rw e₁ at written, sym last.0 ∙ rw e₁ at en, sym last.1 ∙ e₄ ∙ rw (e₃, e₂, e₁))

find_item-none :
    (k : ℕ) (is : List ReserveItem) → find_item k is ≡ none → contains k (item_skus is) ≡ false
find_item-none k [] h = refl
find_item-none k (i ∷ is) h = ground (arith, find_item-none k is)

serves_at :
    (k : ℕ) (read : List Product) (is : List ReserveItem) (i : ReserveItem)
    → find_item k is ≡ some i
    → All (CanServe read) is
    → (x : Product) × (pointee k read ≡ some x)
serves_at k read [] i e s = absurd (ground arith)
serves_at k read (j ∷ is) i e s = elim (Bool-cases (k == j.sku)) [
  | inl here ↦ let (x, p, _) = s.0 in (x, ground arith)
  | inr later ↦ serves_at k read is i (ground arith) s.1
]

pub current_at :
    (k : ℕ) (xs : List Product) (rows : List ProductRow) (x : Product)
    → find_product k xs ≡ some x
    → All (λ x. IsCurrent x rows) xs
    → (r : ProductRow) × (find_row k rows ≡ some r) × (r.xmin ≡ x.transaction_id)
current_at k [] rows x e c = absurd (ground arith)
current_at k (y ∷ xs) rows x e c = elim (Bool-cases (k == y.sku)) [
  | inl here ↦ let (r, p, v) = c.0 in (r, ground arith, ground arith)
  | inr later ↦ current_at k xs rows x (ground arith) c.1
]

with_item_version :
    (o : Option ReserveItem) (x : Product)
    → ((with_item o x).transaction_id ≡ x.transaction_id) × ((with_item o x).count ≡ x.count)
with_item_version none x = (refl, refl)
with_item_version (some i) x = (refl, refl)

module _ (items : List ReserveItem) (read reserved : List Product) (rows : List ProductRow)
    (honest : IsHonest read rows) (d : Distinct (skus_of reserved))
    (at : (k : ℕ)
      → pointee k reserved ≡ Option.map (with_item (find_item k items)) (pointee k read))
    (current : All (λ x. IsCurrent x rows) reserved) where
  -- The row that a product was read from, with the counts that were read.
  row_of :
      (k : ℕ) (x : Product)
      → pointee k read ≡ some x
      → (r : ProductRow) × (find_row k rows ≡ some r)
        × (x.count ≡ r.count)
        × (x.reserved_count ≡ r.reserved_count)
  row_of k x e =
      let found : find_product k reserved ≡ some (with_item (find_item k items) x) =
        sym (pointee-find k reserved d) ∙ at k ∙ rw e in
      let (r, there, v) =
        current_at k reserved rows (with_item (find_item k items) x) found current in
      let same = honest k x r e there (v ∙ (with_item_version (find_item k items) x).0) in
      (r, there, same.0, same.1)

  pub covered : (i : ReserveItem) → CanServe read i → IsCovered rows i
  covered i (x, e, room) = let (r, there, c, v) = row_of i.sku x e in (r, there, ground arith)

  -- The row of SKU `k`, as the batch writes it and as a reservation should change it.
  pub reserved_at :
      (k xid : ℕ)
      → AreAsked read (item_skus items)
      → All (CanServe read) items
      → Option.map (overwritten xid (find_product k reserved)) (find_row k rows)
        ≡ Option.map (reserved_row xid (find_item k items)) (find_row k rows)
  reserved_at k xid asked serves = elim (Option-cases (find_item k items)) [
    | inl nobody ↦
        rw (sym (pointee-find k reserved d), at k, nobody, asked k (find_item-none k items nobody))
          (ground arith)
    | inr (i, e) ↦
        let (x, read_at) = serves_at k read items i e serves in
        let (r, there, c, v) = row_of k x read_at in
        rw (sym (pointee-find k reserved d), at k, read_at, there, e) (ground arith)
  ]
