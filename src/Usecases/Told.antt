-- ===== src/Usecases/Told.antt =====
-- What the events of a change tell.
use marketplace_simulator_pr.Common.{
  ℕ, ◌+◌, ◌≤◌, ◌^◌, ◌<◌, ◌≡◌, refl, subst, String, some, List, [], ◌∷◌, arith, Bool-cases, inl, inr,
  ◌==◌, All, Distinct,
}
use marketplace_simulator_pr.Errors.{ok}
use marketplace_simulator_pr.Models.{Product, NewEvent, Snapshot, u32_mod, sub32}
use marketplace_simulator_pr.Events.{Headers, format_uint, to_snapshot}
use marketplace_simulator_pr.Store.World.{Platform}
use marketplace_simulator_pr.Store.Products.Rows.{skus_of, find_product}
use marketplace_simulator_pr.Usecases.Repository.{plan_events}
use marketplace_simulator_pr.Usecases.Reservation.Sums.{IsRange}
use marketplace_simulator_pr.Usecases.Built.{IsBuilt, find_event, plan_events-event}

-- A snapshot shows a product: its SKU, name and price, and with what is reserved its count comes
-- to what the product has.
abbrev pub IsLeft : Snapshot → Product → Type 0
IsLeft s x =
    (s.sku ≡ x.sku)
    × (s.name ≡ x.name)
    × (s.price ≡ x.price)
    × (s.count + x.reserved_count ≡ x.count)

-- No more is reserved than there is, and what there is fits a `uint32`.
abbrev pub IsSound : Product → Type 0
IsSound x = (x.reserved_count ≤ x.count) × (x.count < u32_mod)

-- An event that tells a change from `old` to `new`: its content is the text of two snapshots, which
-- show the one and the other.
abbrev pub Tells : Platform → Headers → Product → Product → NewEvent → Type 0
Tells p headers old new e =
    (e.key ≡ format_uint new.sku)
    × (e.headers ≡ headers)
    × (s : Snapshot) × (s' : Snapshot) × IsLeft s old
    × IsLeft s' new
    × (p.marshal (record { old = s; new = s' }) ≡ ok e.content)

to_snapshot-IsLeft : (x : Product) → IsSound x → IsLeft (to_snapshot x) x
unfolding to_snapshot sub32
to_snapshot-IsLeft x (fits, word) = (refl, refl, refl, omega (arith, fits, word))

pub IsBuilt-Tells :
    (p : Platform) (headers : Headers) (old new : Product) (e : NewEvent)
    → IsSound old
    → IsSound new
    → IsBuilt p headers old new e
    → Tells p headers old new e
IsBuilt-Tells p headers old new e so sn (key, content, same) = (
  key,
  same,
  to_snapshot old,
  to_snapshot new,
  to_snapshot-IsLeft old so,
  to_snapshot-IsLeft new sn,
  content,
)

All-find_product :
    (P : Product → Type 0) (k : ℕ) (xs : List Product) (x : Product)
    → All P xs
    → find_product k xs ≡ some x
    → P x
All-find_product P k [] x h e = absurd (ground arith)
All-find_product P k (y ∷ xs) x h e = elim (Bool-cases (k == y.sku)) [
  | inl here ↦ let is : y ≡ x = ground arith in subst P is h.0
  | inr later ↦ All-find_product P k xs x h.1 (ground arith)
]

-- The events tell the change. Take products with distinct SKUs of 64 bits, before and after a
-- change that keeps the SKUs, none with more reserved than there is, with counts that fit 32 bits,
-- and each `range` meeting every key once. If the events can be built, then for each product after
-- the change there is an event under its SKU, with the call's headers, whose content is the text of
-- two snapshots: of the product of that SKU before the change and of the one after it, each with
-- the SKU, the name, the price, and the count less what is reserved.
pub plan_events-Tells :
    (p : Platform) (headers : Headers) (prefix : String) (before after kept : List Product)
    (events : List NewEvent) (k : ℕ) (new : Product)
    → IsRange p
    → Distinct (skus_of before)
    → Distinct (skus_of after)
    → All (λ x. x.sku < 2 ^ 64) after
    → All IsSound before
    → All IsSound after
    → k < 2 ^ 64
    → plan_events p headers prefix before after ≡ ok (kept, events)
    → find_product k after ≡ some new
    → (e : NewEvent) × (find_event (format_uint k) events ≡ some e)
      × ((old : Product) × (find_product k before ≡ some old) × Tells p headers old new e)
plan_events-Tells p headers prefix before after kept events k new range db da small sb sa hk h
      at_k =
    let (e, found, (old, there, built)) =
      plan_events-event p headers prefix before after kept events k new range db da small hk h
        at_k in
    (
      e,
      found,
      (
        old,
        there,
        IsBuilt-Tells p headers old new e (All-find_product IsSound k before old sb there)
            (All-find_product IsSound k after new sa at_k) built,
      ),
    )
