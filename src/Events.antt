-- ===== src/Events.antt =====
-- Product events: internal/services/product_events_record_builder.go.
pub mod Digits
use marketplace_simulator_pr.Common.{
  ℕ, zero, suc, ◌+◌, ◌/◌, ◌%◌, String, none, some, List, [], ◌∷◌, ltb, ◌==◌, if◌then◌else◌, length,
  Map, lookup, keys, entries_at,
}
use marketplace_simulator_pr.Errors.{Result, ok, err, plain, lit, dec, wrap_err}
use marketplace_simulator_pr.Models.{Product, NewEvent, EventData, Snapshot, sub32}
use marketplace_simulator_pr.Store.World.{Platform}

-- `strconv.FormatUint(n, 10)`, as bytes; the fuel counts the digits.
unfoldable pub digits : ℕ → ℕ → List ℕ → List ℕ
digits zero n acc = acc
digits (suc f) n acc =
    let more = digits f (n / 10) ((b'0' + n % 10) ∷ acc) in
    let last = (b'0' + n) ∷ acc in if ltb n 10 then last else more

-- A `uint64` has at most 20 digits.
unfoldable pub format_uint : ℕ → List ℕ
unfolding digits
format_uint n = digits 20 n []

-- `toSnapshot`: the count that an event tells is what is left of it.
unfoldable pub to_snapshot : Product → Snapshot
unfolding sub32
to_snapshot p = record {
  sku = p.sku;
  name = p.name;
  price = p.price;
  count = sub32 p.count p.reserved_count;
}

abbrev pub event_data : Product → Product → EventData
event_data old new = record { old = to_snapshot old; new = to_snapshot new }

abbrev pub Headers : Type 0
Headers = List (String × String)

infixl 5 ◌>>=◌
abbrev pub ◌>>=◌ {ℓ κ} : {A : Type ℓ} {B : Type κ} → Result A → (A → Result B) → Result B
ok a >>= f = f a
err e >>= f = err e

-- The old state of a SKU, or the error that it has none.
abbrev pub old_state : ℕ → Map Product → Result Product
old_state sku olds = elim (lookup sku olds) [
  | some p ↦ ok p
  | none ↦ err (plain (lit "old state not found for sku: " ∷ dec sku ∷ []))
]

module _ (p : Platform) (headers : Headers) (olds : Map Product) where
  -- One round of the loop of `BuildRecords`.
  unfoldable pub build_record : ℕ → Product → Result NewEvent
  build_record sku new = do
    old ← old_state sku olds
    content ← wrap_err "OutboxService.SaveProductChanged: marshal" (p.marshal (event_data old new))
    ok (record { key = format_uint new.sku; content = content; headers = headers })

  unfoldable pub build_all : Map Product → Result (List NewEvent)
  unfolding build_record
  build_all [] = ok []
  build_all ((sku, new) ∷ news) = do
    event ← build_record sku new
    events ← build_all news
    ok (event ∷ events)

  -- `BuildRecords`: one record for each new state, in the order of the map's range.
  unfoldable pub build_records : Map Product → Result (List NewEvent)
  unfolding build_all
  build_records news =
      if length olds == length news
      then build_all (entries_at (p.visit 0 (keys news)) news)
      else err (plain (lit "oldStates and newStates are not the same length" ∷ []))
