-- ===== src/Store/World.antt =====
-- The state that the service works on, the parts of its surroundings that it does not implement,
-- and the monad of its fallible calls. The tables are those of migrations/.
use marketplace_simulator_pr.Common.{ℕ, ◌+◌, ◌≡◌, refl, String, Option, none, some, List, take}
use marketplace_simulator_pr.Errors.{Error, plain, Message, Result, ok, err, wrap_err}
use marketplace_simulator_pr.Models.{
  Reservation, EventRecord, CacheUpdateRecord, EventData, EventBody, Product, KafkaMessage,
}

-- A row of `products`; PostgreSQL's system column `xmin` is the transaction that wrote it.
pub record ProductRow : Type 0 where
  pub sku : ℕ
  pub price : ℕ
  pub name : String
  pub count : ℕ
  pub reserved_count : ℕ
  pub xmin : ℕ

pub record Tables : Type 0 where
  pub products : List ProductRow
  pub reservations : List Reservation
  pub product_events : List EventRecord
  pub cache_updates : List CacheUpdateRecord

pub record World : Type 0 where
  pub tables : Tables
  pub open tables use *
  pub next_id : ℕ  -- the identity sequence of `reservations`
  pub xid : ℕ  -- the transaction id that comes next
  pub drawn : ℕ  -- how many UUIDs were generated
  pub calls : ℕ  -- how many calls the database driver has served
  pub now : ℕ
  pub redis : List ℕ → Option (List ℕ)
  pub redis_calls : ℕ
  pub kafka_calls : ℕ
  pub handed_over : List KafkaMessage  -- the messages of the writes to Kafka that returned no error
  pub spawned : List Product  -- the cache writes that goroutines have yet to make

-- What the service relies on and does not implement. A driver call fails where `fault` says so; a
-- query's rows end early where `cut` says so, after that many rows; `redis_fault` is for Redis
-- what `fault` is for the database, and `kafka_fault` for Kafka. `visit` is the order in which a
-- `range` over a Go map meets the keys, which may be another one at each `range` of a call;
-- `marshal`, `unmarshal` and `marshal_body` are those of encoding/json on an event's data and on
-- the body of a message.
pub record Platform : Type 0 where
  pub fault : ℕ → Option Message
  pub cut : ℕ → Option (ℕ × Message)
  pub redis_fault : ℕ → Option Message
  pub kafka_fault : ℕ → Option Message
  pub uuid : ℕ → ℕ
  pub visit : ℕ → List ℕ → List ℕ
  pub marshal : EventData → Result (List ℕ)
  pub unmarshal : List ℕ → Result EventData
  pub marshal_body : EventBody → Result (List ℕ)

-- A call that reads and writes the world and may fail; a failure keeps what was written.
abbrev pub M {ℓ} : Type ℓ → Type ℓ
M A = World → Result A × World

infixl 5 ◌>>=◌ ◌>>◌
abbrev pub ◌>>=◌ {ℓ κ} : {A : Type ℓ} {B : Type κ} → M A → (A → M B) → M B
◌>>=◌ m f w = let (r, w') = m w in elim r [ ok a ↦ f a w' | err e ↦ (err e, w') ]

abbrev pub ◌>>◌ {ℓ} : {B : Type ℓ} → M (Unit {0}) → M B → M B
m >> k = m >>= λ _. k

module _ {ℓ} {A : Type ℓ} where
  abbrev pub pure : A → M A
  pure a w = (ok a, w)

  abbrev pub fail : Error → M A
  fail e w = (err e, w)

  abbrev pub lift : Result A → M A
  lift r w = (r, w)

  -- `if err != nil { return fmt.Errorf(prefix: %w, err) }`
  abbrev pub wrapped : String → M A → M A
  wrapped prefix m w = let (r, w') = m w in (wrap_err prefix r, w')

abbrev pub counted : World → World
counted w = record w { calls = w.calls + 1 }

abbrev pub delivered {ℓ} : {A : Type ℓ} → Option (ℕ × Message) → List A → List A × Option Message
delivered none rows = (rows, none)
delivered (some (k, m)) rows = (take k rows, some m)

-- A query: the rows that came, and `rows.Err()`.
abbrev pub query {ℓ} : {A : Type ℓ} → Platform → (Tables → List A) → M (List A × Option Message)
query p rows w = elim (p.fault w.calls) [
  | some m ↦ (err (plain m), counted w)
  | none ↦ (ok (delivered (p.cut w.calls) (rows w.tables)), counted w)
]

-- A statement: its result and its effect.
abbrev pub exec {ℓ} : {A : Type ℓ} → Platform → (World → A × World) → M A
exec p run w = elim (p.fault w.calls) [
  | some m ↦ (err (plain m), counted w)
  | none ↦ let (a, w') = run (counted w) in (ok a, w')
]

-- Inversion of a bind that succeeded.
pub >>=-ok {ℓ κ} :
    {A : Type ℓ} {B : Type κ} (m : M A) (f : A → M B) (w : World) {b : B} {w' : World}
    → (m >>= f) w ≡ (ok b, w')
    → (a : A) × (w₁ : World) × (m w ≡ (ok a, w₁)) × (f a w₁ ≡ (ok b, w'))
>>=-ok {A} {B} m f w {b} {w'} h = go (m w) refl h
  where
    go :
        (r : Result A × World)
        → m w ≡ r
        → (let (q, w₁) = r in elim q [ ok a ↦ f a w₁ | err e ↦ (err e, w₁) ]) ≡ (ok b, w')
        → (a : A) × (w₁ : World) × (m w ≡ (ok a, w₁)) × (f a w₁ ≡ (ok b, w'))
    go (ok a, w₁) e k = (a, w₁, e, k)
    go (err x, w₁) e k = cc

pub wrapped-ok {ℓ} :
    {A : Type ℓ} (prefix : String) (m : M A) (w : World) {a : A} {w' : World}
    → wrapped prefix m w ≡ (ok a, w')
    → m w ≡ (ok a, w')
wrapped-ok {A} prefix m w {a} {w'} h = go (m w) refl h
  where
    go :
        (r : Result A × World)
        → m w ≡ r
        → ◌≡◌ {A = Result A × World} (let (q, w₁) = r in (wrap_err prefix q, w₁)) (ok a, w')
        → m w ≡ (ok a, w')
    go (ok b, w₁) e k = rw e k
    go (err x, w₁) e k = cc
