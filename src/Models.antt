-- ===== src/Models.antt =====
-- The domain models: internal/models, and the messages of api_internal/kafka and
-- api_internal/redis. A number is the bit pattern of the Go value, so `uint64`, `int64` and the
-- conversions between them, and those between `uint32` and `int32`, keep it. A price is the bit
-- pattern of its `float64`: the program only copies it.
use marketplace_simulator_pr.Common.{ℕ, ◌+◌, ◌-◌, ◌%◌, ◌^◌, String, Bool, Option, List}
use marketplace_simulator_pr.Errors.{Message}

abbrev pub u32_mod : ℕ
u32_mod = 2 ^ 32

-- `uint32` addition and subtraction wrap.
unfoldable pub add32 : ℕ → ℕ → ℕ
add32 a b = (a + b) % u32_mod

unfoldable pub sub32 : ℕ → ℕ → ℕ
sub32 a b = (a + u32_mod - b) % u32_mod

pub record Product : Type 0 where
  pub sku : ℕ
  pub price : ℕ
  pub name : String
  pub count : ℕ
  pub reserved_count : ℕ
  pub transaction_id : ℕ

pub record Reservation : Type 0 where
  pub id : ℕ
  pub sku : ℕ
  pub count : ℕ
  pub created_at : ℕ

-- `ProductEventOutboxRecordNew`. The key is the decimal text of a SKU, as its bytes.
pub record NewEvent : Type 0 where
  pub key : List ℕ
  pub content : List ℕ
  pub headers : List (String × String)

-- The columns that both outbox tables have: `ProductEventOutboxRecord` is this around an event,
-- `CacheUpdateOutboxRecord` is this around a SKU.
pub record Entry (A : Type 0) : Type 0 where
  pub record_id : ℕ
  pub body : A
  pub created_at : ℕ
  pub retry_count : ℕ
  pub is_dead_letter : Bool
  pub marked_as_dead_letter_at : Option ℕ
  pub dead_letter_reason : Option Message

abbrev pub EventRecord : Type 0
EventRecord = Entry NewEvent

abbrev pub CacheUpdateRecord : Type 0
CacheUpdateRecord = Entry ℕ

-- The Kafka contract's `Product`, `ProductEventData` and `ProductEventMessage`.
pub record Snapshot : Type 0 where
  pub sku : ℕ
  pub name : String
  pub price : ℕ
  pub count : ℕ

pub record EventData : Type 0 where
  pub old : Snapshot
  pub new : Snapshot

pub record EventBody : Type 0 where
  pub record_id : ℕ
  pub event : EventData

pub record EventMessage : Type 0 where
  pub key : ℕ
  pub headers : List (String × String)
  pub body : EventBody

-- `Message` of kafka-go: what the writer is given of a message.
pub record KafkaMessage : Type 0 where
  pub key : List ℕ
  pub content : List ℕ
  pub headers : List (String × String)

-- The Redis contract's `Product`, and `FromModel`.
pub record CachedProduct : Type 0 where
  pub sku : ℕ
  pub name : String
  pub price : ℕ
  pub count : ℕ
  pub reserved_count : ℕ
  pub transaction_id : ℕ

unfoldable pub from_model : Product → CachedProduct
from_model model = record {
  sku = model.sku;
  name = model.name;
  price = model.price;
  count = model.count;
  reserved_count = model.reserved_count;
  transaction_id = model.transaction_id;
}
