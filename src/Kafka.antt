-- ===== src/Kafka.antt =====
-- The Kafka producer: internal/infra/kafka/producer.go and product_events_producer.go.
use marketplace_simulator_pr.Common.{◌+◌, none, some, List, [], ◌∷◌, ◌++◌}
use marketplace_simulator_pr.Errors.{Result, ok, err, wrap_err, plain}
use marketplace_simulator_pr.Models.{EventMessage, KafkaMessage}
use marketplace_simulator_pr.Events.{format_uint}
use marketplace_simulator_pr.Events
use marketplace_simulator_pr.Store.World.{Platform, M, ◌>>=◌, lift}

-- One round of the loop of `WriteBatch`. A key is a `uint64` here, so `toKeyBytes` has no error.
unfoldable pub to_kafka : Platform → EventMessage → Result KafkaMessage
to_kafka p event = elim (wrap_err "Producer.WriteBatch: marshal" (p.marshal_body event.body)) [
  | ok value ↦ ok (record { key = format_uint event.key; content = value; headers = event.headers })
  | err e ↦ err e
]

unfoldable pub to_kafka_all : Platform → List EventMessage → Result (List KafkaMessage)
unfolding to_kafka
to_kafka_all p [] = ok []
to_kafka_all p (event ∷ events) =
    Events.◌>>=◌ (to_kafka p event) λ m. Events.◌>>=◌ (to_kafka_all p events) λ ms. ok (m ∷ ms)

-- `WriteMessages` of kafka-go: the world keeps the messages of the calls that returned no error.
-- What the broker does with them is not known: the producer sets no `RequiredAcks`, and the writer
-- then waits for no acknowledgement.
unfoldable pub write_messages : Platform → List KafkaMessage → M (Unit {0})
write_messages p ms w = elim (p.kafka_fault w.kafka_calls) [
  | none ↦ (ok tt, record w { kafka_calls = w.kafka_calls + 1; handed_over = w.handed_over ++ ms })
  | some m ↦ (err (plain m), record w { kafka_calls = w.kafka_calls + 1 })
]

-- `PublishProductChangedBatch`
unfoldable pub publish_batch : Platform → List EventMessage → M (Unit {0})
unfolding to_kafka_all write_messages
publish_batch p events = lift (to_kafka_all p events) >>= write_messages p
