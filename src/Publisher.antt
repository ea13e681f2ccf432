-- ===== src/Publisher.antt =====
-- The RabbitMQ publisher (internal/mq/mq.go, internal/mq/publisher/event_publisher.go). The client is a
-- third-party package, over which the definitions stand; a fatal log exits the process.
use go_template_aerospike.Prelude.{
  ℕ, Bytes, text, Bool, true, Option, none, some, List, [], ◌∷◌, ◌++◌, length,
}
use go_template_aerospike.Query.{Result, ok, error}

-- The process goes on with a value, or it has exited.
pub data Alive (A : Type 0) : Type 0 where
  goes : A → Alive A
  exits : Alive A

-- The options that the publisher is made with.
pub record PublisherOptions : Type 0 where
  pub exchange_name : Bytes
  pub exchange_kind : Bytes
  pub declare_exchange : Bool
  pub durable : Bool

-- What `go-rabbitmq` answers. `publish` is `PublishWithContext`, with what the publisher was used
-- for before.
pub record RabbitMq (Conn Publisher Error : Type 0) : Type 0 where
  pub new_conn : Bytes → Result Error Conn
  pub new_publisher : Conn → PublisherOptions → Result Error Publisher
  pub publish : Publisher → Bytes → Bytes → List Bytes → Option Error × Publisher

pub record EventPublisher (Publisher : Type 0) : Type 0 where
  pub publisher : Publisher
  pub exchange_name : Bytes

-- A line of the log: the keys and, of a success, the size of the data.
pub data Line (Error : Type 0) : Type 0 where
  failed : Error → Bytes → Line Error
  succeeded : Bytes → ℕ → Line Error

-- `strings.Join(keys, ",")`
unfoldable pub join_keys : List Bytes → Bytes
join_keys [] = []
join_keys (k ∷ []) = k
join_keys (k ∷ l ∷ keys) = k ++ b',' ∷ join_keys (l ∷ keys)

module _ {Conn Publisher Error : Type 0} (mq : RabbitMq Conn Publisher Error) where
  abbrev or_exit : {A : Type 0} → Result Error A → Alive A
  or_exit (error e) = exits
  or_exit (ok a) = goes a

  unfoldable pub connection : Bytes → Alive Conn
  connection url = or_exit (mq.new_conn url)

  unfoldable pub new_event_publisher : Conn → Bytes → Alive (EventPublisher Publisher)
  new_event_publisher conn exchange_name =
      elim (mq.new_publisher conn (record {
        exchange_name = exchange_name;
        exchange_kind = text "topic";
        declare_exchange = true;
        durable = true;
      })) [
        | error e ↦ exits
        | ok p ↦ goes (record { publisher = p; exchange_name = exchange_name })
      ]

  -- A failed publication is logged as failed, and then as a success too.
  unfoldable pub publish :
      EventPublisher Publisher → Bytes → List Bytes → EventPublisher Publisher × List (Line Error)
  unfolding join_keys
  publish ep message keys =
      let (err, p) = mq.publish ep.publisher ep.exchange_name message keys in
      let success = succeeded (join_keys keys) (length message) in
      (
        record ep { publisher = p },
        elim err [ none ↦ success ∷ [] | some e ↦ failed e (join_keys keys) ∷ success ∷ [] ],
      )
