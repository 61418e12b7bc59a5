-- ===== src/Lib.antt =====
-- kafka-sqs: an order application. An HTTP API publishes `order.created` events to Kafka or SQS, and
-- consumers bring them into PostgreSQL. Source files are named relative to src/order_app/ of the
-- repository.
--
-- Base             helpers: lists, numbers and texts; `Effect` has exceptions (`Exc`, the class
--                  names and the text) and effects: a method is a function from the state of its
--                  world to an outcome, which is a value or an exception with the world after it.
-- Contracts        messaging/contracts/models.py and validation.py: the event and the checks of its
--                  fields, the issues of a document and their order, parsing. `Libraries` are
--                  json, jsonschema and pydantic.
-- Postgres         what the program relies on in PostgreSQL: a transaction is carried out whole or
--                  not at all. `Server` decides which connection, statement or commit fails, and
--                  whether a failed commit was carried out.
-- OrderStore       order_processing/postgres_order_store.py: `Rows` holds the SQL statements over
--                  the two tables, `OrderStore` the methods, one transaction each.
-- DeadLetter       RetryPolicy and DeadLetterFailure of order_processing/retry_and_dead_letter.py.
-- Consumer         order_processing/kafka_order_consumer.py: `Consumer` the settings and decoding,
--                  `Process` the poll loop, the attempts, recovery, dead-lettering and the commit.
-- Consumer/Log     the same consumer at a partition: sessions of calls and restarts, and the offsets.
-- Deployment       local_lab/consumer_worker.py: both consumers put together with their store;
--                  `Partition` says what is relied on in the partition that one of them reads.
-- ControlStore     local_lab/consumer_control_store.py: the pause controls, over Postgres as well.
-- SqsConsumer      order_processing/sqs_order_consumer.py.
-- Notification     order_processing/notification_client.py.
-- TopicAdmin       messaging/kafka_topic_admin.py: topics, with bounded waits.
-- LabConfig        local_lab/config.py: settings from the environment.
-- Setup            local_lab/resource_setup.py: provisioning that may be repeated.
-- Workers          local_lab/consumer_worker.py: the loops of the two workers, and main.
-- OrderApi         order_api/http_api.py, with the factory of events in Contracts/Factory.
-- Publishers       messaging/event_publishers.py (Kafka) and KafkaDeadLetterPublisher.
-- PublisherConfig  KafkaPublisherConfig of that file.
-- SqsPublisher     the SQS publisher of that file.
-- EventPublisher   its abstract class with what it promises: both publishers beside a reference, and
--                  the order API over either of them.
-- Dashboard        local_lab/dashboard_api.py: the routes for health, control and state; `App` is
--                  the start.
-- Wire             what the consumers read of the events that the publishers sent, up to an order on
--                  its way from the API to the table. What json, pydantic and UTF-8 do for the event
--                  at hand is a hypothesis.
-- Clients          confluent-kafka's clients, clocks and UUIDs, as the code sees them.
-- Samples, */Examples   concrete values, runs, and the theorems at them.
--
-- The Kafka consumer calls a store and a dead-letter publisher through the records `OrderStore` and
-- `KafkaOrderConsumer`. Consumer/Watch puts a monitor, an automaton over the calls, around such a
-- record, and Deployment fills it with the methods of OrderStore.
--
-- Fuel: the retry loop has one round more than the policy's attempts, and the poll loop one round
-- more than the microseconds of its timeout; so have the waits for a topic. An attempt uses one
-- round, and so does a poll or a sleep, which is enough where the clock does not go back and these
-- advance it. The loop of a worker runs for as long as nobody stops it, on as much fuel as it is
-- given.
--
-- Not modelled: PostgreSQL beyond the statements of the store (they have their standard meaning;
-- concurrent transactions on the same event are not interleaved, and rows and keys are not too
-- large for a page), a rebalance of a consumer group (a consumer has one partition, with contiguous
-- offsets, and a restart begins at the committed offset), the texts of exceptions that are only
-- shown, logging, argparse, the construction of the clients of confluent-kafka and boto3, the
-- schema file, a negative timeout of the topic administration, and the page of the dashboard.
-- Durations are whole microseconds (a float of seconds is the nearest to them), other floats are
-- finite decimals, and a text has no lone surrogates. An amount is rounded to NUMERIC(18, 2) as the
-- column does, and a text with U+0000 is refused; CHAR(3) never pads since the contract fixes the
-- length.
pub mod Base
pub mod Contracts
pub mod Postgres
pub mod OrderStore
pub mod Clients
pub mod DeadLetter
pub mod Consumer
pub mod Deployment
pub mod Samples
pub mod Notification
pub mod SqsConsumer
pub mod Publishers
pub mod OrderApi
pub mod SqsPublisher
pub mod ControlStore
pub mod TopicAdmin
pub mod LabConfig
pub mod Workers
pub mod Setup
pub mod PublisherConfig
pub mod Dashboard
pub mod EventPublisher
pub mod Wire
