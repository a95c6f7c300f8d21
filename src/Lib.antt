-- ===== src/Lib.antt =====
-- Verification of the price streaming system: how swap pricing sessions are kept, shared out among
-- workers by shard, fed with events and market data, how events leave through the outbox and reach
-- the workers, how curves are built and swaps checked, and how traders and clients are told.
--
-- Paths below are from the repository's root; P stands for src/request_for_quote.
--
-- The program. An RFQ is registered in the service and leaves it as an outbox event. A publisher
-- claims due outbox rows and sends them to a broker. Pricing workers own shards of the RFQs; what
-- they own is told by an ownership port (leases in Postgres, a Kafka consumer group, or the
-- consumers of a RabbitMQ super stream). For each owned shard a worker restores the active sessions
-- into its registry and runs a task that handles and acks the deliveries of that shard. A market
-- update reprices the registered sessions that depend on it. Quote snapshots become market curves,
-- which a resolver hands to the pricer of a swap. A notification worker stores and publishes one
-- notification for each registered RFQ, and price updates go to clients over Redis.
--
-- The files:
-- - Product, Session, Market: P/domain/product/swap.py, P/domain/pricing/request.py,
--   P/application/pricing/session.py, P/domain/market/market.py. Classes with one field are their
--   value.
-- - Session/Store: the session table and its unit of work, P/infrastructure/application/pricing/
--   adapter/sql_alchemy_pricing_session_store.py and sql_alchemy_pricing_session_unit_of_work.py
--   (save, get_by_id, list_active, commit, rollback and the exit of the block).
-- - Pricing: the use cases of P/application/pricing/use_case over the in-memory registry, each as an
--   action on the worker's state: handle_registered, handle_market_data, change, stop,
--   restore_shard, release_shard. An action keeps the state that it reached when it raises.
-- - Ownership/Lease and Ownership/Rebalance: P/infrastructure/application/pricing/adapter/
--   pricing_shared_ownership/postgres and kafka. `round` is one turn of the loop of `changes`; the
--   child Cluster lets several workers renew and claim on one table in any order while time passes.
-- - Delivery/Kafka, Delivery/Quorum, Delivery/SuperStream: the subscribers of P/infrastructure/
--   application/pricing/adapter/pricing_rfq_domain_events_subscriber, and the ownership of super
--   stream partitions; Delivery/StreamName: the names of the partitions.
-- - Worker: P/presentation/pricing_worker/main.py, `run_owned_pricing_shards` and
--   `consume_rfq_domain_events_for_pricing_shard`.
-- - Outbox: P/application/outbox/use_case/publish_outbox_events.py and the repository below
--   P/infrastructure/application/adapter/outbox_repository. Outbox/Publishers: several publishers over
--   one outbox, step by step, where each transaction is committed as a whole or not at all and a run
--   may end anywhere. Outbox/Polling: the loop of P/presentation/outbox_publisher/main.py.
-- - Rfq: P/domain/request_for_quote, P/application/rfq with P/application/domain_event_dispatcher.py,
--   and the repository and unit of work of RFQs. The dispatcher has the one handler that
--   P/presentation/fastapi/dependencies.py registers. Rfq/Routes: the queries, and the handlers of
--   P/presentation/fastapi/routers/rfq.py that create, list and get. Rfq/Changes: the use cases that
--   change and stop, up to the statement of each that always raises, and quote specifications.
--   Rfq/Sent follows a request through the outbox and its publishers to a worker.
-- - Rates, Curve: P/domain/product/interest_rate and P/domain/market with the store of curves; each
--   class's checks are a function that returns the object or the error. Curve/Messages: the market
--   messages below P/infrastructure/zeromq and the loop of the snapshot subscriber.
-- - Dependencies: P/application/pricing/dependency and the models that it resolves.
-- - Ois, Ois/Building: the QuantLib adapters below P/infrastructure/application/pricing/adapter/
--   swap_pricer and P/infrastructure/application/market/adapter/curve_builder, with P/application/market
--   and `consume_market_data` of the worker.
-- - Routing: the resolver of shards, P/infrastructure/rabbitmq/topology.py and the two integration
--   event publishers; its child Received follows an event from the interface to the subscribers.
-- - Routing/Partitions: the Kafka resolver of shards with the partition router of P/infrastructure/
--   application/adapter/rfq_domain_events_subscriber/kafka. Pricing/Listener: the rebalance listener that
--   stands beside it and that nothing registers.
-- - Bootstrap: P/bootstrap. Settings: the settings; Updates, Backends, Events: the providers of
--   provider/realtime_updates.py and database.py, pricing.py, and rfq_events.py; Processes: the four
--   processes. A provider is a function of the block that it is put round.
-- - Notification, Notification/Subscriber: P/application/notification, its repository, unit of work and
--   publisher, and P/presentation/notification_worker/main.py over its Kafka subscriber.
-- - Notification/Feed: the Redis subscriber of notifications and the websocket of
--   P/presentation/fastapi/routers/notification.py.
-- - Updates: the Redis publisher and subscriber of prices and the commands of the websocket of
--   P/presentation/fastapi/routers/pricing.py.
-- - Prelude and Dict: lists, results of calls, and Python's dict as an association list in the
--   order of insertion. Examples: concrete runs.
--
-- Modelling decisions. Tables are dicts by primary key. Decimals are finite; `str`, `Decimal`,
-- `isoformat` and `fromisoformat` are the record Texts, with the law that a written value is read
-- back. What pydantic and uuid give is the record Wire, what fails in a commit or a publication is
-- chosen by Env and Service, what the broker takes by Broker; nothing is assumed of those. Rows
-- locked by others are a test on their keys. Times are natural numbers of one clock. A Kafka queue
-- is an object, so it has a number, and so do the clients and tasks that a process opens; Faults
-- says which of their calls raise. An object is open until its closing call is made. Each handler
-- runs between two awaits as one step; steps of several workers interleave in Cluster, and those of
-- several publishers in Relay. The endless loop of the publishing worker has as fuel one turn more
-- than the table has rows, which is enough for it to come to sleep when each turn that claims
-- something publishes it. Loops run over lists; the digits of n are written with fuel n + 1, which
-- is more than n has digits. `int` reads digits only, as no other names are handed out. The column
-- `published` of the outbox is written by nothing and is left out. Partitions of shards are the
-- argument `resolve`.
--
-- What QuantLib, SHA-256 and JSON compute are arguments, and so is which constructors of QuantLib
-- raise; for JSON, and for it only of these, the law that a written object is read back is assumed,
-- in Received for the one event. Arguments are also what awaiting a cancelled consumer task raises,
-- the order in which a select without ORDER BY gives rows, which is assumed to give each once, and
-- what `receive` of a websocket raises after a disconnect, which Starlette says is a
-- `RuntimeError`. Other processes that insert notifications between the query and the commit of one
-- are a list of rows. A number of Python that may be negative is an integer with a sign; the digest
-- of a request id is read as a signed number of 64 bits.
--
-- Not modelled: what follows the failing statement of the change and stop use cases, the RabbitMQ
-- subscriber of the notification worker, which its provider never makes, and the market data
-- socket, which no process uses; translations to QuantLib's own enumerations and dates; the parts
-- of the web interface that hand requests on; how settings are read from files; a second
-- cancellation that reaches a process while it closes; logging and sleeping.
pub mod Prelude
pub mod Dict
pub mod Product
pub mod Session
pub mod Market
pub mod Rates
pub mod Curve
pub mod Dependencies
pub mod Ois
pub mod Routing
pub mod Bootstrap
pub mod Notification
pub mod Updates
pub mod Pricing
pub mod Ownership
pub mod Delivery
pub mod Worker
pub mod Outbox
pub mod Rfq
pub mod Examples
