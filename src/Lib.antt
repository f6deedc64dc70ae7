-- ===== src/Lib.antt =====
-- A verification library for meshcore-rpc-services, the application layer of a MeshCore radio
-- network: field nodes send JSON requests over MQTT, the service answers them and keeps the state
-- of the nodes.
--
-- The parts, and how they interact. A message on the request topic goes through
-- `Service._handle_one`: the adapter decodes and validates it, and either a `bad_request` is
-- published or the request goes to the pipeline `core.process_request`. The pipeline resolves the
-- TTL, inserts the request in the store unless its key (node, id) is taken, marks the node as seen,
-- finds the handler of the type in the router, runs it under the tracker's deadline, publishes the
-- response and completes the row. Handlers read and write the store and the state aggregator, which
-- publishes retained state. Beside that the bus caches the gateway's status, direct messages mark
-- their sender as seen, fixes of the GPS daemon become the base location, and a sweeper purges old
-- rows. A second process, the TAK bridge, receives the retained state, keeps a record for each
-- node, and hands Cursor-on-Target events to its sink, which writes them to a TAK server.
--
-- Where each part is, and its code (in meshcore_rpc_services/):
--   Core.antt            core.py: `process_request`, with its `except` branches and early returns as
--                        `on_received`, `dispatch` and `on_handled`
--   Core/                Rules: a proof rule for the pipeline. Invariant, Balance, Completion,
--                        Returns, Recorded: what it keeps and brings about. Answers, Stored, Replies:
--                        a description of the answer, that the pipeline stores it, and the form of a response
--   Store/               persistence/sqlite.py: Rows (the tables of persistence/schema.sql), Requests,
--                        Nodes and Retention (the `_sync_` methods as functions on tables)
--   Store/Migrations.antt   opening the database and the migrations, and Reopening
--   Store/Invariant, Counting, Purging, Seen, Interleaving: theorems on them
--   Runtime.antt         exceptions, the state of the whole service, and actions on it
--   Runtime/Calls.antt   the awaited methods of `Store`, and `MqttBus.publish` of transport/bus.py
--   Runtime/Keeps, Stable, Total, Runs, Yields: proof rules for actions
--   Schemas.antt, Schemas/Validate.antt   schemas.py: requests, responses, validation
--   Transport/Adapter, Bus, Service       the files of these names in transport/
--   Transport/Service/Safety.antt         the service as steps, and what all its states satisfy
--   Transport/Service/Events.antt         the gateway's events, the health, `_consume_loop`
--   Transport/Service/Base.antt           the base location, from the configuration and from gpsd
--   Transport/Service/Base/               Applying, Hearing, Listening: what the fixes of all sessions with
--                        the GPS daemon come to
--   Transport/Service/Lifetime.antt       `Service.run` and `MqttBus.connect`; Idling, Stopping,
--                        Poisoned: how the service ends
--   Transport/Service/Pipeline.antt       the pipeline as the service runs it
--   Transport/Service/Delivery, Responses, Replying   what is published for the
--                        nodes
--   State.antt           state.py: `StateAggregator`
--   Transport/Service/Sweeping.antt       the sweeper's loop is made of steps of the service
--   Handlers.antt, Handlers/              handlers/: one definition for each `handle` method
--   Handlers/Reporting, Replying, State/Running   a report and the answers after it; what handlers return
--   Router, Tracker, Timeouts/Policy      router.py, timeouts/tracker.py, timeouts/policy.py
--   Config.antt          config.py: the settings of the service, and what `Service.__init__` makes of
--                        them; App: all settings, and `AppConfig.load`
--   Cli.antt             cli.py and tak/cli.py: the commands; Purging: `purge`
--   Topics, Lifecycle, Errors, Geo, Retention   mqtt/topics.py and the files of these names
--   Gpsd.antt            gpsd.py: the fix that a line of the GPS daemon is; Session: its sessions
--   Tak/NodeTopic, Tak/Bridge             tak/bridge.py: reading topics; `Bridge` (Messages: what a message
--                        does, Heartbeat: eviction, Looping: `_mqtt_loop` and `_heartbeat`)
--   Tak/NodeTopic/, Tak/Bridge/ otherwise   theorems: Parsing, Shapes (topics); Evicting, Tracking and
--                        Offline (offline times), Invariant and Reachable (all states), Republishing,
--                        Delivered (a location from the service to the queue), Uids
--   Tak/Cot.antt         tak/cot.py: the events, up to their text
--   Tak/Sink.antt        tak/takserver.py: `TakSink`; Recent, Serving, Backoff: theorems
--   Scripts/SendRequest, SeedStatus       scripts/ at the repository's root; Exchange: a request and its answer
--   Value, Prelude       Python's JSON values; lists, dicts, texts, integers
--   Examples             concrete values, tests, and each theorem with hypotheses applied to them
--
-- How the code is modelled. A method is a function from the state of the service to a result or an
-- exception and the state: what was written before an exception stays written. At each `await` the
-- environment decides, by the next entry of a list of outcomes that is part of the state: the call
-- is performed (`done`), or it fails (`fault`), or the deadline of a running `asyncio.wait_for`
-- passes during it (`late`); each takes some time of the clock, which may also be set back. With no
-- entry left a call is performed at once. A statement that runs in its thread when the deadline
-- passes is performed nevertheless, as `asyncio.to_thread` does. Requests are processed one after
-- the other: the interleaving of concurrent tasks is modelled for the statements of the store, in
-- Store/Interleaving.antt, and for the life of the service, in Transport/Service/Lifetime.antt. No
-- function needs fuel: the modelled code has no loop but those over lists, and the endless loops
-- are over lists too: of what is received, of connections, of the times of sleeps.
--
-- Floats are whole numbers of millionths, so that rounding, infinities and NaN are left out, but in
-- Geo.antt, which is over the platform's own floats. Parameters stand for code outside the
-- repository: `Platform` (floating point, `math`, text conversions), `Writer` (`strftime`, the text
-- of a float, `ElementTree.tostring`) and `Codec` (`json.loads` and decoding, pydantic's reading of
-- an int, `str`). JSON values stand for their texts. SQL statements are functions on lists of rows.
-- Logging is left out.
--
-- The sockets of the TAK sink are a list of what happens while a session runs: turns of the loop
-- with the way in which the write ends and what other tasks send meanwhile, events sent in between,
-- and `stop`. A handler of the bridge runs with no other task in between, so that its readings of
-- the clock are one value.
--
-- The sockets of the GPS client are such a list too: lines, the end of the stream, errors and
-- cancellation, with the time that each takes. In `Service.run` the tasks of requests go on beside
-- the loop, in the `finally` part and after the connection is closed: as lists of the statements
-- and messages that all of them make in turn. Each of these is arbitrary there; that a list comes
-- from handling requests is not said, and a request that no other runs beside is handled where it
-- is received. What the sweeper, the heartbeat and the GPS client do are separate steps, so that
-- starting and cancelling them is left out, as is their limit of 5 s. The arguments of
-- scripts/send_request.py are parsed by argparse, and the messages that it receives in time are a
-- list.
--
-- Parsing a YAML file and validating it are parameters of the commands. Of `run` in cli.py and of
-- tak/cli.py it is the end of the process that is modelled, from the way in which its task ends.
--
-- Not modelled: reading the environment; the arguments of the command lines, the logging set-up and
-- the choice of the event loop (cli.py, tak/cli.py, __main__.py); the startup log; the start and
-- end of the background tasks but the sweeper; events of the gateway whose fields are of other
-- types than their columns, which SQLite would convert.
pub mod Config
pub mod Cli
pub mod Prelude
pub mod Value
pub mod Lifecycle
pub mod Errors
pub mod Schemas
pub mod Timeouts
pub mod Store
pub mod Runtime
pub mod Topics
pub mod State
pub mod Geo
pub mod Handlers
pub mod Router
pub mod Tracker
pub mod Core
pub mod Transport
pub mod Retention
pub mod Gpsd
pub mod Tak
pub mod Scripts
pub mod Examples
